-- ===== src/Minisched/Cycle/Phases.antt =====
-- minisched/minisched.go: scheduleOne by what its extension points answer.
use mini_kube_scheduler.Common.{◌≡◌, refl, false, not, ◌&&◌, List, [], some}
use mini_kube_scheduler.Common.Keys.{Text}
use mini_kube_scheduler.Framework.{Framework, Pod, Node, NodeScore, is_wait_code}
use mini_kube_scheduler.Minisched.Types.{Scheduler, Error}
use mini_kube_scheduler.Minisched.Filters.{feasible, unfit, run_filter_plugins}
use mini_kube_scheduler.Minisched.Scores.{goes_on, run_pre_score_plugins, run_score_plugins}
use mini_kube_scheduler.Minisched.Select.{select_host}
use mini_kube_scheduler.Minisched.Permits.{PermitRun, run_permit_plugins}
use mini_kube_scheduler.Minisched.Cycle.{
  listed, Answers, binds, puts_back, error_func, schedule_pod, filter_phase, pre_score_phase,
  score_phase, select_phase, permit_phase,
}

module _ ⦃fw : Framework⦄ (a : Answers) (pod : Pod) (sched : Scheduler) (nodes : List Node)
    (answered : a.nodes ≡ listed nodes) where
  -- No node is feasible.
  pub schedule_pod-unfit :
      (e : Error)
      → run_filter_plugins fw.new_cycle_state pod sched.filter_plugins nodes ≡ unfit e
      → schedule_pod a pod sched ≡ puts_back [] (error_func a.now pod (some e) sched)
  unfolding schedule_pod filter_phase
  schedule_pod-unfit e h = rw (answered, schedule_pod, h, filter_phase) refl

  -- Every extension point agrees.
  pub schedule_pod-binds :
      (fits : List Node) (state : fw.CycleState) (scores : List NodeScore) (node_name : Text)
      (r : PermitRun)
      → run_filter_plugins fw.new_cycle_state pod sched.filter_plugins nodes ≡ feasible fits
      → run_pre_score_plugins sched.pre_score_plugins fw.new_cycle_state pod fits ≡ goes_on state
      → run_score_plugins state pod sched.score_plugins fits ≡ goes_on scores
      → select_host a.intn scores ≡ some node_name
      → run_permit_plugins a.now state pod node_name sched.permit_plugins sched.waiting_pods
        ≡ some r
      → (not (is_wait_code (fw.code r.status)) && not (fw.is_success r.status)) ≡ false
      → schedule_pod a pod sched
        ≡ binds
            (record { pod = pod; node_name = node_name })
            r.allows
            (record sched { waiting_pods = r.waiting_pods })
  unfolding schedule_pod filter_phase pre_score_phase score_phase select_phase permit_phase
  schedule_pod-binds fits state scores node_name r f pre sc sel perm ok =
      rw
        (
          answered, schedule_pod, f, filter_phase, pre, pre_score_phase, sc, score_phase, sel,
          select_phase, perm, permit_phase, ok,
        )
        refl
