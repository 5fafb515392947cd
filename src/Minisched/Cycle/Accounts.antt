-- ===== src/Minisched/Cycle/Accounts.antt =====
-- minisched/minisched.go: what becomes of the pod that scheduleOne takes from the queue.
use mini_kube_scheduler.Common.{
  ℕ, ◌≡◌, refl, ◌∙◌, ap, ◌⊎◌, inl, inr, true, false, not, ◌&&◌, List, [], arith, In→any, any→In,
  Option, none, some, Option-cases, Bool-cases,
}
use mini_kube_scheduler.Common.Keys.{Text, str, text_eq, ◌==◌, eq_refl}
use mini_kube_scheduler.Common.Maps.{insert}
use mini_kube_scheduler.Framework.{Framework, Pod, Node, NodeScore, is_wait_code}
use mini_kube_scheduler.Queue.Types.{QueuedPodInfo, SchedulingQueue}
use mini_kube_scheduler.Queue.Ops.{next_pod, add_unschedulable}
use mini_kube_scheduler.WaitingPod.{WaitingPod, new_waiting_pod}
use mini_kube_scheduler.Minisched.Types.{Scheduler, Error, fit_error, other}
use mini_kube_scheduler.Minisched.Filters.Feasible.{run_filter_plugins_lem}
use mini_kube_scheduler.Minisched.Scores.{
  Flow, goes_on, returns, panics, run_pre_score_plugins, run_score_plugins,
}
use mini_kube_scheduler.Minisched.Select.{select_host}
use mini_kube_scheduler.Minisched.Permits.{PermitRun, run_permit_plugins}
use mini_kube_scheduler.Minisched.Permits.Verdict.{has_key, waits, run_permit_plugins_lem}
use mini_kube_scheduler.Minisched.Cycle.{
  NodeList, listed, list_error, Answers, Cycle, spins, panicked, puts_back, binds, permit_phase,
  select_phase, score_phase, pre_score_phase, filter_phase, schedule_pod, schedule_one, error_func,
  info_of,
}

module _ ⦃fw : Framework⦄ where
  -- ErrorFunc puts the pod back, and changes nothing else.
  pub error_func_lem :
      (now : ℕ) (pod : Pod) (err : Option Error) (sched : Scheduler)
      → (info : QueuedPodInfo) × (fw.pod_of info.pod_info ≡ pod)
        × (error_func now pod err sched
            ≡ record sched { scheduling_queue = add_unschedulable now sched.scheduling_queue info })
  unfolding error_func
  error_func_lem now pod err sched = (info_of pod err, fw.pod_of-new pod, refl)

module _ ⦃fw : Framework⦄ (a : Answers) (pod : Pod) (sched : Scheduler) where
  -- The pod waits for plugins, of which there is one, or the waiting pods are as they were.
  abbrev pub MayWait : List (Text × WaitingPod) → Type 0
  MayWait waiting_pods =
      (waiting_pods ≡ sched.waiting_pods)
      ⊎ (times : List (Text × ℕ)) × (plugin : Text) × (has_key plugin times ≡ true)
        × (waiting_pods ≡ insert pod.uid (new_waiting_pod a.now pod times) sched.waiting_pods)

  -- The pod is put back, and only the queue changes; or a goroutine is started for it, and only the
  -- waiting pods change; or a plugin panics.
  abbrev pub IsAccounted : Cycle → Type 0
  IsAccounted c =
      (c ≡ panicked)
      ⊎ ((allows : List (Text × ℕ)) × (info : QueuedPodInfo) × (fw.pod_of info.pod_info ≡ pod)
          × (c
              ≡ puts_back allows (record sched {
                scheduling_queue = add_unschedulable a.now sched.scheduling_queue info;
              })))
      ⊎ (allows : List (Text × ℕ)) × (node_name : Text) × (waiting_pods : List (Text × WaitingPod))
        × (c
            ≡ binds (record { pod = pod; node_name = node_name }) allows
                (record sched { waiting_pods = waiting_pods }))
        × MayWait waiting_pods

  put_back-IsAccounted :
      (allows : List (Text × ℕ)) (err : Option Error)
      → IsAccounted (puts_back allows (error_func a.now pod err sched))
  put_back-IsAccounted allows err =
      let (info, same, e) = error_func_lem a.now pod err sched in
      inr (inl (allows, info, same, ap (puts_back allows) e))

  -- RunPermitPlugins leaves the waiting pods as they were unless it answers Wait.
  permit-MayWait :
      (state : fw.CycleState) (node_name : Text) (r : PermitRun)
      → run_permit_plugins a.now state pod node_name sched.permit_plugins sched.waiting_pods
        ≡ some r
      → (r.waiting_pods ≡ sched.waiting_pods)
        ⊎ ((not (is_wait_code (fw.code r.status)) && not (fw.is_success r.status)) ≡ false)
          × MayWait r.waiting_pods
  permit-MayWait state node_name r e =
      let pls = sched.permit_plugins in
      elim (run_permit_plugins_lem state pod node_name a.now pls sched.waiting_pods r [] e) [
        | inl (pl, i, refuses, rejection, failed, same) ↦ inl same
        | inr (inr (all, nobody, nil, same)) ↦ inl same
        | inr (inl (all, one, code, times, same, asked)) ↦
            let (pl, member, asks) = any→In (waits state pod node_name) pls one in
            elim (run_permit_plugins_lem state pod node_name a.now pls sched.waiting_pods r pl.name
              e) [
                | inl (q, i, refuses, rejection, failed, same') ↦ inl same'
                | inr (inr (all', nobody, nil, same')) ↦ inl same'
                | inr (inl (all', one', code', times', same', asked')) ↦
                    let listed =
                      In→any (λ q. waits state pod node_name q && q.name == pl.name) pls pl member
                        (ground (arith, eq_refl pl.name)) in
                    inr (ground arith, inr (times', pl.name, asked' ∙ listed, same'))
              ]
      ]

  permit-IsAccounted :
      (state : fw.CycleState) (node_name : Text)
      → IsAccounted (permit_phase a pod sched state node_name)
  unfolding permit_phase
  permit-IsAccounted state node_name =
      elim (Option-cases
        (run_permit_plugins a.now state pod node_name sched.permit_plugins sched.waiting_pods)) [
          | inl e ↦ rw (e, permit_phase) (inl refl)
          | inr (r, e) ↦
              elim (Bool-cases
                (not (is_wait_code (fw.code r.status)) && not (fw.is_success r.status))) [
                  | inl f ↦ elim (permit-MayWait state node_name r e) [
                    | inl same ↦
                        rw (e, permit_phase, f) (rw same (put_back-IsAccounted r.allows none))
                    | inr (g, may) ↦ absurd (cc)
                  ]
                  | inr f ↦
                      rw (e, permit_phase, f)
                        (inr (
                          inr (
                            r.allows,
                            node_name,
                            r.waiting_pods,
                            refl,
                            elim (permit-MayWait state node_name r e) [
                              | inl same ↦ inl same
                              | inr (g, may) ↦ may
                            ],
                          )))
                ]
        ]

  select-IsAccounted :
      (state : fw.CycleState) (scores : List NodeScore)
      → IsAccounted (select_phase a pod sched state scores)
  unfolding select_phase
  select-IsAccounted state scores = elim (Option-cases (select_host a.intn scores)) [
    | inl e ↦
        rw (e, select_phase) (put_back-IsAccounted [] (some (other (str "empty priorityList"))))
    | inr (node_name, e) ↦ rw (e, select_phase) (permit-IsAccounted state node_name)
  ]

  score-IsAccounted :
      (state : fw.CycleState) (nodes : List Node)
      → IsAccounted (score_phase a pod sched state nodes)
  unfolding score_phase
  score-IsAccounted state nodes =
      by_result (run_score_plugins state pod sched.score_plugins nodes) refl
    where
      by_result :
          (r : Flow (List NodeScore))
          → run_score_plugins state pod sched.score_plugins nodes ≡ r
          → IsAccounted (score_phase a pod sched state nodes)
      by_result panics e = rw (e, score_phase) (inl refl)
      by_result (returns status) e = rw (e, score_phase) (put_back-IsAccounted [] none)
      by_result (goes_on scores) e = rw (e, score_phase) (select-IsAccounted state scores)

  pre_score-IsAccounted :
      (state : fw.CycleState) (nodes : List Node)
      → IsAccounted (pre_score_phase a pod sched state nodes)
  unfolding pre_score_phase
  pre_score-IsAccounted state nodes =
      by_result (run_pre_score_plugins sched.pre_score_plugins state pod nodes) refl
    where
      by_result :
          (r : Flow fw.CycleState)
          → run_pre_score_plugins sched.pre_score_plugins state pod nodes ≡ r
          → IsAccounted (pre_score_phase a pod sched state nodes)
      by_result panics e = rw (e, pre_score_phase) (inl refl)
      by_result (returns status) e = rw (e, pre_score_phase) (put_back-IsAccounted [] none)
      by_result (goes_on state') e = rw (e, pre_score_phase) (score-IsAccounted state' nodes)

  filter-IsAccounted : (nodes : List Node) → IsAccounted (filter_phase a pod sched nodes)
  unfolding filter_phase
  filter-IsAccounted nodes =
      elim (run_filter_plugins_lem fw.new_cycle_state pod sched.filter_plugins nodes []) [
        | inl (some_pass, e) ↦ rw (e, filter_phase) (pre_score-IsAccounted fw.new_cycle_state _)
        | inr (none_pass, plugins, e, blame) ↦
            rw (e, filter_phase) (put_back-IsAccounted [] (some (fit_error plugins)))
      ]

  pub schedule_pod-IsAccounted : IsAccounted (schedule_pod a pod sched)
  unfolding schedule_pod
  schedule_pod-IsAccounted = by_answer a.nodes refl
    where
      by_answer : (l : NodeList) → a.nodes ≡ l → IsAccounted (schedule_pod a pod sched)
      by_answer (listed nodes) e = rw (e, schedule_pod) (filter-IsAccounted nodes)
      by_answer (list_error text) e =
          rw (e, schedule_pod) (put_back-IsAccounted [] (some (other text)))

module _ ⦃fw : Framework⦄ where
  pub schedule_one-IsAccounted :
      (a : Answers) (sched : Scheduler)
      → ((next_pod sched.scheduling_queue ≡ none) × (schedule_one a sched ≡ spins))
        ⊎ (pod : Pod) × (queue : SchedulingQueue) × (next_pod sched.scheduling_queue
            ≡ some (pod, queue))
          × IsAccounted a pod (record sched { scheduling_queue = queue }) (schedule_one a sched)
  unfolding schedule_one
  schedule_one-IsAccounted a sched = elim (Option-cases (next_pod sched.scheduling_queue)) [
    | inl e ↦ inl (e, rw (e, schedule_one) refl)
    | inr ((pod, queue), e) ↦ inr (
      pod,
      queue,
      e,
      rw (e, schedule_one)
          (schedule_pod-IsAccounted a pod (record sched { scheduling_queue = queue })),
    )
  ]
