-- ===== src/Minisched/Retried.antt =====
-- minisched: a pod that no node takes is put back, and is bound once a node comes that takes it: New,
-- the handlers, two calls of scheduleOne and the queue (minisched.go, initialize.go, eventhandler.go,
-- queue.go, nodenumber.go).
pub mod Bound
pub mod Allowed
use mathlib.Core.List.{append-nil}
use Prim.Native.Nat.{bit_and}
use mini_kube_scheduler.Common.{
  ℕ, ◌+◌, ◌≤◌, ◌<◌, ◌*◌, ◌≡◌, ◌≢◌, refl, sym, ◌∙◌, ap, subst, ◌⊎◌, inl, inr, Bool, true, false, not,
  ◌&&◌, List, [], ◌∷◌, ◌++◌, arith, any, all, keep, All, length, length_zero, nat_beq, Option, none,
  some, Option-cases, Bool-cases, if◌then◌else◌,
}
use mini_kube_scheduler.Common.Int.{pos}
use mini_kube_scheduler.Common.Keys.{Text, text_eq, eq_refl, ◌==◌}
use mini_kube_scheduler.Common.Maps.{lookup, insert, delete, HasNoDup, values}
use mini_kube_scheduler.Framework.{Framework, Pod, Node, NodeScore, is_success-nil, wait}
use mini_kube_scheduler.Strconv.{is_digit}
use mini_kube_scheduler.NodeNumber
use mini_kube_scheduler.Queue.Types.{QueuedPodInfo, SchedulingQueue}
use mini_kube_scheduler.Queue.Ops.{
  new_queue, new_queued_pod_info, key_func, add, next_pod, add_unschedulable,
}
use mini_kube_scheduler.Minisched.Types.{Scheduler, fit_error}
use mini_kube_scheduler.Minisched.Initialize.{UnschedulablePlugin, EventMap, event_eq}
use mini_kube_scheduler.Minisched.Initialize.Registry.{registry_of, scheduler_of}
use mini_kube_scheduler.Queue.Backoff.{is_pod_backingoff}
use mini_kube_scheduler.Queue.Backoff.Doubling.{is_pod_backingoff_iff}
use mini_kube_scheduler.Queue.Ops.Moved.{Helps→skips, IsKeyed, move_all_lem}
use mini_kube_scheduler.Minisched.Handlers.Requeue.{node_add, node_add-Registered, on_node-added}
use mini_kube_scheduler.Queue.Ops.{skips, move_all_to_active_or_backoff_queue}
use mini_kube_scheduler.Minisched.Handlers.{on_node, added, add_all_event_handlers}
use mini_kube_scheduler.Minisched.Handlers.{on_pod_added, assigned_pod, add_pod_to_scheduling_queue}
use mini_kube_scheduler.Minisched.Filters.{feasible, unfit, run_filter_plugins}
use mini_kube_scheduler.Minisched.Filters.Feasible.{passes, rejected_by, run_filter_plugins_lem}
use mini_kube_scheduler.Minisched.Cycle.Phases.{schedule_pod-unfit, schedule_pod-binds}
use mini_kube_scheduler.Minisched.Cycle.{
  listed, Answers, Binding, binds, puts_back, schedule_one, schedule_pod, error_func, info_of,
}

-- A pod alone in unschedulableQ, that an event helps and that is not backing off.
module _ ⦃fw : Framework⦄ where
  abbrev only_pod : EventMap → QueuedPodInfo → SchedulingQueue
  only_pod events i = record {
    active_q = [];
    pod_backoff_q = [];
    unschedulable_q = (key_func i, i) ∷ [];
    cluster_event_map = events;
  }

  only_pod-moved :
      (now : QueuedPodInfo → ℕ) (events : EventMap) (i : QueuedPodInfo)
      → skips (only_pod events i) i node_add ≡ false
      → is_pod_backingoff (now i) i ≡ false
      → move_all_to_active_or_backoff_queue now (only_pod events i) node_add
        ≡ record (only_pod events i) { active_q = i ∷ []; unschedulable_q = [] }
  only_pod-moved now events i helped ready =
      move_all_lem now node_add (only_pod events i)
        (record { keyed = (refl, tt); fresh = (refl, tt) })
      ∙ rw (helped, ready) refl

module _ ⦃fw : Framework⦄ (p : UnschedulablePlugin) (pod : Pod) where
  -- nodeunschedulable.Filter, for a pod without a toleration.
  abbrev pub RejectsUnschedulable : Type 0
  RejectsUnschedulable =
      (n : Node)
      → fw.is_success (p.filter_plugin.filter fw.new_cycle_state pod (fw.new_node_info n))
        ≡ not n.unschedulable

  -- The scheduler that New makes, with these pods in activeQ and unschedulableQ.
  abbrev pub at : List QueuedPodInfo → List (Text × QueuedPodInfo) → Scheduler
  at active unschedulable = record (scheduler_of p) {
    scheduling_queue = record {
      active_q = active;
      pod_backoff_q = [];
      unschedulable_q = unschedulable;
      cluster_event_map = registry_of p;
    };
  }

  abbrev pub info : (now : ℕ) → fw.StringSet → QueuedPodInfo
  info now plugins = record {
    pod_info = fw.new_pod_info pod;
    timestamp = now;
    attempts = 0;
    initial_attempt_timestamp = 0;
    unschedulable_plugins = plugins;
  }

  abbrev pub put_back : (now : ℕ) → fw.StringSet → Scheduler
  put_back now plugins = at [] ((key_func (info now plugins), info now plugins) ∷ [])

  pub is_added :
      (now : ℕ)
      → pod.node_name ≡ []
      → on_pod_added now pod (scheduler_of p) ≡ at (new_queued_pod_info now pod [] ∷ []) []
  unfolding on_pod_added assigned_pod add_pod_to_scheduling_queue add new_queue
  is_added now h = ground arith

  none-passes :
      (nodes : List Node)
      → RejectsUnschedulable
      → All (λ n. n.unschedulable ≡ true) nodes
      → any (passes fw.new_cycle_state pod (p.filter_plugin ∷ [])) nodes ≡ false
  none-passes [] r h = refl
  none-passes (n ∷ ns) r h = ground (arith, r n, none-passes ns r h.1)

  some-rejected :
      (nodes : List Node)
      → RejectsUnschedulable
      → nodes ≢ []
      → All (λ n. n.unschedulable ≡ true) nodes
      → any (rejected_by fw.new_cycle_state pod (p.filter_plugin ∷ []) p.filter_plugin.name) nodes
        ≡ true
  some-rejected [] r ne h = absurd (ne refl)
  some-rejected (n ∷ ns) r ne h = ground (arith, r n, eq_refl p.filter_plugin.name)

  -- scheduleOne takes the only pod from activeQ.
  pub pops :
      (a : Answers) (i : QueuedPodInfo)
      → i.pod_info ≡ fw.new_pod_info pod
      → schedule_one a (at (i ∷ []) []) ≡ schedule_pod a pod (at [] [])
  unfolding schedule_one next_pod
  pops a i e = ap (λ q. schedule_pod a q (at [] [])) (ap fw.pod_of e ∙ fw.pod_of-new pod)

  -- The first cycle.
  pub is_rejected :
      (a : Answers) (nodes : List Node) (added_at : ℕ)
      → RejectsUnschedulable
      → a.nodes ≡ listed nodes
      → nodes ≢ []
      → All (λ n. n.unschedulable ≡ true) nodes
      → (plugins : fw.StringSet) × (schedule_one a
            (at (new_queued_pod_info added_at pod [] ∷ []) [])
          ≡ puts_back [] (put_back a.now plugins))
        × (fw.has plugins p.filter_plugin.name ≡ true)
  unfolding error_func info_of add_unschedulable new_queued_pod_info
  is_rejected a nodes added_at r e ne h =
      elim (run_filter_plugins_lem fw.new_cycle_state pod (p.filter_plugin ∷ []) nodes
        p.filter_plugin.name) [
          | inl (some_pass, _) ↦ absurd (ground (arith, none-passes nodes r h))
          | inr (_, plugins, run, has) ↦ (
            plugins,
            pops a (new_queued_pod_info added_at pod []) refl
                ∙ schedule_pod-unfit a pod (at [] []) nodes e (fit_error plugins) run,
            has ∙ some-rejected nodes r ne h,
          )
        ]

  -- The node is added.
  pub is_requeued :
      (now : ℕ → QueuedPodInfo → ℕ) (m : List (Text × ℕ)) (at_types rejected_at : ℕ)
      (plugins : fw.StringSet)
      → fw.has plugins p.filter_plugin.name ≡ true
      → HasNoDup m
      → lookup fw.node_gvk m ≡ some at_types
      → bit_and at_types fw.add_action ≢ 0
      → bit_and fw.add_action fw.add_action ≢ 0
      → rejected_at + 1_000_000_000 ≤ now 0 (info rejected_at plugins)
      → on_node now (add_all_event_handlers m) added (put_back rejected_at plugins)
        ≡ at (info rejected_at plugins ∷ []) []
  is_requeued now m at_types rejected_at plugins has d h nz add_nz late =
      let i = info rejected_at plugins in
      let q = (put_back rejected_at plugins).scheduling_queue in
      let helped : skips q i node_add ≡ false =
        Helps→skips q i node_add (inr (inr (node_add-Registered p plugins add_nz has))) in
      let ready : is_pod_backingoff (now 0 i) i ≡ false =
        elim (Bool-cases (is_pod_backingoff (now 0 i) i)) [
          | inl b ↦ absurd (early ((is_pod_backingoff_iff (now 0 i) i).0 b))
          | inr b ↦ b
        ] in
      on_node-added now m at_types (put_back rejected_at plugins) d h nz
      ∙ ap (λ q'. record (put_back rejected_at plugins) { scheduling_queue = q' })
          (only_pod-moved (now 0) (registry_of p) i helped ready)
    where
      early :
          (now 0 (info rejected_at plugins) < rejected_at + 1_000_000_000 * 1)
            × (now 0 (info rejected_at plugins) < rejected_at + 10 * 1_000_000_000)
          → ⊥
      early h = omega arith
