-- ===== src/Tests/CycleRuns.antt =====
-- minisched/minisched.go, initialize.go and eventhandler.go: runs of the scheduler that New makes.
use mini_kube_scheduler.Common.{
  ℕ, ◌≡◌, refl, ◌⊎◌, inl, inr, true, false, ◌&&◌, ◌||◌, List, [], ◌∷◌, arith, any, In, All, keep,
  none, some,
}
use mini_kube_scheduler.Common.Keys.{Text, str, text_eq, ◌==◌}
use mini_kube_scheduler.Common.Maps.{lookup, insert}
use mini_kube_scheduler.Framework.{Pod, ClusterEvent, wait}
use mini_kube_scheduler.Tests.Plain.{plain, pod1, node}
use mini_kube_scheduler.NodeNumber
use mini_kube_scheduler.Queue.Types.{QueuedPodInfo, SchedulingQueue}
use mini_kube_scheduler.Queue.Ops.{next_pod}
use mini_kube_scheduler.Queue.Ops.Moved.{IsKeyed}
use mini_kube_scheduler.WaitingPod.{new_waiting_pod}
use mini_kube_scheduler.WaitingPod.History.{Event, allows, run}
use mini_kube_scheduler.Minisched.Types.{FilterPlugin, PermitPlugin, fit_error}
use mini_kube_scheduler.Minisched.Filters.{feasible, unfit, run_filter_plugins}
use mini_kube_scheduler.Minisched.Filters.Feasible.{passes, rejected_by, run_filter_plugins_lem}
use mini_kube_scheduler.Minisched.Permits.{PermitRun, run_permit_plugins}
use mini_kube_scheduler.Minisched.Permits.Verdict.{
  run_permit_plugins_lem, agrees, waits, IsRejection, has_key,
}
use mini_kube_scheduler.Minisched.Cycle.{puts_back, spins, schedule_one, bound, binding_cycle}
use mini_kube_scheduler.Minisched.Cycle.Justified.{IsJustified, schedule_one-IsJustified}
use mini_kube_scheduler.Minisched.Cycle.Accounts.{IsAccounted, schedule_one-IsAccounted}
use mini_kube_scheduler.Minisched.Cycle.Goroutine.{binding_cycle-allowed}
use mini_kube_scheduler.Minisched.Initialize.{event_eq, made, new_scheduler, unioned_gvks}
use mini_kube_scheduler.Minisched.Initialize.Registry.{
  scheduler_of, registry_of, globals_of, nil_globals, is_registered, new_scheduler-cached,
  new_scheduler-registry,
}
use mini_kube_scheduler.Minisched.Handlers.{
  ResourceEventHandlerFuncs, added, add_all_event_handlers, on_node, on_pod_added,
}
use mini_kube_scheduler.Minisched.Handlers.Requeue.{on_node-requeues}
use mini_kube_scheduler.Tests.Samples.{
  program, node_unschedulable, fresh, with_pod1, answers, some_nodes, to_node11, pod1_waits, after,
  allowed, late, signalled, suffix_one, rejected, one_rejected, cycle_runs,
}

pod1_added : on_pod_added 3 pod1 fresh ≡ with_pod1
unfolding program
pod1_added = refl

schedule_one-IsJustified_example :
    IsJustified (answers some_nodes) with_pod1 to_node11
    × (queue : SchedulingQueue) × (next_pod with_pod1.scheduling_queue ≡ some (pod1, queue))
schedule_one-IsJustified_example =
    schedule_one-IsJustified (answers some_nodes) with_pod1 after to_node11
      ((str "NodeNumber", 1_000_000_000) ∷ []) cycle_runs

schedule_one-IsAccounted_example :
    ((next_pod with_pod1.scheduling_queue ≡ none)
      × (schedule_one (answers some_nodes) with_pod1 ≡ spins))
    ⊎ (pod : Pod) × (queue : SchedulingQueue) × (next_pod with_pod1.scheduling_queue
        ≡ some (pod, queue))
      × IsAccounted
          (answers some_nodes)
          pod
          (record with_pod1 { scheduling_queue = queue })
          (schedule_one (answers some_nodes) with_pod1)
schedule_one-IsAccounted_example = schedule_one-IsAccounted (answers some_nodes) with_pod1

abbrev unschedulables : List FilterPlugin
unschedulables = node_unschedulable.filter_plugin ∷ []

run_filter_plugins_lem_example :
    ((any (passes [] pod1 unschedulables) some_nodes ≡ true)
      × (run_filter_plugins [] pod1 unschedulables some_nodes
          ≡ feasible (keep (passes [] pod1 unschedulables) some_nodes)))
    ⊎ (any (passes [] pod1 unschedulables) some_nodes ≡ false)
      × (plugins : List Text) × (run_filter_plugins [] pod1 unschedulables some_nodes
          ≡ unfit (fit_error plugins))
      × (plain.has plugins (str "NodeUnschedulable")
          ≡ any (rejected_by [] pod1 unschedulables (str "NodeUnschedulable")) some_nodes)
run_filter_plugins_lem_example =
    run_filter_plugins_lem [] pod1 unschedulables some_nodes (str "NodeUnschedulable")

-- NodeNumber asks to wait at node11.
abbrev permit_run : PermitRun
permit_run = record {
  status = record {
    code = wait;
    message = str "one or more plugins asked to wait and no plugin rejected pod \"pod1\"";
    failed = [];
  };
  waiting_pods = (str "u1", pod1_waits) ∷ [];
  allows = (str "NodeNumber", 1_000_000_000) ∷ [];
}

abbrev permits : List PermitPlugin
permits = fresh.permit_plugins

permit_runs : run_permit_plugins 7 suffix_one pod1 (str "node11") permits [] ≡ some permit_run
unfolding program
permit_runs = refl

abbrev one_allow : List Event
one_allow = allows (str "NodeNumber") ∷ []

allow_runs : run late pod1_waits one_allow ≡ allowed
unfolding program
allow_runs = refl

bind_runs : binding_cycle 9 none to_node11 signalled ≡ bound fresh
unfolding program
bind_runs = refl

binding_cycle-allowed_example :
    In (allows (str "NodeNumber")) one_allow × (lookup (str "u1") fresh.waiting_pods ≡ none)
unfolding program
binding_cycle-allowed_example =
    binding_cycle-allowed late suffix_one pod1 (str "node11") 7 9 permits [] permit_run
      (record { name = NodeNumber.name; permit = NodeNumber.permit }) pod1_waits one_allow signalled
      fresh permit_runs refl (inl refl) refl refl (rw allow_runs refl) bind_runs

run_permit_plugins_lem_example :
    ((pl : PermitPlugin) × In pl permits
      × (agrees suffix_one pod1 (str "node11") pl ≡ false)
      × IsRejection permit_run.status
      × (permit_run.status.failed ≡ pl.name)
      × (permit_run.waiting_pods ≡ []))
    ⊎ (All (λ pl. agrees suffix_one pod1 (str "node11") pl ≡ true) permits
        × (any (waits suffix_one pod1 (str "node11")) permits ≡ true)
        × (permit_run.status.code ≡ wait)
        × (times : List (Text × ℕ)) × (permit_run.waiting_pods
            ≡ insert (str "u1") (new_waiting_pod 7 pod1 times) [])
        × (has_key (str "NodeNumber") times
            ≡ any
                (λ pl. waits suffix_one pod1 (str "node11") pl && pl.name == str "NodeNumber")
                permits))
    ⊎ All (λ pl. agrees suffix_one pod1 (str "node11") pl ≡ true) permits
      × (any (waits suffix_one pod1 (str "node11")) permits ≡ false)
      × (permit_run.status ≡ plain.nil_status)
      × (permit_run.waiting_pods ≡ [])
run_permit_plugins_lem_example =
    run_permit_plugins_lem suffix_one pod1 (str "node11") 7 permits [] permit_run (str "NodeNumber")
      permit_runs

new_scheduler-cached_example :
    (new_scheduler (inr node_unschedulable) 1 nil_globals
      ≡ made
          (scheduler_of node_unschedulable, unioned_gvks (registry_of node_unschedulable) [])
          (globals_of node_unschedulable 1))
    × (new_scheduler (inl (str "error")) 2 (globals_of node_unschedulable 1)
        ≡ made
            (scheduler_of node_unschedulable, unioned_gvks (registry_of node_unschedulable) [])
            (globals_of node_unschedulable 1))
new_scheduler-cached_example = new_scheduler-cached node_unschedulable (inl (str "error")) 1 2

new_runs :
    new_scheduler (inr node_unschedulable) 1 nil_globals
    ≡ made (fresh, (str "Node", 5) ∷ []) (globals_of node_unschedulable 1)
unfolding program
new_runs = refl

abbrev node_number_event : ClusterEvent
node_number_event = record { resource = str "Node"; action_type = 1; label = [] }

new_scheduler-registry_example :
    is_registered fresh.scheduling_queue.cluster_event_map node_number_event (str "NodeNumber") ≡ (
      (any (λ evt. evt == node_number_event) node_unschedulable.events
        || any (λ evt. evt == node_number_event) NodeNumber.events_to_register)
      && str "NodeUnschedulable" == str "NodeNumber")
new_scheduler-registry_example =
    new_scheduler-registry node_unschedulable 1 fresh ((str "Node", 5) ∷ [])
      (globals_of node_unschedulable 1) node_number_event (str "NodeNumber") new_runs

no_node_fits :
    schedule_one (answers (node (str "node0") true ∷ [])) with_pod1 ≡ puts_back [] one_rejected
unfolding program
no_node_fits = refl

one_rejected-IsKeyed : IsKeyed one_rejected.scheduling_queue
unfolding program
one_rejected-IsKeyed = record { keyed = (refl, tt); fresh = (refl, tt) }

abbrev handlers : List ResourceEventHandlerFuncs
handlers = add_all_event_handlers ((str "Node", 5) ∷ [])

abbrev two_seconds : ℕ → QueuedPodInfo → ℕ
two_seconds i p = 2_000_000_000

on_node-requeues_example :
    (lookup
        (str "pod1_default")
        (on_node two_seconds handlers added one_rejected).scheduling_queue.unschedulable_q
      ≡ none)
    × (In rejected (on_node two_seconds handlers added one_rejected).scheduling_queue.pod_backoff_q
        ⊎ In rejected (on_node two_seconds handlers added one_rejected).scheduling_queue.active_q)
unfolding program
on_node-requeues_example =
    on_node-requeues node_unschedulable one_rejected two_seconds ((str "Node", 5) ∷ []) 5
      (str "pod1_default") rejected refl one_rejected-IsKeyed (refl, tt) refl (λ e. ground arith)
      (λ e. ground arith) refl refl
