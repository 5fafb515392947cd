-- ===== src/Minisched/Handlers.antt =====
-- minisched/eventhandler.go: what the scheduler does when an informer reports a pod or a node.
pub mod Requeue
use Prim.Native.Nat.{bit_and}
use mini_kube_scheduler.Common.{
  ℕ, ◌+◌, Bool, not, List, [], ◌∷◌, ◌++◌, Option, none, some, length, nat_beq, if◌then◌else◌,
}
use mini_kube_scheduler.Common.Keys.{Text, str, text_eq, ◌==◌}
use mini_kube_scheduler.Framework.{Framework, ClusterEvent, Pod}
use mini_kube_scheduler.Queue.Types.{QueuedPodInfo}
use mini_kube_scheduler.Queue.Ops.{add, move_all_to_active_or_backoff_queue}
use mini_kube_scheduler.Minisched.Types.{Scheduler}

-- cache.ResourceEventHandlerFuncs: a function that moves pods for an event is the event.
pub record ResourceEventHandlerFuncs : Type 0 where
  pub add_func : Option ClusterEvent
  pub update_func : Option ClusterEvent
  pub delete_func : Option ClusterEvent

-- What happened to a node.
pub data Change : Type 0 where
  added updated deleted : Change

unfoldable pub assigned_pod : Pod → Bool
assigned_pod pod = not (nat_beq (length pod.node_name) 0)

module _ ⦃fw : Framework⦄ where
  -- The event of an action, if the action types have a bit of it.
  event_if : (at action : ℕ) → (gvk label : Text) → Option ClusterEvent
  event_if at action gvk label =
      if not (nat_beq (bit_and at action) 0)
      then some (record { resource = gvk; action_type = action; label = label })
      else none

  build_evt_res_handler : (at : ℕ) → (gvk short_gvk : Text) → ResourceEventHandlerFuncs
  unfolding event_if
  build_evt_res_handler at gvk short_gvk = record {
    add_func = event_if at fw.add_action gvk (short_gvk ++ str "Add");
    update_func = event_if at fw.update_action gvk (short_gvk ++ str "Update");
    delete_func = event_if at fw.delete_action gvk (short_gvk ++ str "Delete");
  }

  -- The handlers that are added to the informer of nodes, by the loop over gvkMap.
  unfoldable pub add_all_event_handlers : List (Text × ℕ) → List ResourceEventHandlerFuncs
  unfolding build_evt_res_handler
  add_all_event_handlers [] = []
  add_all_event_handlers ((gvk, at) ∷ m) =
      let rest = add_all_event_handlers m in
      if gvk == fw.node_gvk then build_evt_res_handler at fw.node_gvk (str "Node") ∷ rest else rest

  pub func_of : Change → ResourceEventHandlerFuncs → Option ClusterEvent
  func_of added funcs = funcs.add_func
  func_of updated funcs = funcs.update_func
  func_of deleted funcs = funcs.delete_func

  -- The informer of nodes calls its handlers one after another; each reads the clock for itself.
  unfoldable pub on_node :
      (now : ℕ → QueuedPodInfo → ℕ)
      → List ResourceEventHandlerFuncs
      → Change
      → Scheduler
      → Scheduler
  unfolding func_of
  on_node now [] change sched = sched
  on_node now (funcs ∷ rest) change sched =
      on_node (λ i. now (i + 1)) rest change
        (elim (func_of change funcs) [
          | none ↦ sched
          | some evt ↦ record sched {
            scheduling_queue =
                move_all_to_active_or_backoff_queue (now 0) sched.scheduling_queue evt;
          }
        ])

  -- Add returns no error.
  unfoldable pub add_pod_to_scheduling_queue : (now : ℕ) → Pod → Scheduler → Scheduler
  add_pod_to_scheduling_queue now pod sched = record sched {
    scheduling_queue = add now sched.scheduling_queue pod;
  }

  -- The informer of pods reports a pod that was added.
  unfoldable pub on_pod_added : (now : ℕ) → Pod → Scheduler → Scheduler
  unfolding add_pod_to_scheduling_queue assigned_pod
  on_pod_added now pod sched =
      if not (assigned_pod pod) then add_pod_to_scheduling_queue now pod sched else sched
