-- ===== src/Queue/Ops.antt =====
-- minisched/queue/queue.go: New, Add, MoveAllToActiveOrBackoffQueue, NextPod, AddUnschedulable and
-- the operations that only panic. time.Now is an argument.
pub mod Moves
pub mod Dropped
pub mod Moved
pub mod History
pub mod Fifo
pub mod Unscheduled
use mini_kube_scheduler.Common.{
  ℕ, Bool, not, ◌&&◌, List, [], ◌∷◌, ◌++◌, Option, none, some, length, nat_beq, if◌then◌else◌,
}
use mini_kube_scheduler.Common.Keys.{Text, str, text_eq}
use mini_kube_scheduler.Common.Maps.{insert, delete, values}
use mini_kube_scheduler.Framework.{Framework, ClusterEvent, Pod}
use mini_kube_scheduler.Queue.Types.{QueuedPodInfo, SchedulingQueue}
use mini_kube_scheduler.Queue.Backoff.{is_pod_backingoff}
use mini_kube_scheduler.Queue.Events.{pod_matches_event}

-- The key of a name and a namespace.
unfoldable pub key_of : (name namespace : Text) → Text
key_of name namespace = name ++ (str "_" ++ namespace)

module _ ⦃fw : Framework⦄ where
  unfoldable pub key_func : QueuedPodInfo → Text
  unfolding key_of
  key_func p = key_of (fw.pod_of p.pod_info).name (fw.pod_of p.pod_info).namespace

  unfoldable pub new_queue : List (ClusterEvent × fw.StringSet) → SchedulingQueue
  new_queue events = record {
    active_q = [];
    pod_backoff_q = [];
    unschedulable_q = [];
    cluster_event_map = events;
  }

  -- newQueuedPodInfo with the list of its variadic argument.
  unfoldable pub new_queued_pod_info : (now : ℕ) → Pod → List Text → QueuedPodInfo
  new_queued_pod_info now pod plugins = record {
    pod_info = fw.new_pod_info pod;
    timestamp = now;
    attempts = 0;
    initial_attempt_timestamp = now;
    unschedulable_plugins = fw.new_string plugins;
  }

  unfoldable pub add : (now : ℕ) → SchedulingQueue → Pod → SchedulingQueue
  unfolding new_queued_pod_info
  add now s pod = record s { active_q = s.active_q ++ new_queued_pod_info now pod [] ∷ [] }

  -- `none`: the caller keeps spinning on the empty queue.
  unfoldable pub next_pod : SchedulingQueue → Option (Pod × SchedulingQueue)
  next_pod s = elim s.active_q [
    | [] ↦ none
    | p ∷ rest ↦ some (fw.pod_of p.pod_info, record s { active_q = rest })
  ]

  unfoldable pub add_unschedulable : (now : ℕ) → SchedulingQueue → QueuedPodInfo → SchedulingQueue
  unfolding key_func
  add_unschedulable now s p =
      let p' = record p { timestamp = now } in
      record s { unschedulable_q = insert (key_func p') p' s.unschedulable_q }

  -- The guard of the loop: the event does not help the pod.
  pub skips : SchedulingQueue → QueuedPodInfo → ClusterEvent → Bool
  skips s p event =
      not (nat_beq (length (fw.elements p.unschedulable_plugins)) 0)
      && not (pod_matches_event s p event)

  -- One round of the loop; `now` is what time.Now returns in it.
  pub move_pod : (now : ℕ) → SchedulingQueue → QueuedPodInfo → ClusterEvent → SchedulingQueue
  unfolding skips key_func
  move_pod now s p event =
      if skips s p event
      then s
      else if is_pod_backingoff now p
      then record s {
        pod_backoff_q = s.pod_backoff_q ++ p ∷ [];
        unschedulable_q = delete (key_func p) s.unschedulable_q;
      }
      else record s {
        active_q = s.active_q ++ p ∷ [];
        unschedulable_q = delete (key_func p) s.unschedulable_q;
      }

  -- The loop reads the clock once for each pod.
  pub move_pods_to_active_or_backoff_queue :
      (now : QueuedPodInfo → ℕ)
      → SchedulingQueue
      → List QueuedPodInfo
      → ClusterEvent
      → SchedulingQueue
  unfolding move_pod
  move_pods_to_active_or_backoff_queue now s [] event = s
  move_pods_to_active_or_backoff_queue now s (p ∷ ps) event =
      move_pods_to_active_or_backoff_queue now (move_pod (now p) s p event) ps event

  unfoldable pub move_all_to_active_or_backoff_queue :
      (now : QueuedPodInfo → ℕ) → SchedulingQueue → ClusterEvent → SchedulingQueue
  unfolding move_pods_to_active_or_backoff_queue
  move_all_to_active_or_backoff_queue now s event =
      move_pods_to_active_or_backoff_queue now s (values s.unschedulable_q) event

  -- The operations that are not implemented: each panics, which is `none`.
  abbrev update : SchedulingQueue → (old_pod new_pod : Pod) → Option SchedulingQueue
  update s old_pod new_pod = none

  abbrev delete_pod : SchedulingQueue → Pod → Option SchedulingQueue
  delete_pod s pod = none

  abbrev assigned_pod_added : SchedulingQueue → Pod → Option SchedulingQueue
  assigned_pod_added s pod = none

  abbrev assigned_pod_updated : SchedulingQueue → Pod → Option SchedulingQueue
  assigned_pod_updated s pod = none

  abbrev flush_backoff_q_completed : SchedulingQueue → Option SchedulingQueue
  flush_backoff_q_completed s = none

  abbrev flush_unschedulable_q_leftover : SchedulingQueue → Option SchedulingQueue
  flush_unschedulable_q_leftover s = none
