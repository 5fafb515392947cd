-- ===== src/Tests/QueueRuns.antt =====
-- minisched/queue/queue.go: runs of the queue.
use mini_kube_scheduler.Common.{
  ℕ, ◌*◌, ◌≡◌, refl, ◌⊎◌, ◌↔◌, true, false, List, [], ◌∷◌, ◌++◌, arith, In, none, some,
}
use mini_kube_scheduler.Common.Int.{pos}
use mini_kube_scheduler.Common.Keys.{Text, str, text_beq, text_eq}
use mini_kube_scheduler.Common.Maps.{lookup}
use mini_kube_scheduler.Framework.{Pod, ClusterEvent}
use mini_kube_scheduler.Tests.Plain.{plain, pod1, pod2, web, node_added, node_deleted}
use mini_kube_scheduler.Queue.Types.{QueuedPodInfo, SchedulingQueue}
use mini_kube_scheduler.Queue.Backoff.{second, calculate_backoff_duration, is_pod_backingoff}
use mini_kube_scheduler.Queue.Backoff.Doubling.{calculate_backoff_duration-closed_form}
use mini_kube_scheduler.Queue.Events.{intersect, event_matches, pod_matches_event}
use mini_kube_scheduler.Queue.Events.Matching.{Registered, pod_matches_event_iff}
use mini_kube_scheduler.Queue.Ops.{
  key_func, new_queue, add, next_pod, add_unschedulable, move_all_to_active_or_backoff_queue,
}
use mini_kube_scheduler.Queue.Ops.Moved.{IsKeyed, Helps, move_all-places, move_all-queued, queued}
use mini_kube_scheduler.Queue.Ops.History.{
  Call, adds, pops, marks, moves, run, run-IsKeyed, run-backoff,
}
use mini_kube_scheduler.Queue.Ops.Fifo.{add_all, drain, drain-add_all}

abbrev info : Pod → ℕ → List Text → QueuedPodInfo
info pod timestamp plugins = record {
  pod_info = pod;
  timestamp = timestamp;
  attempts = 0;
  initial_attempt_timestamp = 0;
  unschedulable_plugins = plugins;
}

abbrev rejected : List Text
rejected = str "NodeUnschedulable" ∷ []

abbrev registry : List (ClusterEvent × List Text)
registry = (node_added, rejected) ∷ []

-- pod1 was rejected by a plugin that waits for new nodes.
abbrev one_waits : SchedulingQueue
one_waits = record {
  active_q = info pod2 0 [] ∷ [];
  pod_backoff_q = [];
  unschedulable_q = (str "pod1_default", info pod1 0 rejected) ∷ [];
  cluster_event_map = registry;
}

abbrev at_two_seconds : QueuedPodInfo → ℕ
at_two_seconds p = 2 * second

one_waits-IsKeyed : IsKeyed one_waits
unfolding text_beq key_func
one_waits-IsKeyed = record { keyed = (refl, tt); fresh = (refl, tt) }

moved_up :
    (move_all_to_active_or_backoff_queue at_two_seconds one_waits node_added).active_q
    ≡ info pod2 0 [] ∷ info pod1 0 rejected ∷ []
unfolding move_all_to_active_or_backoff_queue pod_matches_event event_matches intersect text_beq
    is_pod_backingoff
moved_up = refl

stays : move_all_to_active_or_backoff_queue at_two_seconds one_waits node_deleted ≡ one_waits
unfolding move_all_to_active_or_backoff_queue pod_matches_event event_matches intersect text_beq
stays = refl

backs_off :
    (move_all_to_active_or_backoff_queue (λ p. 10) one_waits node_added).pod_backoff_q
    ≡ info pod1 0 rejected ∷ []
unfolding move_all_to_active_or_backoff_queue pod_matches_event event_matches intersect text_beq
    is_pod_backingoff
backs_off = refl

calculate_backoff_duration-closed_form_example : calculate_backoff_duration 4 ≡ pos 8_000_000_000
calculate_backoff_duration-closed_form_example = calculate_backoff_duration-closed_form 4

pod_matches_event_iff_example :
    (pod_matches_event one_waits (info pod1 0 rejected) node_added ≡ true)
    ↔ ((plain.is_wild_card node_added ≡ true) ⊎ Registered registry rejected node_added)
pod_matches_event_iff_example = pod_matches_event_iff one_waits (info pod1 0 rejected) node_added

abbrev after_move : SchedulingQueue
after_move = move_all_to_active_or_backoff_queue at_two_seconds one_waits node_added

move_all-places_example :
    (Helps one_waits (info pod1 0 rejected) node_added
      × (lookup (str "pod1_default") after_move.unschedulable_q ≡ none)
      × ((is_pod_backingoff (2 * second) (info pod1 0 rejected) ≡ true)
            × In (info pod1 0 rejected) after_move.pod_backoff_q
          ⊎ (is_pod_backingoff (2 * second) (info pod1 0 rejected) ≡ false)
            × In (info pod1 0 rejected) after_move.active_q))
    ⊎ (¬ Helps one_waits (info pod1 0 rejected) node_added)
      × (lookup (str "pod1_default") after_move.unschedulable_q ≡ some (info pod1 0 rejected))
unfolding text_beq
move_all-places_example =
    move_all-places at_two_seconds node_added one_waits one_waits-IsKeyed (str "pod1_default")
      (info pod1 0 rejected) refl

move_all-queued_example : queued (λ p. true) after_move ≡ 2
move_all-queued_example =
    move_all-queued at_two_seconds node_added one_waits one_waits-IsKeyed (λ p. true)

abbrev history : List Call
history = adds 1 pod1 ∷ pops ∷ marks 5 (info pod1 0 rejected) ∷ moves (λ p. 10) node_added ∷ []

run-IsKeyed_example : IsKeyed (run (new_queue registry) history)
run-IsKeyed_example = run-IsKeyed registry history

-- The pod of the history is in podBackoffQ, and there it stays.
history_end : (run (new_queue registry) history).pod_backoff_q ≡ info pod1 5 rejected ∷ []
unfolding run new_queue add next_pod add_unschedulable move_all_to_active_or_backoff_queue
    pod_matches_event event_matches intersect text_beq is_pod_backingoff
history_end = refl

abbrev after_backoff : SchedulingQueue
after_backoff = record one_waits { pod_backoff_q = info pod1 5 rejected ∷ [] }

run-backoff_example :
    (rest : List QueuedPodInfo) × ((run after_backoff history).pod_backoff_q
      ≡ (info pod1 5 rejected ∷ []) ++ rest)
run-backoff_example = run-backoff after_backoff history

drain-add_all_example :
    drain 4 (add_all one_waits ((1, pod1) ∷ (2, web) ∷ [])) ≡ pod2 ∷ pod1 ∷ web ∷ []
drain-add_all_example = drain-add_all one_waits ((1, pod1) ∷ (2, web) ∷ []) 4 (omega arith)

abbrev put_back : SchedulingQueue
put_back = add_unschedulable 7 one_waits (info web 0 [])
