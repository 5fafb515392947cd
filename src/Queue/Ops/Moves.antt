-- ===== src/Queue/Ops/Moves.antt =====
-- minisched/queue/queue.go: where MoveAllToActiveOrBackoffQueue puts the pods.
use mini_kube_scheduler.Common.{
  ℕ, ◌≡◌, ◌∙◌, ap, Bool, not, ◌&&◌, List, [], ◌∷◌, ◌++◌, arith, keep, if◌then◌else◌,
}
use mathlib.Core.List.{append_assoc, append-nil}
use mini_kube_scheduler.Common.Keys.{Text, text_eq}
use mini_kube_scheduler.Common.Maps.{delete}
use mini_kube_scheduler.Framework.{Framework, ClusterEvent}
use mini_kube_scheduler.Queue.Types.{QueuedPodInfo, SchedulingQueue}
use mini_kube_scheduler.Queue.Backoff.{is_pod_backingoff}
use mini_kube_scheduler.Queue.Events.{pod_matches_event}
use mini_kube_scheduler.Queue.Ops.{key_func, skips, move_pod, move_pods_to_active_or_backoff_queue}

module _ ⦃fw : Framework⦄ where
  -- The queue with new contents.
  abbrev pub with_contents :
      SchedulingQueue
      → List QueuedPodInfo
      → List QueuedPodInfo
      → List (Text × QueuedPodInfo)
      → SchedulingQueue
  with_contents s active backoff m = record s {
    active_q = active;
    pod_backoff_q = backoff;
    unschedulable_q = m;
  }

module _ ⦃fw : Framework⦄ (now : QueuedPodInfo → ℕ) (event : ClusterEvent) where
  abbrev pub to_active : SchedulingQueue → QueuedPodInfo → Bool
  to_active s p = not (skips s p event) && not (is_pod_backingoff (now p) p)

  abbrev pub to_backoff : SchedulingQueue → QueuedPodInfo → Bool
  to_backoff s p = not (skips s p event) && is_pod_backingoff (now p) p

  -- The keys of the helped pods of a list, deleted from a map.
  abbrev pub drop_helped :
      SchedulingQueue
      → List QueuedPodInfo
      → List (Text × QueuedPodInfo)
      → List (Text × QueuedPodInfo)
  drop_helped s [] m = m
  drop_helped s (p ∷ ps) m = drop_helped s ps (if skips s p event then m else delete (key_func p) m)

  move_pod_lem :
      (s : SchedulingQueue) (active backoff : List QueuedPodInfo) (m : List (Text × QueuedPodInfo))
      (p : QueuedPodInfo)
      → move_pod (now p) (with_contents s active backoff m) p event
        ≡ with_contents s
            (if to_active s p then active ++ p ∷ [] else active)
            (if to_backoff s p then backoff ++ p ∷ [] else backoff)
            (if skips s p event then m else delete (key_func p) m)
  unfolding move_pod pod_matches_event
  move_pod_lem s active backoff m p = ground arith

  snoc_keep :
      (q : QueuedPodInfo → Bool) (xs : List QueuedPodInfo) (p : QueuedPodInfo)
      (ps : List QueuedPodInfo)
      → (if q p then xs ++ p ∷ [] else xs) ++ keep q ps ≡ xs ++ keep q (p ∷ ps)
  snoc_keep q xs p ps = ground (arith, append_assoc xs (p ∷ []) (keep q ps))

  pub move_pods_lem :
      (s : SchedulingQueue) (active backoff : List QueuedPodInfo) (m : List (Text × QueuedPodInfo))
      (ps : List QueuedPodInfo)
      → move_pods_to_active_or_backoff_queue now (with_contents s active backoff m) ps event
        ≡ with_contents s
            (active ++ keep (to_active s) ps)
            (backoff ++ keep (to_backoff s) ps)
            (drop_helped s ps m)
  unfolding move_pods_to_active_or_backoff_queue
  move_pods_lem s active backoff m [] = rw (append-nil active, append-nil backoff)
  move_pods_lem s active backoff m (p ∷ ps) =
      let active' = if to_active s p then active ++ p ∷ [] else active in
      let backoff' = if to_backoff s p then backoff ++ p ∷ [] else backoff in
      let m' = if skips s p event then m else delete (key_func p) m in
      ap (λ q. move_pods_to_active_or_backoff_queue now q ps event)
        (move_pod_lem s active backoff m p)
      ∙ move_pods_lem s active' backoff' m' ps
      ∙ ap (λ xs. with_contents s xs (backoff' ++ keep (to_backoff s) ps) (drop_helped s ps m'))
          (snoc_keep (to_active s) active p ps)
      ∙ ap (λ xs. with_contents s (active ++ keep (to_active s) (p ∷ ps)) xs (drop_helped s ps m'))
          (snoc_keep (to_backoff s) backoff p ps)
