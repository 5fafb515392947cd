-- ===== src/Queue/Ops/History.antt =====
-- minisched/queue/queue.go: histories of calls, and what holds of the queue after any of them.
use mathlib.Core.List.{append_assoc, append-nil}
use mini_kube_scheduler.Common.{
  ℕ, ◌≡◌, refl, sym, ◌∙◌, ap, inl, inr, List, [], ◌∷◌, ◌++◌, arith, All-keep, keep, Option, none,
  some, Bool-cases,
}
use mini_kube_scheduler.Common.Keys.{Text, text_eq, ◌==◌}
use mini_kube_scheduler.Common.Maps.{insert, values, insert-HasNoDup, keep-HasNoDup}
use mini_kube_scheduler.Framework.{Framework, ClusterEvent, Pod}
use mini_kube_scheduler.Queue.Types.{QueuedPodInfo, SchedulingQueue}
use mini_kube_scheduler.Queue.Ops.{
  key_func, skips, new_queue, add, next_pod, add_unschedulable, move_all_to_active_or_backoff_queue,
}
use mini_kube_scheduler.Queue.Ops.Moves.{to_backoff, move_pods_lem}
use mini_kube_scheduler.Queue.Ops.Dropped.{AreKeyed}
use mini_kube_scheduler.Queue.Ops.Moved.{IsKeyed, move_all_lem}

module _ ⦃fw : Framework⦄ where
  -- A call on the queue, with what time.Now returns in it.
  pub data Call : Type 0 where
    adds : (now : ℕ) → Pod → Call
    pops : Call
    marks : (now : ℕ) → QueuedPodInfo → Call
    moves : (now : QueuedPodInfo → ℕ) → ClusterEvent → Call

  unfoldable pub popped : SchedulingQueue → Option (Pod × SchedulingQueue) → SchedulingQueue
  popped s none = s
  popped s (some (pod, t)) = t

  unfoldable pub step : SchedulingQueue → Call → SchedulingQueue
  unfolding popped
  step s (adds now pod) = add now s pod
  step s pops = popped s (next_pod s)
  step s (marks now p) = add_unschedulable now s p
  step s (moves now event) = move_all_to_active_or_backoff_queue now s event

  unfoldable pub run : SchedulingQueue → List Call → SchedulingQueue
  unfolding step
  run s [] = s
  run s (c ∷ cs) = run (step s c) cs

  insert-AreKeyed :
      (k : Text) (p : QueuedPodInfo) (m : List (Text × QueuedPodInfo))
      → k ≡ key_func p
      → AreKeyed m
      → AreKeyed (insert k p m)
  insert-AreKeyed k p [] e h = (e, tt)
  insert-AreKeyed k p ((j, q) ∷ m) e h = elim (Bool-cases (j == k)) [
    | inl same ↦ rw same (e, h.1)
    | inr other ↦ rw other (h.0, insert-AreKeyed k p m e h.1)
  ]

  popped-unschedulable_q :
      (s : SchedulingQueue) → (popped s (next_pod s)).unschedulable_q ≡ s.unschedulable_q
  unfolding popped next_pod
  popped-unschedulable_q s = ground arith

  pub step-IsKeyed : (s : SchedulingQueue) (c : Call) → IsKeyed s → IsKeyed (step s c)
  unfolding step add add_unschedulable
  step-IsKeyed s (adds now pod) inv = record { keyed = inv.keyed; fresh = inv.fresh }
  step-IsKeyed s pops inv = record {
    keyed = rw (popped-unschedulable_q s) inv.keyed;
    fresh = rw (popped-unschedulable_q s) inv.fresh;
  }
  step-IsKeyed s (marks now p) inv = record {
    keyed = insert-AreKeyed _ (record p { timestamp = now }) s.unschedulable_q refl inv.keyed;
    fresh = insert-HasNoDup _ _ s.unschedulable_q inv.fresh;
  }
  step-IsKeyed s (moves now event) inv = rw (move_all_lem now event s inv) (record {
    keyed = All-keep (λ e. e.0 ≡ key_func e.1) _ s.unschedulable_q inv.keyed;
    fresh = keep-HasNoDup (λ p. skips s p event) s.unschedulable_q inv.fresh;
  })

  run-IsKeyed_lem : (s : SchedulingQueue) (cs : List Call) → IsKeyed s → IsKeyed (run s cs)
  unfolding run
  run-IsKeyed_lem s [] inv = inv
  run-IsKeyed_lem s (c ∷ cs) inv = run-IsKeyed_lem (step s c) cs (step-IsKeyed s c inv)

  -- After any history of calls on a new queue, each pod of unschedulableQ stands under its own key,
  -- and no key stands twice.
  pub run-IsKeyed :
      (events : List (ClusterEvent × fw.StringSet)) (cs : List Call)
      → IsKeyed (run (new_queue events) cs)
  unfolding new_queue
  run-IsKeyed events cs = run-IsKeyed_lem _ cs (record { keyed = tt; fresh = tt })

  step-backoff :
      (s : SchedulingQueue) (c : Call)
      → (rest : List QueuedPodInfo) × ((step s c).pod_backoff_q ≡ s.pod_backoff_q ++ rest)
  unfolding step popped add add_unschedulable next_pod move_all_to_active_or_backoff_queue
  step-backoff s (adds now pod) = ([], sym (append-nil s.pod_backoff_q))
  step-backoff s pops = ([], ground (arith, append-nil s.pod_backoff_q))
  step-backoff s (marks now p) = ([], sym (append-nil s.pod_backoff_q))
  step-backoff s (moves now event) = (
    keep (to_backoff now event s) (values s.unschedulable_q),
    ap (λ q. q.pod_backoff_q)
        (move_pods_lem now event s s.active_q s.pod_backoff_q s.unschedulable_q
          (values s.unschedulable_q)),
  )

  -- Nothing ever leaves podBackoffQ: after any history it still begins with what it held before.
  pub run-backoff :
      (s : SchedulingQueue) (cs : List Call)
      → (rest : List QueuedPodInfo) × ((run s cs).pod_backoff_q ≡ s.pod_backoff_q ++ rest)
  unfolding run
  run-backoff s [] = ([], sym (append-nil s.pod_backoff_q))
  run-backoff s (c ∷ cs) =
      let (later, e) = run-backoff (step s c) cs in
      let (now, d) = step-backoff s c in
      (now ++ later, e ∙ ap (λ xs. xs ++ later) d ∙ append_assoc s.pod_backoff_q now later)
