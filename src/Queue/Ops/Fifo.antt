-- ===== src/Queue/Ops/Fifo.antt =====
-- minisched/queue/queue.go: Add and NextPod are first in, first out.
use mathlib.Core.List.{append_assoc, append-nil, map-append}
use mini_kube_scheduler.Common.{
  ℕ, zero, suc, ◌+◌, ◌<◌, ◌≡◌, refl, sym, ◌∙◌, ap, List, [], ◌∷◌, ◌++◌, map, length, length-append,
  arith, none, some,
}
use mini_kube_scheduler.Framework.{Framework, Pod}
use mini_kube_scheduler.Queue.Types.{QueuedPodInfo, SchedulingQueue}
use mini_kube_scheduler.Queue.Ops.{add, next_pod}

module _ ⦃fw : Framework⦄ where
  unfoldable pub add_all : SchedulingQueue → List (ℕ × Pod) → SchedulingQueue
  add_all s [] = s
  add_all s ((now, pod) ∷ pods) = add_all (add now s pod) pods

  -- Takes pods until the queue is empty, at most `n`.
  unfoldable pub drain : ℕ → SchedulingQueue → List Pod
  drain zero s = []
  drain (suc n) s = elim (next_pod s) [ none ↦ [] | some (pod, t) ↦ pod ∷ drain n t ]

  abbrev pub pods_of : List QueuedPodInfo → List Pod
  pods_of = map (λ p. fw.pod_of p.pod_info)

  add_all-active_q :
      (s : SchedulingQueue) (pods : List (ℕ × Pod))
      → pods_of (add_all s pods).active_q ≡ pods_of s.active_q ++ map (λ x. x.1) pods
  unfolding add_all add
  add_all-active_q s [] = sym (append-nil _)
  add_all-active_q s ((now, pod) ∷ pods) =
      add_all-active_q (add now s pod) pods
      ∙ ap (λ xs. xs ++ map (λ x. x.1) pods)
          (map-append (λ p. fw.pod_of p.pod_info) s.active_q _
            ∙ ap (λ q. pods_of s.active_q ++ q ∷ []) (fw.pod_of-new pod))
      ∙ append_assoc (pods_of s.active_q) (pod ∷ []) (map (λ x. x.1) pods)

  drain-active_q :
      (ps : List QueuedPodInfo) (n : ℕ) (s : SchedulingQueue)
      → s.active_q ≡ ps
      → length ps < n
      → drain n s ≡ pods_of ps
  unfolding drain next_pod
  drain-active_q [] zero s e h = refl
  drain-active_q [] (suc n) s e h = rw (e, next_pod)
  drain-active_q (p ∷ ps) zero s e h = absurd (omega arith)
  drain-active_q (p ∷ ps) (suc n) s e h =
      rw (e, next_pod)
        (ap (◌∷◌ (fw.pod_of p.pod_info))
          (drain-active_q ps n (record s { active_q = ps }) refl (omega arith)))

  length-pods_of : (ps : List QueuedPodInfo) → length (pods_of ps) ≡ length ps
  length-pods_of [] = refl
  length-pods_of (p ∷ ps) = ap suc (length-pods_of ps)

  length-seconds : (xs : List (ℕ × Pod)) → length (map (λ x. x.1) xs) ≡ length xs
  length-seconds [] = refl
  length-seconds (x ∷ xs) = ap suc (length-seconds xs)

  -- Pods leave activeQ in the order in which they came: taking pods until the queue is empty
  -- returns those that stood there, and then those that were added, in order. (One call more than
  -- there are pods is enough.)
  pub drain-add_all :
      (s : SchedulingQueue) (pods : List (ℕ × Pod)) (n : ℕ)
      → length s.active_q + length pods < n
      → drain n (add_all s pods) ≡ pods_of s.active_q ++ map (λ x. x.1) pods
  drain-add_all s pods n h =
      let e = add_all-active_q s pods in
      drain-active_q (add_all s pods).active_q n (add_all s pods) refl (
        omega (
          arith,
          ap length e,
          length-append (pods_of s.active_q) (map (λ x. x.1) pods),
          length-pods_of s.active_q,
          length-pods_of (add_all s pods).active_q,
          length-seconds pods,
        ))
      ∙ e
