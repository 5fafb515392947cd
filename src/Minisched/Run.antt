-- ===== src/Minisched/Run.antt =====
-- minisched/minisched.go: Run, which calls scheduleOne until its context ends. While no handler puts
-- a pod on the queue, it works off activeQ and then spins.
use mini_kube_scheduler.Common.{
  ℕ, zero, suc, ◌+◌, ◌<◌, ◌≡◌, refl, subst, ◌⊎◌, inl, inr, List, [], ◌∷◌, arith, length,
}
use mini_kube_scheduler.Framework.{Framework}
use mini_kube_scheduler.Queue.Ops.{next_pod, add_unschedulable}
use mini_kube_scheduler.Minisched.Types.{Scheduler}
use mini_kube_scheduler.Minisched.Cycle.{
  Answers, Binding, spins, panicked, puts_back, binds, schedule_one,
}
use mini_kube_scheduler.Minisched.Cycle.Accounts.{schedule_one-IsAccounted}

module _ ⦃fw : Framework⦄ where
  -- How the loop stands after some rounds: the context ended, scheduleOne spins on the empty queue,
  -- or a plugin panicked. The goroutines that it started come last first, and `put_back` counts the
  -- pods that it put back.
  pub data Loop : Type 0 where
    ended spinning : (bindings : List Binding) → (put_back : ℕ) → Scheduler → Loop
    crashed : Loop

  -- The context ends after so many rounds; the answers of each round are given.
  unfoldable pub run :
      (rounds : ℕ)
      → (answers : ℕ → Answers) → (bindings : List Binding) → (put_back : ℕ) → Scheduler
      → Loop
  run zero answers bs n sched = ended bs n sched
  run (suc rounds) answers bs n sched = elim (schedule_one (answers 0) sched) [
    | spins ↦ spinning bs n sched
    | panicked ↦ crashed
    | puts_back allows sched' ↦ run rounds (λ i. answers (i + 1)) bs (n + 1) sched'
    | binds b allows sched' ↦ run rounds (λ i. answers (i + 1)) (b ∷ bs) n sched'
  ]

  -- The loop spins on an empty activeQ, after so many pods; or a plugin panicked.
  abbrev pub Spins : ℕ → Loop → Type 0
  Spins pods loop =
      (loop ≡ crashed)
      ⊎ (bs : List Binding) × (n : ℕ) × (sched : Scheduler) × (loop ≡ spinning bs n sched)
        × (sched.scheduling_queue.active_q ≡ [])
        × (length bs + n ≡ pods)

  run_from-Spins :
      (rounds : ℕ) (answers : ℕ → Answers) (bs : List Binding) (n : ℕ) (sched : Scheduler)
      → length sched.scheduling_queue.active_q < rounds
      → Spins
          (length bs + n + length sched.scheduling_queue.active_q)
          (run rounds answers bs n sched)
  unfolding run next_pod add_unschedulable
  run_from-Spins zero answers bs n sched h = absurd (omega arith)
  run_from-Spins (suc rounds) answers bs n sched h =
      let later = λ (i : ℕ). answers (i + 1) in
      elim (schedule_one-IsAccounted (answers 0) sched) [
        | inl (empty, e) ↦ rw (e, run) (inr (bs, n, sched, refl, ground arith, ground arith))
        | inr (pod, queue, popped, inl e) ↦ inl (ground arith)
        | inr (pod, queue, popped, inr (inl (allows, info, same, e))) ↦
            let put = record sched {
              scheduling_queue = add_unschedulable (answers 0).now queue info;
            } in
            rw (e, run)
              (subst (λ pods. Spins pods (run rounds later bs (n + 1) put)) (ground arith)
                (run_from-Spins rounds later bs (n + 1) put (ground arith)))
        | inr (pod, queue, popped, inr (inr (allows, node_name, waiting_pods, e, may))) ↦
            let b : Binding = record { pod = pod; node_name = node_name } in
            let started = record sched { scheduling_queue = queue; waiting_pods = waiting_pods } in
            rw (e, run)
              (subst (λ pods. Spins pods (run rounds later (b ∷ bs) n started)) (ground arith)
                (run_from-Spins rounds later (b ∷ bs) n started (ground arith)))
      ]

  pub run-Spins :
      (answers : ℕ → Answers) (sched : Scheduler)
      → Spins
          (length sched.scheduling_queue.active_q)
          (run (suc (length sched.scheduling_queue.active_q)) answers [] 0 sched)
  run-Spins answers sched =
      subst
        (λ pods. Spins pods (run (suc (length sched.scheduling_queue.active_q)) answers [] 0 sched))
        (ground arith)
        (run_from-Spins (suc (length sched.scheduling_queue.active_q)) answers [] 0 sched
          (omega arith))
