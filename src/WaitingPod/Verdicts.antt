-- ===== src/WaitingPod/Verdicts.antt =====
-- minisched/waitingpod/waitingpod.go: which signal a waiting pod gets.
use mini_kube_scheduler.Common.{
  ℕ, ◌+◌, ◌≡◌, refl, sym, ◌∙◌, ap, true, List, [], ◌∷◌, some, arith, In, inl, inr, Bool-cases,
  Option-cases, ◌⊎◌, ◌&&◌, leb,
}
use mini_kube_scheduler.Common.Keys.{Text, text_eq, ◌==◌, eq_iff}
use mini_kube_scheduler.Common.Maps.{lookup, insert, delete, lookup-delete, lookup-insert}
use mini_kube_scheduler.Framework.{Framework, Pod}
use mini_kube_scheduler.WaitingPod.{
  Timer, stop, WaitingPod, new_waiting_pod, get_signal, allow, reject, fire, run_fired, send,
  signal_if_done, stop_all, fire_timer, start_timers,
}
use mini_kube_scheduler.WaitingPod.History.{
  Event, allows, rejects, fires, runs_fired, receives, step, run, run-IsSound, received,
}

-- A plugin has a timer in a map of pending plugins.
abbrev pub IsPending : Text → List (Text × Timer) → Type 0
IsPending k m = (t : Timer) × (lookup k m ≡ some t)

delete-IsPending :
    (k plugin : Text) (m : List (Text × Timer))
    → IsPending k m
    → (plugin ≡ k) ⊎ IsPending k (delete plugin m)
delete-IsPending k plugin m (t, e) = elim (Bool-cases (plugin == k)) [
  | inl same ↦ inl ((eq_iff plugin k).0 same)
  | inr other ↦ inr (t, lookup-delete plugin k m ∙ rw other e)
]

insert-IsPending :
    (k plugin : Text) (u : Timer) (m : List (Text × Timer))
    → IsPending k m
    → IsPending k (insert plugin u m)
insert-IsPending k plugin u m (t, e) = elim (Bool-cases (plugin == k)) [
  | inl same ↦ (u, lookup-insert plugin k u m ∙ rw same refl)
  | inr other ↦ (t, lookup-insert plugin k u m ∙ rw other e)
]

stop_all-IsPending : (k : Text) (m : List (Text × Timer)) → IsPending k m → IsPending k (stop_all m)
unfolding stop_all
stop_all-IsPending k [] (t, e) = cc
stop_all-IsPending k ((j, u) ∷ m) (t, e) = elim (Bool-cases (j == k)) [
  | inl same ↦ rw same (stop u, refl)
  | inr other ↦ rw other (stop_all-IsPending k m (t, ground arith))
]

pub start_timers-IsPending :
    (now : ℕ) (k : Text) (l : List (Text × ℕ)) (m : List (Text × Timer)) (d : ℕ)
    → (lookup k l ≡ some d) ⊎ IsPending k m
    → IsPending k (start_timers now l m)
unfolding start_timers
start_timers-IsPending now k [] m d (inl e) = cc
start_timers-IsPending now k [] m d (inr h) = h
start_timers-IsPending now k ((j, w) ∷ l) m d h =
    start_timers-IsPending now k l (insert j t m) d (elim (Bool-cases (j == k)) [
      | inl same ↦ inr (t, lookup-insert j k t m ∙ rw same refl)
      | inr other ↦ elim h [ inl e ↦ inl (ground arith) | inr p ↦ inr (insert-IsPending k j t m p) ]
    ])
  where
    t : Timer
    t = record { deadline = now + w; wait_time = w; running = true }

module _ ⦃fw : Framework⦄ where
  pub send-pending_plugins :
      (status : fw.Status) (w : WaitingPod) → (send status w).pending_plugins ≡ w.pending_plugins
  unfolding send
  send-pending_plugins status w = ground arith

  signal_if_done-pending_plugins :
      (w : WaitingPod) → (signal_if_done w).pending_plugins ≡ w.pending_plugins
  unfolding signal_if_done
  signal_if_done-pending_plugins w = ground arith

  pub allow-pending_plugins :
      (plugin : Text) (w : WaitingPod)
      → (allow plugin w).pending_plugins ≡ delete plugin w.pending_plugins
  unfolding allow
  allow-pending_plugins plugin w =
      signal_if_done-pending_plugins
        (record w { pending_plugins = delete plugin w.pending_plugins })

  reject-IsPending :
      (plugin msg : Text) (w : WaitingPod) (k : Text)
      → IsPending k w.pending_plugins
      → IsPending k (reject plugin msg w).pending_plugins
  unfolding reject
  reject-IsPending plugin msg w k p =
      rw (send-pending_plugins _ (record w { pending_plugins = stop_all w.pending_plugins }))
        (stop_all-IsPending k w.pending_plugins p)

  fire-IsPending :
      (now : ℕ) (plugin : Text) (w : WaitingPod) (k : Text)
      → IsPending k w.pending_plugins
      → IsPending k (fire now plugin w).pending_plugins
  unfolding fire
  fire-IsPending now plugin w k p = elim (Option-cases (lookup plugin w.pending_plugins)) [
    | inl e ↦ rw (e, fire) p
    | inr (t, e) ↦ elim (Bool-cases (t.running && leb t.deadline now)) [
      | inl due ↦
          rw (e, fire, due, fire_timer) (insert-IsPending k plugin (stop t) w.pending_plugins p)
      | inr idle ↦ rw (e, fire, idle, fire_timer) p
    ]
  ]

  receive-IsPending :
      (w : WaitingPod) (k : Text)
      → IsPending k w.pending_plugins
      → IsPending k (received w (get_signal w)).pending_plugins
  unfolding received get_signal
  receive-IsPending w k p = elim (Option-cases w.s) [
    | inl e ↦ rw (e, get_signal) p
    | inr (status, e) ↦ rw (e, get_signal) p
  ]

  run_fired-IsPending :
      (message : ℕ → Text → Text) (w : WaitingPod) (k : Text)
      → IsPending k w.pending_plugins
      → IsPending k (run_fired message w).pending_plugins
  unfolding run_fired
  run_fired-IsPending message w k p = by_fired w.fired refl
    where
      by_fired :
          (l : List (Text × ℕ)) → w.fired ≡ l → IsPending k (run_fired message w).pending_plugins
      by_fired [] e = rw (e, run_fired) p
      by_fired ((plugin, wait_time) ∷ rest) e =
          rw (e, run_fired)
            (reject-IsPending plugin (message wait_time plugin) (record w { fired = rest }) k p)

module _ ⦃fw : Framework⦄ (message : ℕ → Text → Text) where
  -- A plugin stops pending only by its own Allow.
  step-IsPending :
      (w : WaitingPod) (e : Event) (k : Text)
      → IsPending k w.pending_plugins
      → (e ≡ allows k) ⊎ IsPending k (step message w e).pending_plugins
  unfolding step
  step-IsPending w (allows plugin) k p = elim (delete-IsPending k plugin w.pending_plugins p) [
    | inl e ↦ inl (ap allows e)
    | inr q ↦ inr (rw (allow-pending_plugins plugin w) q)
  ]
  step-IsPending w (rejects plugin msg) k p = inr (reject-IsPending plugin msg w k p)
  step-IsPending w (fires now plugin) k p = inr (fire-IsPending now plugin w k p)
  step-IsPending w runs_fired k p = inr (run_fired-IsPending message w k p)
  step-IsPending w receives k p = inr (receive-IsPending w k p)

  run-allowed :
      (w : WaitingPod) (es : List Event) (k : Text)
      → IsPending k w.pending_plugins
      → (run message w es).pending_plugins ≡ []
      → In (allows k) es
  unfolding run
  run-allowed w [] k (t, p) e = absurd (ground (arith, ap (lookup k) e))
  run-allowed w (ev ∷ es) k p e = elim (step-IsPending w ev k p) [
    | inl here ↦ inl (sym here)
    | inr q ↦ inr (run-allowed (step message w ev) es k q e)
  ]

  signalled :
      (w : WaitingPod) {status : fw.Status} {v : WaitingPod}
      → get_signal w ≡ some (status, v)
      → w.s ≡ some status
  unfolding get_signal
  signalled w e = ground arith

  -- GetSignal returns a success only after every plugin that asked to wait has allowed the pod,
  -- whatever other calls, timers and receives come in between.
  pub success-allowed :
      (now : ℕ) (pod : Pod) (wait_times : List (Text × ℕ)) (es : List Event) (status : fw.Status)
      (v : WaitingPod) (k : Text) (wait_time : ℕ)
      → get_signal (run message (new_waiting_pod now pod wait_times) es) ≡ some (status, v)
      → fw.is_success status ≡ true
      → lookup k wait_times ≡ some wait_time
      → In (allows k) es
  unfolding new_waiting_pod
  success-allowed now pod wait_times es status v k wait_time got ok asked =
      run-allowed w es k (start_timers-IsPending now k wait_times [] wait_time (inl asked))
        none_left
    where
      w : WaitingPod
      w = new_waiting_pod now pod wait_times

      none_left : (run message w es).pending_plugins ≡ []
      none_left = elim (run-IsSound message w es (inl refl)) [
        | inl e ↦ absurd (cc (signalled (run message w es) got))
        | inr (old, e, inl f) ↦ absurd (cc (signalled (run message w es) got))
        | inr (old, e, inr n) ↦ n
      ]
