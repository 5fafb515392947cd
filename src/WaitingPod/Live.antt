-- ===== src/WaitingPod/Live.antt =====
-- minisched/waitingpod/waitingpod.go: a waiting pod has a signal, or its timers will give it one.
use mini_kube_scheduler.Common.{
  ℕ, ◌≡◌, ◌≢◌, refl, ◌⊎◌, inl, inr, true, ◌&&◌, List, [], ◌∷◌, ◌++◌, arith, All, leb, some,
  Option-cases, Bool-cases,
}
use mini_kube_scheduler.Common.Keys.{Text, text_eq, ◌==◌, eq_refl}
use mini_kube_scheduler.Common.Maps.{lookup, insert, delete}
use mini_kube_scheduler.Framework.{Framework, Pod, unschedulable}
use mini_kube_scheduler.WaitingPod.{
  Timer, WaitingPod, new_waiting_pod, allow, reject, fire, run_fired, send, start_timers,
  fire_timer,
}
use mini_kube_scheduler.WaitingPod.Verdicts.{start_timers-IsPending}
use mini_kube_scheduler.WaitingPod.Signals.{allow-full, allow-empty}

abbrev AllRun : List (Text × Timer) → Type 0
AllRun = All (λ e. e.1.running ≡ true)

delete-AllRun : (k : Text) (m : List (Text × Timer)) → AllRun m → AllRun (delete k m)
delete-AllRun k [] h = tt
delete-AllRun k ((j, t) ∷ m) h = ground (arith, delete-AllRun k m h.1)

insert-AllRun :
    (k : Text) (t : Timer) (m : List (Text × Timer))
    → t.running ≡ true
    → AllRun m
    → AllRun (insert k t m)
insert-AllRun k t [] r h = (r, tt)
insert-AllRun k t ((j, u) ∷ m) r h = elim (Bool-cases (j == k)) [
  | inl e ↦ rw e (r, h.1)
  | inr e ↦ rw e (h.0, insert-AllRun k t m r h.1)
]

start_timers-AllRun :
    (now : ℕ) (l : List (Text × ℕ)) (m : List (Text × Timer))
    → AllRun m
    → AllRun (start_timers now l m)
unfolding start_timers
start_timers-AllRun now [] m h = h
start_timers-AllRun now ((j, w) ∷ l) m h = start_timers-AllRun now l _ (insert-AllRun j _ m refl h)

module _ ⦃fw : Framework⦄ where
  -- There is a signal, or a timer has fired, or there are timers and all of them run.
  abbrev pub IsLive : WaitingPod → Type 0
  IsLive w =
      ((status : fw.Status) × (w.s ≡ some status))
      ⊎ (w.fired ≢ [])
      ⊎ (w.pending_plugins ≢ []) × AllRun w.pending_plugins

  pub new_waiting_pod-IsLive :
      (now : ℕ) (pod : Pod) (times : List (Text × ℕ)) (plugin : Text) (d : ℕ)
      → lookup plugin times ≡ some d
      → IsLive (new_waiting_pod now pod times)
  unfolding new_waiting_pod
  new_waiting_pod-IsLive now pod times plugin d h =
      let (t, found) = start_timers-IsPending now plugin times [] d (inl h) in
      inr (inr ((λ e. absurd (cc)), start_timers-AllRun now times [] tt))

  allow-fired : (plugin : Text) (w : WaitingPod) → (allow plugin w).fired ≡ w.fired
  unfolding allow
  allow-fired plugin w = ground arith

  allow-pending :
      (plugin : Text) (w : WaitingPod)
      → (allow plugin w).pending_plugins ≡ delete plugin w.pending_plugins
  unfolding allow
  allow-pending plugin w = ground arith

  pub allow-IsLive : (plugin : Text) (w : WaitingPod) → IsLive w → IsLive (allow plugin w)
  allow-IsLive plugin w (inl (status, e)) = inl (status, allow-full plugin status w e)
  allow-IsLive plugin w (inr (inl f)) = inr (inl (rw (allow-fired plugin w) f))
  allow-IsLive plugin w (inr (inr (some_left, run))) = elim (Option-cases w.s) [
    | inr (status, e) ↦ inl (status, allow-full plugin status w e)
    | inl e ↦ elim (allow-empty plugin w e) [
      | inl (z, signal) ↦ inl (_, signal)
      | inr (n, quiet) ↦ inr (
          inr (
            rw (allow-pending plugin w) n,
            rw (allow-pending plugin w) (delete-AllRun plugin w.pending_plugins run),
          ))
    ]
  ]

  -- A timer that fires leaves a call that has fired, and any other leaves all as it was.
  fire-cases :
      (now : ℕ) (plugin : Text) (w : WaitingPod)
      → ((fire now plugin w).fired ≢ []) ⊎ (fire now plugin w ≡ w)
  unfolding fire
  fire-cases now plugin w = elim (Option-cases (lookup plugin w.pending_plugins)) [
    | inl e ↦ inr (ground arith)
    | inr (t, e) ↦ elim (Bool-cases (t.running && leb t.deadline now)) [
      | inl due ↦ inl (rw (e, fire, due, fire_timer) (append-ne-nil w.fired _))
      | inr idle ↦ inr (ground arith)
    ]
  ]
    where
      append-ne-nil : (l : List (Text × ℕ)) (x : Text × ℕ) → l ++ x ∷ [] ≢ []
      append-ne-nil [] x e = cc
      append-ne-nil (y ∷ l) x e = cc

  pub fire-IsLive :
      (now : ℕ) (plugin : Text) (w : WaitingPod) → IsLive w → IsLive (fire now plugin w)
  fire-IsLive now plugin w h = elim (fire-cases now plugin w) [
    | inl f ↦ inr (inl f)
    | inr same ↦ rw same h
  ]

  -- The first timer of a live pod, at its deadline.
  pub fire-due :
      (plugin : Text) (t : Timer) (rest : List (Text × Timer)) (w : WaitingPod)
      → w.pending_plugins ≡ (plugin, t) ∷ rest
      → t.running ≡ true
      → (fire t.deadline plugin w).fired ≢ []
  unfolding fire
  fire-due plugin t rest w e r = elim (fire-cases t.deadline plugin w) [
    | inl f ↦ f
    | inr same ↦ absurd (ground (arith, eq_refl plugin))
  ]

  module _ (message : ℕ → Text → Text) where
    -- A call that has fired gives a signal.
    pub run_fired-signals :
        (w : WaitingPod)
        → w.fired ≢ []
        → (status : fw.Status) × ((run_fired message w).s ≡ some status)
    unfolding run_fired reject
    run_fired-signals w f = by_fired w.fired refl
      where
        by_fired :
            (l : List (Text × ℕ))
            → w.fired ≡ l
            → (status : fw.Status) × ((run_fired message w).s ≡ some status)
        by_fired [] e = absurd (f e)
        by_fired ((plugin, wait_time) ∷ rest) e = elim (Option-cases w.s) [
          | inl n ↦ (
            fw.with_failed_plugin (fw.new_status unschedulable (message wait_time plugin)) plugin,
            rw (e, run_fired, n, send) refl,
          )
          | inr (old, n) ↦ (old, rw (e, run_fired, n, send) n)
        ]

    pub run_fired-IsLive : (w : WaitingPod) → IsLive w → IsLive (run_fired message w)
    unfolding run_fired
    run_fired-IsLive w h = by_fired w.fired refl
      where
        by_fired : (l : List (Text × ℕ)) → w.fired ≡ l → IsLive (run_fired message w)
        by_fired [] e = rw (e, run_fired) h
        by_fired (x ∷ rest) e = inl (run_fired-signals w (λ n. cc (e, n)))
