-- ===== src/WaitingPod/Signals.antt =====
-- minisched/waitingpod/waitingpod.go: the first signal wins, and what each call signals.
use mini_kube_scheduler.Common.{
  ℕ, ◌≤◌, ◌≡◌, ◌≢◌, refl, ◌∙◌, ap, true, List, [], ◌∷◌, none, some, arith, In, inl, inr, Bool-cases,
  Option-cases, ◌⊎◌, map, All, length, nat_beq, length_zero,
}
use mini_kube_scheduler.Common.Keys.{Text, text_eq, eq_iff, eq_refl}
use mini_kube_scheduler.Common.Maps.{lookup, delete, lookup-delete}
use mini_kube_scheduler.Framework.{Framework, success, unschedulable}
use mini_kube_scheduler.WaitingPod.{
  Timer, stop, WaitingPod, allow, reject, fire, run_fired, send, stop_all, fire_timer,
}
use mini_kube_scheduler.WaitingPod.History.{
  Event, allows, rejects, fires, runs_fired, receives, step, run,
}
use mini_kube_scheduler.WaitingPod.Verdicts.{IsPending, allow-pending_plugins, send-pending_plugins}

allows-ne-receives : (ps : List Text) → All (λ ev. ev ≢ receives) (map allows ps)
allows-ne-receives [] = tt
allows-ne-receives (p ∷ ps) = ((λ e. cc), allows-ne-receives ps)

IsPending-nonempty : (m : List (Text × Timer)) → m ≢ [] → (k : Text) × IsPending k m
IsPending-nonempty [] n = absurd (n refl)
IsPending-nonempty ((k, t) ∷ m) n = (k, (t, ground (arith, eq_refl k)))

In-rest :
    (k p : Text) (ps : List Text) (m : List (Text × Timer))
    → In k (p ∷ ps)
    → IsPending k (delete p m)
    → In k ps
In-rest k p ps m (inl e) (t, found) = absurd (ground (arith, lookup-delete p k m, eq_iff p k))
In-rest k p ps m (inr i) pend = i

IsPending-undelete :
    (k p : Text) (m : List (Text × Timer)) → IsPending k (delete p m) → IsPending k m
IsPending-undelete k p m (t, found) = (t, ground (arith, lookup-delete p k m))

module _ ⦃fw : Framework⦄ where
  send-full : (new old : fw.Status) (w : WaitingPod) → w.s ≡ some old → (send new w).s ≡ some old
  unfolding send
  send-full new old w e = ground arith

  pub allow-full :
      (plugin : Text) (old : fw.Status) (w : WaitingPod)
      → w.s ≡ some old
      → (allow plugin w).s ≡ some old
  unfolding allow
  allow-full plugin old w e = ground arith

  pub fire-s : (now : ℕ) (plugin : Text) (w : WaitingPod) → (fire now plugin w).s ≡ w.s
  unfolding fire
  fire-s now plugin w = ground arith

  pub allow-empty :
      (plugin : Text) (w : WaitingPod)
      → w.s ≡ none
      → ((delete plugin w.pending_plugins ≡ [])
          × ((allow plugin w).s ≡ some (fw.new_status success [])))
        ⊎ ((delete plugin w.pending_plugins ≢ []) × ((allow plugin w).s ≡ none))
  unfolding allow
  allow-empty plugin w e =
      let m = delete plugin w.pending_plugins in
      elim (Bool-cases (nat_beq (length m) 0)) [
        | inl z ↦ inl (length_zero m z, ground arith)
        | inr z ↦ inr ((λ n. cc (ap (λ l. nat_beq (length l) 0) n)), ground arith)
      ]

module _ ⦃fw : Framework⦄ (message : ℕ → Text → Text) where
  pub run_fired-full :
      (old : fw.Status) (w : WaitingPod) → w.s ≡ some old → (run_fired message w).s ≡ some old
  unfolding run_fired
  run_fired-full old w e = ground arith

  step-full :
      (w : WaitingPod) (ev : Event) (status : fw.Status)
      → ev ≢ receives
      → w.s ≡ some status
      → (step message w ev).s ≡ some status
  unfolding step
  step-full w (allows plugin) status n e = allow-full plugin status w e
  step-full w (rejects plugin msg) status n e = unfold reject in send-full _ status _ e
  step-full w (fires now plugin) status n e = fire-s now plugin w ∙ e
  step-full w runs_fired status n e = run_fired-full status w e
  step-full w receives status n e = absurd (n refl)

  -- The first signal wins: once the channel holds one, no later Allow, Reject or timer changes it
  -- before it is received.
  pub run-first_signal :
      (w : WaitingPod) (es : List Event) (status : fw.Status)
      → w.s ≡ some status
      → All (λ ev. ev ≢ receives) es
      → (run message w es).s ≡ some status
  unfolding run
  run-first_signal w [] status e h = e
  run-first_signal w (ev ∷ es) status e h =
      run-first_signal (step message w ev) es status (step-full w ev status h.0 e) h.1

  all_allow :
      (p : Text) (ps : List Text) (w : WaitingPod)
      → w.s ≡ none
      → ((k : Text) → IsPending k w.pending_plugins → In k (p ∷ ps))
      → (run message (allow p w) (map allows ps)).s ≡ some (fw.new_status success [])
  unfolding run step
  all_allow p [] w e covered = elim (allow-empty p w e) [
    | inl (z, sent) ↦ sent
    | inr (z, waits) ↦
        let (k, pend) = IsPending-nonempty (delete p w.pending_plugins) z in
        absurd (
          In-rest k p [] w.pending_plugins
            (covered k (IsPending-undelete k p w.pending_plugins pend)) pend)
  ]
  all_allow p (q ∷ qs) w e covered = elim (allow-empty p w e) [
    | inl (z, sent) ↦
        run-first_signal (allow p w) (map allows (q ∷ qs)) _ sent (allows-ne-receives (q ∷ qs))
    | inr (z, waits) ↦ all_allow q qs (allow p w) waits λ k pend.
        let pend' = rw (allow-pending_plugins p w) at pend in
        In-rest k p (q ∷ qs) w.pending_plugins
          (covered k (IsPending-undelete k p w.pending_plugins pend')) pend'
  ]

  -- If nothing was signalled yet, and plugins allow the pod in any order, among them each plugin
  -- that is pending, then a success is signalled.
  pub run-all_allow :
      (p : Text) (ps : List Text) (w : WaitingPod)
      → w.s ≡ none
      → ((k : Text) → IsPending k w.pending_plugins → In k (p ∷ ps))
      → (run message w (map allows (p ∷ ps))).s ≡ some (fw.new_status success [])
  unfolding run step
  run-all_allow p ps w e covered = all_allow p ps w e covered

module _ ⦃fw : Framework⦄ where
  lookup-stop_all :
      (k : Text) (m : List (Text × Timer))
      → lookup k (stop_all m) ≡ elim (lookup k m) [ none ↦ none | some t ↦ some (stop t) ]
  unfolding stop_all
  lookup-stop_all k [] = refl
  lookup-stop_all k ((j, t) ∷ m) = ground (arith, lookup-stop_all k m)

  fire-stopped :
      (now : ℕ) (k : Text) (m : List (Text × Timer)) (w : WaitingPod)
      → w.pending_plugins ≡ stop_all m
      → fire now k w ≡ w
  unfolding fire
  fire-stopped now k m w e = elim (Option-cases (lookup k m)) [
    | inl f ↦ rw (none_left f, fire) refl
    | inr (t, f) ↦ rw (stopped t f, fire, fire_timer) refl
  ]
    where
      none_left : lookup k m ≡ none → lookup k w.pending_plugins ≡ none
      none_left f = ap (lookup k) e ∙ lookup-stop_all k m ∙ rw f refl

      stopped : (t : Timer) → lookup k m ≡ some t → lookup k w.pending_plugins ≡ some (stop t)
      stopped t f = ap (lookup k) e ∙ lookup-stop_all k m ∙ rw f refl

  -- A rejection that comes before any other signal is delivered as an unschedulable status which
  -- names the plugin, and afterwards no timer of the pod can fire.
  pub reject_lem :
      (plugin msg : Text) (w : WaitingPod) (now : ℕ) (k : Text)
      → w.s ≡ none
      → ((status : fw.Status) × ((reject plugin msg w).s ≡ some status)
          × (fw.is_unschedulable status ≡ true)
          × (fw.failed_plugin status ≡ plugin))
        × (fire now k (reject plugin msg w) ≡ reject plugin msg w)
  unfolding reject
  reject_lem plugin msg w now k e =
      let new = fw.new_status unschedulable msg in
      let status = fw.with_failed_plugin new plugin in
      let w' = record w { pending_plugins = stop_all w.pending_plugins } in
      (
        (
          status,
          ground arith,
          ground (
            arith,
            fw.is_unschedulable-code status,
            fw.code-with new plugin,
            fw.code-new unschedulable msg,
          ),
          fw.failed_plugin-with new plugin,
        ),
        fire-stopped now k w.pending_plugins (send status w') (send-pending_plugins status w'),
      )

module _ ⦃fw : Framework⦄ (message : ℕ → Text → Text) where
  -- When the timer of a pending plugin is due, was not stopped, and nothing was signalled before,
  -- the timer rejects the pod: the signal is an unschedulable status which names the plugin.
  pub fire_lem :
      (now : ℕ) (k : Text) (t : Timer) (w : WaitingPod)
      → lookup k w.pending_plugins ≡ some t
      → t.running ≡ true
      → t.deadline ≤ now
      → w.s ≡ none
      → w.fired ≡ []
      → (run_fired message (fire now k w)).s
        ≡ some (fw.with_failed_plugin (fw.new_status unschedulable (message t.wait_time k)) k)
  unfolding fire run_fired
  fire_lem now k t w found runs due quiet idle = ground arith
