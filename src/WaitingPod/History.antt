-- ===== src/WaitingPod/History.antt =====
-- minisched/waitingpod/waitingpod.go: histories of calls on one waiting pod.
use mini_kube_scheduler.Common.{
  ℕ, ◌≡◌, refl, ap, true, false, List, [], ◌∷◌, Option, none, some, arith, inl, inr, Bool-cases,
  Option-cases, ◌⊎◌, ◌&&◌, ◌++◌, leb, nat_beq, length, length_zero,
}
use mini_kube_scheduler.Common.Keys.{Text, text_eq}
use mini_kube_scheduler.Common.Maps.{lookup, insert, delete}
use mini_kube_scheduler.Framework.{Framework, success, unschedulable}
use mini_kube_scheduler.WaitingPod.{
  Timer, stop, WaitingPod, get_signal, allow, reject, fire, run_fired, send, signal_if_done,
  stop_all, fire_timer,
}

pub data Event : Type 0 where
  allows : (plugin : Text) → Event
  rejects : (plugin msg : Text) → Event
  fires : (now : ℕ) (plugin : Text) → Event
  runs_fired : Event
  receives : Event

module _ ⦃fw : Framework⦄ where
  unfoldable pub received : WaitingPod → Option (fw.Status × WaitingPod) → WaitingPod
  received w none = w
  received w (some (status, v)) = v

module _ ⦃fw : Framework⦄ where
  -- A success in the channel means that no plugin is pending.
  abbrev pub IsSound : WaitingPod → Type 0
  IsSound w =
      (w.s ≡ none)
      ⊎ (status : fw.Status) × (w.s ≡ some status)
        × ((fw.is_success status ≡ false) ⊎ (w.pending_plugins ≡ []))

  send-IsSound :
      (status : fw.Status) (w : WaitingPod)
      → (fw.is_success status ≡ false) ⊎ (w.pending_plugins ≡ [])
      → IsSound w
      → IsSound (send status w)
  unfolding send
  send-IsSound status w h v = elim (Option-cases w.s) [
    | inl e ↦ rw (e, send) (inr (status, refl, h))
    | inr (old, e) ↦ rw (e, send) v
  ]

  is_success-new : fw.is_success (fw.new_status success []) ≡ true
  is_success-new =
      ground (arith, fw.is_success-code (fw.new_status success []), fw.code-new success [])

  not_success-rejected :
      (msg plugin : Text)
      → fw.is_success (fw.with_failed_plugin (fw.new_status unschedulable msg) plugin) ≡ false
  not_success-rejected msg plugin =
      let status = fw.new_status unschedulable msg in
      ground (
        arith,
        fw.is_success-code (fw.with_failed_plugin status plugin),
        fw.code-with status plugin,
        fw.code-new unschedulable msg,
      )

  -- New pending plugins, of which there are none where there were none.
  change-IsSound :
      (m : List (Text × Timer)) (w : WaitingPod)
      → (w.pending_plugins ≡ [] → m ≡ [])
      → IsSound w
      → IsSound (record w { pending_plugins = m })
  change-IsSound m w h (inl e) = inl e
  change-IsSound m w h (inr (status, e, inl f)) = inr (status, e, inl f)
  change-IsSound m w h (inr (status, e, inr n)) = inr (status, e, inr (h n))

  signal_if_done-IsSound : (w : WaitingPod) → IsSound w → IsSound (signal_if_done w)
  unfolding signal_if_done
  signal_if_done-IsSound w v = elim (Bool-cases (nat_beq (length w.pending_plugins) 0)) [
    | inl e ↦
        rw (e, signal_if_done)
          (send-IsSound (fw.new_status success []) w (inr (length_zero w.pending_plugins e)) v)
    | inr e ↦ rw (e, signal_if_done) v
  ]

  allow-IsSound : (plugin : Text) (w : WaitingPod) → IsSound w → IsSound (allow plugin w)
  unfolding allow
  allow-IsSound plugin w v =
      signal_if_done-IsSound _
        (change-IsSound (delete plugin w.pending_plugins) w (λ e. rw e refl) v)

  reject-IsSound : (plugin msg : Text) (w : WaitingPod) → IsSound w → IsSound (reject plugin msg w)
  unfolding reject
  reject-IsSound plugin msg w v =
      send-IsSound _ _ (inl (not_success-rejected msg plugin))
        (change-IsSound (stop_all w.pending_plugins) w (λ e. rw (e, stop_all) refl) v)

  fire-IsSound :
      (now : ℕ) (plugin : Text) (w : WaitingPod) → IsSound w → IsSound (fire now plugin w)
  unfolding fire
  fire-IsSound now plugin w v = elim (Option-cases (lookup plugin w.pending_plugins)) [
    | inl e ↦ rw (e, fire) v
    | inr (t, e) ↦ elim (Bool-cases (t.running && leb t.deadline now)) [
      | inl due ↦
          rw (e, fire, due, fire_timer)
            (change-IsSound (insert plugin (stop t) w.pending_plugins)
              (record w { fired = w.fired ++ (plugin, t.wait_time) ∷ [] })
              (λ n. absurd (ground (arith, ap (lookup plugin) n))) v)
      | inr idle ↦ rw (e, fire, idle, fire_timer) v
    ]
  ]

  received-IsSound : (w : WaitingPod) → IsSound w → IsSound (received w (get_signal w))
  unfolding received get_signal
  received-IsSound w v = elim (Option-cases w.s) [
    | inl e ↦ rw (e, get_signal) (inl refl)
    | inr (status, e) ↦ rw (e, get_signal) (inl refl)
  ]

module _ ⦃fw : Framework⦄ (message : ℕ → Text → Text) where
  unfoldable pub step : WaitingPod → Event → WaitingPod
  unfolding received
  step w (allows plugin) = allow plugin w
  step w (rejects plugin msg) = reject plugin msg w
  step w (fires now plugin) = fire now plugin w
  step w runs_fired = run_fired message w
  step w receives = received w (get_signal w)

  unfoldable pub run : WaitingPod → List Event → WaitingPod
  unfolding step
  run w [] = w
  run w (e ∷ es) = run (step w e) es

  run_fired-IsSound : (w : WaitingPod) → IsSound w → IsSound (run_fired message w)
  unfolding run_fired
  run_fired-IsSound w v = by_fired w.fired refl
    where
      by_fired : (l : List (Text × ℕ)) → w.fired ≡ l → IsSound (run_fired message w)
      by_fired [] e = rw (e, run_fired) v
      by_fired ((plugin, wait_time) ∷ rest) e =
          rw (e, run_fired)
            (reject-IsSound plugin (message wait_time plugin) (record w { fired = rest }) v)

  step-IsSound : (w : WaitingPod) (e : Event) → IsSound w → IsSound (step w e)
  unfolding step
  step-IsSound w (allows plugin) v = allow-IsSound plugin w v
  step-IsSound w (rejects plugin msg) v = reject-IsSound plugin msg w v
  step-IsSound w (fires now plugin) v = fire-IsSound now plugin w v
  step-IsSound w runs_fired v = run_fired-IsSound w v
  step-IsSound w receives v = received-IsSound w v

  pub run-IsSound : (w : WaitingPod) (es : List Event) → IsSound w → IsSound (run w es)
  unfolding run
  run-IsSound w [] v = v
  run-IsSound w (e ∷ es) v = run-IsSound (step w e) es (step-IsSound w e v)
