-- ===== src/Minisched/System/Reasons.antt =====
-- minisched: why a pod is bound, after any steps of the scheduler's goroutines.
use mini_kube_scheduler.Common.{ℕ, ◌≡◌, List, [], ◌∷◌, ◌++◌, All, All-map, All-In, In, some}
use mini_kube_scheduler.Common.Keys.{Text}
use mini_kube_scheduler.Framework.{Framework}
use mini_kube_scheduler.Minisched.Types.{Scheduler}
use mini_kube_scheduler.Minisched.Cycle.{Answers, Binding}
use mini_kube_scheduler.Minisched.Cycle.Justified.{IsJustified, pod-IsJustified}
use mini_kube_scheduler.Minisched.System
use mini_kube_scheduler.Minisched.System.{System, Step, Runs, IsFresh, init}

All-split :
    {A : Type 0} (P : A → Type 0) (before after : List A) (a : A)
    → All P (before ++ a ∷ after)
    → P a × All P (before ++ after)
All-split P [] after a h = h
All-split P (b ∷ before) after a h =
    let (at, rest) = All-split P before after a h.1 in (at, (h.0, rest))

module _ ⦃fw : Framework⦄ (message : ℕ → Text → Text) where
  module _ (s : System) where
    -- A binding was decided in an earlier state, on the answers of a cycle of its pod.
    abbrev pub WasDecided : System → Binding → Type 0
    WasDecided t b =
        (u : System) × (a : Answers) × Runs message s u
        × Runs message u t
        × (u.scheduling ≡ some b.pod)
        × IsJustified a u.sched b

    -- So was each binding of a goroutine or of a bound pod.
    record AreDecided (t : System) : Type 0 where
      waiting : All (WasDecided t) t.waiting
      binding : All (WasDecided t) t.binding
      bindings : All (WasDecided t) t.bindings

    WasDecided-later :
        (t v : System) → Step message t v → (b : Binding) → WasDecided t b → WasDecided v b
    WasDecided-later t v st b (u, a, before, after, busy, why) =
        (u, a, before, System.later after st, busy, why)

    Step-AreDecided :
        (t v : System) → Runs message s t → Step message t v → AreDecided t → AreDecided v
    Step-AreDecided t v r st inv = by_step v st
      where
        -- The bindings of the next state, decided before this one.
        later :
            (u : System)
            → Step message t u
            → All (WasDecided t) u.waiting
            → All (WasDecided t) u.binding
            → All (WasDecided t) u.bindings
            → AreDecided u
        later u su w b bs = record {
          waiting = All-map (WasDecided-later t u su) u.waiting w;
          binding = All-map (WasDecided-later t u su) u.binding b;
          bindings = All-map (WasDecided-later t u su) u.bindings bs;
        }

        by_step : (u : System) → Step message t u → AreDecided u
        by_step _ (System.starts a pod b allows sched busy h) =
            let (why, same) = pod-IsJustified a pod t.sched h in
            later _ (System.starts a pod b allows sched busy h)
              ((t, a, r, System.stays, rw same busy, why), inv.waiting) inv.binding inv.bindings
        by_step _ (System.is_permitted before after b status waiting_pods at h ok) =
            let (its, rest) = All-split (WasDecided t) before after b (rw (← at) inv.waiting) in
            later _ (System.is_permitted before after b status waiting_pods at h ok) rest
              (its, inv.binding) inv.bindings
        by_step _ (System.is_refused now before after b status waiting_pods at h ok) =
            let (its, rest) = All-split (WasDecided t) before after b (rw (← at) inv.waiting) in
            later _ (System.is_refused now before after b status waiting_pods at h ok) rest
              inv.binding inv.bindings
        by_step _ (System.is_bound now before after b sched at h) =
            let (its, rest) = All-split (WasDecided t) before after b (rw (← at) inv.binding) in
            later _ (System.is_bound now before after b sched at h) inv.waiting rest
              (its, inv.bindings)
        by_step _ (System.bind_fails now text before after b sched at h) =
            let (its, rest) = All-split (WasDecided t) before after b (rw (← at) inv.binding) in
            later _ (System.bind_fails now text before after b sched at h) inv.waiting rest
              inv.bindings
        by_step _ (System.adds now pod) =
            later _ (System.adds now pod) inv.waiting inv.binding inv.bindings
        by_step _ (System.changes_node now funcs change) =
            later _ (System.changes_node now funcs change) inv.waiting inv.binding inv.bindings
        by_step _ (System.takes pod queue idle h) =
            later _ (System.takes pod queue idle h) inv.waiting inv.binding inv.bindings
        by_step _ (System.rejects a pod allows sched busy h) =
            later _ (System.rejects a pod allows sched busy h) inv.waiting inv.binding inv.bindings
        by_step _ (System.allows before after uid plugin w at found) =
            later _ (System.allows before after uid plugin w at found) inv.waiting inv.binding
              inv.bindings
        by_step _ (System.fires now uid plugin w found) =
            later _ (System.fires now uid plugin w found) inv.waiting inv.binding inv.bindings
        by_step _ (System.runs_fired uid w found) =
            later _ (System.runs_fired uid w found) inv.waiting inv.binding inv.bindings

    runs-AreDecided : (t : System) → Runs message s t → AreDecided s → AreDecided t
    runs-AreDecided _ System.stays inv = inv
    runs-AreDecided _ (System.later {t} {u} r st) inv =
        Step-AreDecided t u r st (runs-AreDecided t r inv)

  pub runs-decided :
      (sched : Scheduler) (t : System) (b : Binding)
      → Runs message (init sched) t
      → In b t.bindings
      → WasDecided (init sched) t b
  runs-decided sched t b r member =
      let none_yet : AreDecided (init sched) (init sched) = record {
        waiting = tt;
        binding = tt;
        bindings = tt;
      } in
      All-In (WasDecided (init sched) t) t.bindings b
        (runs-AreDecided (init sched) t r none_yet).bindings member
