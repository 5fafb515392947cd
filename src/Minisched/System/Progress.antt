-- ===== src/Minisched/System/Progress.antt =====
-- minisched: no pod waits without a goroutine, and no goroutine waits for ever.
use mini_kube_scheduler.Common.{
  ℕ, ◌≡◌, ◌≢◌, refl, ◌∙◌, ap, sym, subst, inl, inr, true, List, [], ◌∷◌, arith, All, none, some,
  Option-cases,
}
use mini_kube_scheduler.Common.Keys.{Text, text_eq, eq_refl}
use mini_kube_scheduler.Common.Maps.{lookup, lookup-insert}
use mini_kube_scheduler.Framework.{Framework, Pod}
use mini_kube_scheduler.WaitingPod.{WaitingPod, Timer, get_signal, allow, fire, run_fired}
use mini_kube_scheduler.WaitingPod.Live.{
  IsLive, allow-IsLive, fire-IsLive, fire-due, run_fired-signals, run_fired-IsLive,
}
use mini_kube_scheduler.Minisched.Types.{Scheduler, other}
use mini_kube_scheduler.Minisched.Permits.{wait_on_permit}
use mini_kube_scheduler.Minisched.Cycle.{bind_pod, get_waiting_pod}
use mini_kube_scheduler.Minisched.Cycle.Accounts.{MayWait, schedule_pod-IsAccounted, error_func_lem}
use mini_kube_scheduler.Minisched.Handlers.{on_pod_added}
use mini_kube_scheduler.Minisched.Handlers.Requeue.{on_node-waiting_pods}
use mini_kube_scheduler.Minisched.System
use mini_kube_scheduler.Minisched.System.{System, Step, Runs, IsFresh, init, with_waiting_pod}
use mini_kube_scheduler.Minisched.System.Waits.{
  waits_for, IsAttended, call-IsAttended, starts-IsAttended, ends-IsAttended,
}

module _ ⦃fw : Framework⦄ (message : ℕ → Text → Text) where
  -- A step that leaves the goroutines and the waiting pods as they were.
  quiet-IsAttended :
      (s t : System)
      → t.waiting ≡ s.waiting
      → t.sched.waiting_pods ≡ s.sched.waiting_pods
      → IsAttended s
      → IsAttended t
  quiet-IsAttended s t e f inv = record {
    entry =
        λ uid w h. let (attended, live) = inv.entry uid w (ground arith) in (ground arith, live);
  }

  Step-IsAttended : (s t : System) → Step message s t → IsAttended s → IsAttended t
  unfolding on_pod_added bind_pod
  Step-IsAttended s _ (System.adds now pod) inv = quiet-IsAttended s _ refl (ground arith) inv
  Step-IsAttended s _ (System.changes_node now funcs change) inv =
      quiet-IsAttended s _ refl (on_node-waiting_pods now funcs change s.sched) inv
  Step-IsAttended s _ (System.takes pod queue idle h) inv = quiet-IsAttended s _ refl refl inv
  Step-IsAttended s _ (System.rejects a pod allows sched busy h) inv =
      elim (schedule_pod-IsAccounted a pod s.sched) [
        | inl e ↦ absurd (cc)
        | inr (inl (allows', info, same, e)) ↦ quiet-IsAttended s _ refl (ground arith) inv
        | inr (inr (allows', node_name, waiting_pods, e, may)) ↦ absurd (cc)
      ]
  Step-IsAttended s _ (System.starts a pod b allows sched busy h) inv =
      elim (schedule_pod-IsAccounted a pod s.sched) [
        | inl e ↦ absurd (cc)
        | inr (inl (allows', info, same, e)) ↦ absurd (cc)
        | inr (inr (allows', node_name, waiting_pods, e, may)) ↦
            let its : pod ≡ b.pod = ground arith in
            let now_waiting : waiting_pods ≡ sched.waiting_pods = ground arith in
            let joined = subst (MayWait a pod s.sched) now_waiting may in
            starts-IsAttended s _ a.now b refl
              (subst (λ p. MayWait a p s.sched sched.waiting_pods) its joined) inv
      ]
  Step-IsAttended s _ (System.is_permitted before after b status waiting_pods at h ok) inv =
      ends-IsAttended s _ before after b status at refl h inv
  Step-IsAttended s _ (System.is_refused now before after b status waiting_pods at h ok) inv =
      let (info, same, e) =
        error_func_lem now b.pod none (record s.sched { waiting_pods = waiting_pods }) in
      ends-IsAttended s _ before after b status at refl
        (h ∙ ap (λ m. some (status, m)) (sym (ap (λ sc. sc.waiting_pods) e))) inv
  Step-IsAttended s _ (System.is_bound now before after b sched at h) inv =
      quiet-IsAttended s _ refl (ground arith) inv
  Step-IsAttended s _ (System.bind_fails now text before after b sched at h) inv =
      let (info, same, e) = error_func_lem now b.pod (some (other text)) s.sched in
      quiet-IsAttended s _ refl (ground arith) inv
  Step-IsAttended s _ (System.allows before after uid plugin w at found) inv =
      let now_allowed =
        call-IsAttended s uid w (allow plugin w) found (allow-IsLive plugin w) inv in
      quiet-IsAttended (record s { sched = with_waiting_pod uid (allow plugin w) s.sched }) _ refl
        refl now_allowed
  Step-IsAttended s _ (System.fires now uid plugin w found) inv =
      call-IsAttended s uid w (fire now plugin w) found (fire-IsLive now plugin w) inv
  Step-IsAttended s _ (System.runs_fired uid w found) inv =
      call-IsAttended s uid w (run_fired message w) found (run_fired-IsLive message w) inv

  runs-IsAttended_lem : (s t : System) → Runs message s t → IsAttended s → IsAttended t
  runs-IsAttended_lem s _ System.stays inv = inv
  runs-IsAttended_lem s _ (System.later {t} {u} r st) inv =
      Step-IsAttended t u st (runs-IsAttended_lem s t r inv)

  -- However the goroutines of a scheduler that New made are interleaved, each waiting pod has a
  -- goroutine in WaitOnPermit that waits for it, and it has a signal, a timer that has fired, or
  -- timers that all run.
  pub runs-IsAttended :
      (sched : Scheduler) (s : System)
      → IsFresh sched
      → Runs message (init sched) s
      → (uid : Text) (w : WaitingPod) → lookup uid s.sched.waiting_pods ≡ some w
      → (waits_for uid s.waiting ≡ true) × IsLive w
  runs-IsAttended sched s fresh r =
      (runs-IsAttended_lem (init sched) s r
        (record { entry = λ uid w h. absurd (ground (arith, fresh.nobody)) })).entry

  -- WaitOnPermit does not block on a pod that has a signal.
  signalled-goes_on :
      (pod : Pod) (m : List (Text × WaitingPod)) (w : WaitingPod) (status : fw.Status)
      → lookup pod.uid m ≡ some w
      → w.s ≡ some status
      → wait_on_permit pod m ≢ none
  unfolding wait_on_permit get_signal
  signalled-goes_on pod m w status e f = ground arith

  -- The system after one call on a waiting pod.
  abbrev called : System → Text → WaitingPod → System
  called s uid w = record s { sched = with_waiting_pod uid w s.sched }

  lookup-called :
      (s : System) (uid : Text) (w : WaitingPod)
      → lookup uid (called s uid w).sched.waiting_pods ≡ some w
  lookup-called s uid w = ground (arith, lookup-insert uid uid w s.sched.waiting_pods, eq_refl uid)

  -- The goroutine of a pod can go on, after steps that leave the goroutines as they were.
  abbrev pub CanGoOn : System → Pod → Type 0
  CanGoOn s pod =
      (t : System) × Runs message s t
      × (t.waiting ≡ s.waiting)
      × (wait_on_permit pod t.sched.waiting_pods ≢ none)

  fired-CanGoOn :
      (s t : System) (pod : Pod) (w : WaitingPod)
      → Runs message s t
      → t.waiting ≡ s.waiting
      → lookup pod.uid t.sched.waiting_pods ≡ some w
      → w.fired ≢ []
      → CanGoOn s pod
  unfolding get_waiting_pod
  fired-CanGoOn s t pod w r same found f =
      let (status, signal) = run_fired-signals message w f in
      let w' = run_fired message w in
      let u = called t pod.uid w' in
      (
        u,
        System.later r (System.runs_fired pod.uid w found),
        same,
        signalled-goes_on pod u.sched.waiting_pods w' status (lookup-called t pod.uid w') signal,
      )

  timers-CanGoOn :
      (s : System) (pod : Pod) (w : WaitingPod)
      → lookup pod.uid s.sched.waiting_pods ≡ some w
      → (m : List (Text × Timer)) → w.pending_plugins ≡ m
      → m ≢ []
      → All (λ e. e.1.running ≡ true) m
      → CanGoOn s pod
  unfolding get_waiting_pod
  timers-CanGoOn s pod w found [] e n run = absurd (n refl)
  timers-CanGoOn s pod w found ((plugin, timer) ∷ m) e n run =
      let w' = fire timer.deadline plugin w in
      let t = called s pod.uid w' in
      fired-CanGoOn s t pod w'
        (System.later System.stays (System.fires timer.deadline pod.uid plugin w found)) refl
        (lookup-called s pod.uid w') (fire-due plugin timer m w e run.0)

  pub runs-CanGoOn :
      (sched : Scheduler) (s : System) (pod : Pod)
      → IsFresh sched
      → Runs message (init sched) s
      → CanGoOn s pod
  unfolding wait_on_permit
  runs-CanGoOn sched s pod fresh r = elim (Option-cases (lookup pod.uid s.sched.waiting_pods)) [
    | inl e ↦ (s, System.stays, refl, ground arith)
    | inr (w, e) ↦ by_life w e (runs-IsAttended sched s fresh r pod.uid w e).1
  ]
    where
      by_life :
          (w : WaitingPod) → lookup pod.uid s.sched.waiting_pods ≡ some w → IsLive w → CanGoOn s pod
      by_life w e (inl (status, f)) =
          (s, System.stays, refl, signalled-goes_on pod s.sched.waiting_pods w status e f)
      by_life w e (inr (inl f)) = fired-CanGoOn s s pod w System.stays refl e f
      by_life w e (inr (inr (n, run))) = timers-CanGoOn s pod w e w.pending_plugins refl n run
