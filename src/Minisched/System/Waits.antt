-- ===== src/Minisched/System/Waits.antt =====
-- minisched: the waiting pods, after any steps of the scheduler's goroutines.
use mini_kube_scheduler.Common.{
  ℕ, ◌≡◌, refl, ap, ◌⊎◌, inl, inr, Bool, true, false, List, [], ◌∷◌, ◌++◌, arith, any, none, some,
  Option-cases, Bool-cases, if◌then◌else◌,
}
use mini_kube_scheduler.Common.Keys.{Text, text_eq, ◌==◌, eq_iff}
use mini_kube_scheduler.Common.Maps.{lookup, insert, lookup-insert, lookup-delete}
use mini_kube_scheduler.Framework.{Framework, Pod}
use mini_kube_scheduler.WaitingPod.{WaitingPod, new_waiting_pod, get_signal}
use mini_kube_scheduler.WaitingPod.Live.{IsLive, new_waiting_pod-IsLive}
use mini_kube_scheduler.Minisched.Permits.{wait_on_permit}
use mini_kube_scheduler.Minisched.Permits.Verdict.{key-lookup, has_key}
use mini_kube_scheduler.Minisched.Cycle.{Binding, get_waiting_pod}
use mini_kube_scheduler.Minisched.System.{System, with_waiting_pod}

-- A goroutine of a list waits for the pod of a uid.
abbrev pub waits_for : Text → List Binding → Bool
waits_for uid bs = any (λ b. b.pod.uid == uid) bs

waits_for_other :
    (uid : Text) (before after : List Binding) (b : Binding)
    → (b.pod.uid == uid) ≡ false
    → waits_for uid (before ++ b ∷ after) ≡ true
    → waits_for uid (before ++ after) ≡ true
waits_for_other uid [] after b n h = ground arith
waits_for_other uid (c ∷ before) after b n h = ground (arith, waits_for_other uid before after b)

module _ ⦃fw : Framework⦄ where
  -- Each waiting pod has a goroutine that waits for it, and is live.
  pub record IsAttended (s : System) : Type 0 where
    pub entry :
        (uid : Text) (w : WaitingPod)
        → lookup uid s.sched.waiting_pods ≡ some w
        → (waits_for uid s.waiting ≡ true) × IsLive w

  -- A call on one waiting pod.
  pub call-IsAttended :
      (s : System) (uid : Text) (w w' : WaitingPod)
      → get_waiting_pod uid s.sched ≡ some w
      → (IsLive w → IsLive w')
      → IsAttended s
      → IsAttended (record s { sched = with_waiting_pod uid w' s.sched })
  unfolding get_waiting_pod
  call-IsAttended s uid w w' found keeps inv = record { entry = at }
    where
      at :
          (uid' : Text) (v : WaitingPod)
          → lookup uid' (insert uid w' s.sched.waiting_pods) ≡ some v
          → (waits_for uid' s.waiting ≡ true) × IsLive v
      at uid' v h = elim (Bool-cases (uid == uid')) [
        | inl e ↦
            let same = (eq_iff uid uid').0 e in
            let (attended, live) = inv.entry uid w found in
            let new : w' ≡ v = ground (arith, lookup-insert uid uid' w' s.sched.waiting_pods) in
            (rw (← same) attended, rw (← new) (keeps live))
        | inr e ↦ inv.entry uid' v (ground (arith, lookup-insert uid uid' w' s.sched.waiting_pods))
      ]

  -- A goroutine is started, and its pod may wait.
  pub starts-IsAttended :
      (s t : System) (now : ℕ) (b : Binding)
      → t.waiting ≡ b ∷ s.waiting
      → (t.sched.waiting_pods ≡ s.sched.waiting_pods)
        ⊎ ((times : List (Text × ℕ)) × (plugin : Text) × (has_key plugin times ≡ true)
            × (t.sched.waiting_pods
                ≡ insert b.pod.uid (new_waiting_pod now b.pod times) s.sched.waiting_pods))
      → IsAttended s
      → IsAttended t
  starts-IsAttended s t now b more (inl same) inv = record {
    entry =
        λ uid w h. let (attended, live) = inv.entry uid w (ground arith) in (ground arith, live);
  }
  starts-IsAttended s t now b more (inr (times, plugin, asked, put)) inv = record { entry = at }
    where
      at :
          (uid : Text) (w : WaitingPod)
          → lookup uid t.sched.waiting_pods ≡ some w
          → (waits_for uid t.waiting ≡ true) × IsLive w
      at uid w h =
          let new = new_waiting_pod now b.pod times in
          let put_at = lookup-insert b.pod.uid uid new s.sched.waiting_pods in
          elim (Bool-cases (b.pod.uid == uid)) [
            | inl e ↦
                let (d, found) = key-lookup plugin times asked in
                let same : new ≡ w = ground (arith, ap (lookup uid) put) in
                (
                  rw (more, e) refl,
                  rw (← same) (new_waiting_pod-IsLive now b.pod times plugin d found),
                )
            | inr e ↦
                let (attended, live) = inv.entry uid w (ground (arith, ap (lookup uid) put)) in
                (ground arith, live)
          ]

  -- A goroutine ends its wait: no pod waits under its uid any more.
  wait_on_permit-gone :
      (pod : Pod) (m m' : List (Text × WaitingPod)) (status : fw.Status)
      → wait_on_permit pod m ≡ some (status, m')
      → (uid : Text) → lookup uid m' ≡ (if pod.uid == uid then none else lookup uid m)
  unfolding wait_on_permit get_signal
  wait_on_permit-gone pod m m' status h uid = elim (Option-cases (lookup pod.uid m)) [
    | inl e ↦ ground (arith, eq_iff pod.uid uid)
    | inr (w, e) ↦ elim (Option-cases w.s) [
      | inl f ↦ absurd (ground arith)
      | inr (st, f) ↦ ground (arith, lookup-delete pod.uid uid m)
    ]
  ]

  pub ends-IsAttended :
      (s t : System) (before after : List Binding) (b : Binding) (status : fw.Status)
      → s.waiting ≡ before ++ b ∷ after
      → t.waiting ≡ before ++ after
      → wait_on_permit b.pod s.sched.waiting_pods ≡ some (status, t.sched.waiting_pods)
      → IsAttended s
      → IsAttended t
  ends-IsAttended s t before after b status split left h inv = record { entry = at }
    where
      at :
          (uid : Text) (w : WaitingPod)
          → lookup uid t.sched.waiting_pods ≡ some w
          → (waits_for uid t.waiting ≡ true) × IsLive w
      at uid w found =
          let gone =
            wait_on_permit-gone b.pod s.sched.waiting_pods t.sched.waiting_pods status h uid in
          elim (Bool-cases (b.pod.uid == uid)) [
            | inl e ↦ absurd (ground arith)
            | inr e ↦
                let (attended, live) = inv.entry uid w (ground arith) in
                (rw left (waits_for_other uid before after b e (rw (← split) attended)), live)
          ]
