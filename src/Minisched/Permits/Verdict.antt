-- ===== src/Minisched/Permits/Verdict.antt =====
-- minisched/minisched.go: what RunPermitPlugins returns, by what the plugins answer.
use mini_kube_scheduler.Common.{
  ℕ, ◌≡◌, refl, ◌∙◌, ◌⊎◌, inl, inr, Bool, true, false, not, ◌&&◌, ◌||◌, List, [], ◌∷◌, arith, any,
  In, All, Option, none, some, Option-cases, Bool-cases,
}
use mini_kube_scheduler.Common.Keys.{Text, text_eq, ◌==◌}
use mini_kube_scheduler.Common.Maps.{lookup, insert, lookup-insert}
use mini_kube_scheduler.Framework.{Framework, Pod, wait, is_wait_code, is_success-with}
use mini_kube_scheduler.NodeNumber.{Permitted}
use mini_kube_scheduler.WaitingPod.{WaitingPod, new_waiting_pod}
use mini_kube_scheduler.Minisched.Types.{PermitPlugin}
use mini_kube_scheduler.Minisched.Permits.{
  PermitLoop, permit_round, permit_loop, permit_end, PermitRun, run_permit_plugins, wait_message,
  permit_error,
}

-- A map has a value for the key.
abbrev pub has_key {κ} : {V : Type κ} → Text → List (Text × V) → Bool
has_key k m = elim (lookup k m) [ none ↦ false | some v ↦ true ]

pub key-lookup :
    {V : Type 0} (k : Text) (m : List (Text × V))
    → has_key k m ≡ true
    → (v : V) × (lookup k m ≡ some v)
key-lookup k m h = elim (Option-cases (lookup k m)) [
  | inl e ↦ absurd (ground arith)
  | inr found ↦ found
]

module _ ⦃fw : Framework⦄ where
  abbrev agrees_status : fw.Status → Bool
  agrees_status s = fw.is_success s || is_wait_code (fw.code s)

  -- A status that is neither a success nor a wait.
  abbrev pub IsRejection : fw.Status → Type 0
  IsRejection s = (fw.is_success s ≡ false) × (is_wait_code (fw.code s) ≡ false)

  -- The rounds that end the loop, and those that do not.
  round-rejects :
      (name : Text) (p : Permitted fw.Status) (l : PermitLoop)
      → agrees_status p.status ≡ false
      → (status : fw.Status) × ((permit_round name p l).rejected ≡ some status)
        × IsRejection status
        × (fw.failed_plugin status ≡ name)
  unfolding permit_round
  round-rejects name p l h = elim (Bool-cases (fw.is_unschedulable p.status)) [
    | inl e ↦ (
      fw.with_failed_plugin p.status name,
      ground arith,
      (ground (arith, is_success-with p.status name), ground (arith, fw.code-with p.status name)),
      fw.failed_plugin-with p.status name,
    )
    | inr e ↦
        let failed = fw.as_status (permit_error name (fw.as_error p.status)) in
        (
          fw.with_failed_plugin failed name,
          ground arith,
          (
            ground (
              arith,
              is_success-with failed name,
              fw.is_success-code failed,
              fw.code-as_status (permit_error name (fw.as_error p.status)),
            ),
            ground (
              arith,
              fw.code-with failed name,
              fw.code-as_status (permit_error name (fw.as_error p.status)),
            ),
          ),
          fw.failed_plugin-with failed name,
        )
  ]

  -- A plugin waits: its name gets a wait time.
  round-agrees :
      (name : Text) (p : Permitted fw.Status) (l : PermitLoop) (k : Text)
      → agrees_status p.status ≡ true
      → ((permit_round name p l).rejected ≡ l.rejected)
        × ((permit_round name p l).asked_to_wait
            ≡ (l.asked_to_wait || not (fw.is_success p.status)))
        × (has_key k (permit_round name p l).plugins_wait_time
            ≡ (has_key k l.plugins_wait_time || (not (fw.is_success p.status) && name == k)))
  unfolding permit_round
  round-agrees name p l k h = elim (Bool-cases (fw.is_success p.status)) [
    | inl e ↦ rw e (refl, ground arith, ground arith)
    | inr e ↦
        let not_unschedulable : fw.is_unschedulable p.status ≡ false =
          ground (arith, fw.is_unschedulable-code p.status) in
        let waiting : is_wait_code (fw.code p.status) ≡ true = ground arith in
        rw (e, not_unschedulable, waiting)
          (refl, ground arith, ground (arith, lookup-insert name k p.timeout l.plugins_wait_time))
  ]

module _ ⦃fw : Framework⦄ (state : fw.CycleState) (pod : Pod) (node_name : Text) where
  -- The plugin agrees to the node: it succeeds or asks to wait.
  abbrev pub agrees : PermitPlugin → Bool
  agrees pl = elim (pl.permit state pod node_name) [
    | none ↦ false
    | some p ↦ agrees_status p.status
  ]

  -- The plugin asks to wait.
  abbrev pub waits : PermitPlugin → Bool
  waits pl = elim (pl.permit state pod node_name) [
    | none ↦ false
    | some p ↦ not (fw.is_success p.status) && is_wait_code (fw.code p.status)
  ]

  -- A plugin that rejects, and with it the status of the loop.
  abbrev Rejected : List PermitPlugin → Option fw.Status → Type 0
  Rejected pls rejected =
      (status : fw.Status) × (pl : PermitPlugin) × (rejected ≡ some status)
      × In pl pls
      × (agrees pl ≡ false)
      × IsRejection status
      × (fw.failed_plugin status ≡ pl.name)

  -- All plugins agree, and the loop keeps the names of those that ask to wait.
  abbrev Agreed : List PermitPlugin → PermitLoop → PermitLoop → Text → Type 0
  Agreed pls l l' k =
      All (λ pl. agrees pl ≡ true) pls
      × (l'.rejected ≡ none)
      × (l'.asked_to_wait ≡ (l.asked_to_wait || any waits pls))
      × (has_key k l'.plugins_wait_time
          ≡ (has_key k l.plugins_wait_time || any (λ pl. waits pl && pl.name == k) pls))

  permit_loop_cases :
      (pls : List PermitPlugin) (l l' : PermitLoop) (k : Text)
      → l.rejected ≡ none
      → permit_loop state pod node_name pls l ≡ some l'
      → Rejected pls l'.rejected ⊎ Agreed pls l l' k
  unfolding permit_loop
  permit_loop_cases [] l l' k going h =
      let same : l ≡ l' = cc in inr (rw (← same) (tt, going, ground arith, ground arith))
  permit_loop_cases (pl ∷ pls) l l' k going h =
      elim (Option-cases (pl.permit state pod node_name)) [
        | inl e ↦ absurd (cc (rw (e, permit_loop) at h))
        | inr (p, e) ↦ elim (Bool-cases (agrees_status p.status)) [
          | inl ok ↦
              let (r, a, w) = round-agrees pl.name p l k ok in
              let go_on : permit_loop state pod node_name pls (permit_round pl.name p l) ≡ some l' =
                ground (arith, h, e, r, going) in
              elim (permit_loop_cases pls (permit_round pl.name p l) l' k (r ∙ going) go_on) [
                | inl (status, q, f, i, refuses, rejection, name) ↦
                    inl (status, q, f, inr i, refuses, rejection, name)
                | inr (all, f, a', w') ↦
                    inr ((rw (e, agrees) ok, all), f, ground arith, ground arith)
              ]
          | inr refuses ↦
              let (status, r, rejection, failed) = round-rejects pl.name p l refuses in
              let same : permit_round pl.name p l ≡ l' = ground (arith, h, e, r) in
              inl (status, pl, rw (← same) r, inl refl, rw (e, agrees) refuses, rejection, failed)
        ]
      ]

  -- RunPermitPlugins, when no plugin panics. If a plugin neither succeeds nor waits, the result is
  -- neither a success nor a wait, its failed plugin is such a plugin, and no pod starts to wait. If
  -- all agree and one asks to wait, the code is Wait, and a new waiting pod stands under the pod's
  -- uid, whose plugins are exactly those that asked to wait. If all succeed, the result is nil, and
  -- no pod starts to wait.
  pub run_permit_plugins_lem :
      (now : ℕ) (pls : List PermitPlugin) (waiting_pods : List (Text × WaitingPod)) (r : PermitRun)
      (k : Text)
      → run_permit_plugins now state pod node_name pls waiting_pods ≡ some r
      → ((pl : PermitPlugin) × In pl pls
          × (agrees pl ≡ false)
          × IsRejection r.status
          × (fw.failed_plugin r.status ≡ pl.name)
          × (r.waiting_pods ≡ waiting_pods))
        ⊎ (All (λ pl. agrees pl ≡ true) pls
            × (any waits pls ≡ true)
            × (fw.code r.status ≡ wait)
            × (times : List (Text × ℕ)) × (r.waiting_pods
                ≡ insert pod.uid (new_waiting_pod now pod times) waiting_pods)
            × (has_key k times ≡ any (λ pl. waits pl && pl.name == k) pls))
        ⊎ All (λ pl. agrees pl ≡ true) pls
          × (any waits pls ≡ false)
          × (r.status ≡ fw.nil_status)
          × (r.waiting_pods ≡ waiting_pods)
  unfolding run_permit_plugins permit_end
  run_permit_plugins_lem now pls waiting_pods r k h =
      elim (Option-cases (permit_loop state pod node_name pls start)) [
        | inl e ↦ absurd (cc (rw (e, run_permit_plugins) at h))
        | inr (l, e) ↦
            let ended : permit_end now pod waiting_pods l ≡ r = ground arith in
            elim (permit_loop_cases pls start l k refl e) [
              | inl (status, pl, f, i, refuses, rejection, name) ↦
                  let same : record {
                    status = status;
                    waiting_pods = waiting_pods;
                    allows = l.allows;
                  }
                      ≡ r =
                    ground arith in
                  inl (pl, i, refuses, rw (← same) rejection, rw (← same) name, rw (← same) refl)
              | inr (all, f, asked, times) ↦ elim (Bool-cases (any waits pls)) [
                | inl one ↦ inr (
                    inl (
                      all,
                      one,
                      ground (arith, fw.code-new wait (wait_message pod.name)),
                      l.plugins_wait_time,
                      ground arith,
                      times,
                    ))
                | inr nobody ↦ inr (inr (all, nobody, ground arith, ground arith))
              ]
            ]
      ]
    where
      start : PermitLoop
      start = record { rejected = none; plugins_wait_time = []; asked_to_wait = false; allows = [] }
