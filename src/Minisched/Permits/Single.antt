-- ===== src/Minisched/Permits/Single.antt =====
-- minisched/minisched.go: RunPermitPlugins with one plugin, which succeeds or asks to wait.
use mini_kube_scheduler.Common.{
  ℕ, ◌≡◌, refl, ◌∙◌, ap, ◌⊎◌, inl, inr, true, false, not, ◌&&◌, List, [], ◌∷◌, arith, none, some,
}
use mini_kube_scheduler.Common.Keys.{Text, text_eq}
use mini_kube_scheduler.Common.Maps.{insert}
use mini_kube_scheduler.Framework.{
  Framework, Pod, wait, is_success_code, is_unschedulable_code, is_wait_code, is_success-nil,
}
use mini_kube_scheduler.NodeNumber.{Permitted}
use mini_kube_scheduler.WaitingPod.{WaitingPod, new_waiting_pod}
use mini_kube_scheduler.Minisched.Types.{PermitPlugin}
use mini_kube_scheduler.Minisched.Permits.{
  PermitRun, PermitLoop, permit_round, permit_loop, permit_end, run_permit_plugins, wait_message,
  with_allow,
}

module _ ⦃fw : Framework⦄ (now : ℕ) (state : fw.CycleState) (pod : Pod) (node_name : Text)
    (waiting_pods : List (Text × WaitingPod)) (pl : PermitPlugin) (p : Permitted fw.Status)
    (answer : pl.permit state pod node_name ≡ some p) where
  abbrev pub Agreed : Type 0
  Agreed =
      (r : PermitRun) × (run_permit_plugins now state pod node_name (pl ∷ []) waiting_pods ≡ some r)
      × ((not (is_wait_code (fw.code r.status)) && not (fw.is_success r.status)) ≡ false)
      × (r.allows ≡ with_allow pl.name p.allow_after [])
      × ((r.waiting_pods ≡ waiting_pods)
          ⊎ (fw.code p.status ≡ wait)
            × (r.waiting_pods
                ≡ insert pod.uid (new_waiting_pod now pod ((pl.name, p.timeout) ∷ []))
                    waiting_pods))

  start : PermitLoop
  start = record { rejected = none; plugins_wait_time = []; asked_to_wait = false; allows = [] }

  runs :
      (permit_round pl.name p start).rejected ≡ none
      → run_permit_plugins now state pod node_name (pl ∷ []) waiting_pods
        ≡ some (permit_end now pod waiting_pods (permit_round pl.name p start))
  unfolding run_permit_plugins permit_loop start
  runs kept = rw (answer, run_permit_plugins, permit_loop, kept) refl

  pub run_permit_plugins-one : (fw.is_success p.status ≡ true) ⊎ (fw.code p.status ≡ wait) → Agreed
  unfolding permit_end permit_round start
  run_permit_plugins-one (inl ok) =
      let nil : fw.is_success fw.nil_status ≡ true = is_success-nil in
      (
        permit_end now pod waiting_pods (permit_round pl.name p start),
        runs (ground arith),
        ground arith,
        ground arith,
        inl (ground arith),
      )
  run_permit_plugins-one (inr waits) =
      let refused : fw.is_success p.status ≡ false =
        fw.is_success-code p.status ∙ ap is_success_code waits in
      let able : fw.is_unschedulable p.status ≡ false =
        fw.is_unschedulable-code p.status ∙ ap is_unschedulable_code waits in
      let coded = fw.code-new wait (wait_message pod.name) in
      (
        permit_end now pod waiting_pods (permit_round pl.name p start),
        runs (rw (refused, permit_round, able, waits) refl),
        ground arith,
        ground arith,
        inr (waits, ground arith),
      )
