-- ===== src/Minisched/Cycle/Goroutine.antt =====
-- minisched/minisched.go: the goroutine that binds a pod, after the permit phase.
use mini_kube_scheduler.Common.{
  ℕ, ◌≡◌, ap, ◌∙◌, ◌⊎◌, inl, inr, true, ◌&&◌, List, arith, In, In→any, Option, none, some,
  Option-cases, Bool-cases, if◌then◌else◌,
}
use mini_kube_scheduler.Common.Keys.{Text, text_eq, ◌==◌, eq_refl}
use mini_kube_scheduler.Common.Maps.{lookup, delete, lookup-insert, lookup-delete}
use mini_kube_scheduler.Framework.{Framework, Pod, wait, is_success-with}
use mini_kube_scheduler.WaitingPod.{WaitingPod, new_waiting_pod, get_signal}
use mini_kube_scheduler.WaitingPod.History.{Event, allows, run}
use mini_kube_scheduler.WaitingPod.Verdicts.{success-allowed}
use mini_kube_scheduler.Minisched.Types.{PermitPlugin, Scheduler}
use mini_kube_scheduler.Minisched.Permits.{
  PermitRun, run_permit_plugins, wait_on_permit, signal_status, wait_error,
}
use mini_kube_scheduler.Minisched.Permits.Verdict.{
  key-lookup, has_key, waits, run_permit_plugins_lem,
}
use mini_kube_scheduler.Minisched.Cycle.{
  Binding, blocked, fails, bound, bind_pod, binding_cycle, error_func,
}

module _ ⦃fw : Framework⦄ where
  signal_status-success : (s : fw.Status) → fw.is_success (signal_status s) ≡ fw.is_success s
  unfolding signal_status
  signal_status-success s = elim (Bool-cases (fw.is_success s)) [
    | inl e ↦ ground (arith, fw.is_success-code fw.nil_status, fw.code-nil)
    | inr e ↦ ground (
      arith,
      is_success-with s (fw.failed_plugin s),
      is_success-with (fw.as_status (wait_error (fw.as_error s))) (fw.failed_plugin s),
      fw.is_success-code (fw.as_status (wait_error (fw.as_error s))),
      fw.code-as_status (wait_error (fw.as_error s)),
    )
  ]

  -- How the goroutine ends. A pod that is not waiting is bound, or put back if the API server
  -- refuses. A waiting pod blocks it until there is a signal; then the pod waits no more, and it is
  -- bound, unless the signal is no success or the API server refuses.
  pub binding_cycle_lem :
      (now : ℕ) (answer : Option Text) (b : Binding) (sched : Scheduler)
      → ((lookup b.pod.uid sched.waiting_pods ≡ none)
          × (binding_cycle now answer b sched ≡ bind_pod now answer b sched))
        ⊎ ((w : WaitingPod) × (lookup b.pod.uid sched.waiting_pods ≡ some w)
            × (w.s ≡ none)
            × (binding_cycle now answer b sched ≡ blocked))
        ⊎ (w : WaitingPod) × (s : fw.Status) × (lookup b.pod.uid sched.waiting_pods ≡ some w)
          × (w.s ≡ some s)
          × (binding_cycle now answer b sched ≡ (
              if fw.is_success s
              then bind_pod now answer b
                  (record sched { waiting_pods = delete b.pod.uid sched.waiting_pods })
              else fails (
                  error_func now b.pod none
                    (record sched { waiting_pods = delete b.pod.uid sched.waiting_pods }))))
  unfolding binding_cycle wait_on_permit get_signal
  binding_cycle_lem now answer b sched = elim (Option-cases (lookup b.pod.uid sched.waiting_pods)) [
    | inl e ↦ inl (e, ground (arith, fw.is_success-code fw.nil_status, fw.code-nil))
    | inr (w, e) ↦ elim (Option-cases w.s) [
      | inl f ↦ inr (inl (w, e, f, ground arith))
      | inr (s, f) ↦ inr (inr (w, s, e, f, ground (arith, signal_status-success s)))
    ]
  ]

  bound-signal :
      (now : ℕ) (b : Binding) (sched sched' : Scheduler) (w : WaitingPod)
      → lookup b.pod.uid sched.waiting_pods ≡ some w
      → binding_cycle now none b sched ≡ bound sched'
      → (s : fw.Status) × (w.s ≡ some s)
        × (fw.is_success s ≡ true)
        × (lookup b.pod.uid sched'.waiting_pods ≡ none)
  unfolding bind_pod
  bound-signal now b sched sched' w found h = elim (binding_cycle_lem now none b sched) [
    | inl (e, f) ↦ absurd (cc)
    | inr (inl (v, e, f, g)) ↦ absurd (cc)
    | inr (inr (v, s, e, f, g)) ↦ elim (Bool-cases (fw.is_success s)) [
      | inl ok ↦
          let same : bound (record sched { waiting_pods = delete b.pod.uid sched.waiting_pods })
              ≡ bound sched' =
            ground arith in
          (
            s,
            ground arith,
            ok,
            ground (
              arith,
              same,
              lookup-delete b.pod.uid b.pod.uid sched.waiting_pods,
              eq_refl b.pod.uid,
            ),
          )
      | inr bad ↦ absurd (ground arith)
    ]
  ]

  asked-allowed :
      (message : ℕ → Text → Text) (now : ℕ) (pod : Pod) (times : List (Text × ℕ)) (k : Text)
      (es : List Event) (s : fw.Status)
      → has_key k times ≡ true
      → (run message (new_waiting_pod now pod times) es).s ≡ some s
      → fw.is_success s ≡ true
      → In (allows k) es
  unfolding get_signal
  asked-allowed message now pod times k es s asked signal ok =
      let w = run message (new_waiting_pod now pod times) es in
      let got : get_signal w ≡ some (s, record w { s = none }) = ground arith in
      let (t, found) = key-lookup k times asked in
      success-allowed message now pod times es s (record w { s = none }) k t got ok found

  -- A pod for which RunPermitPlugins answered Wait, and that still waits after any calls, timers and
  -- receives, is bound only if every permit plugin that asked to wait has allowed it; the pod then
  -- waits no more.
  pub binding_cycle-allowed :
      (message : ℕ → Text → Text) (state : fw.CycleState) (pod : Pod) (node_name : Text)
      (permit_time bind_time : ℕ) (pls : List PermitPlugin)
      (waiting_pods : List (Text × WaitingPod)) (r : PermitRun) (pl : PermitPlugin) (w : WaitingPod)
      (es : List Event) (sched sched' : Scheduler)
      → run_permit_plugins permit_time state pod node_name pls waiting_pods ≡ some r
      → fw.code r.status ≡ wait
      → In pl pls
      → waits state pod node_name pl ≡ true
      → lookup pod.uid r.waiting_pods ≡ some w
      → lookup pod.uid sched.waiting_pods ≡ some (run message w es)
      → binding_cycle bind_time none (record { pod = pod; node_name = node_name }) sched
        ≡ bound sched'
      → In (allows pl.name) es × (lookup pod.uid sched'.waiting_pods ≡ none)
  binding_cycle-allowed message state pod node_name permit_time bind_time pls waiting_pods r pl w es
        sched sched' ran waiting member asks entry later h =
      let (s, signal, ok, gone) =
        bound-signal bind_time _ sched sched' (run message w es) later h in
      elim (run_permit_plugins_lem state pod node_name permit_time pls waiting_pods r pl.name ran) [
        | inl (refuser, i, refuses, rejection, name, same) ↦ absurd (ground arith)
        | inr (inl (all, one, code, times, entries, asked)) ↦
            let created : new_waiting_pod permit_time pod times ≡ w = ground (
              arith,
              ap (lookup pod.uid) entries,
              lookup-insert pod.uid pod.uid (new_waiting_pod permit_time pod times) waiting_pods,
              eq_refl pod.uid,
            ) in
            let listed =
              In→any (λ q. waits state pod node_name q && q.name == pl.name) pls pl member
                (ground (arith, eq_refl pl.name)) in
            (
              asked-allowed message permit_time pod times pl.name es s (asked ∙ listed)
                  (rw created signal) ok,
              gone,
            )
        | inr (inr (all, nobody, nil, same)) ↦ absurd (ground (arith, fw.code-nil))
      ]
