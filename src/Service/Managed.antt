-- ===== src/Service/Managed.antt =====
-- scheduler/scheduler.go: which schedulers are live after a restart.
use mini_kube_scheduler.Common.{
  ℕ, ◌≡◌, ◌≢◌, refl, arith, ◌⊎◌, inl, inr, List, ◌∷◌, In, All, All-map, Option, none, some,
  Option-cases,
}
use mini_kube_scheduler.Common.Keys.{Text}
use mini_kube_scheduler.Service.{
  Contexts, Service, shutdown_scheduler, start_scheduler, restart_scheduler,
}

-- Every scheduler that runs is cancelled, or it is the one that ShutdownScheduler cancels.
abbrev pub IsManaged : {C : Type 0} → Service C → Contexts → Type 0
IsManaged s w = All (λ c. In c w.cancelled ⊎ (s.shutdownfn ≡ some c)) w.running

module _ {C : Type 0} (s : Service C) (w : Contexts) (h : IsManaged s w) where
  -- ShutdownScheduler leaves no scheduler live.
  shutdown-cancelled :
      All (λ c. In c (shutdown_scheduler s w).cancelled) (shutdown_scheduler s w).running
  unfolding shutdown_scheduler
  shutdown-cancelled = elim (Option-cases s.shutdownfn) [
    | inl e ↦
        rw (e, shutdown_scheduler)
          (All-map (λ c m. elim m [ inl i ↦ i | inr f ↦ absurd (cc) ]) w.running h)
    | inr (c, e) ↦
        rw (e, shutdown_scheduler)
          (All-map (λ d m. elim m [ inl i ↦ inr i | inr f ↦ inl (ground arith) ]) w.running h)
  ]

  pub restart_scheduler_lem :
      (error : Option Text) (cfg : Option C)
      → (err : Option Text) × (s' : Service C) × (w' : Contexts) × (restart_scheduler error cfg s w
          ≡ (err, s', w'))
        × IsManaged s' w'
        × (s'.current_scheduler_cfg ≡ cfg)
        × (((error ≢ none) × (err ≢ none) × All (λ c. In c w'.cancelled) w'.running)
            ⊎ (error ≡ none)
              × (err ≡ none)
              × (ctx : ℕ) × (rest : List ℕ) × (w'.running ≡ ctx ∷ rest)
              × (s'.shutdownfn ≡ some ctx)
              × All (λ c. In c w'.cancelled) rest)
  unfolding restart_scheduler start_scheduler
  restart_scheduler_lem none cfg =
      let down = shutdown_scheduler s w in
      (
        _,
        _,
        _,
        refl,
        (inr refl, All-map (λ c i. inl i) down.running shutdown-cancelled),
        refl,
        inr (refl, refl, down.made, down.running, refl, refl, shutdown-cancelled),
      )
  restart_scheduler_lem (some text) cfg =
      let down = shutdown_scheduler s w in
      (
        _,
        _,
        _,
        refl,
        All-map (λ c i. inl (inr i)) down.running shutdown-cancelled,
        refl,
        inl (
          (λ e. absurd (cc e)),
          (λ e. absurd (cc e)),
          All-map (λ c i. inr i) down.running shutdown-cancelled,
        ),
      )
