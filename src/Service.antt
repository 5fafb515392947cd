-- ===== src/Service.antt =====
-- scheduler/scheduler.go: the service that starts, restarts and shuts down the scheduler. A number
-- stands for a context; what minisched.New returns is an argument.
pub mod Managed
pub mod Conversion
use mini_kube_scheduler.Common.{
  ℕ, ◌+◌, ◌≡◌, Bool, List, [], ◌∷◌, ◌++◌, Option, none, some, if◌then◌else◌,
}
use mini_kube_scheduler.Common.Keys.{Text, str}

-- The contexts: how many were made, which of them are cancelled, and on which a scheduler runs.
pub record Contexts : Type 0 where
  pub made : ℕ
  pub cancelled : List ℕ
  pub running : List ℕ

abbrev pub cancel : ℕ → Contexts → Contexts
cancel c w = record w { cancelled = c ∷ w.cancelled }

-- KubeSchedulerConfiguration is the type C; a pointer to it may be nil.
pub record Service (C : Type 0) : Type 0 where
  pub shutdownfn : Option ℕ
  pub current_scheduler_cfg : Option C

module _ {C : Type 0} where
  unfoldable pub new_scheduler_service : Service C
  new_scheduler_service = record { shutdownfn = none; current_scheduler_cfg = none }

  unfoldable pub shutdown_scheduler : Service C → Contexts → Contexts
  shutdown_scheduler s w = elim s.shutdownfn [ none ↦ w | some c ↦ cancel c w ]

  abbrev pub get_scheduler_config : Service C → Option C
  get_scheduler_config s = s.current_scheduler_cfg

  -- `error` is the text of the error of minisched.New, if there is one; `some` is the text of an
  -- error.
  unfoldable pub start_scheduler :
      (error : Option Text) → Option C → Service C → Contexts → Option Text × Service C × Contexts
  start_scheduler error cfg s w =
      let ctx = w.made in
      let w' = record w { made = ctx + 1 } in
      let s' = record s { current_scheduler_cfg = cfg } in
      elim error [
        | some text ↦ (some (str "create minisched: " ++ text), s', cancel ctx w')
        | none ↦
            (none, record s' { shutdownfn = some ctx }, record w' { running = ctx ∷ w'.running })
      ]

  -- The error is wrapped.
  unfoldable pub restart_scheduler :
      (error : Option Text) → Option C → Service C → Contexts → Option Text × Service C × Contexts
  unfolding shutdown_scheduler start_scheduler
  restart_scheduler error cfg s w =
      let (err, s', w') = start_scheduler error cfg s (shutdown_scheduler s w) in
      (elim err [ none ↦ none | some text ↦ some (str "start scheduler: " ++ text) ], s', w')
