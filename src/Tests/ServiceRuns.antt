-- ===== src/Tests/ServiceRuns.antt =====
-- config/config.go and scheduler/scheduler.go: runs of the settings and of the service.
use mini_kube_scheduler.Common.{
  ℕ, ◌≡◌, ◌≢◌, refl, ◌⊎◌, inl, inr, List, [], ◌∷◌, In, All, Option, none, some, if◌then◌else◌,
}
use mini_kube_scheduler.Common.Int.{pos}
use mini_kube_scheduler.Common.Keys.{Text, str, text_beq, text_eq, ◌==◌}
use mini_kube_scheduler.Strconv.{atoi}
use mini_kube_scheduler.Settings.{Config, get_port_failed, not_an_int, new_config}
use mini_kube_scheduler.Service.{Contexts, Service, restart_scheduler}
use mini_kube_scheduler.Service.Managed.{IsManaged, restart_scheduler_lem}

program : Unit {0}
unfolding text_beq atoi new_config restart_scheduler
program = tt

abbrev env : Text → Text
env name = if name == str "PORT" then str "8080" else str "http://localhost"

abbrev config : Config
config = record {
  port = pos 8080;
  etcd_url = str "http://localhost";
  frontend_url = str "http://localhost";
}

config_runs : new_config env ≡ inr config
unfolding program
config_runs = refl

bad_port : new_config (λ name. str "80a") ≡ inl (get_port_failed not_an_int)
unfolding program
bad_port = refl

abbrev started : Service ℕ
started = record { shutdownfn = some 0; current_scheduler_cfg = some 1 }

abbrev no_error : Option Text
no_error = none

abbrev one_live : Contexts
one_live = record { made = 1; cancelled = []; running = 0 ∷ [] }

restart_scheduler_lem_example :
    (err : Option Text) × (s' : Service ℕ) × (w' : Contexts) × (restart_scheduler no_error
        (some 2)
        started
        one_live
      ≡ (err, s', w'))
    × IsManaged s' w'
    × (s'.current_scheduler_cfg ≡ some 2)
    × (((no_error ≢ none) × (err ≢ none) × All (λ c. In c w'.cancelled) w'.running)
        ⊎ (no_error ≡ none)
          × (err ≡ none)
          × (ctx : ℕ) × (rest : List ℕ) × (w'.running ≡ ctx ∷ rest)
          × (s'.shutdownfn ≡ some ctx)
          × All (λ c. In c w'.cancelled) rest)
restart_scheduler_lem_example = restart_scheduler_lem started one_live (inr refl, tt) none (some 2)
