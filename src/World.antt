-- ===== src/World.antt =====
-- sched.go, k8sapiserver/k8sapiserver.go, pvcontroller/pvcontroller.go: what the start-up does to the
-- world, as a trace with the newest effect first, and the contexts of the scheduler service. What
-- the started components answer is an argument of the functions that call them.
use mini_kube_scheduler.Common.{List, ◌∷◌}
use mini_kube_scheduler.Service.{Contexts}

-- The server of httptest; the instance of the control plane, its hooks and the channel stopCh; the
-- controller of persistent volumes with its informers, and its context; the scheduler.
pub data Effect : Type 0 where
  opens_server closes_server : Effect
  sets_api_server prepares_run runs_post_start_hooks runs_pre_shutdown_hooks closes_stop_ch : Effect
  runs_controller starts_informers waits_for_cache_sync cancels_controller : Effect
  starts_scheduler shuts_down_scheduler : Effect
  runs_scenario : Effect

pub record World : Type 0 where
  pub trace : List Effect
  pub contexts : Contexts

abbrev pub does : Effect → World → World
does e w = record w { trace = e ∷ w.trace }
