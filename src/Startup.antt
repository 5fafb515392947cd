-- ===== src/Startup.antt =====
-- sched.go: start, which starts the components one after another, plays the scenario and shuts the
-- components down by its deferred calls, whatever fails. Log output and the exit of main are left out.
pub mod Unwound
pub mod Outcome
use mini_kube_scheduler.Common.{◌≡◌, ◌⊎◌, inl, inr, Bool, [], Option, none, some, if◌then◌else◌}
use mini_kube_scheduler.Common.Keys.{Text}
use mini_kube_scheduler.Settings.{ConfigError, new_config}
use mini_kube_scheduler.Service.{
  Service, new_scheduler_service, start_scheduler, shutdown_scheduler,
}
use mini_kube_scheduler.World.{
  World, does, cancels_controller, starts_scheduler, shuts_down_scheduler, runs_scenario,
}
use mini_kube_scheduler.ApiServer.{
  ApiAnswers, ApiStart, config_panicked, api_failed, api_started, start_api_server,
  shutdown_api_server,
}
use mini_kube_scheduler.PvController.{start_persistent_volume_controller}
use mini_kube_scheduler.Scenario.{ScenarioAnswers, scenario}

-- The error of start, by the call that it names; that of DefaultSchedulerConfig is dropped.
pub data StartError : Type 0 where
  get_config : ConfigError → StartError
  start_api_server_failed start_pv_controller start_scheduler_failed start_scenario :
      Text → StartError
  create_scheduler_config : StartError

-- How start ends; the deferred calls run before a panic goes on, too.
pub data Ending : Type 0 where
  returned : (error : Option StartError) → World → Ending
  panicked : World → Ending

abbrev pub world_of : Ending → World
world_of (returned error w) = w
world_of (panicked w) = w

abbrev with_defer : (World → World) → Ending → Ending
with_defer f (returned error w) = returned error (f w)
with_defer f (panicked w) = panicked (f w)

-- The environment, and what the calls answer: whether NewForConfigOrDie panics, the errors of
-- NewController and of minisched.New, and the configuration of DefaultSchedulerConfig.
pub record StartAnswers (C : Type 0) : Type 0 where
  pub env : Text → Text
  pub api : ApiAnswers
  pub client_panics : Bool
  pub controller : Option Text
  pub default_config : Text ⊎ C
  pub minisched : Option Text
  pub scenario : ScenarioAnswers

module _ {C : Type 0} (a : StartAnswers C) where
  pub shut_down : Service C → World → World
  shut_down s w =
      does shuts_down_scheduler (record w { contexts = shutdown_scheduler s w.contexts })

  -- What start does after the scheduler is started, and before, back to its first line.
  pub play_scenario : Service C → World → Ending
  unfolding shut_down
  play_scenario s w = with_defer (shut_down s) (
      returned
        (elim (scenario a.scenario).0 [ none ↦ none | some text ↦ some (start_scenario text) ])
        (does runs_scenario w))

  pub run_scheduler : World → Ending
  unfolding play_scenario
  run_scheduler w = elim a.default_config [
    | inl text ↦ returned (some create_scheduler_config) w
    | inr cfg ↦
        let (err, s, contexts) =
          start_scheduler a.minisched (some cfg) new_scheduler_service w.contexts in
        let w' = record w { contexts = contexts } in
        elim err [
          | some text ↦ returned (some (start_scheduler_failed text)) w'
          | none ↦ play_scenario s (does starts_scheduler w')
        ]
  ]

  pub run_controller : World → Ending
  unfolding run_scheduler
  run_controller w =
      let (err, w') = start_persistent_volume_controller a.controller w in
      elim err [
        | some text ↦ returned (some (start_pv_controller text)) w'
        | none ↦ with_defer (does cancels_controller) (run_scheduler w')
      ]

  pub run_client : World → Ending
  unfolding run_controller
  run_client w = if a.client_panics then panicked w else run_controller w

  unfoldable pub start : World → Ending
  unfolding run_client
  start w = elim (new_config a.env) [
    | inl e ↦ returned (some (get_config e)) w
    | inr cfg ↦ elim (start_api_server a.api w) [
      | config_panicked w' ↦ panicked w'
      | api_failed text w' ↦ returned (some (start_api_server_failed text)) w'
      | api_started w' ↦ with_defer shutdown_api_server (run_client w')
    ]
  ]
