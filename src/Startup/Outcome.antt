-- ===== src/Startup/Outcome.antt =====
-- sched.go, k8sapiserver/k8sapiserver.go: when start returns no error.
use mini_kube_scheduler.Common.{
  ℕ, ◌≡◌, refl, ◌↔◌, ◌⊎◌, inl, inr, Bool, true, false, List, [], ◌∷◌, arith, any, nat_beq, none,
  some, Option-cases, Bool-cases,
}
use mini_kube_scheduler.Common.Keys.{Text}
use mini_kube_scheduler.Settings.{ConfigError, Config, new_config}
use mini_kube_scheduler.Service.{start_scheduler}
use mini_kube_scheduler.World.{
  World, does, waits_for_cache_sync, starts_informers, runs_controller, cancels_controller,
}
use mini_kube_scheduler.ApiServer.{
  ApiAnswers, instance_made, ApiStart, config_panicked, api_failed, api_started, start_api_server,
  poll_healthz, shutdown_api_server,
}
use mini_kube_scheduler.PvController.{start_persistent_volume_controller}
use mini_kube_scheduler.Scenario.{scenario}
use mini_kube_scheduler.Scenario.Played.{IsWell, scenario_lem}
use mini_kube_scheduler.Startup.{
  StartAnswers, Ending, returned, panicked, with_defer, start, run_client, run_scheduler,
}

-- start returns nil.
abbrev pub succeeded : Ending → Bool
succeeded (returned none w) = true
succeeded (returned (some e) w) = false
succeeded (panicked w) = false

succeeded-with_defer : (f : World → World) (e : Ending) → succeeded (with_defer f e) ≡ succeeded e
succeeded-with_defer f (returned none w) = refl
succeeded-with_defer f (returned (some e) w) = refl
succeeded-with_defer f (panicked w) = refl

poll_healthz_iff :
    (timed_out : Text) (l : List ℕ)
    → (poll_healthz timed_out l ≡ none) ↔ (any (λ s. nat_beq s 200) l ≡ true)
unfolding poll_healthz
poll_healthz_iff timed_out [] = ground arith
poll_healthz_iff timed_out (s ∷ l) = ground (arith, poll_healthz_iff timed_out l)

-- The API server comes up: its parts can be made, and one request for /healthz is answered with 200.
abbrev pub ApiIsUp : ApiAnswers → Type 0
ApiIsUp api =
    (api.config_panics ≡ false)
    × (api.clientset ≡ none)
    × (api.made ≡ instance_made)
    × (api.rest_client ≡ none)
    × (any (λ s. nat_beq s 200) api.healthz ≡ true)

abbrev is_up : ApiStart → Bool
is_up (config_panicked w) = false
is_up (api_failed text w) = false
is_up (api_started w) = true

start_api_server_iff :
    (api : ApiAnswers) (w : World) → (is_up (start_api_server api w) ≡ true) ↔ ApiIsUp api
unfolding start_api_server poll_healthz
start_api_server_iff api w = ground (arith, poll_healthz_iff api.timed_out api.healthz)

module _ {C : Type 0} (a : StartAnswers C) where
  run_scheduler_iff :
      (w : World)
      → (succeeded (run_scheduler a w) ≡ true) ↔ (
          ((cfg : C) × (a.default_config ≡ inr cfg))
          × (a.minisched ≡ none)
          × ((scenario a.scenario).0 ≡ none))
  unfolding run_scheduler start_scheduler
  run_scheduler_iff w = ground arith

  run_client_iff :
      (w : World)
      → (succeeded (run_client a w) ≡ true) ↔ (
          (a.client_panics ≡ false)
          × (a.controller ≡ none)
          × ((cfg : C) × (a.default_config ≡ inr cfg))
          × (a.minisched ≡ none)
          × ((scenario a.scenario).0 ≡ none))
  unfolding run_client start_persistent_volume_controller
  run_client_iff w = elim (Bool-cases a.client_panics) [
    | inl e ↦ rw (e, run_client) (ground arith)
    | inr e ↦ elim (Option-cases a.controller) [
      | inr (text, f) ↦ rw (e, run_client, f, start_persistent_volume_controller) (ground arith)
      | inl f ↦
          let w' = does waits_for_cache_sync (does starts_informers (does runs_controller w)) in
          let both = run_scheduler_iff w' in
          rw
            (
              e,
              run_client,
              f,
              start_persistent_volume_controller,
              succeeded-with_defer (does cancels_controller) (run_scheduler a w'),
            )
            (
              (λ h. let (config, made, played) = both.0 h in (refl, refl, config, made, played)),
              (λ (x, y, config, made, played). both.1 (config, made, played)),
            )
    ]
  ]

  -- Everything that start needs: the settings can be read, the API server comes up, the clients and
  -- the controller can be made, there is a default configuration, the scheduler can be made, and
  -- the scenario goes well.
  abbrev pub IsReady : Type 0
  IsReady =
      ((cfg : Config) × (new_config a.env ≡ inr cfg))
      × ApiIsUp a.api
      × (a.client_panics ≡ false)
      × (a.controller ≡ none)
      × ((cfg : C) × (a.default_config ≡ inr cfg))
      × (a.minisched ≡ none)
      × IsWell a.scenario

  scenario-IsWell : ((scenario a.scenario).0 ≡ none) ↔ IsWell a.scenario
  scenario-IsWell = elim (scenario_lem a.scenario) [
    | inl (well, e, sent) ↦ ((λ h. well), (λ h. e))
    | inr (ill, e, rest, sent) ↦ ((λ h. absurd (e h)), (λ h. absurd (ill h)))
  ]

  -- start returns no error exactly if everything that it needs is there.
  pub start-succeeded_iff : (w : World) → (succeeded (start a w) ≡ true) ↔ IsReady
  unfolding start
  start-succeeded_iff w = by_config (new_config a.env) refl
    where
      by_api :
          (s : ApiStart)
          → start_api_server a.api w ≡ s
          → (cfg : Config) → new_config a.env ≡ inr cfg
          → (succeeded (start a w) ≡ true) ↔ IsReady
      by_api (config_panicked w') e cfg c =
          let api = start_api_server_iff a.api w in
          rw (c, start, e) ((λ h. cc), (λ r. cc (api.1 r.1)))
      by_api (api_failed text w') e cfg c =
          let api = start_api_server_iff a.api w in
          rw (c, start, e) ((λ h. cc), (λ r. cc (api.1 r.1)))
      by_api (api_started w') e cfg c =
          let api = start_api_server_iff a.api w in
          let rest = run_client_iff w' in
          let well = scenario-IsWell in
          rw (c, start, e, succeeded-with_defer shutdown_api_server (run_client a w'))
            (
              (λ h.
                  let (client, controller, config, made, played) = rest.0 h in
                  (
                    (cfg, refl),
                    api.0 (rw e refl),
                    client,
                    controller,
                    config,
                    made,
                    well.0 played,
                  )),
              (λ (x, up, client, controller, config, made, played).
                  rest.1 (client, controller, config, made, well.1 played)),
            )

      by_config :
          (r : ConfigError ⊎ Config)
          → new_config a.env ≡ r
          → (succeeded (start a w) ≡ true) ↔ IsReady
      by_config (inl error) c = rw (c, start) ((λ h. cc), (λ r. cc r.0.1))
      by_config (inr cfg) c = by_api (start_api_server a.api w) refl cfg c
