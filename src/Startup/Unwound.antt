-- ===== src/Startup/Unwound.antt =====
-- sched.go, k8sapiserver/k8sapiserver.go: everything that start starts is stopped again.
use mini_kube_scheduler.Common.{
  ◌≡◌, refl, sym, ◌∙◌, ap, ◌⊎◌, inl, inr, Bool, true, false, ◌||◌, List, [], ◌∷◌, arith, any,
  Option, none, some, Option-cases, Bool-cases, if◌then◌else◌,
}
use mini_kube_scheduler.Settings.{ConfigError, Config, new_config}
use mini_kube_scheduler.Service.{start_scheduler}
use mini_kube_scheduler.World.{
  Effect, World, does, opens_server, sets_api_server, prepares_run, starts_informers,
  waits_for_cache_sync, closes_server, runs_post_start_hooks, closes_stop_ch, runs_controller,
  cancels_controller, starts_scheduler, shuts_down_scheduler,
}
use mini_kube_scheduler.ApiServer.{
  ApiAnswers, ApiStart, config_panicked, api_failed, api_started, start_api_server, serve_api,
  shutdown_api_server,
}
use mini_kube_scheduler.PvController.{start_persistent_volume_controller}
use mini_kube_scheduler.Startup.{
  StartAnswers, Ending, returned, panicked, world_of, with_defer, start, run_client, run_scheduler,
}

-- What has to be stopped again: the server, the hooks that run until stopCh is closed, the controller
-- and the scheduler.
pub data Resource : Type 0 where
  server hooks controller scheduler : Resource

same : Resource → Resource → Bool
same server server = true
same hooks hooks = true
same controller controller = true
same scheduler scheduler = true
same _ _ = false

-- A stop of what is on top, or of what was not started; none if it is out of order.
stopped : Resource → List Resource → Option (List Resource)
unfolding same
stopped r [] = some []
stopped r (x ∷ xs) = if same r x then some xs else if any (same r) xs then none else some (x ∷ xs)

effect_on : Effect → List Resource → Option (List Resource)
unfolding stopped
effect_on opens_server xs = some (server ∷ xs)
effect_on runs_post_start_hooks xs = some (hooks ∷ xs)
effect_on runs_controller xs = some (controller ∷ xs)
effect_on starts_scheduler xs = some (scheduler ∷ xs)
effect_on closes_server xs = stopped server xs
effect_on closes_stop_ch xs = stopped hooks xs
effect_on cancels_controller xs = stopped controller xs
effect_on shuts_down_scheduler xs = stopped scheduler xs
effect_on _ xs = some xs

-- What runs after a trace, the last that was started first; none if something was stopped before what
-- was started after it.
unfoldable pub running : List Effect → Option (List Resource)
unfolding effect_on
running [] = some []
running (e ∷ es) = elim (running es) [ none ↦ none | some xs ↦ effect_on e xs ]

-- startAPIServer does not close the server when it cannot make a clientset.
abbrev pub leaves_server : ApiAnswers → Bool
leaves_server api = api.config_panics || elim api.clientset [ none ↦ false | some text ↦ true ]

-- What runs after the start of the API server, by how it ends.
abbrev StartLeaves : ApiAnswers → ApiStart → Type 0
StartLeaves api (config_panicked w) =
    (running w.trace ≡ some (server ∷ [])) × (leaves_server api ≡ true)
StartLeaves api (api_failed text w) =
    running w.trace ≡ some (if leaves_server api then server ∷ [] else [])
StartLeaves api (api_started w) =
    (running w.trace ≡ some (hooks ∷ server ∷ [])) × (leaves_server api ≡ false)

serve_api-running :
    (api : ApiAnswers) (w : World)
    → running w.trace ≡ some (hooks ∷ server ∷ [])
    → running (serve_api api w).1.trace
      ≡ elim (serve_api api w).0 [ some text ↦ some [] | none ↦ some (hooks ∷ server ∷ []) ]
unfolding serve_api running
serve_api-running api w h = ground arith

start_api_server-running :
    (api : ApiAnswers) (w : World)
    → running w.trace ≡ some []
    → StartLeaves api (start_api_server api w)
unfolding start_api_server running
start_api_server-running api w h = elim (Bool-cases api.config_panics) [
  | inl e ↦ rw (e, start_api_server) (ground arith)
  | inr e ↦
      rw (e, start_api_server)
        (ground (
          arith,
          serve_api-running api (
              does runs_post_start_hooks
                (does prepares_run (does sets_api_server (does opens_server w)))),
        ))
]

shutdown-running :
    (w : World)
    → running w.trace ≡ some (hooks ∷ server ∷ [])
    → running (shutdown_api_server w).trace ≡ some []
unfolding running
shutdown-running w h = ground arith

world_of-with_defer : (f : World → World) (e : Ending) → world_of (with_defer f e) ≡ f (world_of e)
world_of-with_defer f (returned error w) = refl
world_of-with_defer f (panicked w) = refl

module _ {C : Type 0} (a : StartAnswers C) where
  run_scheduler-running :
      (w : World)
      → running w.trace ≡ some (controller ∷ hooks ∷ server ∷ [])
      → running (world_of (run_scheduler a w)).trace ≡ some (controller ∷ hooks ∷ server ∷ [])
  unfolding run_scheduler running start_scheduler
  run_scheduler-running w h = ground arith

  run_client-running :
      (w : World)
      → running w.trace ≡ some (hooks ∷ server ∷ [])
      → running (world_of (run_client a w)).trace ≡ some (hooks ∷ server ∷ [])
  unfolding run_client running start_persistent_volume_controller
  run_client-running w h = elim (Bool-cases a.client_panics) [
    | inl e ↦ rw (e, run_client) h
    | inr e ↦ elim (Option-cases a.controller) [
      | inr (text, f) ↦ rw (e, run_client, f, start_persistent_volume_controller) (ground arith)
      | inl f ↦
          let w' = does waits_for_cache_sync (does starts_informers (does runs_controller w)) in
          let kept = run_scheduler-running w' (ground arith) in
          rw
            (
              e,
              run_client,
              f,
              start_persistent_volume_controller,
              world_of-with_defer (does cancels_controller) (run_scheduler a w'),
            )
            (ground arith)
    ]
  ]

  -- The start fails with the server left open.
  abbrev pub leaves : Bool
  leaves = elim (new_config a.env) [ inl e ↦ false | inr cfg ↦ leaves_server a.api ]

  pub start-running :
      (w : World)
      → running w.trace ≡ some []
      → running (world_of (start a w)).trace ≡ some (if leaves then server ∷ [] else [])
  unfolding start
  start-running w h = by_config (new_config a.env) refl
    where
      by_api :
          (s : ApiStart)
          → start_api_server a.api w ≡ s
          → (cfg : Config) → new_config a.env ≡ inr cfg
          → StartLeaves a.api s
          → running (world_of (start a w)).trace ≡ some (if leaves then server ∷ [] else [])
      by_api (config_panicked w') e cfg c (r, l) = rw (c, start, e) (ground arith)
      by_api (api_failed text w') e cfg c r =
          let known : leaves_server a.api ≡ leaves = ground arith in
          rw (c, start, e) (r ∙ ap (λ b. some (if b then server ∷ [] else [])) known)
      by_api (api_started w') e cfg c (r, l) =
          let kept = run_client-running w' r in
          rw (c, start, e, world_of-with_defer shutdown_api_server (run_client a w'))
            (shutdown-running (world_of (run_client a w')) kept ∙ ap some (ground arith))

      by_config :
          (r : ConfigError ⊎ Config)
          → new_config a.env ≡ r
          → running (world_of (start a w)).trace ≡ some (if leaves then server ∷ [] else [])
      by_config (inl error) c =
          let closed : leaves ≡ false = ground arith in
          rw (c, start) (h ∙ ap (λ b. some (if b then server ∷ [] else [])) (sym closed))
      by_config (inr cfg) c =
          by_api (start_api_server a.api w) refl cfg c (start_api_server-running a.api w h)
