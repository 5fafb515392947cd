-- ===== src/ApiServer.antt =====
-- k8sapiserver/k8sapiserver.go: StartAPIServer and startAPIServer, which open the server, bring the
-- API server up, and close what they opened when a step fails.
use mini_kube_scheduler.Common.{
  ℕ, Bool, true, List, [], ◌∷◌, ◌++◌, Option, none, some, nat_beq, if◌then◌else◌,
}
use mini_kube_scheduler.Common.Keys.{Text, str}
use mini_kube_scheduler.World.{
  World, does, opens_server, closes_server, sets_api_server, prepares_run, runs_post_start_hooks,
  runs_pre_shutdown_hooks, closes_stop_ch,
}

-- What New of the control plane returns: an instance, or an error, with an instance beside it or nil.
pub data Made : Type 0 where
  instance_made : Made
  not_made : (text : Text) (has_instance : Bool) → Made

-- What the calls of Kubernetes answer, `some` with the text of an error: whether
-- NewControlPlaneConfigWithOptions panics, the clientset, New, RESTClientFor, and for each request
-- for /healthz that PollImmediate makes the status of the response. `timed_out` is its error after
-- the last of them.
pub record ApiAnswers : Type 0 where
  pub config_panics : Bool
  pub clientset : Option Text
  pub made : Made
  pub rest_client : Option Text
  pub healthz : List ℕ
  pub timed_out : Text

-- The function of closeFn; `has_instance` is its test of m.
abbrev pub close_fn : (has_instance : Bool) → World → World
close_fn has_instance w =
    does closes_server
      (does closes_stop_ch (if has_instance then does runs_pre_shutdown_hooks w else w))

-- PollImmediate with the condition that the status is 200.
unfoldable pub poll_healthz : (timed_out : Text) → List ℕ → Option Text
poll_healthz timed_out [] = some timed_out
poll_healthz timed_out (status ∷ rest) =
    let later = poll_healthz timed_out rest in if nat_beq status 200 then none else later

-- How StartAPIServer ends.
pub data ApiStart : Type 0 where
  config_panicked api_started : World → ApiStart
  api_failed : (text : Text) → World → ApiStart

module _ (a : ApiAnswers) where
  -- After the instance is made.
  unfoldable pub serve_api : World → Option Text × World
  unfolding poll_healthz
  serve_api w = elim a.rest_client [
    | some text ↦ (some (str "create restclient: " ++ text), close_fn true w)
    | none ↦ elim (poll_healthz a.timed_out a.healthz) [
      | some text ↦ (some (str "last health content: " ++ text), close_fn true w)
      | none ↦ (none, w)
    ]
  ]

  -- The error, if there is one.
  unfoldable pub start_api_server_on : World → Option Text × World
  unfolding serve_api
  start_api_server_on w = elim a.clientset [
    | some text ↦ (some (str "create clientset: " ++ text), w)
    | none ↦ elim a.made [
      | not_made text has_instance ↦
          (some (str "bringing up the apiserver: " ++ text), close_fn has_instance w)
      | instance_made ↦
          serve_api (does runs_post_start_hooks (does prepares_run (does sets_api_server w)))
    ]
  ]

  unfoldable pub start_api_server : World → ApiStart
  unfolding start_api_server_on
  start_api_server w =
      let opened = does opens_server w in
      if a.config_panics
      then config_panicked opened
      else let (err, w') = start_api_server_on opened in
        elim err [
          | some text ↦ api_failed (str "start API server: " ++ text) w'
          | none ↦ api_started w'
        ]

-- The function that StartAPIServer returns.
abbrev pub shutdown_api_server : World → World
shutdown_api_server w = does closes_server (close_fn true w)
