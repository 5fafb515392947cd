-- ===== src/Tests/StartRuns.antt =====
-- sched.go and k8sapiserver/k8sapiserver.go: runs of start, one that fails and one that does not.
use mini_kube_scheduler.Common.{
  ℕ, ◌≡◌, refl, ◌↔◌, inr, true, false, [], ◌∷◌, none, some, if◌then◌else◌,
}
use mini_kube_scheduler.Common.Keys.{Text, str, text_eq, text_beq}
use mini_kube_scheduler.Common.Maps.{get_or}
use mini_kube_scheduler.Tests.Plain.{pod1}
use mini_kube_scheduler.World.{World}
use mini_kube_scheduler.ApiServer.{ApiAnswers, instance_made, start_api_server}
use mini_kube_scheduler.PvController.{start_persistent_volume_controller}
use mini_kube_scheduler.Service.{start_scheduler}
use mini_kube_scheduler.Settings.{new_config}
use mini_kube_scheduler.Strconv.{atoi}
use mini_kube_scheduler.Scenario.{ScenarioAnswers, scenario}
use mini_kube_scheduler.Scenario.Played.{Plays, plan, IsWell, scenario_lem}
use mini_kube_scheduler.Startup.{StartAnswers, world_of, start}
use mini_kube_scheduler.Startup.Unwound.{server, running, leaves, start-running}
use mini_kube_scheduler.Startup.Outcome.{succeeded, IsReady, start-succeeded_iff}

abbrev env : Text → Text
env k =
    get_or
      ((str "PORT", str "1212")
        ∷ (str "KUBE_SCHEDULER_SIMULATOR_ETCD_URL", str "http://etcd")
        ∷ (str "FRONTEND_URL", str "http://front")
        ∷ [])
      k []

abbrev played : ScenarioAnswers
played = record {
  node = λ i. none;
  pod = none;
  pod_before = inr pod1;
  last_node = none;
  pod_after = inr (record pod1 { node_name = str "node10" });
}

abbrev api : ApiAnswers
api = record {
  config_panics = false;
  clientset = none;
  made = instance_made;
  rest_client = none;
  healthz = 500 ∷ 200 ∷ [];
  timed_out = str "timed out waiting for the condition";
}

abbrev all_well : StartAnswers ℕ
all_well = record {
  env = env;
  api = api;
  client_panics = false;
  controller = none;
  default_config = inr 7;
  minisched = none;
  scenario = played;
}

-- The clientset of the API server cannot be made.
abbrev no_clientset : StartAnswers ℕ
no_clientset = record all_well { api = record api { clientset = some (str "no clientset") } }

abbrev nothing_runs : World
nothing_runs = record { trace = []; contexts = record { made = 0; cancelled = []; running = [] } }

scenario_lem_example : Plays (scenario played) (plan played) (IsWell played)
scenario_lem_example = scenario_lem played

start-running_example :
    running (world_of (start no_clientset nothing_runs)).trace
    ≡ some (if leaves no_clientset then server ∷ [] else [])
unfolding running
start-running_example = start-running no_clientset nothing_runs refl

start-succeeded_iff_example : (succeeded (start all_well nothing_runs) ≡ true) ↔ IsReady all_well
start-succeeded_iff_example = start-succeeded_iff all_well nothing_runs

starts : succeeded (start all_well nothing_runs) ≡ true
unfolding start start_api_server start_persistent_volume_controller start_scheduler scenario
    new_config atoi text_beq
starts = refl
