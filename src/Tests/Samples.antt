-- ===== src/Tests/Samples.antt =====
-- minisched/minisched.go: small schedulers, nodes and pods.
use mini_kube_scheduler.Common.{ℕ, ◌≡◌, refl, true, false, List, [], ◌∷◌, none, some, if◌then◌else◌}
use mini_kube_scheduler.Common.Int.{pos}
use mini_kube_scheduler.Common.Keys.{Text, str, text_beq, text_eq}
use mini_kube_scheduler.Framework.{Node, success, unschedulable, StateData, pre_score_state}
use mini_kube_scheduler.Tests.Plain.{plain, pod1, node}
use mini_kube_scheduler.Strconv.{atoi, last_byte}
use mini_kube_scheduler.NodeNumber
use mini_kube_scheduler.Queue.Types.{QueuedPodInfo}
use mini_kube_scheduler.Queue.Backoff.{is_pod_backingoff}
use mini_kube_scheduler.Queue.Events.{intersect, event_matches, pod_matches_event}
use mini_kube_scheduler.Queue.Ops.{
  new_queue, add, next_pod, add_unschedulable, key_func, key_of,
  move_all_to_active_or_backoff_queue,
}
use mini_kube_scheduler.WaitingPod.{WaitingPod, new_waiting_pod, get_signal, allow}
use mini_kube_scheduler.WaitingPod.History.{run, step}
use mini_kube_scheduler.Minisched.Types.{Scheduler}
use mini_kube_scheduler.Minisched.Filters.{run_filter_plugins}
use mini_kube_scheduler.Minisched.Select.{select_host}
use mini_kube_scheduler.Minisched.Scores.{
  run_pre_score_plugins, run_score_plugins, create_plugin_to_node_scores,
}
use mini_kube_scheduler.Minisched.Permits.{
  run_permit_plugins, wait_on_permit, signal_status, quoted,
}
use mini_kube_scheduler.Minisched.Cycle.{
  listed, Answers, Binding, binds, schedule_one, error_func, binding_cycle,
}
use mini_kube_scheduler.Minisched.Initialize.{
  event_eq, UnschedulablePlugin, new_scheduler, unioned_gvks,
}
use mini_kube_scheduler.Minisched.Initialize.Registry.{scheduler_of}
use mini_kube_scheduler.Minisched.Handlers.{
  add_all_event_handlers, on_node, on_pod_added, assigned_pod,
}

unfoldable pub program : Unit {0}
unfolding text_beq atoi last_byte NodeNumber.pre_score NodeNumber.score NodeNumber.permit
    NodeNumber.events_to_register new_queue add next_pod add_unschedulable key_func key_of
    move_all_to_active_or_backoff_queue intersect event_matches pod_matches_event is_pod_backingoff
    new_waiting_pod get_signal run step allow run_filter_plugins select_host run_pre_score_plugins
    run_score_plugins create_plugin_to_node_scores run_permit_plugins wait_on_permit signal_status
    quoted schedule_one error_func binding_cycle new_scheduler unioned_gvks add_all_event_handlers
    on_node on_pod_added assigned_pod
program = tt

-- As NodeUnschedulable: it rejects unschedulable nodes, and waits for nodes that are added.
abbrev pub node_unschedulable : UnschedulablePlugin
node_unschedulable = record {
  filter_plugin = record {
    name = str "NodeUnschedulable";
    filter = λ state pod n.
        if n.unschedulable
        then record { code = unschedulable; message = str "unschedulable"; failed = [] }
        else record { code = success; message = []; failed = [] };
  };
  events = record { resource = str "Node"; action_type = 5; label = [] } ∷ [];
}

abbrev pub fresh : Scheduler
fresh = scheduler_of node_unschedulable

abbrev pub queued : QueuedPodInfo
queued = record {
  pod_info = pod1;
  timestamp = 3;
  attempts = 0;
  initial_attempt_timestamp = 3;
  unschedulable_plugins = [];
}

abbrev pub with_pod1 : Scheduler
with_pod1 = record fresh {
  scheduling_queue = record fresh.scheduling_queue { active_q = queued ∷ [] };
}

abbrev pub answers : List Node → Answers
answers nodes = record { nodes = listed nodes; now = 7; intn = λ i n. 1 }

abbrev pub some_nodes : List Node
some_nodes = node (str "node0") true ∷ node (str "node10") false ∷ node (str "node11") false ∷ []

abbrev pub to_node11 : Binding
to_node11 = record { pod = pod1; node_name = str "node11" }

abbrev pub pod1_waits : WaitingPod
pod1_waits = record {
  pod = pod1;
  pending_plugins =
      (
        str "NodeNumber",
        record { deadline = 10_000_000_007; wait_time = 10_000_000_000; running = true },
      )
      ∷ [];
  s = none;
  fired = [];
}

abbrev pub after : Scheduler
after = record fresh { waiting_pods = (str "u1", pod1_waits) ∷ [] }

-- The waiting pod, once NodeNumber has allowed it.
abbrev pub allowed : WaitingPod
allowed = record {
  pod = pod1;
  pending_plugins = [];
  s = some (record { code = success; message = []; failed = [] });
  fired = [];
}

abbrev pub late : ℕ → Text → Text
late wait_time plugin = str "timeout"

abbrev pub signalled : Scheduler
signalled = record fresh { waiting_pods = (str "u1", allowed) ∷ [] }

abbrev pub suffix_one : List (Text × StateData)
suffix_one = (str "PreScoreNodeNumber", pre_score_state (pos 1)) ∷ []

abbrev pub rejected : QueuedPodInfo
rejected = record {
  pod_info = pod1;
  timestamp = 7;
  attempts = 0;
  initial_attempt_timestamp = 0;
  unschedulable_plugins = str "NodeUnschedulable" ∷ [];
}

abbrev pub one_rejected : Scheduler
one_rejected = record fresh {
  scheduling_queue = record fresh.scheduling_queue {
    unschedulable_q = (str "pod1_default", rejected) ∷ [];
  };
}

pub cycle_runs :
    schedule_one (answers some_nodes) with_pod1
    ≡ binds to_node11 ((str "NodeNumber", 1_000_000_000) ∷ []) after
unfolding program
cycle_runs = refl

abbrev pub two_nodes : List Node
two_nodes = node (str "node10") false ∷ node (str "node11") false ∷ []
