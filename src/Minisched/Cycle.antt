-- ===== src/Minisched/Cycle.antt =====
-- minisched/minisched.go: scheduleOne, the goroutine that binds, ErrorFunc and GetWaitingPod. What
-- the API server, the clock and rand.Intn answer are arguments.
pub mod Justified
pub mod Accounts
pub mod Goroutine
pub mod Numbers
pub mod Phases
use mini_kube_scheduler.Common.{
  ℕ, Bool, List, [], ◌∷◌, Option, none, some, not, ◌&&◌, if◌then◌else◌,
}
use mini_kube_scheduler.Common.Keys.{Text, str, text_eq}
use mini_kube_scheduler.Common.Maps.{lookup}
use mini_kube_scheduler.Framework.{Framework, Pod, Node, NodeScore, is_wait_code}
use mini_kube_scheduler.Queue.Types.{QueuedPodInfo}
use mini_kube_scheduler.Queue.Ops.{next_pod, add_unschedulable}
use mini_kube_scheduler.WaitingPod.{WaitingPod}
use mini_kube_scheduler.Minisched.Types.{Scheduler, Error, fit_error, other}
use mini_kube_scheduler.Minisched.Filters.{Filtered, feasible, unfit, run_filter_plugins}
use mini_kube_scheduler.Minisched.Scores.{
  Flow, goes_on, returns, panics, run_pre_score_plugins, run_score_plugins,
}
use mini_kube_scheduler.Minisched.Select.{select_host}
use mini_kube_scheduler.Minisched.Permits.{PermitRun, run_permit_plugins, wait_on_permit}

-- What the API server, the clock and rand.Intn answer during a cycle: the list of nodes or the
-- text of an error, the time, and the draws.
pub data NodeList : Type 0 where
  listed : List Node → NodeList
  list_error : (text : Text) → NodeList

pub record Answers : Type 0 where
  pub nodes : NodeList
  pub now : ℕ
  pub intn : ℕ → ℕ → ℕ

-- A goroutine that is to bind a pod.
pub record Binding : Type 0 where
  pub pod : Pod
  pub node_name : Text

module _ ⦃fw : Framework⦄ where
  -- A QueuedPodInfo with zero values but for the pod; a nil error is `none`.
  unfoldable pub info_of : Pod → Option Error → QueuedPodInfo
  info_of pod err = record {
    pod_info = fw.new_pod_info pod;
    timestamp = 0;
    attempts = 0;
    initial_attempt_timestamp = 0;
    unschedulable_plugins = elim err [
      | some e ↦ elim e [ fit_error plugins ↦ plugins | other text ↦ fw.new_string [] ]
      | none ↦ fw.new_string []
    ];
  }

  unfoldable pub error_func : (now : ℕ) → Pod → Option Error → Scheduler → Scheduler
  unfolding info_of
  error_func now pod err sched = record sched {
    scheduling_queue = add_unschedulable now sched.scheduling_queue (info_of pod err);
  }

  unfoldable pub get_waiting_pod : (uid : Text) → Scheduler → Option WaitingPod
  get_waiting_pod uid sched = lookup uid sched.waiting_pods

  -- How a call of scheduleOne ends: it spins on the empty queue, a plugin panics, the pod is put
  -- back, or a goroutine is started; `allows` are the Allow calls that plugins started.
  pub data Cycle : Type 0 where
    spins panicked : Cycle
    puts_back : (allows : List (Text × ℕ)) → Scheduler → Cycle
    binds : Binding → (allows : List (Text × ℕ)) → Scheduler → Cycle

  module _ (a : Answers) (pod : Pod) (sched : Scheduler) where
    permit_phase : fw.CycleState → (node_name : Text) → Cycle
    permit_phase state node_name =
        elim (run_permit_plugins a.now state pod node_name sched.permit_plugins
          sched.waiting_pods) [
            | none ↦ panicked
            | some r ↦
                let sched' = record sched { waiting_pods = r.waiting_pods } in
                if not (is_wait_code (fw.code r.status)) && not (fw.is_success r.status)
                then puts_back r.allows (error_func a.now pod none sched')
                else binds (record { pod = pod; node_name = node_name }) r.allows sched'
          ]

    select_phase : fw.CycleState → List NodeScore → Cycle
    unfolding permit_phase
    select_phase state scores = elim (select_host a.intn scores) [
      | none ↦ puts_back [] (error_func a.now pod (some (other (str "empty priorityList"))) sched)
      | some node_name ↦ permit_phase state node_name
    ]

    score_phase : fw.CycleState → List Node → Cycle
    unfolding select_phase
    score_phase state nodes = elim (run_score_plugins state pod sched.score_plugins nodes) [
      | panics ↦ panicked
      | returns status ↦ puts_back [] (error_func a.now pod none sched)
      | goes_on scores ↦ select_phase state scores
    ]

    pre_score_phase : fw.CycleState → List Node → Cycle
    unfolding score_phase
    pre_score_phase state nodes =
        elim (run_pre_score_plugins sched.pre_score_plugins state pod nodes) [
          | panics ↦ panicked
          | returns status ↦ puts_back [] (error_func a.now pod none sched)
          | goes_on state' ↦ score_phase state' nodes
        ]

    filter_phase : List Node → Cycle
    unfolding pre_score_phase
    filter_phase nodes =
        elim (run_filter_plugins fw.new_cycle_state pod sched.filter_plugins nodes) [
          | unfit e ↦ puts_back [] (error_func a.now pod (some e) sched)
          | feasible nodes' ↦ pre_score_phase fw.new_cycle_state nodes'
        ]

    unfoldable pub schedule_pod : Cycle
    unfolding filter_phase
    schedule_pod = elim a.nodes [
      | list_error text ↦ puts_back [] (error_func a.now pod (some (other text)) sched)
      | listed nodes ↦ filter_phase nodes
    ]

  unfoldable pub schedule_one : Answers → Scheduler → Cycle
  unfolding schedule_pod
  schedule_one a sched = elim (next_pod sched.scheduling_queue) [
    | none ↦ spins
    | some (pod, queue) ↦ schedule_pod a pod (record sched { scheduling_queue = queue })
  ]

  -- How the goroutine ends, if it is not blocked: the pod is put back, or bound.
  pub data Outcome : Type 0 where
    blocked : Outcome
    fails : Scheduler → Outcome
    bound : Scheduler → Outcome

  -- Bind sends the binding to the API server; `some` is the text of its error.
  unfoldable pub bind_pod : (now : ℕ) (answer : Option Text) → Binding → Scheduler → Outcome
  bind_pod now answer b sched = elim answer [
    | none ↦ bound sched
    | some text ↦ fails (error_func now b.pod (some (other text)) sched)
  ]

  unfoldable pub binding_cycle : (now : ℕ) (answer : Option Text) → Binding → Scheduler → Outcome
  unfolding bind_pod
  binding_cycle now answer b sched = elim (wait_on_permit b.pod sched.waiting_pods) [
    | none ↦ blocked
    | some (status, waiting_pods) ↦
        let sched' = record sched { waiting_pods = waiting_pods } in
        if fw.is_success status
        then bind_pod now answer b sched'
        else fails (error_func now b.pod none sched')
  ]
