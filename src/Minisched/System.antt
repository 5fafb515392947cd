-- ===== src/Minisched/System.antt =====
-- minisched: the scheduler at run time, as interleaved steps of its goroutines. Run calls scheduleOne
-- again and again (minisched/minisched.go), the informers call the handlers
-- (minisched/eventhandler.go), each pod that starts to bind has a goroutine, and timers of
-- time.AfterFunc call Allow (nodenumber.go) and Reject (waitingpod.go). A cycle takes its pod in one
-- step and ends in another, so that any of the others may come between. Neither a cycle nor a
-- goroutine that panics has a step.
pub mod Places
pub mod Conserved
pub mod Waits
pub mod Progress
pub mod Reasons
use mini_kube_scheduler.Common.{
  ℕ, ◌≡◌, true, false, List, [], ◌∷◌, ◌++◌, map, Option, none, some, if◌then◌else◌,
}
use mini_kube_scheduler.Common.Keys.{Text, text_eq}
use mini_kube_scheduler.Common.Maps.{insert}
use mini_kube_scheduler.Framework.{Framework, Pod}
use mini_kube_scheduler.Queue.Types.{QueuedPodInfo, SchedulingQueue}
use mini_kube_scheduler.Queue.Ops.{new_queue, next_pod}
use mini_kube_scheduler.WaitingPod.{WaitingPod, allow, fire, run_fired}
use mini_kube_scheduler.Minisched.Types.{Scheduler}
use mini_kube_scheduler.Minisched.Permits.{wait_on_permit}
use mini_kube_scheduler.Minisched.Cycle.{
  Answers, Binding, puts_back, binds, bound, fails, schedule_pod, error_func, bind_pod,
  get_waiting_pod,
}
use mini_kube_scheduler.Minisched.Handlers.{
  ResourceEventHandlerFuncs, Change, on_node, on_pod_added, assigned_pod,
}

module _ ⦃fw : Framework⦄ where
  -- The scheduler; the pod of the cycle that is running; the goroutines that are in WaitOnPermit and
  -- in Bind; the calls of Allow that are due, by uid and plugin; and, for the statements, the pods
  -- that were put on the queue and those that were bound.
  pub record System : Type 0 where
    pub sched : Scheduler
    pub scheduling : Option Pod
    pub waiting : List Binding
    pub binding : List Binding
    pub delayed : List (Text × Text)
    pub added : List Pod
    pub bindings : List Binding

  -- The scheduler as New returns it.
  pub record IsFresh (sched : Scheduler) : Type 0 where
    pub queue : sched.scheduling_queue ≡ new_queue sched.scheduling_queue.cluster_event_map
    pub nobody : sched.waiting_pods ≡ []

  abbrev pub init : Scheduler → System
  init sched = record {
    sched = sched;
    scheduling = none;
    waiting = [];
    binding = [];
    delayed = [];
    added = [];
    bindings = [];
  }

  -- The Allow calls that a cycle has started for its pod.
  abbrev pub started : Pod → List (Text × ℕ) → List (Text × Text)
  started pod allows = map (λ x. (pod.uid, x.0)) allows

  -- The waiting pod under a uid is a pointer: a call on it is seen through the map.
  abbrev pub with_waiting_pod : Text → WaitingPod → Scheduler → Scheduler
  with_waiting_pod uid w sched = record sched { waiting_pods = insert uid w sched.waiting_pods }

module _ ⦃fw : Framework⦄ (message : ℕ → Text → Text) where
  pub data Step (s : System) : System → Type 0 where
    adds :
        (now : ℕ) (pod : Pod)
        → Step s (record s {
          sched = on_pod_added now pod s.sched;
          added = if assigned_pod pod then s.added else pod ∷ s.added;
        })
    changes_node :
        (now : ℕ → QueuedPodInfo → ℕ) (funcs : List ResourceEventHandlerFuncs) (change : Change)
        → Step s (record s { sched = on_node now funcs change s.sched })
    takes :
        (pod : Pod) (queue : SchedulingQueue)
        → s.scheduling ≡ none
        → next_pod s.sched.scheduling_queue ≡ some (pod, queue)
        → Step s (record s {
          sched = record s.sched { scheduling_queue = queue };
          scheduling = some pod;
        })
    rejects :
        (a : Answers) (pod : Pod) (allows : List (Text × ℕ)) (sched : Scheduler)
        → s.scheduling ≡ some pod
        → schedule_pod a pod s.sched ≡ puts_back allows sched
        → Step s (record s {
          sched = sched;
          scheduling = none;
          delayed = s.delayed ++ started pod allows;
        })
    starts :
        (a : Answers) (pod : Pod) (b : Binding) (allows : List (Text × ℕ)) (sched : Scheduler)
        → s.scheduling ≡ some pod
        → schedule_pod a pod s.sched ≡ binds b allows sched
        → Step s (record s {
          sched = sched;
          scheduling = none;
          waiting = b ∷ s.waiting;
          delayed = s.delayed ++ started pod allows;
        })
    is_permitted :
        (before after : List Binding) (b : Binding) (status : fw.Status)
        (waiting_pods : List (Text × WaitingPod))
        → s.waiting ≡ before ++ b ∷ after
        → wait_on_permit b.pod s.sched.waiting_pods ≡ some (status, waiting_pods)
        → fw.is_success status ≡ true
        → Step s (record s {
          sched = record s.sched { waiting_pods = waiting_pods };
          waiting = before ++ after;
          binding = b ∷ s.binding;
        })
    is_refused :
        (now : ℕ) (before after : List Binding) (b : Binding) (status : fw.Status)
        (waiting_pods : List (Text × WaitingPod))
        → s.waiting ≡ before ++ b ∷ after
        → wait_on_permit b.pod s.sched.waiting_pods ≡ some (status, waiting_pods)
        → fw.is_success status ≡ false
        → Step s (record s {
          sched = error_func now b.pod none (record s.sched { waiting_pods = waiting_pods });
          waiting = before ++ after;
        })
    is_bound :
        (now : ℕ) (before after : List Binding) (b : Binding) (sched : Scheduler)
        → s.binding ≡ before ++ b ∷ after
        → bind_pod now none b s.sched ≡ bound sched
        → Step s (record s { sched = sched; binding = before ++ after; bindings = b ∷ s.bindings })
    bind_fails :
        (now : ℕ) (text : Text) (before after : List Binding) (b : Binding) (sched : Scheduler)
        → s.binding ≡ before ++ b ∷ after
        → bind_pod now (some text) b s.sched ≡ fails sched
        → Step s (record s { sched = sched; binding = before ++ after })
    allows :
        (before after : List (Text × Text)) (uid plugin : Text) (w : WaitingPod)
        → s.delayed ≡ before ++ (uid, plugin) ∷ after
        → get_waiting_pod uid s.sched ≡ some w
        → Step s (record s {
          sched = with_waiting_pod uid (allow plugin w) s.sched;
          delayed = before ++ after;
        })
    fires :
        (now : ℕ) (uid plugin : Text) (w : WaitingPod)
        → get_waiting_pod uid s.sched ≡ some w
        → Step s (record s { sched = with_waiting_pod uid (fire now plugin w) s.sched })
    runs_fired :
        (uid : Text) (w : WaitingPod)
        → get_waiting_pod uid s.sched ≡ some w
        → Step s (record s { sched = with_waiting_pod uid (run_fired message w) s.sched })

  pub data Runs (s : System) : System → Type 0 where
    stays : Runs s s
    later : {t u : System} → Runs s t → Step t u → Runs s u
