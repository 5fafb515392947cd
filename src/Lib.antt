-- ===== src/Lib.antt =====
-- The mini-kube-scheduler: a scheduler of Kubernetes with one filter plugin, NodeUnschedulable, and
-- one plugin of its own, NodeNumber. Informers report pods and nodes to event handlers; these add
-- pods to the scheduling queue, or move rejected pods back to it. scheduleOne takes a pod from the
-- queue, filters and scores the nodes, selects a host, runs the permit plugins, and starts a goroutine
-- that waits for the permit plugins and binds the pod. Beside it stand the plugins of a simulator, which
-- wrap those of Kubernetes and record their results in a store, from where a handler writes them to the
-- annotations of pods.
--
-- The files, and the code that each is about:
--   Common, Strconv: lists, 64-bit integers, maps as association lists, Go strings as bytes, Atoi.
--   Framework: what the program uses of the Kubernetes API and the scheduling framework: an interface
--     of types, functions and their documented laws.
--   Queue: minisched/queue/queue.go. Types: SchedulingQueue. Backoff: calculateBackoffDuration,
--     getBackoffTime, isPodBackingoff. Events: podMatchesEvent, intersect. Ops: New, Add, NextPod,
--     AddUnschedulable, MoveAllToActiveOrBackoffQueue, and the operations that only panic.
--   WaitingPod: minisched/waitingpod/waitingpod.go. A timer's function runs in a goroutine, so it is two
--     steps: the timer fires, and later the function takes the lock.
--   NodeNumber: minisched/plugins/score/nodenumber/nodenumber.go.
--   Minisched: minisched/minisched.go, initialize.go and eventhandler.go. Filters, Scores, Permits and
--     Select: the extension points and selectHost. Cycle: scheduleOne, the goroutine that binds,
--     ErrorFunc. Initialize: New. Handlers: addAllEventHandlers. Run: the loop over scheduleOne. System:
--     all of them at run time, as steps that interleave. Retried: a pod that has to wait for a node.
--   Json, ResultStore: scheduler/plugin/resultstore/store.go, scheduler/plugin/annotation/annotation.go
--     and util/retry.go: the store of the simulator's results.
--   Simulator: scheduler/plugin/plugins.go and scheduler/defaultconfig/defaultconfig.go. Wrapped:
--     simulatorPlugin. Config: ConvertForSimulator, NewPluginConfig, NewRegistry.
--   Settings: config/config.go. Service: the life cycle in scheduler/scheduler.go;
--     Conversion: convertConfigurationForSimulator.
--   World, ApiServer, PvController, Scenario, Startup: sched.go, with k8sapiserver/k8sapiserver.go and
--     pvcontroller/pvcontroller.go: start, what it starts and stops, and the requests of the scenario.
--   Tests: small inputs, runs, and the theorems at concrete inputs.
--
-- State is passed explicitly: a function takes a Scheduler or a SchedulingQueue and returns the new one.
-- A panic, and a call that blocks or spins, is a value: none, or a constructor. What the clock,
-- rand.Intn, the API server and the libraries answer is an argument. A map is an association list whose
-- order is an order in which `range` may visit it. An int64 wraps where the code adds; instants are
-- natural numbers of nanoseconds. The loops run over lists, and the loop
-- of calculateBackoffDuration over the number of rounds that its test allows. Only FormatInt has fuel, one
-- more than its number, which is enough since each step divides the number by ten. Run takes the number
-- of rounds after which its context ends. PollImmediate takes the answers that come before its timeout.
--
-- In System, a step is one call: a handler, NextPod, the rest of scheduleOne, WaitOnPermit, Bind with
-- ErrorFunc, a timer, an Allow. The locks of the queue and of a waiting pod make these calls atomic, and
-- the rest of scheduleOne writes only at its end. A call that blocks, spins or panics has no step. The
-- pointers to waiting pods are their uids in waitingPods, so that a call on one is seen through the map.
--
-- Not modelled: logs, the values and deadlines of contexts, and data races (NextPod takes no lock, nor
-- do the uses of waitingPods); the settings that NewControlPlaneConfigWithOptions passes to Kubernetes
-- and the generated OpenAPI definitions, which only call libraries or are literals; errors/errors.go,
-- which names an error, and the exit of main.
pub mod Common
pub mod Framework
pub mod Queue
pub mod WaitingPod
pub mod Strconv
pub mod NodeNumber
pub mod Json
pub mod ResultStore
pub mod Minisched
pub mod Simulator
pub mod Settings
pub mod Service
pub mod World
pub mod ApiServer
pub mod PvController
pub mod Scenario
pub mod Startup
mod Tests
