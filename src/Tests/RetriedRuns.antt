-- ===== src/Tests/RetriedRuns.antt =====
-- minisched: a pod that waits for a node, as in the scenario of sched.go.
use mini_kube_scheduler.Common.{
  ℕ, ◌≡◌, refl, Bool-cases, inl, inr, true, false, List, [], ◌∷◌, ◌++◌, arith,
}
use mini_kube_scheduler.Common.Keys.{Text, str, text_eq, text_beq}
use mini_kube_scheduler.Strconv.{is_digit}
use mini_kube_scheduler.Framework.{Node}
use mini_kube_scheduler.Tests.Plain.{plain, pod1, node}
use mini_kube_scheduler.Queue.Types.{QueuedPodInfo}
use mini_kube_scheduler.Minisched.Types.{Scheduler}
use mini_kube_scheduler.Minisched.Initialize.{event_eq}
use mini_kube_scheduler.Minisched.Initialize.Registry.{scheduler_of}
use mini_kube_scheduler.Minisched.Handlers.{on_pod_added, on_node, added, add_all_event_handlers}
use mini_kube_scheduler.Minisched.Cycle.{spins, binds, puts_back, schedule_one}
use mini_kube_scheduler.Minisched.Retried.{RejectsUnschedulable}
use mini_kube_scheduler.Minisched.Retried.Allowed.{Finishes}
use mini_kube_scheduler.Minisched.Retried.Bound.{retried-bound}
use mini_kube_scheduler.Tests.Samples.{node_unschedulable, answers}

node_unschedulable-RejectsUnschedulable : RejectsUnschedulable node_unschedulable pod1
node_unschedulable-RejectsUnschedulable n = elim (Bool-cases n.unschedulable) [
  | inl e ↦ rw e refl
  | inr e ↦ rw e refl
]

abbrev old_nodes : List Node
old_nodes = node (str "node0") true ∷ node (str "node1") true ∷ []

abbrev node10 : Node
node10 = node (str "node10") false

-- The node comes three seconds later.
abbrev three_seconds : ℕ → QueuedPodInfo → ℕ
three_seconds i info = 3_000_000_007

retried-bound_example :
    (rejected : Scheduler) × (schedule_one
        (answers old_nodes)
        (on_pod_added 3 pod1 (scheduler_of node_unschedulable))
      ≡ puts_back [] rejected)
    × (schedule_one (answers (old_nodes ++ node10 ∷ [])) rejected ≡ spins)
    × (allows : List (Text × ℕ)) × (bound : Scheduler) × (schedule_one
          (answers (old_nodes ++ node10 ∷ []))
          (on_node three_seconds (add_all_event_handlers ((str "Node", 5) ∷ [])) added rejected)
        ≡ binds (record { pod = pod1; node_name = str "node10" }) allows bound)
    × Finishes (record { pod = pod1; node_name = str "node10" }) allows bound
unfolding text_beq is_digit
retried-bound_example =
    retried-bound node_unschedulable pod1 (answers old_nodes) (answers (old_nodes ++ node10 ∷ [])) 3
      old_nodes node10 (str "pod") 49 three_seconds ((str "Node", 5) ∷ []) 5
      node_unschedulable-RejectsUnschedulable refl refl refl refl (λ e. ground arith)
      (refl, (refl, tt)) refl refl (λ e. ground arith) (refl, tt) refl (λ e. ground arith)
      (λ e. ground arith) (λ info. omega arith)
