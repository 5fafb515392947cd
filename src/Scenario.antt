-- ===== src/Scenario.antt =====
-- sched.go: the scenario that is played on the API server, as the requests that it sends and the
-- error that it returns. What the server answers is an argument.
pub mod Played
use mini_kube_scheduler.Common.{
  ℕ, zero, suc, ◌+◌, ◌*◌, ◌≡◌, refl, ◌∙◌, ap, ◌↔◌, ◌⊎◌, inl, inr, Bool, true, false, List, [], ◌∷◌,
  ◌++◌, arith, All, Option, none, some, length, nat_beq, if◌then◌else◌, Option-cases,
}
use mini_kube_scheduler.Common.Int.{pos}
use mini_kube_scheduler.Common.Keys.{Text, str}
use mini_kube_scheduler.Framework.{Node, Pod}
use mini_kube_scheduler.Strconv.{format_int}

-- The pod of the scenario has the name pod1, in the namespace default.
pub data Request : Type 0 where
  creates_node : Node → Request
  creates_pod gets_pod : (namespace name : Text) → Request
  sleeps : (nanoseconds : ℕ) → Request

-- The error of each request that creates, and the pod or the error of each that gets the pod.
pub record ScenarioAnswers : Type 0 where
  pub node : ℕ → Option Text
  pub pod : Option Text
  pub pod_before : Text ⊎ Pod
  pub last_node : Option Text
  pub pod_after : Text ⊎ Pod

-- Requests that were sent, up to the first that failed, and its error.
abbrev pub Sent : Type 0
Sent = Option Text × List Request

infixl 5 ◌>>◌
abbrev ◌>>◌ : Sent → Sent → Sent
(some text, rs) >> k = (some text, rs)
(none, rs) >> k = (k.0, rs ++ k.1)

-- A request with its error, which is wrapped.
abbrev sends : Request → (wrap : Text) → Option Text → Sent
sends r wrap none = (none, r ∷ [])
sends r wrap (some text) = (some (wrap ++ text), r ∷ [])

abbrev pub second : ℕ
second = 1_000_000_000

abbrev pub node_of : (i : ℕ) → Node
unfolding format_int
node_of i = record { name = str "node" ++ format_int (pos i); unschedulable = true }

abbrev pub node10 : Node
node10 = record { name = str "node10"; unschedulable = false }

-- The test of the pod that must not be bound yet.
unbound_yet : Text ⊎ Pod → Option Text
unbound_yet (inl text) = some (str "get pod: " ++ text)
unbound_yet (inr pod) =
    if nat_beq (length pod.node_name) 0 then none else some (str "pod1 should not be bound yet")

got : Text ⊎ Pod → Option Text
got (inl text) = some (str "get pod: " ++ text)
got (inr pod) = none

module _ (a : ScenarioAnswers) where
  -- The loop over the nodes.
  create_nodes : (rounds i : ℕ) → Sent
  create_nodes zero i = (none, [])
  create_nodes (suc rounds) i =
      sends (creates_node (node_of i)) (str "create node: ") (a.node i)
      >> create_nodes rounds (i + 1)

  unfoldable pub scenario : Sent
  unfolding create_nodes unbound_yet got
  scenario =
      create_nodes 9 0
      >> sends (creates_pod (str "default") (str "pod1")) (str "create pod: ") a.pod
      >> (none, sleeps (3 * second) ∷ [])
      >> (unbound_yet a.pod_before, gets_pod (str "default") (str "pod1") ∷ [])
      >> sends (creates_node node10) (str "create node: ") a.last_node
      >> (none, sleeps (5 * second) ∷ [])
      >> (got a.pod_after, gets_pod (str "default") (str "pod1") ∷ [])
