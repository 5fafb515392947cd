-- ===== src/Framework.antt =====
-- What minisched takes from the Kubernetes API and the scheduling framework. The structs are
-- records of the fields that the program reads; functions and types whose code lies elsewhere are
-- the fields of an interface, with their documented behaviour as laws.
use mini_kube_scheduler.Common.{
  ℕ, ◌≡◌, arith, Bool, true, false, ◌||◌, List, any, Option, none, some, if◌then◌else◌,
}
use mini_kube_scheduler.Common.Int.{ℤ}
use mini_kube_scheduler.Common.Keys.{Text, text_eq, ◌==◌}

-- v1.Pod: metadata.name, metadata.namespace, metadata.uid, spec.nodeName.
pub record Pod : Type 0 where
  pub name : Text
  pub namespace : Text
  pub uid : Text
  pub node_name : Text

-- v1.Node: metadata.name, spec.unschedulable.
pub record Node : Type 0 where
  pub name : Text
  pub unschedulable : Bool

-- framework.ClusterEvent; an action type is a set of bits.
pub record ClusterEvent : Type 0 where
  pub resource : Text
  pub action_type : ℕ
  pub label : Text

-- framework.Code.
pub data Code : Type 0 where
  success error unschedulable unschedulable_and_unresolvable wait skip : Code

abbrev pub is_success_code : Code → Bool
is_success_code success = true
is_success_code _ = false

abbrev pub is_unschedulable_code : Code → Bool
is_unschedulable_code unschedulable = true
is_unschedulable_code unschedulable_and_unresolvable = true
is_unschedulable_code _ = false

abbrev pub is_wait_code : Code → Bool
is_wait_code wait = true
is_wait_code _ = false

-- framework.NodeScore; the score is an int64.
pub record NodeScore : Type 0 where
  pub name : Text
  pub score : ℤ

-- framework.StateData: the program stores a preScoreState (nodenumber.go); `foreign` is data of any
-- other type.
pub data StateData : Type 0 where
  pre_score_state : (pod_suffix_number : ℤ) → StateData
  foreign : StateData

pub record Framework : Type 1 where
  -- *framework.Status, nil included.
  pub Status : Type 0
  pub nil_status : Status
  pub new_status : Code → Text → Status
  pub as_status : Text → Status
  pub with_failed_plugin : Status → Text → Status
  pub code : Status → Code
  pub is_success : Status → Bool
  pub is_unschedulable : Status → Bool
  pub failed_plugin : Status → Text
  pub as_error : Status → Text
  pub message : Status → Text
  -- *framework.PodInfo and *framework.NodeInfo.
  pub PodInfo : Type 0
  pub new_pod_info : Pod → PodInfo
  pub pod_of : PodInfo → Pod
  pub NodeInfo : Type 0
  pub new_node_info : Node → NodeInfo
  pub node_of : NodeInfo → Node
  -- sets.String; `elements` is an order in which `range` may visit it.
  pub StringSet : Type 0
  pub new_string : List Text → StringSet
  pub set_insert : Text → StringSet → StringSet
  pub has : StringSet → Text → Bool
  pub elements : StringSet → List Text
  -- *framework.CycleState, and the text of the error of a Read that finds nothing.
  pub CycleState : Type 0
  pub new_cycle_state : CycleState
  pub write : Text → StateData → CycleState → CycleState
  pub read : CycleState → Text → Option StateData
  pub not_found : Text
  -- ClusterEvent.IsWildCard, and the constants framework.Node, Add, Update and Delete.
  pub is_wild_card : ClusterEvent → Bool
  pub node_gvk : Text
  pub add_action : ℕ
  pub update_action : ℕ
  pub delete_action : ℕ
  -- The laws.
  pub code-nil : code nil_status ≡ success
  pub code-new : (c : Code) (m : Text) → code (new_status c m) ≡ c
  pub code-as_status : (m : Text) → code (as_status m) ≡ error
  pub code-with : (s : Status) (p : Text) → code (with_failed_plugin s p) ≡ code s
  pub failed_plugin-with : (s : Status) (p : Text) → failed_plugin (with_failed_plugin s p) ≡ p
  pub is_success-code : (s : Status) → is_success s ≡ is_success_code (code s)
  pub is_unschedulable-code : (s : Status) → is_unschedulable s ≡ is_unschedulable_code (code s)
  pub pod_of-new : (p : Pod) → pod_of (new_pod_info p) ≡ p
  pub node_of-new : (n : Node) → node_of (new_node_info n) ≡ n
  pub has-new : (l : List Text) (b : Text) → has (new_string l) b ≡ any (λ a. a == b) l
  pub has-insert : (a b : Text) (s : StringSet) → has (set_insert a s) b ≡ ((a == b) || has s b)
  pub has-elements : (s : StringSet) (b : Text) → has s b ≡ any (λ a. a == b) (elements s)
  pub read-new : (k : Text) → read new_cycle_state k ≡ none
  pub read-write :
      (k j : Text) (d : StateData) (c : CycleState)
      → read (write k d c) j ≡ (if k == j then some d else read c j)

module _ ⦃fw : Framework⦄ where
  pub is_success-with :
      (s : fw.Status) (p : Text) → fw.is_success (fw.with_failed_plugin s p) ≡ fw.is_success s
  is_success-with s p = ground (
    arith,
    fw.is_success-code (fw.with_failed_plugin s p),
    fw.is_success-code s,
    fw.code-with s p,
  )

  pub is_success-nil : fw.is_success fw.nil_status ≡ true
  is_success-nil = ground (arith, fw.is_success-code fw.nil_status, fw.code-nil)

  pub is_success-new : (m : Text) → fw.is_success (fw.new_status success m) ≡ true
  is_success-new m =
      ground (arith, fw.is_success-code (fw.new_status success m), fw.code-new success m)
