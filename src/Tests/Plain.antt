-- ===== src/Tests/Plain.antt =====
-- A concrete framework: lists for sets, association lists for cycle states, and a status that is a
-- code, a message and the name of a failed plugin.
use mini_kube_scheduler.Common.{refl, Bool, ◌&&◌, List, [], ◌∷◌, any, nat_beq}
use mini_kube_scheduler.Common.Keys.{Text, str, text_eq, ◌==◌}
use mini_kube_scheduler.Common.Maps.{lookup, insert, lookup-insert}
use mini_kube_scheduler.Framework.{
  Framework, Pod, Node, ClusterEvent, Code, success, error, is_success_code, is_unschedulable_code,
  StateData,
}

abbrev pub PlainStatus : Type 0
PlainStatus = record { code : Code; message : Text; failed : Text }

instance abbrev pub plain : Framework
plain = record {
  Status = PlainStatus;
  nil_status = record { code = success; message = []; failed = [] };
  new_status = λ c m. record { code = c; message = m; failed = [] };
  as_status = λ m. record { code = error; message = m; failed = [] };
  with_failed_plugin = λ s p. record { code = s.code; message = s.message; failed = p };
  code = λ s. s.code;
  is_success = λ s. is_success_code s.code;
  is_unschedulable = λ s. is_unschedulable_code s.code;
  failed_plugin = λ s. s.failed;
  as_error = λ s. s.message;
  message = λ s. s.message;
  PodInfo = Pod;
  new_pod_info = λ p. p;
  pod_of = λ p. p;
  NodeInfo = Node;
  new_node_info = λ n. n;
  node_of = λ n. n;
  StringSet = List Text;
  new_string = λ l. l;
  set_insert = λ a s. a ∷ s;
  has = λ s b. any (λ a. a == b) s;
  elements = λ s. s;
  CycleState = List (Text × StateData);
  new_cycle_state = [];
  write = λ k d c. insert k d c;
  read = λ c k. lookup k c;
  not_found = str "not found";
  is_wild_card = λ e. e.resource == str "*" && nat_beq e.action_type 127;
  node_gvk = str "Node";
  add_action = 1;
  update_action = 124;
  delete_action = 2;
  code-nil = refl;
  code-new = λ c m. refl;
  code-as_status = λ m. refl;
  code-with = λ s p. refl;
  failed_plugin-with = λ s p. refl;
  is_success-code = λ s. refl;
  is_unschedulable-code = λ s. refl;
  pod_of-new = λ p. refl;
  node_of-new = λ n. refl;
  has-new = λ l b. refl;
  has-insert = λ a b s. refl;
  has-elements = λ s b. refl;
  read-new = λ k. refl;
  read-write = λ k j d c. lookup-insert k j d c;
}

abbrev pub pod1 : Pod
pod1 = record { name = str "pod1"; namespace = str "default"; uid = str "u1"; node_name = [] }

abbrev pub pod2 : Pod
pod2 = record { name = str "pod2"; namespace = str "default"; uid = str "u2"; node_name = [] }

-- A pod whose name ends in no digit.
abbrev pub web : Pod
web = record { name = str "web"; namespace = str "default"; uid = str "u3"; node_name = [] }

abbrev pub node : Text → Bool → Node
node name unschedulable = record { name = name; unschedulable = unschedulable }

abbrev pub node_added : ClusterEvent
node_added = record { resource = str "Node"; action_type = 1; label = str "NodeAdd" }

abbrev pub node_deleted : ClusterEvent
node_deleted = record { resource = str "Node"; action_type = 2; label = str "NodeDelete" }
