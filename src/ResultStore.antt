-- ===== src/ResultStore.antt =====
-- scheduler/plugin/resultstore/store.go: the results of the simulator's plugins for each pod, and the
-- handler that writes them to the pod's annotations.
pub mod Entries
pub mod Reflect
pub mod ReadBack
use mini_kube_scheduler.Common.{
  ℕ, suc, ◌+◌, ◌≡◌, Bool, true, false, List, [], ◌∷◌, ◌++◌, Option, none, some, if◌then◌else◌,
}
use mini_kube_scheduler.Common.Int.{ℤ, pos, ◌*ℤ◌, wrap64}
use mini_kube_scheduler.Common.Keys.{Text, str, text_eq, ◌==◌}
use mini_kube_scheduler.Common.Maps.{lookup, insert, delete, get_or}
use mini_kube_scheduler.Json.{marshal}
use mini_kube_scheduler.Strconv.{format_int}

-- Node name, plugin name, text.
abbrev pub Table : Type 0
Table = List (Text × List (Text × Text))

pub record PodResult : Type 0 where
  pub score : Table
  pub finalscore : Table
  pub filter : Table

-- The weights are int32; client and lock are left out.
pub record Store : Type 0 where
  pub results : List (Text × PodResult)
  pub score_plugin_weight : List (Text × ℤ)

abbrev pub passed_filter_message : Text
passed_filter_message = str "passed"

unfoldable pub new_store : (weights : List (Text × ℤ)) → Store
new_store weights = record { results = []; score_plugin_weight = weights }

unfoldable pub new_key : (namespace pod_name : Text) → Text
new_key namespace pod_name = namespace ++ (str "/" ++ pod_name)

abbrev pub new_data : PodResult
new_data = record { score = []; finalscore = []; filter = [] }

-- table[node][plugin] = text, where a missing row is made first.
unfoldable pub put : (node_name plugin_name text : Text) → Table → Table
put node_name plugin_name text table =
    insert node_name (insert plugin_name text (get_or table node_name [])) table

-- The result of a pod, which is made if it is missing, is changed.
unfoldable pub change : (PodResult → PodResult) → (k : Text) → Store → Store
change f k s = record s { results = insert k (f (get_or s.results k new_data)) s.results }

-- The assignments to one entry of a table of the result.
abbrev pub with_filter : (node_name plugin_name reason : Text) → PodResult → PodResult
with_filter node_name plugin_name reason d = record d {
  filter = put node_name plugin_name reason d.filter;
}

abbrev pub with_score : (node_name plugin_name text : Text) → PodResult → PodResult
with_score node_name plugin_name text d = record d {
  score = put node_name plugin_name text d.score;
}

abbrev pub with_final_score : (node_name plugin_name text : Text) → PodResult → PodResult
with_final_score node_name plugin_name text d = record d {
  finalscore = put node_name plugin_name text d.finalscore;
}

unfoldable pub add_filter_result :
    (namespace pod_name node_name plugin_name reason : Text) → Store → Store
unfolding change new_key
add_filter_result namespace pod_name node_name plugin_name reason s =
    change (with_filter node_name plugin_name reason) (new_key namespace pod_name) s

-- The weight of a plugin that has none is zero; the product of two int64 wraps.
unfoldable pub apply_weight_on_score : (plugin_name : Text) → ℤ → Store → ℤ
unfolding wrap64 ◌*ℤ◌
apply_weight_on_score plugin_name score s =
    let weight = get_or s.score_plugin_weight plugin_name (pos 0) in wrap64 (score *ℤ weight)

add_normalized_score_result_without_lock :
    (namespace pod_name node_name plugin_name : Text) → (normalizedscore : ℤ) → Store → Store
unfolding change new_key
add_normalized_score_result_without_lock namespace pod_name node_name plugin_name normalizedscore
      s =
    let finalscore = apply_weight_on_score plugin_name normalizedscore s in
    change (with_final_score node_name plugin_name (format_int finalscore))
      (new_key namespace pod_name) s

unfoldable pub add_normalized_score_result :
    (namespace pod_name node_name plugin_name : Text) → (normalizedscore : ℤ) → Store → Store
unfolding add_normalized_score_result_without_lock
add_normalized_score_result namespace pod_name node_name plugin_name normalizedscore s =
    add_normalized_score_result_without_lock namespace pod_name node_name plugin_name
      normalizedscore s

unfoldable pub add_score_result :
    (namespace pod_name node_name plugin_name : Text) → (score : ℤ) → Store → Store
unfolding change new_key add_normalized_score_result_without_lock
add_score_result namespace pod_name node_name plugin_name score s =
    let scored =
      change (with_score node_name plugin_name (format_int score)) (new_key namespace pod_name) s in
    add_normalized_score_result_without_lock namespace pod_name node_name plugin_name score scored

unfoldable pub delete_data : (k : Text) → Store → Store
delete_data k s = record s { results = delete k s.results }

abbrev pub filter_result_annotation_key : Text
filter_result_annotation_key = str "scheduler-simulator/filter-result"

abbrev pub score_result_annotation_key : Text
score_result_annotation_key = str "scheduler-simulator/score-result"

abbrev pub final_score_result_annotation_key : Text
final_score_result_annotation_key = str "scheduler-simulator/finalscore-result"

-- What Kubernetes gives: a pod with annotations, metav1.SetMetaDataAnnotation, and
-- wait.ExponentialBackoff, which calls a function up to `steps` times. The i-th call of the function
-- returns its i-th value: done or not, or an error; the result is `none` or the text of an error.
-- It ends at the first call that is done or returns an error.
pub data Tried : Type 0 where
  done undone : Tried
  tried_error : (text : Text) → Tried

pub record Kubernetes : Type 1 where
  pub Pod : Type 0
  pub name : Pod → Text
  pub namespace : Pod → Text
  pub annotation : Pod → (key : Text) → Option Text
  pub set_annotation : (key value : Text) → Pod → Pod
  pub exponential_backoff : (steps : ℕ) → (ℕ → Tried) → Option Text
  pub annotation-set :
      (key value j : Text) (p : Pod)
      → annotation (set_annotation key value p) j
        ≡ (if key == j then some value else annotation p j)
  pub name-set : (key value : Text) (p : Pod) → name (set_annotation key value p) ≡ name p
  pub namespace-set :
      (key value : Text) (p : Pod) → namespace (set_annotation key value p) ≡ namespace p
  pub backoff-done :
      (steps : ℕ) (f : ℕ → Tried) → f 0 ≡ done → exponential_backoff (suc steps) f ≡ none
  pub backoff-error :
      (steps : ℕ) (f : ℕ → Tried) (text : Text)
      → f 0 ≡ tried_error text
      → exponential_backoff (suc steps) f ≡ some text

-- util/retry.go.
abbrev pub retry_backoff_steps : ℕ
retry_backoff_steps = 6

module _ ⦃k8s : Kubernetes⦄ where
  retry_with_exponential_back_off : (ℕ → Tried) → Option Text
  retry_with_exponential_back_off fn = k8s.exponential_backoff retry_backoff_steps fn

  add_filter_result_to_pod : PodResult → k8s.Pod → k8s.Pod
  add_filter_result_to_pod d pod =
      k8s.set_annotation filter_result_annotation_key (marshal d.filter) pod

  add_score_result_to_pod : PodResult → k8s.Pod → k8s.Pod
  add_score_result_to_pod d pod =
      k8s.set_annotation score_result_annotation_key (marshal d.score) pod

  add_final_score_result_to_pod : PodResult → k8s.Pod → k8s.Pod
  add_final_score_result_to_pod d pod =
      k8s.set_annotation final_score_result_annotation_key (marshal d.finalscore) pod

  -- The function that is tried: an error of the client's i-th update is returned.
  update_func : (answers : ℕ → Option Text) → ℕ → Tried
  update_func answers i = elim (answers i) [
    | none ↦ done
    | some text ↦ tried_error (str "update pod: " ++ text)
  ]

  -- The pod, which is changed in place, and the store.
  unfoldable pub add_scheduling_result_to_pod :
      (answers : ℕ → Option Text) → k8s.Pod → Store → k8s.Pod × Store
  unfolding retry_with_exponential_back_off add_filter_result_to_pod add_score_result_to_pod
      add_final_score_result_to_pod update_func delete_data new_key
  add_scheduling_result_to_pod answers pod s =
      let k = new_key (k8s.namespace pod) (k8s.name pod) in
      elim (lookup k s.results) [
        | none ↦ (pod, s)
        | some d ↦
            let pod' =
              add_final_score_result_to_pod d
                (add_score_result_to_pod d (add_filter_result_to_pod d pod)) in
            elim (retry_with_exponential_back_off (update_func answers)) [
              | some text ↦ (pod', s)
              | none ↦ (pod', delete_data k s)
            ]
      ]
