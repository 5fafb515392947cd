-- ===== src/Tests/StoreRuns.antt =====
-- scheduler/plugin/resultstore/store.go: runs of the store.
use mini_kube_scheduler.Common.{
  ℕ, zero, suc, ◌+◌, ◌≡◌, refl, arith, ◌⊎◌, List, [], ◌∷◌, Option, none, some, if◌then◌else◌,
}
use mini_kube_scheduler.Common.Int.{ℤ, pos, negsuc}
use mini_kube_scheduler.Common.Keys.{Text, str, text_eq, text_beq, ◌==◌}
use mini_kube_scheduler.Common.Maps.{lookup, insert, lookup-insert}
use mini_kube_scheduler.Json.{marshal}
use mini_kube_scheduler.Strconv.{atoi, format_int}
use mini_kube_scheduler.Strconv.RoundTrip.{atoi-format_int}
use mini_kube_scheduler.ResultStore.{
  Store, PodResult, new_store, new_key, put, change, add_filter_result, apply_weight_on_score,
  add_normalized_score_result, add_score_result, Kubernetes, Tried, done, undone, tried_error,
  add_scheduling_result_to_pod,
}
use mini_kube_scheduler.ResultStore.Entries.{HasNoSlash, scores, finals, entry}
use mini_kube_scheduler.ResultStore.ReadBack.{number_in, add_score_result-read_back}
use mini_kube_scheduler.ResultStore.Reflect.{Reflects, add_scheduling_result_to_pod_lem}

program : Unit {0}
unfolding text_beq atoi format_int marshal new_store new_key put change add_filter_result
    apply_weight_on_score add_normalized_score_result add_score_result add_scheduling_result_to_pod
program = tt

abbrev weights : List (Text × ℤ)
weights = (str "ImageLocality", pos 3) ∷ []

abbrev empty : Store
empty = new_store weights

abbrev default : Text
default = str "default"

default-HasNoSlash : HasNoSlash default
default-HasNoSlash = (
  (λ e. ground arith),
  (
    (λ e. ground arith),
    (
      (λ e. ground arith),
      (
        (λ e. ground arith),
        ((λ e. ground arith), ((λ e. ground arith), ((λ e. ground arith), tt))),
      ),
    ),
  ),
)

-- A score of -7 with the weight 3.
weighted_score :
    entry finals default
      (str "pod1")
      (str "node1")
      (str "ImageLocality")
      (add_score_result default (str "pod1") (str "node1") (str "ImageLocality") (negsuc 6) empty)
    ≡ some (str "-21")
unfolding program
weighted_score = refl

encodes :
    marshal ((str "n2", []) ∷ (str "n1", (str "A", str "a<\"b") ∷ []) ∷ [])
    ≡ str "{\"n1\":{\"A\":\"a\\u003c\\\"b\"},\"n2\":{}}"
unfolding program
encodes = refl

atoi-format_int_example : atoi (format_int (negsuc 122)) ≡ some (negsuc 122)
atoi-format_int_example = atoi-format_int (negsuc 122) (omega arith, omega arith)

add_score_result-read_back_example :
    (number_in (
        entry scores default
          (str "pod1")
          (str "node1")
          (str "ImageLocality")
          (add_score_result default (str "pod1") (str "node1") (str "ImageLocality") (pos 4) empty))
      ≡ some (pos 4))
    × (number_in (
          entry finals default (str "pod1") (str "node1") (str "ImageLocality") (
            add_score_result default
              (str "pod1")
              (str "node1")
              (str "ImageLocality")
              (pos 4)
              empty))
        ≡ some (pos 12))
unfolding program
add_score_result-read_back_example =
    add_score_result-read_back default (str "pod1") (str "node1") (str "ImageLocality") (pos 4)
      empty default-HasNoSlash (omega arith)

abbrev AnnotatedPod : Type 0
AnnotatedPod = record { name : Text; namespace : Text; annotations : List (Text × Text) }

-- The calls from the i-th on, of which `steps` are left.
back_off : (steps i : ℕ) → (ℕ → Tried) → Option Text
back_off zero i f = some (str "timed out waiting for the condition")
back_off (suc steps) i f =
    let rest = back_off steps (i + 1) f in
    elim (f i) [ done ↦ none | undone ↦ rest | tried_error text ↦ some text ]

back_off-done : (steps : ℕ) (f : ℕ → Tried) → f 0 ≡ done → back_off (suc steps) 0 f ≡ none
unfolding back_off
back_off-done steps f h = rw (h, back_off) refl

back_off-error :
    (steps : ℕ) (f : ℕ → Tried) (text : Text)
    → f 0 ≡ tried_error text
    → back_off (suc steps) 0 f ≡ some text
unfolding back_off
back_off-error steps f text h = rw (h, back_off) refl

instance abbrev plain_kubernetes : Kubernetes
plain_kubernetes = record {
  Pod = AnnotatedPod;
  name = λ p. p.name;
  namespace = λ p. p.namespace;
  annotation = λ p key. lookup key p.annotations;
  set_annotation = λ key value p. record p { annotations = insert key value p.annotations };
  exponential_backoff = λ steps f. back_off steps 0 f;
  annotation-set = λ key value j p. lookup-insert key j value p.annotations;
  name-set = λ key value p. refl;
  namespace-set = λ key value p. refl;
  backoff-done = back_off-done;
  backoff-error = back_off-error;
}

abbrev pod1 : AnnotatedPod
pod1 = record { name = str "pod1"; namespace = default; annotations = [] }

abbrev passed : PodResult
passed = record {
  score = [];
  finalscore = [];
  filter = (str "node1", (str "NodeName", str "passed") ∷ []) ∷ [];
}

abbrev one_result : Store
one_result = record { results = (str "default/pod1", passed) ∷ []; score_plugin_weight = weights }

abbrev fails_once : ℕ → Option Text
fails_once zero = some (str "conflict")
fails_once (suc i) = none

-- The second attempt, which would succeed, is not made.
keeps_result : (add_scheduling_result_to_pod fails_once pod1 one_result).1 ≡ one_result
unfolding program back_off
keeps_result = refl

add_scheduling_result_to_pod_lem_example :
    ((lookup (str "default/pod1") one_result.results ≡ none)
      × (add_scheduling_result_to_pod fails_once pod1 one_result ≡ (pod1, one_result)))
    ⊎ (d : PodResult) × (pod' : AnnotatedPod) × (s' : Store) × (lookup
          (str "default/pod1")
          one_result.results
        ≡ some d)
      × (add_scheduling_result_to_pod fails_once pod1 one_result ≡ (pod', s'))
      × Reflects d pod'
      × ((fails_once 0 ≡ none)
            × (lookup (str "default/pod2") s'.results ≡ (
                if str "default/pod1" == str "default/pod2"
                then none
                else lookup (str "default/pod2") one_result.results))
          ⊎ (text : Text) × (fails_once 0 ≡ some text) × (s' ≡ one_result))
unfolding new_key
add_scheduling_result_to_pod_lem_example =
    add_scheduling_result_to_pod_lem fails_once pod1 one_result (str "default/pod2")
