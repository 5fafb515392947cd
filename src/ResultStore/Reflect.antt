-- ===== src/ResultStore/Reflect.antt =====
-- scheduler/plugin/resultstore/store.go and util/retry.go: what is left on a pod and in the store.
use mini_kube_scheduler.Common.{
  ℕ, ◌≡◌, refl, ◌∙◌, ◌⊎◌, inl, inr, ◌++◌, Option, none, some, Option-cases, if◌then◌else◌,
}
use mini_kube_scheduler.Common.Keys.{Text, str, text_eq, text_beq, ◌==◌}
use mini_kube_scheduler.Common.Maps.{lookup, lookup-delete}
use mini_kube_scheduler.Json.{marshal}
use mini_kube_scheduler.ResultStore.{
  PodResult, Store, new_key, delete_data, Kubernetes, update_func, retry_with_exponential_back_off,
  filter_result_annotation_key, score_result_annotation_key, final_score_result_annotation_key,
  add_filter_result_to_pod, add_score_result_to_pod, add_final_score_result_to_pod,
  add_scheduling_result_to_pod,
}

module _ ⦃k8s : Kubernetes⦄ (answers : ℕ → Option Text) where
  -- The first answer decides.
  retry-none : answers 0 ≡ none → retry_with_exponential_back_off (update_func answers) ≡ none
  unfolding retry_with_exponential_back_off update_func
  retry-none h = k8s.backoff-done 5 (update_func answers) (rw (h, update_func) refl)

  retry-some :
      (text : Text)
      → answers 0 ≡ some text
      → retry_with_exponential_back_off (update_func answers) ≡ some (str "update pod: " ++ text)
  unfolding retry_with_exponential_back_off update_func
  retry-some text h =
      k8s.backoff-error 5 (update_func answers) (str "update pod: " ++ text)
        (rw (h, update_func) refl)

module _ ⦃k8s : Kubernetes⦄ where
  abbrev pub annotated : PodResult → k8s.Pod → k8s.Pod
  annotated d pod = k8s.set_annotation final_score_result_annotation_key (marshal d.finalscore) (
      k8s.set_annotation score_result_annotation_key (marshal d.score)
        (k8s.set_annotation filter_result_annotation_key (marshal d.filter) pod))

  -- The pod has the JSON of the three tables as annotations.
  pub record Reflects (d : PodResult) (pod : k8s.Pod) : Type 0 where
    pub filter_result : k8s.annotation pod filter_result_annotation_key ≡ some (marshal d.filter)
    pub score_result : k8s.annotation pod score_result_annotation_key ≡ some (marshal d.score)
    pub final_score_result :
        k8s.annotation pod final_score_result_annotation_key ≡ some (marshal d.finalscore)

  annotated-Reflects : (d : PodResult) (pod : k8s.Pod) → Reflects d (annotated d pod)
  unfolding text_beq
  annotated-Reflects d pod =
      let one = k8s.set_annotation filter_result_annotation_key (marshal d.filter) pod in
      let two = k8s.set_annotation score_result_annotation_key (marshal d.score) one in
      let last = k8s.annotation-set final_score_result_annotation_key (marshal d.finalscore) in
      let middle = k8s.annotation-set score_result_annotation_key (marshal d.score) in
      record {
        filter_result =
            last filter_result_annotation_key two
            ∙ middle filter_result_annotation_key one
            ∙ k8s.annotation-set filter_result_annotation_key (marshal d.filter)
                filter_result_annotation_key pod;
        score_result =
            last score_result_annotation_key two ∙ middle score_result_annotation_key one;
        final_score_result = last final_score_result_annotation_key two;
      }

  -- On an update of a pod for which the store has no result, nothing changes. Otherwise the pod gets
  -- the JSON of its three tables as annotations, and the client updates it: if the first attempt
  -- succeeds, the pod's result leaves the store and every other stays; if the first attempt fails,
  -- the store keeps all its results, whatever later attempts would answer.
  pub add_scheduling_result_to_pod_lem :
      (answers : ℕ → Option Text) (pod : k8s.Pod) (s : Store) (j : Text)
      → ((lookup (new_key (k8s.namespace pod) (k8s.name pod)) s.results ≡ none)
          × (add_scheduling_result_to_pod answers pod s ≡ (pod, s)))
        ⊎ (d : PodResult) × (pod' : k8s.Pod) × (s' : Store) × (lookup
              (new_key (k8s.namespace pod) (k8s.name pod))
              s.results
            ≡ some d)
          × (add_scheduling_result_to_pod answers pod s ≡ (pod', s'))
          × Reflects d pod'
          × ((answers 0 ≡ none)
                × (lookup j s'.results ≡ (
                    if new_key (k8s.namespace pod) (k8s.name pod) == j
                    then none
                    else lookup j s.results))
              ⊎ (text : Text) × (answers 0 ≡ some text) × (s' ≡ s))
  unfolding add_scheduling_result_to_pod add_filter_result_to_pod add_score_result_to_pod
      add_final_score_result_to_pod delete_data
  add_scheduling_result_to_pod_lem answers pod s j =
      let k = new_key (k8s.namespace pod) (k8s.name pod) in
      elim (Option-cases (lookup k s.results)) [
        | inl e ↦ inl (e, rw (e, add_scheduling_result_to_pod) refl)
        | inr (d, e) ↦ elim (Option-cases (answers 0)) [
          | inl ok ↦ inr (
            d,
            annotated d pod,
            delete_data k s,
            e,
            rw (e, retry-none answers ok, add_scheduling_result_to_pod) refl,
            annotated-Reflects d pod,
            inl (ok, lookup-delete k j s.results),
          )
          | inr (text, failed) ↦ inr (
            d,
            annotated d pod,
            s,
            e,
            rw (e, retry-some answers text failed, add_scheduling_result_to_pod) refl,
            annotated-Reflects d pod,
            inr (text, failed, refl),
          )
        ]
      ]
