-- ===== src/Simulator/Wrapped/Transparent.antt =====
-- scheduler/plugin/plugins.go: a wrapped plugin answers as the original does, and records it.
use mini_kube_scheduler.Common.{
  ◌≡◌, refl, ap, ◌∙◌, ◌⊎◌, inl, inr, true, none, some, Bool-cases, Option-cases, ◌&&◌,
  if◌then◌else◌,
}
use mini_kube_scheduler.Common.Int.{ℤ, pos}
use mini_kube_scheduler.Common.Keys.{Text, text_eq}
use mini_kube_scheduler.Framework.{Framework, Pod, is_success-nil}
use mini_kube_scheduler.Minisched.Types.{FilterPlugin, ScorePlugin}
use mini_kube_scheduler.ResultStore.{
  Store, passed_filter_message, add_filter_result, add_score_result,
}
use mini_kube_scheduler.ResultStore.Entries.{
  HasNoSlash, Field, entry, same_entry, filter_text, score_text, add_filter_result_lem,
  add_score_result_lem,
}
use mini_kube_scheduler.Simulator.Wrapped.{Plugin, new_simulator_plugin, filter, score}

module _ ⦃fw : Framework⦄ (p : Plugin) (weight : ℤ) (state : fw.CycleState) (pod : Pod)
    (store : Store) where
  -- What a filter's status is recorded as.
  abbrev pub reason_of : fw.Status → Text
  reason_of s = if fw.is_success s then passed_filter_message else fw.message s

  run-filter :
      (info : fw.NodeInfo) (fp : FilterPlugin)
      → p.as_filter_plugin ≡ some fp
      → filter (new_simulator_plugin p weight) state pod info store ≡ (
        fp.filter state pod info,
        add_filter_result pod.namespace pod.name
            (fw.node_of info).name
            fp.name
            (reason_of (fp.filter state pod info))
            store,
      )
  unfolding filter new_simulator_plugin
  run-filter info fp e =
      rw (e, filter)
        (elim (Bool-cases (fw.is_success (fp.filter state pod info))) [
          | inl ok ↦ rw ok refl
          | inr failed ↦ rw failed refl
        ])

  -- The simulator's plugin filters a node as the original does, and with success if the original is
  -- no filter plugin, in which case the store stays as it is. Otherwise, for namespaces without a
  -- slash, the store gets the result of the original under its own name, which is "passed" or the
  -- message of its status, and no other entry of any table changes.
  pub filter_lem :
      (info : fw.NodeInfo) (namespace pod_name node_name plugin : Text) (f : Field)
      → HasNoSlash pod.namespace
      → HasNoSlash namespace
      → ((p.as_filter_plugin ≡ none)
          × (fw.is_success (filter (new_simulator_plugin p weight) state pod info store).0 ≡ true)
          × ((filter (new_simulator_plugin p weight) state pod info store).1 ≡ store))
        ⊎ (fp : FilterPlugin) × (p.as_filter_plugin ≡ some fp)
          × ((filter (new_simulator_plugin p weight) state pod info store).0
              ≡ fp.filter state pod info)
          × (entry f namespace pod_name node_name plugin
                (filter (new_simulator_plugin p weight) state pod info store).1
              ≡ (if same_entry pod.namespace pod.name
                    (fw.node_of info).name
                    fp.name
                    namespace
                    pod_name
                    node_name
                    plugin
                  then filter_text f
                      (reason_of (fp.filter state pod info))
                      (entry f namespace pod_name node_name plugin store)
                  else entry f namespace pod_name node_name plugin store))
  unfolding filter new_simulator_plugin
  filter_lem info namespace pod_name node_name plugin f h h' =
      elim (Option-cases p.as_filter_plugin) [
        | inl e ↦ inl (e, rw e is_success-nil, rw e refl)
        | inr (fp, e) ↦
            let ran = run-filter info fp e in
            let fields = same_entry pod.namespace pod.name (fw.node_of info).name fp.name in
            inr (
              fp,
              e,
              ap (λ r. r.0) ran,
              ap (λ r. entry f namespace pod_name node_name plugin r.1) ran
                  ∙ add_filter_result_lem pod.namespace pod.name (fw.node_of info).name fp.name
                      namespace pod_name node_name plugin h h' f
                      (reason_of (fp.filter state pod info)) store,
            )
      ]

  -- The store after a score.
  abbrev recorded : (node : Text) → ScorePlugin → ℤ → fw.Status → Store
  recorded node sp value s =
      if fw.is_success s
      then add_score_result pod.namespace pod.name node sp.name value store
      else store

  run-score :
      (node : Text) (sp : ScorePlugin) (value : ℤ) (s : fw.Status)
      → p.as_score_plugin ≡ some sp
      → sp.score state pod node ≡ some (value, s)
      → score (new_simulator_plugin p weight) state pod node store
        ≡ some (value, s, recorded node sp value s)
  unfolding score new_simulator_plugin
  run-score node sp value s e f = rw (e, score) (rw f refl)

  -- The simulator's plugin scores a node as the original does, and with zero and success if the
  -- original is no score plugin, in which case the store stays as it is; it panics exactly when the
  -- original does. If the original succeeds then, for namespaces without a slash, the store gets its
  -- score and its weighted score under its own name; no other entry of any table changes, and none
  -- at all if the original fails.
  pub score_lem :
      (node namespace pod_name node_name plugin : Text) (f : Field)
      → HasNoSlash pod.namespace
      → HasNoSlash namespace
      → ((p.as_score_plugin ≡ none)
          × (score (new_simulator_plugin p weight) state pod node store
              ≡ some (pos 0, fw.nil_status, store)))
        ⊎ (sp : ScorePlugin) × (p.as_score_plugin ≡ some sp)
          × (((sp.score state pod node ≡ none)
                × (score (new_simulator_plugin p weight) state pod node store ≡ none))
              ⊎ (value : ℤ) × (s : fw.Status) × (store' : Store) × (sp.score state pod node
                  ≡ some (value, s))
                × (score (new_simulator_plugin p weight) state pod node store
                    ≡ some (value, s, store'))
                × (entry f namespace pod_name node_name plugin store' ≡ (
                    if fw.is_success s
                      && same_entry pod.namespace pod.name node sp.name namespace pod_name node_name
                          plugin
                    then score_text sp.name f value store
                        (entry f namespace pod_name node_name plugin store)
                    else entry f namespace pod_name node_name plugin store)))
  unfolding score new_simulator_plugin
  score_lem node namespace pod_name node_name plugin f h h' =
      elim (Option-cases p.as_score_plugin) [
        | inl e ↦ inl (e, rw (e, score) refl)
        | inr (sp, e) ↦ inr (
          sp,
          e,
          elim (Option-cases (sp.score state pod node)) [
            | inl g ↦ inl (g, rw (e, score) (rw g refl))
            | inr ((value, s), g) ↦ inr (
              value,
              s,
              recorded node sp value s,
              g,
              run-score node sp value s e g,
              elim (Bool-cases (fw.is_success s)) [
                | inl ok ↦ rw ok (
                    add_score_result_lem pod.namespace pod.name node sp.name namespace pod_name
                      node_name plugin h h' f value store)
                | inr failed ↦ rw failed refl
              ],
            )
          ],
        )
      ]
