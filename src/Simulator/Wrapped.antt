-- ===== src/Simulator/Wrapped.antt =====
-- scheduler/plugin/plugins.go: simulatorPlugin, which runs the original plugin and records its results
-- in the store, which is passed on as a state. `none` is a panic.
pub mod Transparent
use mini_kube_scheduler.Common.{ℕ, Bool, List, [], ◌∷◌, ◌++◌, Option, none, some, if◌then◌else◌}
use mini_kube_scheduler.Common.Int.{ℤ, pos}
use mini_kube_scheduler.Common.Keys.{Text, str}
use mini_kube_scheduler.Framework.{Framework, Pod, Node, NodeScore}
use mini_kube_scheduler.Minisched.Types.{FilterPlugin, ScorePlugin}
use mini_kube_scheduler.ResultStore.{
  Store, passed_filter_message, add_filter_result, add_score_result, add_normalized_score_result,
}

abbrev pub plugin_suffix : Text
plugin_suffix = str "ForSimulator"

unfoldable pub plugin_name : Text → Text
plugin_name name = name ++ plugin_suffix

module _ ⦃fw : Framework⦄ where
  -- A framework.Plugin with the interfaces to which it can be converted.
  pub record Plugin : Type 0 where
    pub name : Text
    pub as_filter_plugin : Option FilterPlugin
    pub as_score_plugin : Option ScorePlugin

  pub record SimulatorPlugin : Type 0 where
    pub name : Text
    pub original_filter_plugin : Option FilterPlugin
    pub original_score_plugin : Option ScorePlugin
    pub weight : ℤ

  unfoldable pub new_simulator_plugin : Plugin → (weight : ℤ) → SimulatorPlugin
  unfolding plugin_name
  new_simulator_plugin p weight = record {
    name = plugin_name p.name;
    original_filter_plugin = p.as_filter_plugin;
    original_score_plugin = p.as_score_plugin;
    weight = weight;
  }

  -- The score extensions are those of the original.
  unfoldable pub score_extensions :
      SimulatorPlugin → Option (fw.CycleState → Pod → List NodeScore → fw.Status × List NodeScore)
  score_extensions pl = elim pl.original_score_plugin [
    | none ↦ none
    | some sp ↦ sp.score_extensions
  ]

  -- The loop over the normalized scores.
  add_normalized_scores : Pod → (plugin_name : Text) → List NodeScore → Store → Store
  add_normalized_scores pod plugin [] store = store
  add_normalized_scores pod plugin (s ∷ scores) store =
      add_normalized_scores pod plugin scores
        (add_normalized_score_result pod.namespace pod.name s.name plugin s.score store)

  normalize_with :
      ScorePlugin
      → (fw.CycleState → Pod → List NodeScore → fw.Status × List NodeScore)
      → fw.CycleState
      → Pod
      → List NodeScore
      → Store
      → fw.Status × List NodeScore × Store
  unfolding add_normalized_scores
  normalize_with sp normalize state pod scores store =
      let (s, scores') = normalize state pod scores in
      if fw.is_success s
      then (fw.nil_status, scores', add_normalized_scores pod sp.name scores' store)
      else (s, scores', store)

  unfoldable pub normalize_score :
      SimulatorPlugin
      → fw.CycleState
      → Pod
      → List NodeScore
      → Store
      → Option (fw.Status × List NodeScore × Store)
  unfolding normalize_with
  normalize_score pl state pod scores store = elim pl.original_score_plugin [
    | none ↦ some (fw.nil_status, scores, store)
    | some sp ↦ elim sp.score_extensions [
      | none ↦ none
      | some normalize ↦ some (normalize_with sp normalize state pod scores store)
    ]
  ]

  unfoldable pub score :
      SimulatorPlugin
      → fw.CycleState
      → Pod
      → (node_name : Text) → Store
      → Option (ℤ × fw.Status × Store)
  score pl state pod node_name store = elim pl.original_score_plugin [
    | none ↦ some (pos 0, fw.nil_status, store)
    | some sp ↦ elim (sp.score state pod node_name) [
      | none ↦ none
      | some (value, s) ↦ some (
        value,
        s,
        (if fw.is_success s
            then add_score_result pod.namespace pod.name node_name sp.name value store
            else store),
      )
    ]
  ]

  unfoldable pub filter :
      SimulatorPlugin → fw.CycleState → Pod → fw.NodeInfo → Store → fw.Status × Store
  filter pl state pod info store = elim pl.original_filter_plugin [
    | none ↦ (fw.nil_status, store)
    | some fp ↦
        let s = fp.filter state pod info in
        let node_name = (fw.node_of info).name in
        if fw.is_success s
        then (
          s,
          add_filter_result pod.namespace pod.name node_name fp.name passed_filter_message store,
        )
        else (s, add_filter_result pod.namespace pod.name node_name fp.name (fw.message s) store)
  ]
