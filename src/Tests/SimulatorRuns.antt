-- ===== src/Tests/SimulatorRuns.antt =====
-- scheduler/plugin/plugins.go: runs of the simulator's plugins and of their configuration.
use mini_kube_scheduler.Common.{
  ◌≡◌, refl, arith, ◌⊎◌, true, ◌&&◌, [], ◌∷◌, none, some, if◌then◌else◌,
}
use mini_kube_scheduler.Common.Int.{ℤ, pos}
use mini_kube_scheduler.Common.Keys.{str, text_eq, text_beq}
use mini_kube_scheduler.Framework.{Node, success, unschedulable}
use mini_kube_scheduler.Tests.Plain.{plain, PlainStatus, pod1, node}
use mini_kube_scheduler.Minisched.Types.{FilterPlugin, ScorePlugin}
use mini_kube_scheduler.ResultStore.{
  Store, new_store, new_key, put, change, add_filter_result, add_score_result,
  apply_weight_on_score,
}
use mini_kube_scheduler.ResultStore.Entries.{
  HasNoSlash, scores, filters, entry, same_entry, filter_text, score_text,
}
use mini_kube_scheduler.Strconv.{format_int}
use mini_kube_scheduler.Simulator.Wrapped.{Plugin, new_simulator_plugin, plugin_name, filter, score}
use mini_kube_scheduler.Simulator.Wrapped.Transparent.{filter_lem, score_lem}
use mini_kube_scheduler.Simulator.Config.{
  default_profile, default_filter_plugins, default_score_plugins, convert_for_simulator,
  new_plugin_config, new_registry,
}

program : Unit {0}
unfolding text_beq new_store new_key put change add_filter_result add_score_result
    apply_weight_on_score format_int new_simulator_plugin plugin_name filter score
    default_filter_plugins default_score_plugins default_profile convert_for_simulator
    new_plugin_config new_registry
program = tt

abbrev unschedulable_filter : FilterPlugin
unschedulable_filter = record {
  name = str "NodeUnschedulable";
  filter = λ state pod n.
      if n.unschedulable
      then record { code = unschedulable; message = str "unschedulable"; failed = [] }
      else record { code = success; message = []; failed = [] };
}

abbrev ten : ScorePlugin
ten = record {
  name = str "Ten";
  score =
      λ state pod node_name. some (pos 10, record { code = success; message = []; failed = [] });
  score_extensions = none;
}

abbrev both : Plugin
both = record {
  name = str "Both";
  as_filter_plugin = some unschedulable_filter;
  as_score_plugin = some ten;
}

abbrev empty : Store
empty = record { results = []; score_plugin_weight = (str "Ten", pos 2) ∷ [] }

default-HasNoSlash : HasNoSlash pod1.namespace
default-HasNoSlash = (
  (λ e. ground arith),
  (
    (λ e. ground arith),
    (
      (λ e. ground arith),
      (
        (λ e. ground arith),
        ((λ e. ground arith), ((λ e. ground arith), ((λ e. ground arith), tt))),
      ),
    ),
  ),
)

abbrev node1 : Node
node1 = node (str "node1") true

filter_lem_example :
    ((both.as_filter_plugin ≡ none)
      × (plain.is_success (filter (new_simulator_plugin both (pos 1)) [] pod1 node1 empty).0 ≡ true)
      × ((filter (new_simulator_plugin both (pos 1)) [] pod1 node1 empty).1 ≡ empty))
    ⊎ (fp : FilterPlugin) × (both.as_filter_plugin ≡ some fp)
      × ((filter (new_simulator_plugin both (pos 1)) [] pod1 node1 empty).0
          ≡ fp.filter [] pod1 node1)
      × (entry filters
            (str "default")
            (str "pod1")
            (str "node1")
            (str "NodeUnschedulable")
            (filter (new_simulator_plugin both (pos 1)) [] pod1 node1 empty).1
          ≡ (if same_entry
                (str "default")
                (str "pod1")
                (str "node1")
                fp.name
                (str "default")
                (str "pod1")
                (str "node1")
                (str "NodeUnschedulable")
              then filter_text filters
                  (if plain.is_success (fp.filter [] pod1 node1)
                    then str "passed"
                    else (fp.filter [] pod1 node1).message)
                  (entry filters
                    (str "default")
                    (str "pod1")
                    (str "node1")
                    (str "NodeUnschedulable")
                    empty)
              else entry filters
                  (str "default")
                  (str "pod1")
                  (str "node1")
                  (str "NodeUnschedulable")
                  empty))
filter_lem_example =
    filter_lem both (pos 1) [] pod1 empty node1 (str "default") (str "pod1") (str "node1")
      (str "NodeUnschedulable") filters default-HasNoSlash default-HasNoSlash

records_reason :
    entry filters
      (str "default")
      (str "pod1")
      (str "node1")
      (str "NodeUnschedulable")
      (filter (new_simulator_plugin both (pos 1)) [] pod1 node1 empty).1
    ≡ some (str "unschedulable")
unfolding program
records_reason = refl

score_lem_example :
    ((both.as_score_plugin ≡ none)
      × (score (new_simulator_plugin both (pos 1)) [] pod1 (str "node1") empty
          ≡ some (pos 0, plain.nil_status, empty)))
    ⊎ (sp : ScorePlugin) × (both.as_score_plugin ≡ some sp)
      × (((sp.score [] pod1 (str "node1") ≡ none)
            × (score (new_simulator_plugin both (pos 1)) [] pod1 (str "node1") empty ≡ none))
          ⊎ (value : ℤ) × (s : PlainStatus) × (store' : Store) × (sp.score [] pod1 (str "node1")
              ≡ some (value, s))
            × (score (new_simulator_plugin both (pos 1)) [] pod1 (str "node1") empty
                ≡ some (value, s, store'))
            × (entry scores (str "default") (str "pod1") (str "node1") (str "Ten") store' ≡ (
                if plain.is_success s
                  && same_entry
                      (str "default")
                      (str "pod1")
                      (str "node1")
                      sp.name
                      (str "default")
                      (str "pod1")
                      (str "node1")
                      (str "Ten")
                then score_text sp.name scores value empty
                    (entry scores (str "default") (str "pod1") (str "node1") (str "Ten") empty)
                else entry scores (str "default") (str "pod1") (str "node1") (str "Ten") empty)))
score_lem_example =
    score_lem both (pos 1) [] pod1 empty (str "node1") (str "default") (str "pod1") (str "node1")
      (str "Ten") scores default-HasNoSlash default-HasNoSlash
