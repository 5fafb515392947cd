-- ===== src/Tests/ConfigRuns.antt =====
-- scheduler/plugin/plugins.go, scheduler/defaultconfig/defaultconfig.go: runs of the configuration.
use mini_kube_scheduler.Common.{◌≡◌, refl, inr, true, List, [], ◌∷◌, any, none, some}
use mini_kube_scheduler.Common.Keys.{Text, str, text_eq, text_beq, ◌==◌}
use mini_kube_scheduler.Common.Maps.{lookup}
use mini_kube_scheduler.Tests.Plain.{plain}
use mini_kube_scheduler.ResultStore.{
  Store, new_store, new_key, put, change, add_filter_result, add_score_result,
  apply_weight_on_score,
}
use mini_kube_scheduler.Strconv.{format_int}
use mini_kube_scheduler.Simulator.Wrapped.{
  Plugin, SimulatorPlugin, new_simulator_plugin, plugin_name, filter, score,
}
use mini_kube_scheduler.Simulator.Config.{
  PluginRef, Result, returned, panicked, ConfigApi, Plugins, RawExtension, Profile, default_profile,
  default_filter_plugins, default_score_plugins, convert_for_simulator, factory, new_plugin_config,
  new_registry,
}
use mini_kube_scheduler.Simulator.Config.Converted.{convert_for_simulator_lem}
use mini_kube_scheduler.Simulator.Config.Arguments.{new_plugin_config-known}
use mini_kube_scheduler.Simulator.Config.Registry.{new_registry_lem}

program : Unit {0}
unfolding text_beq new_store new_key put change add_filter_result add_score_result
    apply_weight_on_score format_int new_simulator_plugin plugin_name filter score
    default_filter_plugins default_score_plugins default_profile convert_for_simulator
    new_plugin_config new_registry
program = tt

abbrev ref : Text → PluginRef
ref name = record { name = name; weight = none }

-- Two default filter plugins and one default score plugin.
instance abbrev pub two_filters : ConfigApi
two_filters = record {
  Object = Text;
  OtherPlugins = Unit {0};
  no_other_plugins = tt;
  default_profiles =
      (
        some (record {
          filter = record { enabled = ref (str "A") ∷ ref (str "B") ∷ []; disabled = [] };
          score = record { enabled = ref (str "B") ∷ []; disabled = [] };
          others = tt;
        }),
        (str "A", ([], some (str "args of A"))) ∷ [],
      )
      ∷ [];
  wrapped_nil = λ text. text;
  unmarshal = λ raw old. inr (some raw);
}

abbrev disables_a : Plugins
disables_a = record {
  filter = record { enabled = ref (str "X") ∷ []; disabled = ref (str "A") ∷ [] };
  score = record { enabled = ref (str "Y") ∷ []; disabled = ref (str "*") ∷ [] };
  others = tt;
}

abbrev filter_refs : List PluginRef
filter_refs = ref (str "A") ∷ ref (str "B") ∷ []

abbrev score_refs : List PluginRef
score_refs = ref (str "B") ∷ []

defaults_run :
    (default_filter_plugins ≡ returned filter_refs) × (default_score_plugins ≡ returned score_refs)
unfolding program
defaults_run = (refl, refl)

convert_for_simulator_lem_example :
    convert_for_simulator disables_a
    ≡ returned (record {
      filter = record { enabled = ref (str "BForSimulator") ∷ []; disabled = ref (str "*") ∷ [] };
      score = record { enabled = ref (str "Y") ∷ []; disabled = ref (str "*") ∷ [] };
      others = tt;
    })
unfolding program
convert_for_simulator_lem_example =
    convert_for_simulator_lem disables_a filter_refs score_refs defaults_run.0 defaults_run.1

abbrev overrides_a : List (Text × RawExtension)
overrides_a = (str "A", (str "raw", none)) ∷ []

config_runs :
    new_plugin_config overrides_a
    ≡ returned
        ((str "A", ([], some (str "raw"))) ∷ (str "AForSimulator", ([], some (str "raw"))) ∷ [])
unfolding program
config_runs = refl

-- Arguments for a plugin that has no default arguments.
unknown_panics : new_plugin_config ((str "Z", (str "raw", none)) ∷ []) ≡ panicked
unfolding program
unknown_panics = refl

abbrev profile : Profile
profile = (
  some (record {
    filter = record { enabled = filter_refs; disabled = [] };
    score = record { enabled = score_refs; disabled = [] };
    others = tt;
  }),
  (str "A", ([], some (str "args of A"))) ∷ [],
)

profile_runs : default_profile ≡ returned profile
unfolding program
profile_runs = refl

new_plugin_config-known_example : any (λ p. p.0 == str "A") profile.1 ≡ true
unfolding program
new_plugin_config-known_example =
    new_plugin_config-known overrides_a
      ((str "A", ([], some (str "raw"))) ∷ (str "AForSimulator", ([], some (str "raw"))) ∷ [])
      profile (str "A") profile_runs config_runs refl

abbrev in_tree : Text → Result Plugin
in_tree name = returned (record { name = name; as_filter_plugin = none; as_score_plugin = none })

new_registry_lem_example :
    (store : Store) × (registry : List (Text × Result SimulatorPlugin)) × (new_registry in_tree
      ≡ returned (store, registry))
    × (lookup (plugin_name (str "B")) registry ≡ some (factory in_tree (ref (str "B"))))
unfolding text_beq
new_registry_lem_example =
    new_registry_lem in_tree (str "B") filter_refs score_refs defaults_run.0 defaults_run.1
