-- ===== src/Service/Conversion.antt =====
-- scheduler/scheduler.go: convertConfigurationForSimulator. What the libraries make of the profiles in
-- the end, and the name of the default scheduler, are arguments.
pub mod Disabled
use mini_kube_scheduler.Common.{List, [], ◌∷◌, Option, none, some}
use mini_kube_scheduler.Common.Keys.{Text, str}
use mini_kube_scheduler.Simulator.Config.{
  PluginSet, Result, returned, failed, panicked, ◌>>=◌, wrapped, ConfigApi, Plugins, RawExtension,
  convert_for_simulator, new_plugin_config,
}

module _ ⦃api : ConfigApi⦄ where
  -- v1beta2.KubeSchedulerProfile.
  pub record SchedulerProfile : Type 0 where
    pub scheduler_name : Option Text
    pub plugins : Option Plugins
    pub plugin_config : List (Text × RawExtension)

  abbrev no_plugins : Plugins
  no_plugins = record {
    filter = record { enabled = []; disabled = [] };
    score = record { enabled = []; disabled = [] };
    others = api.no_other_plugins;
  }

  -- One round of the loop.
  unfoldable pub convert_profile : SchedulerProfile → Result SchedulerProfile
  convert_profile p = do
    plugins ←
        wrapped (str "convert plugins for simulator")
          (convert_for_simulator (elim p.plugins [ none ↦ no_plugins | some pls ↦ pls ]))
    plugin_config ← wrapped (str "get plugin configs") (new_plugin_config p.plugin_config)
    returned (record p { plugins = some plugins; plugin_config = plugin_config })

  unfoldable pub convert_profiles : List SchedulerProfile → Result (List SchedulerProfile)
  unfolding convert_profile
  convert_profiles [] = returned []
  convert_profiles (p ∷ ps) = do
    p' ← convert_profile p
    rest ← convert_profiles ps
    returned (p' ∷ rest)

  -- Without profiles, there is one for the default scheduler.
  abbrev or_default :
      (default_scheduler_name : Text) → List SchedulerProfile → List SchedulerProfile
  or_default default_scheduler_name [] =
      record {
        scheduler_name = some default_scheduler_name;
        plugins = some no_plugins;
        plugin_config = [];
      }
      ∷ []
  or_default default_scheduler_name (p ∷ ps) = p ∷ ps

  -- `finish` is what SetDefaults and Scheme.Convert make of the default configuration with these
  -- profiles; DefaultSchedulerConfig returns no error.
  unfoldable pub convert_configuration_for_simulator :
      {I : Type 0}
      → (default_scheduler_name : Text) → (finish : List SchedulerProfile → Result I)
      → List SchedulerProfile
      → Result I
  unfolding convert_profiles
  convert_configuration_for_simulator default_scheduler_name finish profiles = do
    profiles' ← convert_profiles (or_default default_scheduler_name profiles)
    wrapped (str "convert configuration") (finish profiles')
