-- ===== src/Tests/ConversionRuns.antt =====
-- scheduler/scheduler.go: a run of convertConfigurationForSimulator.
use mini_kube_scheduler.Common.{ℕ, ◌≡◌, refl, List, [], All, length}
use mini_kube_scheduler.Common.Keys.{str, text_beq}
use mini_kube_scheduler.Simulator.Wrapped.{plugin_name}
use mini_kube_scheduler.Simulator.Config.{
  Result, returned, default_profile, default_filter_plugins, default_score_plugins,
  convert_for_simulator, new_plugin_config,
}
use mini_kube_scheduler.Service.Conversion.{
  SchedulerProfile, convert_profile, convert_profiles, convert_configuration_for_simulator,
}
use mini_kube_scheduler.Service.Conversion.Disabled.{
  DisablesDefaults, convert_configuration-disables,
}
use mini_kube_scheduler.Tests.ConfigRuns.{two_filters}

program : Unit {0}
unfolding text_beq plugin_name default_profile default_filter_plugins default_score_plugins
    convert_for_simulator new_plugin_config convert_profile convert_profiles
    convert_configuration_for_simulator
program = tt

abbrev count_profiles : List SchedulerProfile → Result ℕ
count_profiles ps = returned (length ps)

conversion_runs :
    convert_configuration_for_simulator (str "default-scheduler") count_profiles [] ≡ returned 1
unfolding program
conversion_runs = refl

convert_configuration-disables_example :
    (converted : List SchedulerProfile) × (count_profiles converted ≡ returned 1)
    × All DisablesDefaults converted
convert_configuration-disables_example =
    convert_configuration-disables (str "default-scheduler") count_profiles [] 1 conversion_runs
