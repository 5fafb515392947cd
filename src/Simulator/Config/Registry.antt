-- ===== src/Simulator/Config/Registry.antt =====
-- scheduler/plugin/plugins.go: what NewRegistry returns.
use mini_kube_scheduler.Common.{
  ◌≡◌, refl, ◌∙◌, arith, List, [], ◌∷◌, ◌++◌, Option, none, some, Option-cases, inl, inr,
  if◌then◌else◌,
}
use mini_kube_scheduler.Common.Keys.{Text, text_eq, ◌==◌, eq_iff}
use mini_kube_scheduler.Common.Maps.{lookup, insert, lookup-insert}
use mini_kube_scheduler.Framework.{Framework}
use mini_kube_scheduler.ResultStore.{Store, new_store}
use mathlib.Core.List.{append_cancel_right}
use mini_kube_scheduler.Simulator.Wrapped.{Plugin, SimulatorPlugin, plugin_name, plugin_suffix}
use mini_kube_scheduler.Simulator.Config.{
  PluginRef, Result, returned, ConfigApi, new_registry, fill_weights, default_filter_score_plugins,
  default_filter_plugins, default_score_plugins, factory, register_all,
}

module _ ⦃fw : Framework⦄ ⦃api : ConfigApi⦄ (in_tree : Text → Result Plugin) where
  -- The first plugin of a name.
  abbrev pub first_named : Text → List PluginRef → Option PluginRef
  first_named n [] = none
  first_named n (p ∷ ps) = if p.name == n then some p else first_named n ps

  same_name : (a b : Text) → (plugin_name a == plugin_name b) ≡ (a == b)
  unfolding plugin_name
  same_name a b = ground (
    arith,
    eq_iff (plugin_name a) (plugin_name b),
    eq_iff a b,
    append_cancel_right a b plugin_suffix,
  )

  abbrev or_first :
      Option (Result SimulatorPlugin) → Option PluginRef → Option (Result SimulatorPlugin)
  or_first (some old) p = some old
  or_first none none = none
  or_first none (some p) = some (factory in_tree p)

  register_all_lem :
      (n : Text) (pls : List PluginRef) (ret : List (Text × Result SimulatorPlugin))
      → lookup (plugin_name n) (register_all in_tree pls ret)
        ≡ or_first (lookup (plugin_name n) ret) (first_named n pls)
  unfolding register_all
  register_all_lem n [] ret = elim (Option-cases (lookup (plugin_name n) ret)) [
    | inl e ↦ rw e refl
    | inr (old, e) ↦ rw e refl
  ]
  register_all_lem n (p ∷ pls) ret = elim (Option-cases (lookup (plugin_name p.name) ret)) [
    | inl e ↦ rw e (
        register_all_lem n pls (insert (plugin_name p.name) (factory in_tree p) ret)
        ∙ ground (
          arith,
          lookup-insert (plugin_name p.name) (plugin_name n) (factory in_tree p) ret,
          same_name p.name n,
          eq_iff p.name n,
        ))
    | inr (old, e) ↦ rw e (register_all_lem n pls ret ∙ ground (arith, eq_iff p.name n))
  ]

  -- With default plugins, NewRegistry has a factory for the simulator's version of a name exactly
  -- when a default score or filter plugin has the name, and then it is the factory of the first of
  -- them, the score plugins before the filter plugins.
  pub new_registry_lem :
      (n : Text) (filters scores : List PluginRef)
      → default_filter_plugins ≡ returned filters
      → default_score_plugins ≡ returned scores
      → (store : Store) × (registry : List (Text × Result SimulatorPlugin)) × (new_registry in_tree
          ≡ returned (store, registry))
        × (lookup (plugin_name n) registry ≡ elim (first_named n (scores ++ filters)) [
          | none ↦ none
          | some p ↦ some (factory in_tree p)
        ])
  unfolding new_registry default_filter_score_plugins
  new_registry_lem n filters scores ef es = (
    new_store (fill_weights scores []),
    register_all in_tree (scores ++ filters) [],
    rw (ef, es, new_registry) refl,
    register_all_lem n (scores ++ filters) [],
  )
