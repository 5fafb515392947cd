-- ===== src/Simulator/Config/Converted.antt =====
-- scheduler/plugin/plugins.go: what ConvertForSimulator returns.
use mini_kube_scheduler.Common.{
  ◌≡◌, refl, arith, not, List, [], ◌∷◌, map, keep, none, Bool-cases, inl, inr, if◌then◌else◌,
}
use mini_kube_scheduler.Common.Keys.{Text, str, text_eq}
use mini_kube_scheduler.Simulator.Config.{
  PluginRef, PluginSet, Result, returned, failed, panicked, ◌>>=◌, ConfigApi, Plugins,
  default_filter_plugins, default_score_plugins, is_disabled, for_simulator, converted, enabled_of,
  convert_set, convert_for_simulator,
}

module _ ⦃api : ConfigApi⦄ where
  converted_lem :
      (disabled defaults : List PluginRef)
      → converted disabled defaults
        ≡ map for_simulator (keep (λ d. not (is_disabled disabled d.name)) defaults)
  unfolding converted
  converted_lem disabled [] = refl
  converted_lem disabled (d ∷ ds) = ground (arith, converted_lem disabled ds)

  -- What becomes of an extension point with these default plugins.
  abbrev pub converted_set : (defaults : List PluginRef) → PluginSet → PluginSet
  converted_set defaults pls = record {
    enabled =
        if is_disabled pls.disabled (str "*")
        then pls.enabled
        else map for_simulator (keep (λ d. not (is_disabled pls.disabled d.name)) defaults);
    disabled = record { name = str "*"; weight = none } ∷ [];
  }

  convert_set_lem :
      (what : Text) (defaults : List PluginRef) (pls : PluginSet)
      → convert_set what (returned defaults) pls ≡ returned (converted_set defaults pls)
  unfolding convert_set enabled_of
  convert_set_lem what defaults pls = elim (Bool-cases (is_disabled pls.disabled (str "*"))) [
    | inl e ↦ rw e refl
    | inr e ↦ rw e (rw (converted_lem pls.disabled defaults) refl)
  ]

  -- With default plugins, ConvertForSimulator replaces the enabled plugins of Filter and of Score by
  -- the simulator's versions of those default plugins that are not disabled by name, in the default
  -- order and with the default weights; where "*" is disabled, the enabled plugins stay as they are.
  -- In both points "*" is then disabled, and the other extension points do not change.
  pub convert_for_simulator_lem :
      (pls : Plugins) (filters scores : List PluginRef)
      → default_filter_plugins ≡ returned filters
      → default_score_plugins ≡ returned scores
      → convert_for_simulator pls
        ≡ returned (record pls {
          filter = converted_set filters pls.filter;
          score = converted_set scores pls.score;
        })
  unfolding convert_for_simulator
  convert_for_simulator_lem pls filters scores ef es =
      rw (ef, es, convert_for_simulator)
        (rw
          (
            convert_set_lem (str "get default score plugins") scores pls.score,
            convert_set_lem (str "get default filter plugins") filters pls.filter,
          )
          refl)

pub >>=-eq-returned :
    {A B : Type 0} (m : Result A) (f : A → Result B) {b : B}
    → (m >>= f) ≡ returned b
    → (a : A) × (m ≡ returned a) × (f a ≡ returned b)
>>=-eq-returned (returned a) f h = (a, refl, h)
>>=-eq-returned (failed text) f h = absurd (cc h)
>>=-eq-returned panicked f h = absurd (cc h)

module _ ⦃api : ConfigApi⦄ where
  convert_set-disabled :
      (what : Text) (defaults : Result (List PluginRef)) (pls pls' : PluginSet)
      → convert_set what defaults pls ≡ returned pls'
      → pls'.disabled ≡ record { name = str "*"; weight = none } ∷ []
  unfolding convert_set
  convert_set-disabled what defaults pls pls' h =
      let (enabled, e, h1) = >>=-eq-returned (enabled_of what defaults pls) _ h in ground arith

  -- Both extension points of a converted configuration.
  pub convert_for_simulator-disabled :
      (pls pls' : Plugins)
      → convert_for_simulator pls ≡ returned pls'
      → (pls'.filter.disabled ≡ record { name = str "*"; weight = none } ∷ [])
        × (pls'.score.disabled ≡ record { name = str "*"; weight = none } ∷ [])
  unfolding convert_for_simulator
  convert_for_simulator-disabled pls pls' h =
      let (scores, e1, h1) =
        >>=-eq-returned
          (convert_set (str "get default score plugins") default_score_plugins pls.score) _ h in
      let (filters, e2, h2) =
        >>=-eq-returned
          (convert_set (str "get default filter plugins") default_filter_plugins pls.filter) _ h1 in
      let f =
        convert_set-disabled (str "get default filter plugins") default_filter_plugins pls.filter
          filters e2 in
      let s =
        convert_set-disabled (str "get default score plugins") default_score_plugins pls.score
          scores e1 in
      (ground arith, ground arith)
