-- ===== src/Service/Conversion/Disabled.antt =====
-- scheduler/scheduler.go: the default plugins are disabled in a converted configuration.
use mini_kube_scheduler.Common.{◌≡◌, arith, List, [], ◌∷◌, All, none, some}
use mini_kube_scheduler.Common.Keys.{Text, str}
use mini_kube_scheduler.Simulator.Config.{
  Result, returned, failed, panicked, wrapped, ConfigApi, Plugins, convert_for_simulator,
  new_plugin_config,
}
use mini_kube_scheduler.Simulator.Config.Converted.{>>=-eq-returned, convert_for_simulator-disabled}
use mini_kube_scheduler.Service.Conversion.{
  SchedulerProfile, convert_profile, convert_profiles, convert_configuration_for_simulator,
  or_default, no_plugins,
}

wrapped-eq-returned :
    {A : Type 0} (what : Text) (r : Result A) (a : A) → wrapped what r ≡ returned a → r ≡ returned a
wrapped-eq-returned what (returned b) a h = h
wrapped-eq-returned what (failed text) a h = absurd (cc h)
wrapped-eq-returned what panicked a h = absurd (cc h)

module _ ⦃api : ConfigApi⦄ where
  -- A profile in which "*" is the one disabled plugin of Filter and of Score.
  abbrev pub DisablesDefaults : SchedulerProfile → Type 0
  DisablesDefaults p =
      (pls : Plugins) × (p.plugins ≡ some pls)
      × (pls.filter.disabled ≡ record { name = str "*"; weight = none } ∷ [])
      × (pls.score.disabled ≡ record { name = str "*"; weight = none } ∷ [])

  convert_profile-disables :
      (p p' : SchedulerProfile) → convert_profile p ≡ returned p' → DisablesDefaults p'
  unfolding convert_profile
  convert_profile-disables p p' h =
      let converted = convert_for_simulator (elim p.plugins [ none ↦ no_plugins | some q ↦ q ]) in
      let (pls, e1, h1) =
        >>=-eq-returned (wrapped (str "convert plugins for simulator") converted) _ h in
      let (pc, e2, h2) =
        >>=-eq-returned (wrapped (str "get plugin configs") (new_plugin_config p.plugin_config)) _
          h1 in
      let (f, s) =
        convert_for_simulator-disabled (elim p.plugins [ none ↦ no_plugins | some q ↦ q ]) pls
          (wrapped-eq-returned (str "convert plugins for simulator") converted pls e1) in
      (pls, ground arith, f, s)

  convert_profiles-disable :
      (ps ps' : List SchedulerProfile)
      → convert_profiles ps ≡ returned ps'
      → All DisablesDefaults ps'
  unfolding convert_profiles
  convert_profiles-disable [] ps' h = let e : [] ≡ ps' = cc in rw (← e) tt
  convert_profiles-disable (p ∷ ps) ps' h =
      let (p', e1, h1) = >>=-eq-returned (convert_profile p) _ h in
      let (rest, e2, h2) = >>=-eq-returned (convert_profiles ps) _ h1 in
      let e : p' ∷ rest ≡ ps' = cc in
      rw (← e) (convert_profile-disables p p' e1, convert_profiles-disable ps rest e2)

  -- A converted configuration is made of profiles each of which disables all default plugins of
  -- Filter and of Score, so that only the plugins that it enables by name run there.
  pub convert_configuration-disables :
      {I : Type 0} (default_scheduler_name : Text) (finish : List SchedulerProfile → Result I)
      (profiles : List SchedulerProfile) (i : I)
      → convert_configuration_for_simulator default_scheduler_name finish profiles ≡ returned i
      → (converted : List SchedulerProfile) × (finish converted ≡ returned i)
        × All DisablesDefaults converted
  unfolding convert_configuration_for_simulator
  convert_configuration-disables default_scheduler_name finish profiles i h =
      let ps = or_default default_scheduler_name profiles in
      let (converted, e, h1) = >>=-eq-returned (convert_profiles ps) _ h in
      (
        converted,
        wrapped-eq-returned (str "convert configuration") (finish converted) i h1,
        convert_profiles-disable ps converted e,
      )
