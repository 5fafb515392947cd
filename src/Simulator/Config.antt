-- ===== src/Simulator/Config.antt =====
-- scheduler/plugin/plugins.go and scheduler/defaultconfig/defaultconfig.go: which plugins the
-- simulator enables, their configuration and their registry. A dereference of nil is `panicked`.
pub mod Converted
pub mod Arguments
pub mod Registry
use mini_kube_scheduler.Common.{
  ℕ, Bool, true, false, not, List, [], ◌∷◌, ◌++◌, map, any, Option, none, some, ◌⊎◌, inl, inr,
  length, nat_beq, if◌then◌else◌,
}
use mini_kube_scheduler.Common.Int.{ℤ, pos}
use mini_kube_scheduler.Common.Keys.{Text, str, text_eq, ◌==◌}
use mini_kube_scheduler.Common.Maps.{lookup, insert, delete}
use mini_kube_scheduler.Framework.{Framework}
use mini_kube_scheduler.ResultStore.{Store, new_store}
use mini_kube_scheduler.Simulator.Wrapped.{
  Plugin, SimulatorPlugin, new_simulator_plugin, plugin_name,
}

-- v1beta2.Plugin and v1beta2.PluginSet.
pub record PluginRef : Type 0 where
  pub name : Text
  pub weight : Option ℤ

pub record PluginSet : Type 0 where
  pub enabled : List PluginRef
  pub disabled : List PluginRef

pub data Result {ℓ} (A : Type ℓ) : Type ℓ where
  returned : A → Result A
  failed : (text : Text) → Result A
  panicked : Result A

infixl 5 ◌>>=◌
abbrev pub ◌>>=◌ {ℓ κ} : {A : Type ℓ} {B : Type κ} → Result A → (A → Result B) → Result B
returned a >>= f = f a
failed text >>= f = failed text
panicked >>= f = panicked

-- xerrors.Errorf with %w.
abbrev pub wrapped {ℓ} : {A : Type ℓ} → Text → Result A → Result A
wrapped prefix (returned a) = returned a
wrapped prefix (failed text) = failed (prefix ++ (str ": " ++ text))
wrapped prefix panicked = panicked

abbrev pub or_panic {ℓ} : {A : Type ℓ} → Option A → Result A
or_panic none = panicked
or_panic (some a) = returned a

-- What the API of Kubernetes gives: the objects of arguments, the other extension points, what
-- scheme.Scheme.Default makes of an empty configuration, json.Unmarshal into an object, and the text
-- of xerrors.Errorf for a nil error.
pub record ConfigApi : Type 1 where
  pub Object : Type 0
  pub OtherPlugins : Type 0
  pub no_other_plugins : OtherPlugins
  pub default_profiles : List (
      Option (record { filter : PluginSet; score : PluginSet; others : OtherPlugins })
      × List (Text × (Text × Option Object)))
  pub wrapped_nil : Text → Text
  pub unmarshal : (raw : Text) → Option Object → Text ⊎ Option Object

module _ ⦃api : ConfigApi⦄ where
  -- v1beta2.Plugins; a profile has a pointer to it, and the arguments of plugins by name, each with
  -- its raw text and its object.
  abbrev pub Plugins : Type 0
  Plugins = record { filter : PluginSet; score : PluginSet; others : api.OtherPlugins }

  abbrev pub RawExtension : Type 0
  RawExtension = Text × Option api.Object

  abbrev pub Profile : Type 0
  Profile = Option Plugins × List (Text × RawExtension)

  -- The one profile of DefaultSchedulerConfig; the error that is wrapped is nil.
  unfoldable pub default_profile : Result Profile
  default_profile = elim api.default_profiles [
    | [] ↦ failed (api.wrapped_nil (str "get default scheduler configuration"))
    | p ∷ rest ↦ elim rest [
      | [] ↦ returned p
      | q ∷ more ↦ failed (api.wrapped_nil (str "get default scheduler configuration"))
    ]
  ]

  unfoldable pub default_filter_plugins : Result (List PluginRef)
  unfolding default_profile
  default_filter_plugins = do
    profile ← default_profile
    plugins ← or_panic profile.0
    returned plugins.filter.enabled

  unfoldable pub default_score_plugins : Result (List PluginRef)
  unfolding default_profile
  default_score_plugins = do
    profile ← default_profile
    plugins ← or_panic profile.0
    returned plugins.score.enabled

  unfoldable pub default_filter_score_plugins : Result (List PluginRef)
  unfolding default_filter_plugins default_score_plugins
  default_filter_score_plugins = do
    filters ← wrapped (str "get default filter plugins") default_filter_plugins
    scores ← wrapped (str "get default score plugins") default_score_plugins
    returned (scores ++ filters)

  -- disabledMap[name], after the loop that fills the map.
  abbrev pub is_disabled : (disabled : List PluginRef) → Text → Bool
  is_disabled disabled name = any (λ p. p.name == name) disabled

  abbrev pub for_simulator : PluginRef → PluginRef
  for_simulator p = record { name = plugin_name p.name; weight = p.weight }

  -- The loop over the default plugins.
  pub converted : (disabled defaults : List PluginRef) → List PluginRef
  converted disabled [] = []
  converted disabled (dp ∷ dps) =
      let rest = converted disabled dps in
      if not (is_disabled disabled dp.name) then for_simulator dp ∷ rest else rest

  -- The plugins that one extension point enables; `what` names the default plugins in errors.
  pub enabled_of : (what : Text) → Result (List PluginRef) → PluginSet → Result (List PluginRef)
  unfolding converted
  enabled_of what defaults pls =
      if is_disabled pls.disabled (str "*")
      then returned pls.enabled
      else wrapped what defaults >>= λ dps. returned (converted pls.disabled dps)

  pub convert_set : (what : Text) → Result (List PluginRef) → PluginSet → Result PluginSet
  unfolding enabled_of
  convert_set what defaults pls = do
    enabled ← enabled_of what defaults pls
    returned
        (record { enabled = enabled; disabled = record { name = str "*"; weight = none } ∷ [] })

  unfoldable pub convert_for_simulator : Plugins → Result Plugins
  unfolding convert_set default_filter_plugins default_score_plugins
  convert_for_simulator pls = do
    scores ← convert_set (str "get default score plugins") default_score_plugins pls.score
    filters ← convert_set (str "get default filter plugins") default_filter_plugins pls.filter
    returned (record pls { filter = filters; score = scores })

  -- The arguments of plugins by name; a pointer may be nil.
  abbrev pub Args : Type 0
  Args = List (Text × Option RawExtension)

  fill_args : List (Text × RawExtension) → Args → Args
  fill_args [] m = m
  fill_args ((name, args) ∷ rest) m = fill_args rest (insert name (some args) m)

  -- The pointer to a copy of what the map has; a missing name reads as nil.
  copy_of : Option (Option RawExtension) → Option RawExtension
  copy_of none = none
  copy_of (some args) = args

  -- json.Unmarshal into the copy, if there is raw text.
  with_raw : (raw : Text) → Option RawExtension → Result (Option RawExtension)
  with_raw raw ret =
      if nat_beq (length raw) 0
      then returned ret
      else or_panic ret >>= λ args. elim (api.unmarshal raw args.1) [
        | inl text ↦ failed text
        | inr object ↦ returned (some (args.0, object))
      ]

  with_object : Option api.Object → Option RawExtension → Result (Option RawExtension)
  with_object none ret = returned ret
  with_object (some object) ret = or_panic ret >>= λ args. returned (some (args.0, some object))

  pub override : List (Text × RawExtension) → Args → Result Args
  unfolding copy_of with_raw with_object
  override [] m = returned m
  override ((name, (raw, object)) ∷ pc) m = do
    ret ← with_raw raw (copy_of (lookup name m))
    ret' ← with_object object ret
    override pc (insert name ret' m)

  -- *arg for each name.
  pub collect : Args → Result (List (Text × RawExtension))
  collect [] = returned []
  collect ((name, arg) ∷ m) = do
    args ← or_panic arg
    rest ← collect m
    returned ((name, args) ∷ rest)

  -- The arguments again, for the simulator's plugins.
  collect_again : List PluginRef → Args → Result (List (Text × RawExtension))
  collect_again [] m = returned []
  collect_again (p ∷ ps) m = elim (lookup p.name m) [
    | none ↦ collect_again ps m
    | some arg ↦ do
      args ← or_panic arg
      rest ← collect_again ps (delete p.name m)
      returned ((plugin_name p.name, args) ∷ rest)
  ]

  unfoldable pub new_plugin_config :
      List (Text × RawExtension) → Result (List (Text × RawExtension))
  unfolding default_profile fill_args override collect collect_again default_filter_score_plugins
  new_plugin_config pc = do
    profile ← default_profile
    m ← override pc (fill_args profile.1 [])
    ret ← collect m
    defaultpls ← wrapped (str "get default score/filter plugins") default_filter_score_plugins
    again ← collect_again defaultpls m
    returned (ret ++ again)

module _ ⦃fw : Framework⦄ ⦃api : ConfigApi⦄ where
  -- A factory of the registry, called once; `in_tree` is what a call of the original returns, and
  -- panics for a name that has none.
  pub factory : (in_tree : Text → Result Plugin) → PluginRef → Result SimulatorPlugin
  factory in_tree pl = do
    p ← wrapped (str "create original plugin") (in_tree pl.name)
    returned (new_simulator_plugin p (elim pl.weight [ none ↦ pos 0 | some weight ↦ weight ]))

  -- The loop over the default plugins; a name that is there is skipped.
  pub register_all :
      (in_tree : Text → Result Plugin)
      → List PluginRef
      → List (Text × Result SimulatorPlugin)
      → List (Text × Result SimulatorPlugin)
  register_all in_tree [] ret = ret
  register_all in_tree (pl ∷ pls) ret =
      register_all in_tree pls (elim (lookup (plugin_name pl.name) ret) [
        | some old ↦ ret
        | none ↦ insert (plugin_name pl.name) (factory in_tree pl) ret
      ])

  fill_weights : List PluginRef → List (Text × ℤ) → List (Text × ℤ)
  fill_weights [] m = m
  fill_weights (p ∷ ps) m =
      fill_weights ps (insert p.name (elim p.weight [ none ↦ pos 0 | some weight ↦ weight ]) m)

  -- The store that the plugins share, and the registry.
  unfoldable pub new_registry :
      (in_tree : Text → Result Plugin) → Result (Store × List (Text × Result SimulatorPlugin))
  unfolding default_score_plugins default_filter_score_plugins fill_weights register_all
  new_registry in_tree = do
    scores ← wrapped (str "get default score plugins") default_score_plugins
    defaultpls ← wrapped (str "get default score/filter plugins") default_filter_score_plugins
    returned (new_store (fill_weights scores []), register_all in_tree defaultpls [])
