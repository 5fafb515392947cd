-- ===== src/Minisched/Initialize.antt =====
-- minisched/initialize.go: the plugins of the scheduler, the registry of events and New. What
-- nodeunschedulable.New returns is an argument, and so is the scheduler that New allocates: a handle
-- stands for its address.
pub mod Registry
use Prim.Native.Nat.{bit_or}
use mini_kube_scheduler.Common.{
  ℕ, ◌≡◌, ◌↔◌, arith, Bool, true, ◌&&◌, ◌++◌, List, [], ◌∷◌, Option, none, some, ◌⊎◌, inl, inr,
}
use mini_kube_scheduler.Common.Keys.{Text, str, Eq, text_eq, text_beq_iff, nat_eq, ◌==◌, eq_iff}
use mini_kube_scheduler.Common.Maps.{lookup, insert}
use mini_kube_scheduler.Framework.{Framework, ClusterEvent}
use mini_kube_scheduler.NodeNumber
use mini_kube_scheduler.Queue.Ops.{new_queue}
use mini_kube_scheduler.Minisched.Types.{
  FilterPlugin, PreScorePlugin, ScorePlugin, PermitPlugin, Scheduler,
}

abbrev pub event_beq : ClusterEvent → ClusterEvent → Bool
event_beq a b = a.resource == b.resource && (a.action_type == b.action_type && a.label == b.label)

pub event_beq_iff : (a b : ClusterEvent) → (event_beq a b ≡ true) ↔ (a ≡ b)
event_beq_iff a b = (
  (λ h. ground (
    arith,
    eq_iff a.resource b.resource,
    eq_iff a.label b.label,
    eq_iff a.action_type b.action_type,
  )),
  (λ e. ground (
    arith,
    eq_iff a.resource b.resource,
    eq_iff a.label b.label,
    eq_iff a.action_type b.action_type,
  )),
)

instance abbrev pub event_eq : Eq ClusterEvent
event_eq = record { test = event_beq; test_iff = event_beq_iff }

module _ ⦃fw : Framework⦄ where
  -- A framework.Plugin with the interfaces to which minisched converts nodeunschedulable.
  pub record UnschedulablePlugin : Type 0 where
    pub filter_plugin : FilterPlugin
    pub events : List ClusterEvent

  -- *NodeNumber: its field h.
  pub record NodeNumberPlugin : Type 0 where
    pub h : ℕ

  -- The package's variables, nil at first.
  pub record Globals : Type 0 where
    pub node_unschedulable_plugin : Option UnschedulablePlugin
    pub node_number_plugin : Option NodeNumberPlugin

  -- A result with the package's variables, or the text of an error.
  pub data Made (A : Type 0) : Type 0 where
    made : A → Globals → Made A
    fails : (text : Text) → Made A

  infixl 5 ◌>>=◌
  abbrev ◌>>=◌ : {A B : Type 0} → (Globals → Made A) → (A → Globals → Made B) → Globals → Made B
  (m >>= f) g = elim (m g) [ made a g' ↦ f a g' | fails text ↦ fails text ]

  abbrev return : {A : Type 0} → A → Globals → Made A
  return a g = made a g

  -- fmt.Errorf with %w.
  abbrev wrapped : {A : Type 0} → Text → (Globals → Made A) → Globals → Made A
  wrapped prefix m g = elim (m g) [
    | made a g' ↦ made a g'
    | fails text ↦ fails (prefix ++ (str ": " ++ text))
  ]

  -- fmt.Errorf with %w and no argument for it.
  abbrev unformatted : {A : Type 0} → (Globals → Made A) → Globals → Made A
  unformatted m g = elim (m g) [
    | made a g' ↦ made a g'
    | fails text ↦ fails (str "create gvks: %!w(MISSING)")
  ]

  -- `new` is what nodeunschedulable.New returns: a plugin, or nil and the text of an error.
  create_node_unschedulable_plugin :
      (new : Text ⊎ UnschedulablePlugin) → Globals → Made UnschedulablePlugin
  create_node_unschedulable_plugin new g = elim g.node_unschedulable_plugin [
    | some p ↦ made p g
    | none ↦ elim new [
      | inl text ↦ fails text
      | inr p ↦ made p (record g { node_unschedulable_plugin = some p })
    ]
  ]

  create_node_number_plugin : (h : ℕ) → Globals → Made NodeNumberPlugin
  create_node_number_plugin h g = elim g.node_number_plugin [
    | some p ↦ made p g
    | none ↦ made (record { h = h }) (record g { node_number_plugin = some (record { h = h }) })
  ]

  create_filter_plugins : (new : Text ⊎ UnschedulablePlugin) → Globals → Made (List FilterPlugin)
  unfolding create_node_unschedulable_plugin
  create_filter_plugins new = do
    p ← wrapped (str "create nodeunschedulable plugin") (create_node_unschedulable_plugin new)
    return (p.filter_plugin ∷ [])

  create_pre_score_plugins : (h : ℕ) → Globals → Made (List PreScorePlugin)
  unfolding create_node_number_plugin
  create_pre_score_plugins h = do
    p ← wrapped (str "create nodenumber plugin") (create_node_number_plugin h)
    return (record { name = NodeNumber.name; pre_score = NodeNumber.pre_score } ∷ [])

  -- Its ScoreExtensions is nil.
  create_score_plugins : (h : ℕ) → Globals → Made (List ScorePlugin)
  unfolding create_node_number_plugin
  create_score_plugins h = do
    p ← wrapped (str "create nodenumber plugin") (create_node_number_plugin h)
    return
        (record { name = NodeNumber.name; score = NodeNumber.score; score_extensions = none } ∷ [])

  create_permit_plugins : (h : ℕ) → Globals → Made (List PermitPlugin)
  unfolding create_node_number_plugin
  create_permit_plugins h = do
    p ← wrapped (str "create nodenumber plugin") (create_node_number_plugin h)
    return (record { name = NodeNumber.name; permit = NodeNumber.permit } ∷ [])

  abbrev pub EventMap : Type 0
  EventMap = List (ClusterEvent × fw.StringSet)

  pub register_cluster_events : (name : Text) → EventMap → List ClusterEvent → EventMap
  register_cluster_events name event_to_plugins [] = event_to_plugins
  register_cluster_events name event_to_plugins (evt ∷ evts) =
      register_cluster_events name
        (elim (lookup evt event_to_plugins) [
          | none ↦ insert evt (fw.new_string (name ∷ [])) event_to_plugins
          | some plugins ↦ insert evt (fw.set_insert name plugins) event_to_plugins
        ])
        evts

  -- Both calls pass the name of nodeunschedulable.
  events_to_register : (new : Text ⊎ UnschedulablePlugin) (h : ℕ) → Globals → Made EventMap
  unfolding register_cluster_events create_node_unschedulable_plugin create_node_number_plugin
  events_to_register new h = do
    nunschedulable ←
        wrapped (str "create node unschedulable plugin") (create_node_unschedulable_plugin new)
    nnumber ← wrapped (str "create node number plugin") (create_node_number_plugin h)
    let name = nunschedulable.filter_plugin.name
    let registered = register_cluster_events name [] nunschedulable.events
    return (register_cluster_events name registered NodeNumber.events_to_register)

  -- The action types of a resource, in one set of bits.
  unfoldable pub unioned_gvks : EventMap → List (Text × ℕ) → List (Text × ℕ)
  unioned_gvks [] gvk_map = gvk_map
  unioned_gvks ((evt, names) ∷ m) gvk_map = unioned_gvks m (elim (lookup evt.resource gvk_map) [
    | some at ↦ insert evt.resource (bit_or at evt.action_type) gvk_map
    | none ↦ insert evt.resource evt.action_type gvk_map
  ])

  -- The scheduler, and the action types for which event handlers are added.
  unfoldable pub new_scheduler :
      (new : Text ⊎ UnschedulablePlugin) → (h : ℕ) → Globals → Made (Scheduler × List (Text × ℕ))
  unfolding new_queue create_filter_plugins create_pre_score_plugins create_score_plugins
      create_permit_plugins events_to_register unioned_gvks
  new_scheduler new h = do
    filter_p ← wrapped (str "create filter plugins") (create_filter_plugins new)
    pre_score_p ← wrapped (str "create pre score plugins") (create_pre_score_plugins h)
    score_p ← wrapped (str "create score plugins") (create_score_plugins h)
    permit_p ← wrapped (str "create permit plugins") (create_permit_plugins h)
    events ← unformatted (events_to_register new h)
    return (
      record {
        scheduling_queue = new_queue events;
        waiting_pods = [];
        filter_plugins = filter_p;
        pre_score_plugins = pre_score_p;
        score_plugins = score_p;
        permit_plugins = permit_p;
      },
      unioned_gvks events [],
    )
