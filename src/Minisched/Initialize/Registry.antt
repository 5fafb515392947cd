-- ===== src/Minisched/Initialize/Registry.antt =====
-- minisched/initialize.go: which plugin is registered for which event, and what a second New makes.
use mini_kube_scheduler.Common.{
  ℕ, ◌≡◌, refl, ◌∙◌, Bool, false, ◌&&◌, ◌||◌, List, [], ◌∷◌, arith, any, Option, none, some,
  Option-cases, ◌⊎◌, inl, inr,
}
use mini_kube_scheduler.Common.Keys.{Text, text_eq, ◌==◌, eq_iff}
use mini_kube_scheduler.Common.Maps.{lookup, insert, lookup-insert}
use mini_kube_scheduler.Framework.{Framework, ClusterEvent}
use mini_kube_scheduler.NodeNumber
use mini_kube_scheduler.Minisched.Types.{Scheduler}
use mini_kube_scheduler.Minisched.Initialize.{
  event_eq, UnschedulablePlugin, Globals, made, EventMap, register_cluster_events, new_scheduler,
  create_filter_plugins, create_pre_score_plugins, create_score_plugins, create_permit_plugins,
  events_to_register, create_node_unschedulable_plugin, create_node_number_plugin, unioned_gvks,
}
use mini_kube_scheduler.Queue.Ops.{new_queue}

module _ ⦃fw : Framework⦄ where
  -- The map has the plugin among those of the event.
  abbrev pub has_plugin : Option fw.StringSet → Text → Bool
  has_plugin none plugin = false
  has_plugin (some names) plugin = fw.has names plugin

  abbrev pub is_registered : EventMap → ClusterEvent → Text → Bool
  is_registered m evt plugin = has_plugin (lookup evt m) plugin

  register_one : (name : Text) → EventMap → ClusterEvent → EventMap
  register_one name m evt = elim (lookup evt m) [
    | none ↦ insert evt (fw.new_string (name ∷ [])) m
    | some plugins ↦ insert evt (fw.set_insert name plugins) m
  ]

  register_one_lem :
      (name : Text) (m : EventMap) (evt ev : ClusterEvent) (plugin : Text)
      → is_registered (register_one name m evt) ev plugin
        ≡ (is_registered m ev plugin || (evt == ev && name == plugin))
  unfolding register_one
  register_one_lem name m evt ev plugin = elim (Option-cases (lookup evt m)) [
    | inl e ↦
        rw (e, register_one)
          (ground (
            arith,
            lookup-insert evt ev (fw.new_string (name ∷ [])) m,
            fw.has-new (name ∷ []) plugin,
            eq_iff evt ev,
          ))
    | inr (plugins, e) ↦
        rw (e, register_one)
          (ground (
            arith,
            lookup-insert evt ev (fw.set_insert name plugins) m,
            fw.has-insert name plugin plugins,
            eq_iff evt ev,
          ))
  ]

  -- Registering a plugin for some events adds the plugin to exactly these events and keeps every
  -- other registration.
  pub register_cluster_events_lem :
      (name : Text) (m : EventMap) (evts : List ClusterEvent) (ev : ClusterEvent) (plugin : Text)
      → is_registered (register_cluster_events name m evts) ev plugin
        ≡ (is_registered m ev plugin || (any (λ evt. evt == ev) evts && name == plugin))
  unfolding register_cluster_events register_one
  register_cluster_events_lem name m [] ev plugin = ground arith
  register_cluster_events_lem name m (evt ∷ evts) ev plugin =
      register_cluster_events_lem name (register_one name m evt) evts ev plugin
      ∙ ground (arith, register_one_lem name m evt ev plugin)

  abbrev pub nil_globals : Globals
  nil_globals = record { node_unschedulable_plugin = none; node_number_plugin = none }

  abbrev pub globals_of : UnschedulablePlugin → ℕ → Globals
  globals_of p h = record {
    node_unschedulable_plugin = some p;
    node_number_plugin = some (record { h = h });
  }

  -- The registry of a scheduler with nodeunschedulable's plugin p.
  abbrev pub registry_of : UnschedulablePlugin → EventMap
  registry_of p =
      register_cluster_events p.filter_plugin.name
        (register_cluster_events p.filter_plugin.name [] p.events) NodeNumber.events_to_register

  abbrev pub scheduler_of : UnschedulablePlugin → Scheduler
  scheduler_of p = record {
    scheduling_queue = new_queue (registry_of p);
    waiting_pods = [];
    filter_plugins = p.filter_plugin ∷ [];
    pre_score_plugins = record { name = NodeNumber.name; pre_score = NodeNumber.pre_score } ∷ [];
    score_plugins =
        record { name = NodeNumber.name; score = NodeNumber.score; score_extensions = none } ∷ [];
    permit_plugins = record { name = NodeNumber.name; permit = NodeNumber.permit } ∷ [];
  }

  pub new_scheduler-cached :
      (p : UnschedulablePlugin) (new : Text ⊎ UnschedulablePlugin) (h h' : ℕ)
      → (new_scheduler (inr p) h nil_globals
          ≡ made (scheduler_of p, unioned_gvks (registry_of p) []) (globals_of p h))
        × (new_scheduler new h' (globals_of p h)
            ≡ made (scheduler_of p, unioned_gvks (registry_of p) []) (globals_of p h))
  unfolding new_scheduler create_filter_plugins create_pre_score_plugins create_score_plugins
      create_permit_plugins events_to_register create_node_unschedulable_plugin
      create_node_number_plugin
  new_scheduler-cached p new h h' = (refl, refl)

  -- When the first New succeeds, its queue has a plugin registered for an event exactly when the
  -- event is one of nodeunschedulable's or one of NodeNumber's, and the plugin's name is
  -- nodeunschedulable's: NodeNumber is registered for none, not for its own events either.
  pub new_scheduler-registry :
      (p : UnschedulablePlugin) (h : ℕ) (s : Scheduler) (gvks : List (Text × ℕ)) (g : Globals)
      (ev : ClusterEvent) (plugin : Text)
      → new_scheduler (inr p) h nil_globals ≡ made (s, gvks) g
      → is_registered s.scheduling_queue.cluster_event_map ev plugin ≡ (
          (any (λ evt. evt == ev) p.events || any (λ evt. evt == ev) NodeNumber.events_to_register)
          && p.filter_plugin.name == plugin)
  unfolding new_queue
  new_scheduler-registry p h s gvks g ev plugin e =
      let (first, _) = new_scheduler-cached p (inr p) h h in
      let same : scheduler_of p ≡ s = cc in
      let name = p.filter_plugin.name in
      rw (← same) (
        register_cluster_events_lem name (register_cluster_events name [] p.events)
          NodeNumber.events_to_register ev plugin
        ∙ ground (arith, register_cluster_events_lem name [] p.events ev plugin))
