-- ===== src/Minisched/Handlers/Requeue.antt =====
-- minisched/eventhandler.go: a node that is added sends rejected pods back to the queue.
use Prim.Native.Nat.{bit_and}
use mini_kube_scheduler.Common.{
  ℕ, ◌+◌, ◌≡◌, ◌≢◌, refl, ◌∙◌, ◌⊎◌, inl, inr, true, List, [], ◌∷◌, arith, In, Option, none, some,
  Bool-cases,
}
use mini_kube_scheduler.Common.Keys.{Text, str, text_eq, ◌==◌, eq_iff, eq_refl}
use mini_kube_scheduler.Common.Maps.{lookup, HasNoDup}
use mini_kube_scheduler.Framework.{Framework, ClusterEvent}
use mini_kube_scheduler.Queue.Types.{QueuedPodInfo}
use mini_kube_scheduler.Queue.Events.Matching.{Registered}
use mini_kube_scheduler.Queue.Ops.{move_all_to_active_or_backoff_queue}
use mini_kube_scheduler.Queue.Ops.Moved.{IsKeyed, Helps, move_all-places}
use mini_kube_scheduler.Minisched.Types.{Scheduler}
use mini_kube_scheduler.NodeNumber
use mini_kube_scheduler.Minisched.Initialize.{UnschedulablePlugin, event_eq, EventMap}
use mini_kube_scheduler.Minisched.Initialize.Registry.{
  is_registered, has_plugin, registry_of, register_cluster_events_lem,
}
use mini_kube_scheduler.Minisched.Handlers.{
  ResourceEventHandlerFuncs, Change, added, event_if, build_evt_res_handler, add_all_event_handlers,
  func_of, on_node,
}

module _ ⦃fw : Framework⦄ where
  -- The event of a node that is added.
  abbrev pub node_add : ClusterEvent
  node_add = record { resource = fw.node_gvk; action_type = fw.add_action; label = str "NodeAdd" }

  pub on_node-waiting_pods :
      (now : ℕ → QueuedPodInfo → ℕ) (funcs : List ResourceEventHandlerFuncs) (change : Change)
      (sched : Scheduler)
      → (on_node now funcs change sched).waiting_pods ≡ sched.waiting_pods
  unfolding on_node
  on_node-waiting_pods now [] change sched = refl
  on_node-waiting_pods now (f ∷ funcs) change sched =
      on_node-waiting_pods (λ i. now (i + 1)) funcs change _ ∙ ground arith

  no_handlers : (m : List (Text × ℕ)) → lookup fw.node_gvk m ≡ none → add_all_event_handlers m ≡ []
  unfolding add_all_event_handlers
  no_handlers [] h = refl
  no_handlers ((gvk, at) ∷ m) h = ground (arith, no_handlers m)

  one_handler :
      (m : List (Text × ℕ)) (at : ℕ)
      → HasNoDup m
      → lookup fw.node_gvk m ≡ some at
      → add_all_event_handlers m ≡ build_evt_res_handler at fw.node_gvk (str "Node") ∷ []
  unfolding add_all_event_handlers
  one_handler [] at d h = absurd (cc)
  one_handler ((gvk, at') ∷ m) at d h = elim (Bool-cases (gvk == fw.node_gvk)) [
    | inl e ↦
        let same : gvk ≡ fw.node_gvk = (eq_iff gvk fw.node_gvk).0 e in
        let none_left = no_handlers m (rw (← same) d.0) in ground arith
    | inr e ↦ ground (arith, one_handler m at d.1)
  ]

  -- With one entry for each resource in gvkMap, and the action types of Node including Add, a node
  -- that is added makes the scheduler move its unschedulable pods for the event NodeAdd, once.
  pub on_node-added :
      (now : ℕ → QueuedPodInfo → ℕ) (m : List (Text × ℕ)) (at : ℕ) (sched : Scheduler)
      → HasNoDup m
      → lookup fw.node_gvk m ≡ some at
      → bit_and at fw.add_action ≢ 0
      → on_node now (add_all_event_handlers m) added sched ≡ record sched {
        scheduling_queue =
            move_all_to_active_or_backoff_queue (now 0) sched.scheduling_queue node_add;
      }
  unfolding on_node func_of build_evt_res_handler event_if
  on_node-added now m at sched d h nz = rw (one_handler m at d h) (ground arith)

  In-lookup :
      (m : EventMap) (evt : ClusterEvent) (names : fw.StringSet)
      → lookup evt m ≡ some names
      → In (evt, names) m
  In-lookup [] evt names h = absurd (cc)
  In-lookup ((e, ns) ∷ m) evt names h = elim (Bool-cases (e == evt)) [
    | inl same ↦ let i = (eq_iff e evt).0 same in inl (ground arith)
    | inr other ↦ inr (In-lookup m evt names (ground arith))
  ]

  found_plugin :
      (found : Option fw.StringSet) (plugin : Text)
      → has_plugin found plugin ≡ true
      → (names : fw.StringSet) × (found ≡ some names) × (fw.has names plugin ≡ true)
  found_plugin none plugin h = absurd (cc)
  found_plugin (some names) plugin h = (names, refl, h)

  -- The event for which NodeNumber asks.
  abbrev node_number_event : ClusterEvent
  node_number_event = record { resource = fw.node_gvk; action_type = fw.add_action; label = [] }

  -- New registers it under nodeunschedulable's name.
  pub node_add-Registered :
      (p : UnschedulablePlugin) (plugins : fw.StringSet)
      → bit_and fw.add_action fw.add_action ≢ 0
      → fw.has plugins p.filter_plugin.name ≡ true
      → Registered (registry_of p) plugins node_add
  unfolding NodeNumber.events_to_register
  node_add-Registered p plugins nz h =
      let name = p.filter_plugin.name in
      let reg : is_registered (registry_of p) node_number_event name ≡ true =
        register_cluster_events_lem name _ NodeNumber.events_to_register node_number_event name
        ∙ ground (arith, eq_refl node_number_event, eq_refl name) in
      let (names, at, has) = found_plugin (lookup node_number_event (registry_of p)) name reg in
      (
        node_number_event,
        names,
        In-lookup (registry_of p) node_number_event names at,
        inr (refl, nz),
        (name, has, h),
      )

  -- Take a scheduler whose queue has the registry that New makes, with each unschedulable pod under
  -- its own key, and a gvkMap with one entry for each resource and with Add, which has some bit, among
  -- the action types of Node. Then a node that is added takes each pod that nodeunschedulable rejected
  -- out of unschedulableQ, to podBackoffQ or to activeQ.
  pub on_node-requeues :
      (p : UnschedulablePlugin) (sched : Scheduler) (now : ℕ → QueuedPodInfo → ℕ)
      (m : List (Text × ℕ)) (at : ℕ) (k : Text) (info : QueuedPodInfo)
      → sched.scheduling_queue.cluster_event_map ≡ registry_of p
      → IsKeyed sched.scheduling_queue
      → HasNoDup m
      → lookup fw.node_gvk m ≡ some at
      → bit_and at fw.add_action ≢ 0
      → bit_and fw.add_action fw.add_action ≢ 0
      → lookup k sched.scheduling_queue.unschedulable_q ≡ some info
      → fw.has info.unschedulable_plugins p.filter_plugin.name ≡ true
      → (lookup k
            (on_node now (add_all_event_handlers m) added sched).scheduling_queue.unschedulable_q
          ≡ none)
        × (In info
              (on_node now (add_all_event_handlers m) added sched).scheduling_queue.pod_backoff_q
            ⊎ In info
                (on_node now (add_all_event_handlers m) added sched).scheduling_queue.active_q)
  on_node-requeues p sched now m at k info reg inv d h nz add_nz found rejected =
      let q = sched.scheduling_queue in
      let helps : Helps q info node_add =
        inr (inr (rw reg (node_add-Registered p info.unschedulable_plugins add_nz rejected))) in
      rw (on_node-added now m at sched d h nz)
        (elim (move_all-places (now 0) node_add q inv k info found) [
          | inl (_, gone, inl (_, i)) ↦ (gone, inl i)
          | inl (_, gone, inr (_, i)) ↦ (gone, inr i)
          | inr (not_helped, _) ↦ absurd (not_helped helps)
        ])
