-- ===== src/Queue/Events/Matching.antt =====
-- minisched/queue/queue.go: what podMatchesEvent and intersect decide.
use Prim.Native.Nat.{bit_and}
use mini_kube_scheduler.Common.{
  ◌≡◌, ◌≢◌, refl, ◌↔◌, ◌⊎◌, inl, inr, true, ◌&&◌, List, [], ◌∷◌, arith, In, any→In, In→any,
  Bool-cases, ltb, length, ◌∙◌, sym,
}
use mini_kube_scheduler.Common.Keys.{Text, text_eq, ◌==◌, eq_iff, eq_refl}
use mini_kube_scheduler.Framework.{Framework, ClusterEvent}
use mini_kube_scheduler.Queue.Types.{QueuedPodInfo, SchedulingQueue}
use mini_kube_scheduler.Queue.Events.{
  intersect_smaller, intersect, event_matches, matches_any, pod_matches_event,
}

module _ ⦃fw : Framework⦄ where
  In-has : (s : fw.StringSet) (v : Text) → In v (fw.elements s) → fw.has s v ≡ true
  In-has s v m = fw.has-elements s v ∙ In→any (λ a. a == v) (fw.elements s) v m (eq_refl v)

  has-In : (s : fw.StringSet) (v : Text) → fw.has s v ≡ true → In v (fw.elements s)
  has-In s v h =
      let (a, m, e) = any→In (λ a. a == v) (fw.elements s) (sym (fw.has-elements s v) ∙ h) in
      rw (← (eq_iff a v).0 e) m

  abbrev Shared : fw.StringSet → fw.StringSet → Type 0
  Shared x y = (v : Text) × (fw.has x v ≡ true) × (fw.has y v ≡ true)

  smaller→Shared : (x y : fw.StringSet) → intersect_smaller x y ≡ true → Shared x y
  unfolding intersect_smaller
  smaller→Shared x y h = let (v, m, q) = any→In (fw.has y) (fw.elements x) h in (v, In-has x v m, q)

  Shared→smaller : (x y : fw.StringSet) → Shared x y → intersect_smaller x y ≡ true
  unfolding intersect_smaller
  Shared→smaller x y (v, hx, hy) = In→any (fw.has y) (fw.elements x) v (has-In x v hx) hy

  -- Two sets of plugin names intersect exactly when some name is in both, whichever is smaller.
  pub intersect_iff : (x y : fw.StringSet) → (intersect x y ≡ true) ↔ Shared x y
  unfolding intersect
  intersect_iff x y = elim (Bool-cases (ltb (length (fw.elements y)) (length (fw.elements x)))) [
    | inl e ↦
        rw (e, intersect)
          (
            (λ h. let (v, hy, hx) = smaller→Shared y x h in (v, hx, hy)),
            (λ (v, hx, hy). Shared→smaller y x (v, hy, hx)),
          )
    | inr e ↦ rw (e, intersect) (smaller→Shared x y, Shared→smaller x y)
  ]

  -- A registered event covers an event: it is the wild card, or it is about the same resource and
  -- shares an action bit.
  abbrev pub Covers : (registered cluster_event : ClusterEvent) → Type 0
  Covers evt ev =
      (fw.is_wild_card evt ≡ true)
      ⊎ (evt.resource ≡ ev.resource) × (bit_and evt.action_type ev.action_type ≢ 0)

  event_matches_iff : (evt ev : ClusterEvent) → (event_matches evt ev ≡ true) ↔ Covers evt ev
  unfolding event_matches
  event_matches_iff evt ev = (
    (λ h. ground (arith, eq_iff evt.resource ev.resource)),
    (λ h. ground (arith, eq_iff evt.resource ev.resource)),
  )

  -- Some plugin that rejected the pod has registered an event that covers this one.
  abbrev pub Registered : List (ClusterEvent × fw.StringSet) → fw.StringSet → ClusterEvent → Type 0
  Registered m plugins ev =
      (evt : ClusterEvent) × (names : fw.StringSet) × In (evt, names) m
      × Covers evt ev
      × Shared names plugins

  matches_any→Registered :
      (m : List (ClusterEvent × fw.StringSet)) (p : QueuedPodInfo) (ev : ClusterEvent)
      → matches_any m p ev ≡ true
      → Registered m p.unschedulable_plugins ev
  unfolding matches_any
  matches_any→Registered [] p ev h = absurd (ground arith)
  matches_any→Registered ((evt, names) ∷ m) p ev h =
      elim (Bool-cases (event_matches evt ev && intersect names p.unschedulable_plugins)) [
        | inl e ↦ (
          evt,
          names,
          inl refl,
          (event_matches_iff evt ev).0 (ground arith),
          (intersect_iff names p.unschedulable_plugins).0 (ground arith),
        )
        | inr e ↦
            let (evt', names', i, c, sh) = matches_any→Registered m p ev (ground arith) in
            (evt', names', inr i, c, sh)
      ]

  Registered→matches_any :
      (m : List (ClusterEvent × fw.StringSet)) (p : QueuedPodInfo) (ev : ClusterEvent)
      → Registered m p.unschedulable_plugins ev
      → matches_any m p ev ≡ true
  unfolding matches_any
  Registered→matches_any [] p ev (evt, names, i, c, sh) = absurd i
  Registered→matches_any ((evt', names') ∷ m) p ev (evt, names, inl i, c, sh) =
      let covers = (event_matches_iff evt ev).1 c in
      let shared = (intersect_iff names p.unschedulable_plugins).1 sh in ground arith
  Registered→matches_any ((evt', names') ∷ m) p ev (evt, names, inr i, c, sh) =
      let rest = Registered→matches_any m p ev (evt, names, i, c, sh) in ground arith

  pub pod_matches_event_iff :
      (s : SchedulingQueue) (p : QueuedPodInfo) (ev : ClusterEvent)
      → (pod_matches_event s p ev ≡ true)
        ↔ ((fw.is_wild_card ev ≡ true) ⊎ Registered s.cluster_event_map p.unschedulable_plugins ev)
  unfolding pod_matches_event
  pod_matches_event_iff s p ev = elim (Bool-cases (fw.is_wild_card ev)) [
    | inl e ↦ rw e ((λ h. inl refl), (λ h. refl))
    | inr e ↦ rw e (
      (λ h. inr (matches_any→Registered s.cluster_event_map p ev h)),
      (λ h. elim h [
        | inl w ↦ absurd (ground arith)
        | inr r ↦ Registered→matches_any s.cluster_event_map p ev r
      ]),
    )
  ]
