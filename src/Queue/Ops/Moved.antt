-- ===== src/Queue/Ops/Moved.antt =====
-- minisched/queue/queue.go: what a call of MoveAllToActiveOrBackoffQueue does to the three queues.
use mini_kube_scheduler.Common.{
  ℕ, ◌+◌, ◌≡◌, refl, ◌∙◌, ap, ◌⊎◌, inl, inr, Bool, true, false, List, [], ◌∷◌, ◌++◌, arith, keep,
  count, count-append, In, In-append_right, In-keep, none, some, Bool-cases, if◌then◌else◌,
}
use mini_kube_scheduler.Common.Keys.{Text, text_eq}
use mini_kube_scheduler.Common.Maps.{lookup, values, HasNoDup, In-values, lookup-keep, values-keep}
use mini_kube_scheduler.Framework.{Framework, ClusterEvent}
use mini_kube_scheduler.Queue.Types.{QueuedPodInfo, SchedulingQueue}
use mini_kube_scheduler.Queue.Backoff.{is_pod_backingoff}
use mini_kube_scheduler.Queue.Events.{pod_matches_event}
use mini_kube_scheduler.Queue.Events.Matching.{Registered, pod_matches_event_iff}
use mini_kube_scheduler.Queue.Ops.{skips, move_all_to_active_or_backoff_queue}
use mini_kube_scheduler.Queue.Ops.Moves.{to_active, to_backoff, with_contents, move_pods_lem}
use mini_kube_scheduler.Queue.Ops.Dropped.{AreKeyed, drop_helped_lem}

module _ ⦃fw : Framework⦄ where
  -- Each pod of unschedulableQ stands under its own key, and no key stands twice.
  pub record IsKeyed (s : SchedulingQueue) : Type 0 where
    pub keyed : AreKeyed s.unschedulable_q
    pub fresh : HasNoDup s.unschedulable_q

  -- An event helps a pod that no plugin rejected, or that a covering event is registered for.
  abbrev pub Helps : SchedulingQueue → QueuedPodInfo → ClusterEvent → Type 0
  Helps s p ev =
      (fw.elements p.unschedulable_plugins ≡ [])
      ⊎ (fw.is_wild_card ev ≡ true)
      ⊎ Registered s.cluster_event_map p.unschedulable_plugins ev

  pub Helps→skips :
      (s : SchedulingQueue) (p : QueuedPodInfo) (ev : ClusterEvent)
      → Helps s p ev
      → skips s p ev ≡ false
  unfolding skips
  Helps→skips s p ev (inl e) = rw e
  Helps→skips s p ev (inr h) = let m = (pod_matches_event_iff s p ev).1 h in ground arith

  skips→Helps :
      (s : SchedulingQueue) (p : QueuedPodInfo) (ev : ClusterEvent)
      → skips s p ev ≡ false
      → Helps s p ev
  unfolding skips
  skips→Helps s p ev h = elim (Bool-cases (pod_matches_event s p ev)) [
    | inl e ↦ inr ((pod_matches_event_iff s p ev).0 e)
    | inr e ↦ inl (ground arith)
  ]

  -- How many pods of a kind the three queues hold.
  abbrev pub queued : (QueuedPodInfo → Bool) → SchedulingQueue → ℕ
  queued q t = count q t.active_q + count q t.pod_backoff_q + count q (values t.unschedulable_q)

module _ ⦃fw : Framework⦄ (now : QueuedPodInfo → ℕ) (event : ClusterEvent) (s : SchedulingQueue)
    (inv : IsKeyed s) where
  abbrev waiting : List QueuedPodInfo
  waiting = values s.unschedulable_q

  pub move_all_lem :
      move_all_to_active_or_backoff_queue now s event
      ≡ with_contents s
          (s.active_q ++ keep (to_active now event s) waiting)
          (s.pod_backoff_q ++ keep (to_backoff now event s) waiting)
          (keep (λ e. skips s e.1 event) s.unschedulable_q)
  unfolding move_all_to_active_or_backoff_queue
  move_all_lem =
      move_pods_lem now event s s.active_q s.pod_backoff_q s.unschedulable_q waiting
      ∙ ap
          (with_contents s (s.active_q ++ keep (to_active now event s) waiting)
            (s.pod_backoff_q ++ keep (to_backoff now event s) waiting))
          (drop_helped_lem event s now s.unschedulable_q inv.keyed inv.fresh)

  abbrev moved : SchedulingQueue
  moved = move_all_to_active_or_backoff_queue now s event

  move_all-unschedulable_q : moved.unschedulable_q ≡ keep (λ e. skips s e.1 event) s.unschedulable_q
  move_all-unschedulable_q = ap (λ q. q.unschedulable_q) move_all_lem

  lookup-moved :
      (k : Text)
      → lookup k moved.unschedulable_q ≡ elim (lookup k s.unschedulable_q) [
        | none ↦ none
        | some p ↦ if skips s p event then some p else none
      ]
  lookup-moved k =
      ap (lookup k) move_all-unschedulable_q
      ∙ lookup-keep (λ p. skips s p event) k s.unschedulable_q inv.fresh

  move_all-active :
      (p : QueuedPodInfo)
      → In p waiting
      → skips s p event ≡ false
      → is_pod_backingoff (now p) p ≡ false
      → In p moved.active_q
  move_all-active p m h b = rw (ap (λ q. q.active_q) move_all_lem) (
      In-append_right p s.active_q (keep (to_active now event s) waiting)
        (In-keep (to_active now event s) waiting p m (ground arith)))

  move_all-backoff :
      (p : QueuedPodInfo)
      → In p waiting
      → skips s p event ≡ false
      → is_pod_backingoff (now p) p ≡ true
      → In p moved.pod_backoff_q
  move_all-backoff p m h b = rw (ap (λ q. q.pod_backoff_q) move_all_lem) (
      In-append_right p s.pod_backoff_q (keep (to_backoff now event s) waiting)
        (In-keep (to_backoff now event s) waiting p m (ground arith)))

  -- With the pods of unschedulableQ under their own keys, an event takes exactly the pods that it
  -- helps out of unschedulableQ: such a pod goes to podBackoffQ if it is backing off at the moment
  -- that the loop reads the clock for it, and to activeQ if not; any other pod stays where it was.
  pub move_all-places :
      (k : Text) (p : QueuedPodInfo)
      → lookup k s.unschedulable_q ≡ some p
      → (Helps s p event
          × (lookup k moved.unschedulable_q ≡ none)
          × ((is_pod_backingoff (now p) p ≡ true) × In p moved.pod_backoff_q
              ⊎ (is_pod_backingoff (now p) p ≡ false) × In p moved.active_q))
        ⊎ (¬ Helps s p event) × (lookup k moved.unschedulable_q ≡ some p)
  move_all-places k p found =
      let m = In-values k p s.unschedulable_q found in
      elim (Bool-cases (skips s p event)) [
        | inl e ↦ inr ((λ h. cc (Helps→skips s p event h)), ground (arith, lookup-moved k))
        | inr e ↦ inl (
          skips→Helps s p event e,
          ground (arith, lookup-moved k),
          elim (Bool-cases (is_pod_backingoff (now p) p)) [
            | inl b ↦ inl (b, move_all-backoff p m e b)
            | inr b ↦ inr (b, move_all-active p m e b)
          ],
        )
      ]

  split_counts :
      (q : QueuedPodInfo → Bool) (ps : List QueuedPodInfo)
      → count q (keep (to_active now event s) ps)
          + count q (keep (to_backoff now event s) ps)
          + count q (keep (λ p. skips s p event) ps)
        ≡ count q ps
  split_counts q [] = refl
  split_counts q (p ∷ ps) = ground (arith, split_counts q ps)

  pub move_all-queued : (q : QueuedPodInfo → Bool) → queued q moved ≡ queued q s
  move_all-queued q = rw move_all_lem (
      omega (
        arith,
        count-append q s.active_q (keep (to_active now event s) waiting),
        count-append q s.pod_backoff_q (keep (to_backoff now event s) waiting),
        ap (count q) (values-keep (λ p. skips s p event) s.unschedulable_q),
        split_counts q waiting,
      ))
