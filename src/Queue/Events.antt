-- ===== src/Queue/Events.antt =====
-- minisched/queue/queue.go: podMatchesEvent and intersect, which events may help which pods.
pub mod Matching
use Prim.Native.Nat.{bit_and}
use mini_kube_scheduler.Common.{
  ℕ, Bool, true, false, not, ◌&&◌, ◌||◌, List, [], ◌∷◌, any, length, ltb, nat_beq, if◌then◌else◌,
}
use mini_kube_scheduler.Common.Keys.{text_eq, ◌==◌}
use mini_kube_scheduler.Framework.{Framework, ClusterEvent}
use mini_kube_scheduler.Queue.Types.{QueuedPodInfo, SchedulingQueue}

module _ ⦃fw : Framework⦄ where
  -- The loop over the smaller set, after the swap.
  intersect_smaller : fw.StringSet → fw.StringSet → Bool
  intersect_smaller x y = any (fw.has y) (fw.elements x)

  unfoldable pub intersect : fw.StringSet → fw.StringSet → Bool
  unfolding intersect_smaller
  intersect x y =
      if ltb (length (fw.elements y)) (length (fw.elements x))
      then intersect_smaller y x
      else intersect_smaller x y

  -- The `evtMatch` of one registered event.
  unfoldable pub event_matches : (registered cluster_event : ClusterEvent) → Bool
  event_matches evt ev =
      fw.is_wild_card evt
      || (evt.resource == ev.resource && not (nat_beq (bit_and evt.action_type ev.action_type) 0))

  -- The loop over clusterEventMap.
  matches_any : List (ClusterEvent × fw.StringSet) → QueuedPodInfo → ClusterEvent → Bool
  matches_any [] p ev = false
  matches_any ((evt, name_set) ∷ m) p ev =
      (event_matches evt ev && intersect name_set p.unschedulable_plugins) || matches_any m p ev

  unfoldable pub pod_matches_event : SchedulingQueue → QueuedPodInfo → ClusterEvent → Bool
  unfolding matches_any
  pod_matches_event s p ev =
      if fw.is_wild_card ev then true else matches_any s.cluster_event_map p ev
