-- ===== src/Queue/Types.antt =====
-- minisched/queue/queue.go: the queue's state and the key of a pod in it.
use mini_kube_scheduler.Common.{ℕ, List}
use mini_kube_scheduler.Common.Keys.{Text}
use mini_kube_scheduler.Framework.{Framework, ClusterEvent}

module _ ⦃fw : Framework⦄ where
  -- framework.QueuedPodInfo. Instants are nanoseconds.
  pub record QueuedPodInfo : Type 0 where
    pub pod_info : fw.PodInfo
    pub timestamp : ℕ
    pub attempts : ℕ
    pub initial_attempt_timestamp : ℕ
    pub unschedulable_plugins : fw.StringSet

  pub record SchedulingQueue : Type 0 where
    pub active_q : List QueuedPodInfo
    pub pod_backoff_q : List QueuedPodInfo
    pub unschedulable_q : List (Text × QueuedPodInfo)
    pub cluster_event_map : List (ClusterEvent × fw.StringSet)
