-- ===== src/Minisched/Types.antt =====
-- minisched/minisched.go and minisched/initialize.go: plugins, errors and the scheduler's state. A
-- plugin's panic is `none`. PreScore is the extension point at which plugins write the cycle state.
use mini_kube_scheduler.Common.{List, Option}
use mini_kube_scheduler.Common.Int.{ℤ}
use mini_kube_scheduler.Common.Keys.{Text}
use mini_kube_scheduler.Framework.{Framework, Pod, Node, NodeScore}
use mini_kube_scheduler.NodeNumber.{Permitted}
use mini_kube_scheduler.Queue.Types.{SchedulingQueue}
use mini_kube_scheduler.WaitingPod.{WaitingPod}

module _ ⦃fw : Framework⦄ where
  pub record FilterPlugin : Type 0 where
    pub name : Text
    pub filter : fw.CycleState → Pod → fw.NodeInfo → fw.Status

  pub record PreScorePlugin : Type 0 where
    pub name : Text
    pub pre_score : fw.CycleState → Pod → List Node → Option (fw.Status × fw.CycleState)

  -- NormalizeScore rewrites the scores in place; `none` stands for nil score extensions.
  pub record ScorePlugin : Type 0 where
    pub name : Text
    pub score : fw.CycleState → Pod → (node_name : Text) → Option (ℤ × fw.Status)
    pub score_extensions :
        Option (fw.CycleState → Pod → List NodeScore → fw.Status × List NodeScore)

  pub record PermitPlugin : Type 0 where
    pub name : Text
    pub permit : fw.CycleState → Pod → (node_name : Text) → Option (Permitted fw.Status)

  -- An error: *framework.FitError with the plugins of its diagnosis, or another with its text.
  pub data Error : Type 0 where
    fit_error : (unschedulable_plugins : fw.StringSet) → Error
    other : (text : Text) → Error

  pub record Scheduler : Type 0 where
    pub scheduling_queue : SchedulingQueue
    pub waiting_pods : List (Text × WaitingPod)
    pub filter_plugins : List FilterPlugin
    pub pre_score_plugins : List PreScorePlugin
    pub score_plugins : List ScorePlugin
    pub permit_plugins : List PermitPlugin
