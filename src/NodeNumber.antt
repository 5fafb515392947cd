-- ===== src/NodeNumber.antt =====
-- minisched/plugins/score/nodenumber/nodenumber.go: the plugin that scores a node by the last digits
-- of the names of pod and node. `none` is a panic.
pub mod Scores
use mini_kube_scheduler.Common.{
  ℕ, ◌*◌, Bool, true, false, List, [], ◌∷◌, Option, none, some, if◌then◌else◌,
}
use mini_kube_scheduler.Common.Int.{ℤ, pos, pos_part, beq_ℤ}
use mini_kube_scheduler.Common.Keys.{Text, str}
use mini_kube_scheduler.Framework.{
  Framework, Pod, Node, ClusterEvent, StateData, pre_score_state, foreign, wait,
}
use mini_kube_scheduler.Strconv.{atoi, last_byte}

abbrev pub name : Text
name = str "NodeNumber"

abbrev pre_score_state_key : Text
pre_score_state_key = str "PreScoreNodeNumber"

-- A time.Duration of a second.
abbrev second : ℕ
second = 1_000_000_000

-- What Permit returns, and the delay of the Allow that it starts, if it starts one.
pub record Permitted (S : Type 0) : Type 0 where
  pub status : S
  pub timeout : ℕ
  pub allow_after : Option ℕ

module _ ⦃fw : Framework⦄ where
  remember : fw.CycleState → Option ℤ → fw.Status × fw.CycleState
  remember state none = (fw.nil_status, state)
  remember state (some podnum) =
      (fw.nil_status, fw.write pre_score_state_key (pre_score_state podnum) state)

  unfoldable pub pre_score : fw.CycleState → Pod → List Node → Option (fw.Status × fw.CycleState)
  unfolding remember atoi last_byte
  pre_score state pod nodes = elim (last_byte pod.name) [
    | none ↦ none
    | some c ↦ some (remember state (atoi c))
  ]

  -- The comparison with what PreScore stored.
  match_score : ℤ → Option ℤ → ℤ × fw.Status
  match_score podnum none = (pos 0, fw.nil_status)
  match_score podnum (some nodenum) =
      if beq_ℤ podnum nodenum then (pos 10, fw.nil_status) else (pos 0, fw.nil_status)

  -- The type assertion panics on data of another type.
  score_with : Option StateData → (node_name : Text) → Option (ℤ × fw.Status)
  unfolding match_score atoi last_byte
  score_with none node_name = some (pos 0, fw.as_status fw.not_found)
  score_with (some foreign) node_name = none
  score_with (some (pre_score_state podnum)) node_name = elim (last_byte node_name) [
    | none ↦ none
    | some c ↦ some (match_score podnum (atoi c))
  ]

  unfoldable pub score : fw.CycleState → Pod → (node_name : Text) → Option (ℤ × fw.Status)
  unfolding score_with
  score state pod node_name = score_with (fw.read state pre_score_state_key) node_name

  wait_for : Option ℤ → Permitted fw.Status
  wait_for none = record { status = fw.nil_status; timeout = 0; allow_after = none }
  wait_for (some nodenum) = record {
    status = fw.new_status wait [];
    timeout = 10 * second;
    allow_after = some (pos_part nodenum * second);
  }

  unfoldable pub permit : fw.CycleState → Pod → (node_name : Text) → Option (Permitted fw.Status)
  unfolding wait_for atoi last_byte
  permit state pod node_name = elim (last_byte node_name) [
    | none ↦ none
    | some c ↦ some (wait_for (atoi c))
  ]

  -- EventsToRegister.
  unfoldable pub events_to_register : List ClusterEvent
  events_to_register =
      record { resource = fw.node_gvk; action_type = fw.add_action; label = [] } ∷ []
