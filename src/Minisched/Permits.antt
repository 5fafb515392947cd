-- ===== src/Minisched/Permits.antt =====
-- minisched/minisched.go: RunPermitPlugins and WaitOnPermit.
pub mod Verdict
pub mod Single
use mini_kube_scheduler.Common.{
  ℕ, Bool, true, false, not, List, [], ◌∷◌, ◌++◌, Option, none, some, nat_beq, ◌||◌, if◌then◌else◌,
}
use mini_kube_scheduler.Common.Keys.{Text, str, text_eq}
use mini_kube_scheduler.Common.Maps.{lookup, insert, delete}
use mini_kube_scheduler.Framework.{Framework, Pod, wait, is_wait_code}
use mini_kube_scheduler.Minisched.Types.{PermitPlugin}
use mini_kube_scheduler.NodeNumber.{Permitted}
use mini_kube_scheduler.WaitingPod.{WaitingPod, new_waiting_pod, get_signal}

-- fmt's %q, for printable ASCII: a quotation mark (34) and a backslash (92) are escaped.
escaped : Text → Text
escaped [] = []
escaped (c ∷ cs) =
    let rest = escaped cs in if nat_beq c 34 || nat_beq c 92 then 92 ∷ c ∷ rest else c ∷ rest

unfoldable pub quoted : Text → Text
unfolding escaped
quoted s = 34 ∷ (escaped s ++ 34 ∷ [])

abbrev wait_message : (pod_name : Text) → Text
wait_message pod_name =
    str "one or more plugins asked to wait and no plugin rejected pod " ++ quoted pod_name

abbrev permit_error : (plugin error_text : Text) → Text
permit_error plugin error_text =
    str "running Permit plugin " ++ (quoted plugin ++ (str ": " ++ error_text))

abbrev pub wait_error : (error_text : Text) → Text
wait_error error_text = str "waiting on permit for pod: " ++ error_text

module _ ⦃fw : Framework⦄ where
  -- What the loop over the plugins ends with: a status to return, or the plugins to wait for. Each
  -- Allow that a plugin starts is due after a delay, whatever comes of the loop.
  pub record PermitLoop : Type 0 where
    pub rejected : Option fw.Status
    pub plugins_wait_time : List (Text × ℕ)
    pub asked_to_wait : Bool
    pub allows : List (Text × ℕ)

  -- The allows so far, and that of one more plugin.
  abbrev pub with_allow : Text → Option ℕ → List (Text × ℕ) → List (Text × ℕ)
  with_allow name none allows = allows
  with_allow name (some delay) allows = allows ++ (name, delay) ∷ []

  -- One round of the loop.
  pub permit_round : Text → Permitted fw.Status → PermitLoop → PermitLoop
  permit_round name p l =
      let l' = record l { allows = with_allow name p.allow_after l.allows } in
      let error = fw.as_status (permit_error name (fw.as_error p.status)) in
      if fw.is_success p.status
      then l'
      else if fw.is_unschedulable p.status
      then record l' { rejected = some (fw.with_failed_plugin p.status name) }
      else if is_wait_code (fw.code p.status)
      then record l' {
        plugins_wait_time = insert name p.timeout l.plugins_wait_time;
        asked_to_wait = true;
      }
      else record l' { rejected = some (fw.with_failed_plugin error name) }

module _ ⦃fw : Framework⦄ (state : fw.CycleState) (pod : Pod) (node_name : Text) where
  -- `none` is a panic.
  permit_loop : List PermitPlugin → PermitLoop → Option PermitLoop
  unfolding permit_round
  permit_loop [] l = some l
  permit_loop (pl ∷ pls) l = elim (pl.permit state pod node_name) [
    | none ↦ none
    | some p ↦
        let l' = permit_round pl.name p l in
        let rest = permit_loop pls l' in elim l'.rejected [ some status ↦ some l' | none ↦ rest ]
  ]

module _ ⦃fw : Framework⦄ where
  -- The status, the waiting pods and the allows that were started.
  pub record PermitRun : Type 0 where
    pub status : fw.Status
    pub waiting_pods : List (Text × WaitingPod)
    pub allows : List (Text × ℕ)

  permit_end : (now : ℕ) → Pod → List (Text × WaitingPod) → PermitLoop → PermitRun
  permit_end now pod waiting_pods l = elim l.rejected [
    | some status ↦ record { status = status; waiting_pods = waiting_pods; allows = l.allows }
    | none ↦
        if l.asked_to_wait
        then record {
          status = fw.new_status wait (wait_message pod.name);
          waiting_pods = insert pod.uid (new_waiting_pod now pod l.plugins_wait_time) waiting_pods;
          allows = l.allows;
        }
        else record { status = fw.nil_status; waiting_pods = waiting_pods; allows = l.allows }
  ]

  unfoldable pub run_permit_plugins :
      (now : ℕ)
      → fw.CycleState
      → Pod
      → (node_name : Text) → List PermitPlugin
      → List (Text × WaitingPod)
      → Option PermitRun
  unfolding permit_loop permit_end
  run_permit_plugins now state pod node_name pls waiting_pods =
      elim (permit_loop state pod node_name pls
        (record { rejected = none; plugins_wait_time = []; asked_to_wait = false; allows = [] })) [
          | none ↦ none
          | some l ↦ some (permit_end now pod waiting_pods l)
        ]

  -- The status that is returned for a signal.
  unfoldable pub signal_status : fw.Status → fw.Status
  signal_status s =
      if fw.is_success s
      then fw.nil_status
      else if fw.is_unschedulable s
      then fw.with_failed_plugin s (fw.failed_plugin s)
      else fw.with_failed_plugin (fw.as_status (wait_error (fw.as_error s))) (fw.failed_plugin s)

  -- `none`: the goroutine blocks until there is a signal.
  unfoldable pub wait_on_permit :
      Pod → List (Text × WaitingPod) → Option (fw.Status × List (Text × WaitingPod))
  unfolding signal_status
  wait_on_permit pod waiting_pods = elim (lookup pod.uid waiting_pods) [
    | none ↦ some (fw.nil_status, waiting_pods)
    | some w ↦ elim (get_signal w) [
      | none ↦ none
      | some (s, w') ↦ some (signal_status s, delete pod.uid waiting_pods)
    ]
  ]
