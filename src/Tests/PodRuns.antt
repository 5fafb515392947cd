-- ===== src/Tests/PodRuns.antt =====
-- minisched/waitingpod/waitingpod.go and nodenumber.go: runs of a waiting pod and of the plugin.
use mini_kube_scheduler.Common.{ℕ, ◌≡◌, refl, true, false, List, [], ◌∷◌, arith, In, none, some}
use mini_kube_scheduler.Common.Int.{pos}
use mini_kube_scheduler.Common.Keys.{Text, str, text_beq, text_eq, eq_iff}
use mini_kube_scheduler.Framework.{success, unschedulable}
use mini_kube_scheduler.Strconv.{is_digit}
use mini_kube_scheduler.Tests.Plain.{plain, PlainStatus, pod1, web}
use mini_kube_scheduler.WaitingPod.{
  Timer, WaitingPod, new_waiting_pod, get_signal, allow, reject, fire, run_fired,
}
use mini_kube_scheduler.WaitingPod.History.{allows, rejects, fires, runs_fired, step, run}
use mini_kube_scheduler.WaitingPod.Verdicts.{IsPending, success-allowed}
use mini_kube_scheduler.WaitingPod.Signals.{run-first_signal}
use mini_kube_scheduler.NodeNumber.Scores.{scored, scored-non_digit}

abbrev late : ℕ → Text → Text
late wait_time plugin = str "timeout at "

abbrev times : List (Text × ℕ)
times = (str "A", 5) ∷ (str "B", 9) ∷ []

abbrev timer : ℕ → ℕ → Timer
timer deadline wait_time = record { deadline = deadline; wait_time = wait_time; running = true }

abbrev two_wait : WaitingPod
two_wait = record {
  pod = pod1;
  pending_plugins = (str "A", timer 15 5) ∷ (str "B", timer 19 9) ∷ [];
  s = none;
  fired = [];
}

abbrev ok_status : PlainStatus
ok_status = record { code = success; message = []; failed = [] }

program : Unit {0}
unfolding run step new_waiting_pod get_signal allow reject fire run_fired text_beq
program = tt

starts : new_waiting_pod 10 pod1 times ≡ two_wait
unfolding program
starts = refl

both_allow : (run late two_wait (allows (str "B") ∷ allows (str "A") ∷ [])).s ≡ some ok_status
unfolding program
both_allow = refl

one_is_late :
    (run late two_wait (allows (str "A") ∷ fires 20 (str "B") ∷ runs_fired ∷ [])).s
    ≡ some (record { code = unschedulable; message = str "timeout at "; failed = str "B" })
unfolding program
one_is_late = refl

abbrev allowed : WaitingPod
allowed = record { pod = pod1; pending_plugins = []; s = none; fired = [] }

success-allowed_example : In (allows (str "A")) (allows (str "B") ∷ allows (str "A") ∷ [])
unfolding program
success-allowed_example =
    success-allowed late 10 pod1 times (allows (str "B") ∷ allows (str "A") ∷ []) ok_status allowed
      (str "A") 5 refl refl refl

run-first_signal_example :
    (run late
      (record two_wait { s = some ok_status })
      (rejects (str "B") [] ∷ fires 30 (str "A") ∷ [])).s
    ≡ some ok_status
run-first_signal_example =
    run-first_signal late (record two_wait { s = some ok_status })
      (rejects (str "B") [] ∷ fires 30 (str "A") ∷ []) ok_status refl ((λ e. cc), ((λ e. cc), tt))

both_covered : (k : Text) → IsPending k two_wait.pending_plugins → In k (str "B" ∷ str "A" ∷ [])
both_covered k (t, e) = ground (arith, eq_iff (str "A") k, eq_iff (str "B") k)

scored-non_digit_example :
    (scored web [] (str "node1") ≡ some (pos 0, plain.as_status plain.not_found))
    × (plain.is_success (plain.as_status plain.not_found) ≡ false)
unfolding is_digit
scored-non_digit_example = scored-non_digit web [] (str "we") (str "node1") b'b' refl refl
