-- ===== src/Tests/SystemRuns.antt =====
-- minisched: runs of a scheduler's goroutines, from New until a pod is bound.
use mini_kube_scheduler.Common.{◌≡◌, refl, inl, Bool, true, [], ◌∷◌, some, count}
use mini_kube_scheduler.Common.Keys.{str, text_eq}
use mini_kube_scheduler.Framework.{Pod}
use mini_kube_scheduler.Tests.Plain.{plain, pod1}
use mini_kube_scheduler.Tests.Samples.{
  program, fresh, with_pod1, answers, some_nodes, to_node11, pod1_waits, after, late, signalled,
}
use mini_kube_scheduler.WaitingPod.Live.{IsLive}
use mini_kube_scheduler.Minisched.Cycle.{get_waiting_pod}
use mini_kube_scheduler.Minisched.Run.{run, Spins, run-Spins}
use mini_kube_scheduler.Minisched.System
use mini_kube_scheduler.Minisched.System.{System, Step, Runs, IsFresh, init}
use mini_kube_scheduler.Minisched.System.Places.{total}
use mini_kube_scheduler.Minisched.System.Conserved.{runs-conserved}
use mini_kube_scheduler.Minisched.System.Waits.{waits_for}
use mini_kube_scheduler.Minisched.System.Progress.{runs-IsAttended, CanGoOn, runs-CanGoOn}
use mini_kube_scheduler.Minisched.System.Reasons.{WasDecided, runs-decided}

abbrev queued_up : System
queued_up = record (init fresh) { sched = with_pod1; added = pod1 ∷ [] }

abbrev in_cycle : System
in_cycle = record (init fresh) { scheduling = some pod1; added = pod1 ∷ [] }

-- The pod waits, and its goroutine with it.
abbrev waits : System
waits = record (init fresh) {
  sched = after;
  waiting = to_node11 ∷ [];
  delayed = (str "u1", str "NodeNumber") ∷ [];
  added = pod1 ∷ [];
}

abbrev is_allowed : System
is_allowed = record waits { sched = signalled; delayed = [] }

abbrev in_bind : System
in_bind = record (init fresh) { binding = to_node11 ∷ []; added = pod1 ∷ [] }

abbrev bound : System
bound = record (init fresh) { bindings = to_node11 ∷ []; added = pod1 ∷ [] }

runs_waits : Runs late (init fresh) waits
unfolding program
runs_waits =
    let taken : Runs late (init fresh) in_cycle =
      System.later (System.later {t = init fresh} {u = queued_up} System.stays (System.adds 3 pod1))
        (System.takes pod1 fresh.scheduling_queue refl refl) in
    System.later taken (
      System.starts (answers some_nodes) pod1 to_node11 ((str "NodeNumber", 1_000_000_000) ∷ [])
        after refl refl)

runs_bound : Runs late (init fresh) bound
unfolding program get_waiting_pod
runs_bound =
    let seen : Runs late (init fresh) is_allowed =
      System.later runs_waits
        (System.allows [] [] (str "u1") (str "NodeNumber") pod1_waits refl refl) in
    let permitted : Runs late (init fresh) in_bind =
      System.later seen (System.is_permitted [] [] to_node11 plain.nil_status [] refl refl refl) in
    System.later permitted (System.is_bound 9 [] [] to_node11 fresh refl refl)

fresh-IsFresh : IsFresh fresh
unfolding program
fresh-IsFresh = record { queue = refl; nobody = refl }

abbrev is_pod1 : Pod → Bool
is_pod1 p = true

runs-conserved_example : total is_pod1 bound ≡ count is_pod1 (pod1 ∷ [])
runs-conserved_example = runs-conserved late fresh bound fresh-IsFresh runs_bound (refl, tt) is_pod1

runs-IsAttended_example : (waits_for (str "u1") (to_node11 ∷ []) ≡ true) × IsLive pod1_waits
unfolding program
runs-IsAttended_example =
    runs-IsAttended late fresh waits fresh-IsFresh runs_waits (str "u1") pod1_waits refl

runs-CanGoOn_example : CanGoOn late waits pod1
runs-CanGoOn_example = runs-CanGoOn late fresh waits pod1 fresh-IsFresh runs_waits

runs-decided_example : WasDecided late (init fresh) bound to_node11
runs-decided_example = runs-decided late fresh bound to_node11 runs_bound (inl refl)

run-Spins_example : Spins 1 (run 2 (λ i. answers some_nodes) [] 0 with_pod1)
run-Spins_example = run-Spins (λ i. answers some_nodes) with_pod1
