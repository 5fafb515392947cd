-- ===== src/Tests/ScoreRuns.antt =====
-- minisched/minisched.go with nodenumber.go: runs of the scoring.
use mini_kube_scheduler.Common.{
  ◌≡◌, refl, ◌⊎◌, true, List, [], ◌∷◌, arith, In, All, none, some, if◌then◌else◌,
}
use mini_kube_scheduler.Common.Int.{ℤ, pos, ◌≤ℤ◌}
use mini_kube_scheduler.Common.Keys.{Text, str, text_eq, ◌==◌}
use mini_kube_scheduler.Framework.{NodeScore}
use mini_kube_scheduler.Tests.Plain.{plain, pod1}
use mini_kube_scheduler.Minisched.Select.{select_host}
use mini_kube_scheduler.Minisched.Select.Highest.{select_host-highest}
use mini_kube_scheduler.Minisched.Scores.{goes_on, run_score_plugins}
use mini_kube_scheduler.Minisched.Initialize.{event_eq}
use mini_kube_scheduler.Common.{count, ◌*◌, ◌<◌}
use mini_kube_scheduler.Minisched.Types.{ScorePlugin}
use mini_kube_scheduler.Minisched.Scores.Sums.{summed, run_score_plugins-sums}
use mini_kube_scheduler.Minisched.Scores.Rows.{HaveOwnNames}
use mini_kube_scheduler.Minisched.Select.Draws.{vectors, top}
use mini_kube_scheduler.Minisched.Select.Uniform.{selects, highest, select_host-uniform}
use mini_kube_scheduler.Minisched.Cycle.Numbers.Matched.{IsMatched, schedule_one-number}
use mini_kube_scheduler.Tests.Samples.{
  program, fresh, with_pod1, answers, some_nodes, to_node11, after, suffix_one, cycle_runs,
  two_nodes,
}

abbrev two_scores : List NodeScore
two_scores =
    record { name = str "node10"; score = pos 0 }
    ∷ record { name = str "node11"; score = pos 10 }
    ∷ []

select_host-highest_example :
    ((two_scores ≡ []) × (select_host (λ i n. 0) two_scores ≡ none))
    ⊎ (ns : NodeScore) × In ns two_scores
      × (select_host (λ i n. 0) two_scores ≡ some ns.name)
      × All (λ o. o.score ≤ℤ ns.score) two_scores
select_host-highest_example = select_host-highest (λ i n. 0) two_scores

scores_run : run_score_plugins suffix_one pod1 fresh.score_plugins two_nodes ≡ goes_on two_scores
unfolding program
scores_run = refl

-- NodeNumber gives the nodes of the two names these scores.
abbrev given : ScorePlugin → Text → ℤ
given pl name = if name == str "node11" then pos 10 else pos 0

fresh_score_plugins-HaveOwnNames : HaveOwnNames fresh.score_plugins
fresh_score_plugins-HaveOwnNames = (refl, tt)

run_score_plugins-sums_example :
    run_score_plugins suffix_one pod1 fresh.score_plugins two_nodes
    ≡ goes_on (summed suffix_one pod1 given fresh.score_plugins two_nodes)
unfolding program
run_score_plugins-sums_example =
    run_score_plugins-sums suffix_one pod1 given fresh.score_plugins two_nodes
      fresh_score_plugins-HaveOwnNames
      (((refl, plain.nil_status, refl, refl), tt), (((refl, plain.nil_status, refl, refl), tt), tt))

-- Three nodes, of which two share the highest score.
abbrev tied_scores : List NodeScore
tied_scores =
    record { name = str "node11"; score = pos 10 }
    ∷ record { name = str "node10"; score = pos 0 }
    ∷ record { name = str "node1"; score = pos 10 }
    ∷ []

select_host-uniform_example :
    (0
      < highest
          (record { name = str "node11"; score = pos 10 })
          (record { name = str "node10"; score = pos 0 }
            ∷ record { name = str "node1"; score = pos 10 }
            ∷ [])
          (λ t. true))
    × (2 * count (selects (λ name. name == str "node1") tied_scores) ((0 ∷ []) ∷ (1 ∷ []) ∷ [])
        ≡ 2 * 1)
unfolding program vectors top
select_host-uniform_example =
    select_host-uniform (record { name = str "node11"; score = pos 10 })
      (record { name = str "node10"; score = pos 0 }
        ∷ record { name = str "node1"; score = pos 10 }
        ∷ [])
      (λ name. name == str "node1")

schedule_one-number_example : IsMatched pod1 (str "node11") two_nodes
unfolding program
schedule_one-number_example =
    schedule_one-number (answers some_nodes) with_pod1 after to_node11
      ((str "NodeNumber", 1_000_000_000) ∷ []) some_nodes refl
      ((λ e. ground arith), ((λ e. ground arith), ((λ e. ground arith), tt))) refl refl cycle_runs
