-- ===== src/Minisched/Cycle/Numbers.antt =====
-- minisched/minisched.go with nodenumber.go: the score of NodeNumber as the only plugin that scores.
pub mod Matched
use mini_kube_scheduler.Common.{
  ℕ, ◌≡◌, ◌≢◌, refl, sym, ◌∙◌, ap, subst, ◌⊎◌, inl, inr, Bool, true, false, List, [], ◌∷◌, ◌++◌,
  arith, any, any→In, keep, In, In-keep, In-map, map-In, All, All-keep, All-In, All-map, Option,
  none, some, nat_beq, Option-cases, Bool-cases, if◌then◌else◌,
}
use mini_kube_scheduler.Common.Int.{ℤ, pos, ◌≤ℤ◌, ◌+ℤ◌, wrap64}
use mini_kube_scheduler.Common.Keys.{Text, text_eq}
use mini_kube_scheduler.Framework.{Framework, Pod, Node, NodeScore, is_success-nil}
use mini_kube_scheduler.Strconv.{is_digit}
use mini_kube_scheduler.NodeNumber
use mini_kube_scheduler.NodeNumber.Scores.{scored, scored-digit, scored-non_digit}
use mini_kube_scheduler.Minisched.Types.{Scheduler, PreScorePlugin, ScorePlugin}
use mini_kube_scheduler.Minisched.Filters.Feasible.{passes}
use mini_kube_scheduler.Minisched.Scores.{
  goes_on, returns, run_pre_score_plugins, run_score_plugins,
}
use mini_kube_scheduler.Minisched.Scores.Sums.{
  Gives, total, summed, run_score_plugins-sums, run_score_plugins-fails,
}
use mini_kube_scheduler.Minisched.Cycle.{listed, Answers, Binding, binds, schedule_one}
use mini_kube_scheduler.Minisched.Cycle.Justified.{schedule_one-IsJustified}

-- The last byte.
abbrev pub last : Text → Option ℕ
last [] = none
last (c ∷ []) = some c
last (c ∷ d ∷ s) = last (d ∷ s)

pub last-cases : (s : Text) → s ≢ [] → (p : Text) × (c : ℕ) × (s ≡ p ++ c ∷ []) × (last s ≡ some c)
last-cases [] n = absurd (n refl)
last-cases (c ∷ []) n = ([], c, refl, refl)
last-cases (c ∷ d ∷ s) n =
    let (p, e, same, at) = last-cases (d ∷ s) (λ z. cc) in (c ∷ p, e, ap (◌∷◌ c) same, at)

abbrev pub ends_with : ℕ → Text → Bool
ends_with c s = elim (last s) [ none ↦ false | some d ↦ nat_beq c d ]

module _ ⦃fw : Framework⦄ where
  -- The plugins that New makes for these two extension points.
  abbrev pub number_pre_score : PreScorePlugin
  number_pre_score = record { name = NodeNumber.name; pre_score = NodeNumber.pre_score }

  abbrev pub number_score : ScorePlugin
  number_score = record {
    name = NodeNumber.name;
    score = NodeNumber.score;
    score_extensions = none;
  }

  abbrev pub by_number : ℕ → ScorePlugin → Text → ℤ
  by_number c pl name = if ends_with c name then pos 10 else pos 0

  -- PreScore of the only plugin goes on with the state that NodeNumber makes.
  pub pre_scored :
      (pod : Pod) (nodes : List Node) (state : fw.CycleState)
      → run_pre_score_plugins (number_pre_score ∷ []) fw.new_cycle_state pod nodes ≡ goes_on state
      → (status : fw.Status) × (NodeNumber.pre_score fw.new_cycle_state pod nodes
          ≡ some (status, state))
  unfolding run_pre_score_plugins
  pre_scored pod nodes state h =
      elim (Option-cases (NodeNumber.pre_score fw.new_cycle_state pod nodes)) [
        | inl e ↦ absurd (ground arith)
        | inr ((status, state'), e) ↦ (status, ground arith)
      ]

  -- Score of NodeNumber, after PreScore.
  score-scored :
      (pod : Pod) (nodes : List Node) (state : fw.CycleState) (status : fw.Status) (name : Text)
      → NodeNumber.pre_score fw.new_cycle_state pod nodes ≡ some (status, state)
      → NodeNumber.score state pod name ≡ scored pod nodes name
  score-scored pod nodes state status name e = rw (e, scored) refl

  pub name-nonempty :
      (pod : Pod) (nodes : List Node) (state : fw.CycleState) (status : fw.Status)
      → NodeNumber.pre_score fw.new_cycle_state pod nodes ≡ some (status, state)
      → pod.name ≢ []
  unfolding NodeNumber.pre_score
  name-nonempty pod nodes state status e empty = ground arith

  -- With a pod whose name ends in a digit, every node with a name gets its score.
  pub number-Gives :
      (pod : Pod) (nodes : List Node) (state : fw.CycleState) (status : fw.Status) (p : Text)
      (c : ℕ) (n : Node)
      → NodeNumber.pre_score fw.new_cycle_state pod nodes ≡ some (status, state)
      → pod.name ≡ p ++ c ∷ []
      → is_digit c ≡ true
      → n.name ≢ []
      → Gives state pod (by_number c) n number_score
  number-Gives pod nodes state status p c n e name digit named =
      let (front, d, split, at) = last-cases n.name named in
      let ends : (if nat_beq c d then pos 10 else pos 0) ≡ by_number c number_score n.name =
        ap
          (λ (o : Option ℕ).
            if elim o [ none ↦ false | some d ↦ nat_beq c d ] then pos 10 else pos 0)
          (sym at) in
      (
        refl,
        fw.nil_status,
        score-scored pod nodes state status n.name e
            ∙ ap (scored pod nodes) split
            ∙ scored-digit pod nodes p front c d name digit
            ∙ ap (λ s. some (s, fw.nil_status)) ends,
        is_success-nil,
      )

  -- With any other pod, the scores of no node are returned.
  pub other-fails :
      (pod : Pod) (nodes : List Node) (state : fw.CycleState) (status : fw.Status) (p : Text)
      (c : ℕ) (n : Node) (ns : List Node)
      → NodeNumber.pre_score fw.new_cycle_state pod nodes ≡ some (status, state)
      → pod.name ≡ p ++ c ∷ []
      → is_digit c ≡ false
      → run_score_plugins state pod (number_score ∷ []) (n ∷ ns)
        ≡ returns (fw.as_status fw.not_found)
  other-fails pod nodes state status p c n ns e name other =
      let (zero_score, fails) = scored-non_digit pod nodes p n.name c name other in
      run_score_plugins-fails state pod number_score [] n ns (pos 0) (fw.as_status fw.not_found)
        (score-scored pod nodes state status n.name e ∙ zero_score) fails

  pub total_is :
      (state : fw.CycleState) (pod : Pod) (c : ℕ) (name : Text)
      → total state pod (by_number c) (number_score ∷ []) name (pos 0)
        ≡ by_number c number_score name
  unfolding total wrap64 ◌+ℤ◌
  total_is state pod c name = elim (Bool-cases (ends_with c name)) [
    | inl e ↦ rw e refl
    | inr e ↦ rw e refl
  ]

  -- The scores that are returned for a pod whose name ends in a digit.
  pub scores-by_number :
      (pod : Pod) (nodes : List Node) (state : fw.CycleState) (status : fw.Status) (p : Text)
      (c : ℕ) (scores : List NodeScore)
      → NodeNumber.pre_score fw.new_cycle_state pod nodes ≡ some (status, state)
      → pod.name ≡ p ++ c ∷ []
      → is_digit c ≡ true
      → All (λ (n : Node). n.name ≢ []) nodes
      → run_score_plugins state pod (number_score ∷ []) nodes ≡ goes_on scores
      → summed state pod (by_number c) (number_score ∷ []) nodes ≡ scores
  scores-by_number pod nodes state status p c scores e name digit named h =
      let gives : All (λ n. All (Gives state pod (by_number c) n) (number_score ∷ [])) nodes =
        All-map (λ n m. (number-Gives pod nodes state status p c n e name digit m, tt)) nodes
          named in
      let sums : goes_on (summed state pod (by_number c) (number_score ∷ []) nodes)
          ≡ goes_on scores =
        sym (
          run_score_plugins-sums state pod (by_number c) (number_score ∷ []) nodes (refl, tt) gives)
        ∙ h in
      cc
