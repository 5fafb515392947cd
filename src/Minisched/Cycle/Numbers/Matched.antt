-- ===== src/Minisched/Cycle/Numbers/Matched.antt =====
-- minisched/minisched.go with nodenumber.go: what the score of NodeNumber makes of a cycle.
use mini_kube_scheduler.Common.{
  ℕ, ◌≡◌, ◌≢◌, sym, ◌∙◌, ap, subst, ◌⊎◌, inl, inr, true, false, List, [], ◌∷◌, ◌++◌, arith, any,
  any→In, keep, In, In-keep, In-map, map-In, All, All-keep, All-In, some, Bool-cases,
}
use mini_kube_scheduler.Common.Int.{pos, ◌≤ℤ◌}
use mini_kube_scheduler.Common.Keys.{Text, text_eq}
use mini_kube_scheduler.Framework.{Framework, Pod, Node, NodeScore}
use mini_kube_scheduler.Strconv.{is_digit}
use mini_kube_scheduler.NodeNumber
use mini_kube_scheduler.Minisched.Types.{Scheduler}
use mini_kube_scheduler.Minisched.Filters.Feasible.{passes}
use mini_kube_scheduler.Minisched.Scores.{goes_on, run_pre_score_plugins, run_score_plugins}
use mini_kube_scheduler.Minisched.Scores.Sums.{total, summed}
use mini_kube_scheduler.Minisched.Cycle.{listed, Answers, Binding, binds, schedule_one}
use mini_kube_scheduler.Minisched.Cycle.Justified.{schedule_one-IsJustified}
use mini_kube_scheduler.Minisched.Cycle.Numbers.{
  last, last-cases, ends_with, number_pre_score, number_score, by_number, pre_scored, name-nonempty,
  other-fails, total_is, scores-by_number,
}

module _ ⦃fw : Framework⦄ where
  -- A node whose score is at least that of a node that matches matches, too.
  best-matches :
      (c : ℕ) (name other : Text)
      → ends_with c other ≡ true
      → by_number c number_score other ≤ℤ by_number c number_score name
      → ends_with c name ≡ true
  best-matches c name other h le = elim (Bool-cases (ends_with c name)) [
    | inl e ↦ e
    | inr e ↦ absurd (bad (rw (h, e) at le))
  ]
    where
      bad : pos 10 ≤ℤ pos 0 → ⊥
      bad h = omega arith

  module _ (pod : Pod) (fits : List Node) (state : fw.CycleState) (scores : List NodeScore)
      (best : NodeScore) (named : All (λ (n : Node). n.name ≢ []) fits) where
    -- A best node ends in the digit that the pod's name ends in, if a node does.
    best-ends :
        (c : ℕ)
        → summed state pod (by_number c) (number_score ∷ []) fits ≡ scores
        → In best scores
        → All (λ ns. ns.score ≤ℤ best.score) scores
        → any (λ m. ends_with c m.name) fits ≡ true
        → ends_with c best.name ≡ true
    best-ends c same member top some_match =
        let (m, m_fits, m_ends) = any→In (λ m. ends_with c m.name) fits some_match in
        let entry : Node → NodeScore = λ n. record {
          name = n.name;
          score = total state pod (by_number c) (number_score ∷ []) n.name (pos 0);
        } in
        let m_score = subst (In (entry m)) same (In-map entry fits m m_fits) in
        let m_below = All-In (λ ns. ns.score ≤ℤ best.score) scores (entry m) top m_score in
        let (n, n_fits, n_best) = map-In entry fits best (subst (In best) (sym same) member) in
        let below : by_number c number_score m.name ≤ℤ by_number c number_score n.name =
          rw
            (
              ← total_is state pod c m.name,
              ← total_is state pod c n.name,
              ap (λ ns. ns.score) n_best,
            )
            m_below in
        subst (λ name. ends_with c name ≡ true) (ap (λ ns. ns.name) n_best)
          (best-matches c n.name m.name m_ends below)

    -- Scores exist only for a pod whose name ends in a digit.
    ends-digit :
        (status : fw.Status) (p : Text) (c : ℕ) (n : Node)
        → NodeNumber.pre_score fw.new_cycle_state pod fits ≡ some (status, state)
        → pod.name ≡ p ++ c ∷ []
        → In n fits
        → run_score_plugins state pod (number_score ∷ []) fits ≡ goes_on scores
        → is_digit c ≡ true
    ends-digit status p c n e split member h = elim (Bool-cases (is_digit c)) [
      | inl digit ↦ digit
      | inr other ↦ absurd (bad fits e member h other)
    ]
      where
        bad :
            (ns : List Node)
            → NodeNumber.pre_score fw.new_cycle_state pod ns ≡ some (status, state)
            → In n ns
            → run_score_plugins state pod (number_score ∷ []) ns ≡ goes_on scores
            → is_digit c ≡ false
            → ⊥
        bad [] e m h other = m
        bad (n' ∷ ns) e m h other =
            let fails = other-fails pod (n' ∷ ns) state status p c n' ns e split other in
            ground arith

  -- What a node to which NodeNumber sends a pod has to do with the pod's name.
  abbrev pub IsMatched : Pod → Text → List Node → Type 0
  IsMatched pod node_name fits =
      (c : ℕ) × (last pod.name ≡ some c)
      × (is_digit c ≡ true)
      × ((any (λ m. ends_with c m.name) fits ≡ false) ⊎ (ends_with c node_name ≡ true))

  best-IsMatched :
      (pod : Pod) (fits : List Node) (state : fw.CycleState) (scores : List NodeScore)
      (best : NodeScore) (n : Node)
      → All (λ (n : Node). n.name ≢ []) fits
      → In n fits
      → run_pre_score_plugins (number_pre_score ∷ []) fw.new_cycle_state pod fits ≡ goes_on state
      → run_score_plugins state pod (number_score ∷ []) fits ≡ goes_on scores
      → In best scores
      → All (λ ns. ns.score ≤ℤ best.score) scores
      → IsMatched pod best.name fits
  best-IsMatched pod fits state scores best n named n_fits prepared scored_all member top =
      let (status, e) = pre_scored pod fits state prepared in
      let (p, c, split, at) = last-cases pod.name (name-nonempty pod fits state status e) in
      let digit =
        ends-digit pod fits state scores best named status p c n e split n_fits scored_all in
      let same = scores-by_number pod fits state status p c scores e split digit named scored_all in
      (
        c,
        at,
        digit,
        elim (Bool-cases (any (λ m. ends_with c m.name) fits)) [
          | inl some_match ↦
              inr (best-ends pod fits state scores best named c same member top some_match)
          | inr no_match ↦ inl no_match
        ],
      )

  -- With NodeNumber as the only plugin that scores and with nodes that all have a name, scheduleOne
  -- binds a pod only if its name ends in a digit; and if a node that passes the filter plugins ends
  -- in that digit, then the node chosen does.
  pub schedule_one-number :
      (a : Answers) (sched sched' : Scheduler) (b : Binding) (allows : List (Text × ℕ))
      (nodes : List Node)
      → a.nodes ≡ listed nodes
      → All (λ (n : Node). n.name ≢ []) nodes
      → sched.pre_score_plugins ≡ number_pre_score ∷ []
      → sched.score_plugins ≡ number_score ∷ []
      → schedule_one a sched ≡ binds b allows sched'
      → IsMatched b.pod b.node_name
          (keep (passes fw.new_cycle_state b.pod sched.filter_plugins) nodes)
  schedule_one-number a sched sched' b allows nodes answered named pre score h =
      let j = (schedule_one-IsJustified a sched sched' b allows h).0 in
      let same : j.nodes ≡ nodes = listed-same j.nodes nodes (sym j.answered ∙ answered) in
      let fit_test = passes fw.new_cycle_state b.pod sched.filter_plugins in
      let prepared = rw (pre, same) at j.prepared in
      let scored_all = rw (score, same) at j.scored in
      let member = In-keep fit_test nodes j.node (subst (In j.node) same j.member) j.fit in
      subst (λ name. IsMatched b.pod name (keep fit_test nodes)) j.best_named
        (best-IsMatched b.pod (keep fit_test nodes) j.state j.scores j.best j.node
          (All-keep (λ (n : Node). n.name ≢ []) fit_test nodes named) member prepared scored_all
          j.best_member j.highest)
    where
      listed-same : (xs ys : List Node) → listed xs ≡ listed ys → xs ≡ ys
      listed-same xs ys e = cc
