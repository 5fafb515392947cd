-- ===== src/Minisched/Cycle/Justified.antt =====
-- minisched/minisched.go: why scheduleOne starts to bind a pod to a node.
use mini_kube_scheduler.Common.{
  ℕ, ◌≡◌, sym, ◌∙◌, ap, ◌⊎◌, inl, inr, true, List, [], arith, keep, keep-In, In, In-map, map-In,
  All, none, some, Option-cases, subst,
}
use mini_kube_scheduler.Common.Int.{◌≤ℤ◌}
use mini_kube_scheduler.Common.Keys.{Text}
use mini_kube_scheduler.Framework.{Framework, Pod, Node, NodeScore}
use mini_kube_scheduler.Queue.Types.{SchedulingQueue}
use mini_kube_scheduler.Queue.Ops.{next_pod}
use mini_kube_scheduler.Minisched.Types.{Scheduler}
use mini_kube_scheduler.Minisched.Filters.Feasible.{passes, run_filter_plugins_lem}
use mini_kube_scheduler.Minisched.Scores.{goes_on, run_pre_score_plugins, run_score_plugins}
use mini_kube_scheduler.Minisched.Scores.Names.{run_score_plugins-names}
use mini_kube_scheduler.Minisched.Select.{select_host}
use mini_kube_scheduler.Minisched.Select.Highest.{select_host-highest}
use mini_kube_scheduler.Minisched.Cycle.{
  listed, Answers, Binding, binds, permit_phase, select_phase, score_phase, pre_score_phase,
  filter_phase, schedule_pod, schedule_one,
}

module _ ⦃fw : Framework⦄ where
  -- The pod of a binding heads activeQ, the node is one that the API server listed, every filter
  -- plugin accepts it, and no feasible node has a higher score.
  pub record IsJustified (a : Answers) (sched : Scheduler) (b : Binding) : Type 0 where
    pub nodes : List Node
    pub answered : a.nodes ≡ listed nodes
    pub node : Node
    pub member : In node nodes
    pub named : node.name ≡ b.node_name
    pub fit : passes fw.new_cycle_state b.pod sched.filter_plugins node ≡ true
    pub state : fw.CycleState
    pub prepared :
        run_pre_score_plugins sched.pre_score_plugins fw.new_cycle_state b.pod
          (keep (passes fw.new_cycle_state b.pod sched.filter_plugins) nodes)
        ≡ goes_on state
    pub scores : List NodeScore
    pub scored :
        run_score_plugins state b.pod sched.score_plugins
          (keep (passes fw.new_cycle_state b.pod sched.filter_plugins) nodes)
        ≡ goes_on scores
    pub best : NodeScore
    pub best_member : In best scores
    pub best_named : best.name ≡ b.node_name
    pub highest : All (λ ns. ns.score ≤ℤ best.score) scores

  module _ (a : Answers) (pod : Pod) (sched : Scheduler) {b : Binding} {allows : List (Text × ℕ)}
      {sched' : Scheduler} where
    permit-binds :
        (state : fw.CycleState) (node_name : Text)
        → permit_phase a pod sched state node_name ≡ binds b allows sched'
        → b ≡ record { pod = pod; node_name = node_name }
    unfolding permit_phase
    permit-binds state node_name h = ground arith

    select-binds :
        (state : fw.CycleState) (scores : List NodeScore)
        → select_phase a pod sched state scores ≡ binds b allows sched'
        → (select_host a.intn scores ≡ some b.node_name) × (b.pod ≡ pod)
    unfolding select_phase
    select-binds state scores h = elim (Option-cases (select_host a.intn scores)) [
      | inl e ↦ absurd (cc (rw (e, select_phase) at h))
      | inr (node_name, e) ↦
          let same = permit-binds state node_name (rw (e, select_phase) at h) in
          (e ∙ ground arith, ground arith)
    ]

    score-binds :
        (state : fw.CycleState) (nodes : List Node)
        → score_phase a pod sched state nodes ≡ binds b allows sched'
        → (scores : List NodeScore) × (run_score_plugins state pod sched.score_plugins nodes
            ≡ goes_on scores)
          × (select_phase a pod sched state scores ≡ binds b allows sched')
    unfolding score_phase
    score-binds state nodes h = ground arith

    pre_score-binds :
        (state : fw.CycleState) (nodes : List Node)
        → pre_score_phase a pod sched state nodes ≡ binds b allows sched'
        → (state' : fw.CycleState) × (run_pre_score_plugins sched.pre_score_plugins state pod nodes
            ≡ goes_on state')
          × (score_phase a pod sched state' nodes ≡ binds b allows sched')
    unfolding pre_score_phase
    pre_score-binds state nodes h = ground arith

    filter-binds :
        (nodes : List Node)
        → filter_phase a pod sched nodes ≡ binds b allows sched'
        → pre_score_phase a pod sched fw.new_cycle_state
            (keep (passes fw.new_cycle_state pod sched.filter_plugins) nodes)
          ≡ binds b allows sched'
    unfolding filter_phase
    filter-binds nodes h =
        elim (run_filter_plugins_lem fw.new_cycle_state pod sched.filter_plugins nodes []) [
          | inl (some_pass, e) ↦ rw (e, filter_phase) at h
          | inr (none_pass, plugins, e, blame) ↦ absurd (cc (rw (e, filter_phase) at h))
        ]

    schedule-binds :
        schedule_pod a pod sched ≡ binds b allows sched'
        → (nodes : List Node) × (a.nodes ≡ listed nodes)
          × (filter_phase a pod sched nodes ≡ binds b allows sched')
    unfolding schedule_pod
    schedule-binds h = ground arith

    pub pod-IsJustified :
        schedule_pod a pod sched ≡ binds b allows sched' → IsJustified a sched b × (b.pod ≡ pod)
    pod-IsJustified h =
        let (nodes, answered, h1) = schedule-binds h in
        let fits = keep (passes fw.new_cycle_state pod sched.filter_plugins) nodes in
        let (state, prepared, h2) =
          pre_score-binds fw.new_cycle_state fits (filter-binds nodes h1) in
        let (scores, scored, h3) = score-binds state fits h2 in
        let (selected, same) = select-binds state scores h3 in
        justify nodes answered state prepared scores scored selected same
          (select_host-highest a.intn scores)
      where
        justify :
            (nodes : List Node)
            → a.nodes ≡ listed nodes
            → (state : fw.CycleState)
            → run_pre_score_plugins sched.pre_score_plugins fw.new_cycle_state pod
                (keep (passes fw.new_cycle_state pod sched.filter_plugins) nodes)
              ≡ goes_on state
            → (scores : List NodeScore)
            → run_score_plugins state pod sched.score_plugins
                (keep (passes fw.new_cycle_state pod sched.filter_plugins) nodes)
              ≡ goes_on scores
            → select_host a.intn scores ≡ some b.node_name
            → b.pod ≡ pod
            → ((scores ≡ []) × (select_host a.intn scores ≡ none))
              ⊎ (ns : NodeScore) × In ns scores
                × (select_host a.intn scores ≡ some ns.name)
                × All (λ o. o.score ≤ℤ ns.score) scores
            → IsJustified a sched b × (b.pod ≡ pod)
        justify nodes answered state prepared scores scored selected same (inl (e, f)) = absurd (cc)
        justify nodes answered state prepared scores scored selected same (inr (ns, m, f, top)) =
            let q = passes fw.new_cycle_state pod sched.filter_plugins in
            let named : ns.name ≡ b.node_name = cc in
            let (n, i, e) =
              map-In (λ (x : Node). x.name) (keep q nodes) ns.name
                (subst (In ns.name)
                  (run_score_plugins-names state pod sched.score_plugins (keep q nodes) scores
                    scored)
                  (In-map (λ (x : NodeScore). x.name) scores ns m)) in
            let (listed_in, fit) = keep-In q nodes n i in
            (
              record {
                nodes = nodes;
                answered = answered;
                node = n;
                member = listed_in;
                named = e ∙ named;
                fit = rw same fit;
                state = state;
                prepared = rw same prepared;
                scores = scores;
                scored = rw same scored;
                best = ns;
                best_member = m;
                best_named = named;
                highest = top;
              },
              same,
            )

  -- A goroutine that scheduleOne starts binds the head of activeQ to a node that the API server
  -- listed and every filter plugin accepts, and whose score no feasible node exceeds.
  pub schedule_one-IsJustified :
      (a : Answers) (sched sched' : Scheduler) (b : Binding) (allows : List (Text × ℕ))
      → schedule_one a sched ≡ binds b allows sched'
      → IsJustified a sched b
        × (queue : SchedulingQueue) × (next_pod sched.scheduling_queue ≡ some (b.pod, queue))
  unfolding schedule_one
  schedule_one-IsJustified a sched sched' b allows h =
      elim (Option-cases (next_pod sched.scheduling_queue)) [
        | inl e ↦ absurd (cc (rw (e, schedule_one) at h))
        | inr ((pod, queue), e) ↦
            let popped = record sched { scheduling_queue = queue } in
            let (j, same) = pod-IsJustified a pod popped (rw (e, schedule_one) at h) in
            (
              record {
                nodes = j.nodes;
                answered = j.answered;
                node = j.node;
                member = j.member;
                named = j.named;
                fit = j.fit;
                state = j.state;
                prepared = j.prepared;
                scores = j.scores;
                scored = j.scored;
                best = j.best;
                best_member = j.best_member;
                best_named = j.best_named;
                highest = j.highest;
              },
              queue,
              e ∙ ap (λ p. some (p, queue)) (sym same),
            )
      ]
