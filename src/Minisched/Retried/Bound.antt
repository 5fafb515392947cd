-- ===== src/Minisched/Retried/Bound.antt =====
-- minisched/minisched.go, nodenumber.go: the second cycle of a pod, with one node that takes it.
use mini_kube_scheduler.Common.{
  ℕ, ◌+◌, ◌≤◌, ◌≡◌, ◌≢◌, refl, ◌∙◌, ap, inl, inr, true, false, not, ◌&&◌, List, [], ◌∷◌, ◌++◌,
  arith, any, keep, All, some,
}
use Prim.Native.Nat.{bit_and}
use mini_kube_scheduler.Common.Keys.{Text, text_eq}
use mini_kube_scheduler.Common.Maps.{lookup, HasNoDup}
use mini_kube_scheduler.Framework.{Framework, Pod, Node, is_success-nil, is_wait_code}
use mini_kube_scheduler.Strconv.{is_digit}
use mini_kube_scheduler.NodeNumber
use mini_kube_scheduler.NodeNumber.Scores.{pre_score-digit, permit_lem}
use mini_kube_scheduler.Queue.Types.{QueuedPodInfo}
use mini_kube_scheduler.Queue.Ops.{next_pod}
use mini_kube_scheduler.Minisched.Types.{Scheduler, PermitPlugin}
use mini_kube_scheduler.Minisched.Initialize.{UnschedulablePlugin}
use mini_kube_scheduler.Minisched.Initialize.Registry.{scheduler_of}
use mini_kube_scheduler.Minisched.Filters.{feasible, run_filter_plugins}
use mini_kube_scheduler.Minisched.Filters.Feasible.{passes, run_filter_plugins_lem}
use mini_kube_scheduler.Minisched.Scores.{goes_on, run_pre_score_plugins}
use mini_kube_scheduler.Minisched.Scores.Sums.{Gives, summed, run_score_plugins-sums}
use mini_kube_scheduler.Minisched.Select.{select_host}
use mini_kube_scheduler.Minisched.Select.Highest.{select_host-highest}
use mini_kube_scheduler.Minisched.Permits.Single.{run_permit_plugins-one}
use mini_kube_scheduler.Minisched.Permits.{PermitRun, run_permit_plugins}
use mini_kube_scheduler.Minisched.Handlers.{on_pod_added, on_node, added, add_all_event_handlers}
use mini_kube_scheduler.Minisched.Cycle.{
  Binding, listed, Answers, spins, binds, puts_back, schedule_one, schedule_pod,
}
use mini_kube_scheduler.Minisched.Cycle.Numbers.{
  last-cases, number_pre_score, number_score, number-Gives, by_number,
}
use mini_kube_scheduler.Minisched.Cycle.Phases.{schedule_pod-binds}
use mini_kube_scheduler.Minisched.Permits.{with_allow}
use mini_kube_scheduler.Minisched.Retried.Allowed.{Finishes, waits-Finishes, binding_cycle-direct}
use mini_kube_scheduler.Minisched.Retried.{
  RejectsUnschedulable, at, info, put_back, is_added, pops, is_rejected, is_requeued,
}

module _ ⦃fw : Framework⦄ where
  abbrev number_permit : PermitPlugin
  number_permit = record { name = NodeNumber.name; permit = NodeNumber.permit }

  -- NodeNumber alone never rejects a pod for a node that has a name.
  number-permits :
      (now : ℕ) (state : fw.CycleState) (pod : Pod) (node_name : Text) (sched : Scheduler)
      → node_name ≢ []
      → (r : PermitRun) × (run_permit_plugins now state pod node_name (number_permit ∷ []) []
          ≡ some r)
        × ((not (is_wait_code (fw.code r.status)) && not (fw.is_success r.status)) ≡ false)
        × Finishes
            (record { pod = pod; node_name = node_name })
            r.allows
            (record sched { waiting_pods = r.waiting_pods })
  number-permits now state pod node_name sched named =
      let (front, d, split, _) = last-cases node_name named in
      let one = run_permit_plugins-one now state pod node_name [] number_permit in
      let b : Binding = record { pod = pod; node_name = node_name } in
      let direct : (r : PermitRun)
          → r.waiting_pods ≡ []
          → Finishes b r.allows (record sched { waiting_pods = r.waiting_pods }) =
        λ r nobody.
          inl (λ t.
            binding_cycle-direct t b (record sched { waiting_pods = r.waiting_pods }) nobody) in
      elim (permit_lem state pod front d) [
        | inl (_, delay, answer, e, waits, later, _, _) ↦
            let (r, ran, agreed, due, joins) =
              one answer (ap (NodeNumber.permit state pod) split ∙ e) (inr waits) in
            (
              r,
              ran,
              agreed,
              elim joins [
                | inl nobody ↦ direct r nobody
                | inr (_, joined) ↦
                    waits-Finishes now answer.timeout delay b r.allows
                      (record sched { waiting_pods = r.waiting_pods })
                      (due ∙ ap (λ after. with_allow NodeNumber.name after []) later) joined
              ],
            )
        | inr (_, e) ↦
            let (r, ran, agreed, due, joins) =
              one _ (ap (NodeNumber.permit state pod) split ∙ e) (inl is_success-nil) in
            (
              r,
              ran,
              agreed,
              elim joins [
                | inl nobody ↦ direct r nobody
                | inr (waits, _) ↦ absurd (ground (arith, fw.code-nil))
              ],
            )
      ]

module _ ⦃fw : Framework⦄ (p : UnschedulablePlugin) (pod : Pod) where
  only_node-passes :
      (nodes : List Node) (n : Node)
      → RejectsUnschedulable p pod
      → All (λ m. m.unschedulable ≡ true) nodes
      → n.unschedulable ≡ false
      → (any (passes fw.new_cycle_state pod (p.filter_plugin ∷ [])) (nodes ++ n ∷ []) ≡ true)
        × (keep (passes fw.new_cycle_state pod (p.filter_plugin ∷ [])) (nodes ++ n ∷ []) ≡ n ∷ [])
  only_node-passes [] n r h s = ground (arith, r n)
  only_node-passes (m ∷ ms) n r h s = ground (arith, r m, only_node-passes ms n r h.1 s)

  -- The second cycle.
  is_bound_to :
      (a : Answers) (nodes : List Node) (n : Node) (front : Text) (c : ℕ)
      → RejectsUnschedulable p pod
      → a.nodes ≡ listed (nodes ++ n ∷ [])
      → All (λ m. m.unschedulable ≡ true) nodes
      → n.unschedulable ≡ false
      → n.name ≢ []
      → pod.name ≡ front ++ c ∷ []
      → is_digit c ≡ true
      → (allows : List (Text × ℕ)) × (sched : Scheduler) × (schedule_pod a pod (at p pod [] [])
          ≡ binds (record { pod = pod; node_name = n.name }) allows sched)
        × Finishes (record { pod = pod; node_name = n.name }) allows sched
  unfolding run_pre_score_plugins
  is_bound_to a nodes n front c r answered h fit named name digit =
      let (some_pass, kept) = only_node-passes nodes n r h fit in
      let filtered : run_filter_plugins fw.new_cycle_state pod (p.filter_plugin ∷ [])
            (nodes ++ n ∷ [])
          ≡ feasible (n ∷ []) =
        elim (run_filter_plugins_lem fw.new_cycle_state pod (p.filter_plugin ∷ []) (nodes ++ n ∷ [])
          []) [
            | inl (_, e) ↦ e ∙ ap feasible kept
            | inr (none_pass, _, _, _) ↦ absurd (ground arith)
          ] in
      let (state, pre) = pre_score-digit fw.new_cycle_state pod (n ∷ []) front c name digit in
      let prepared : run_pre_score_plugins (number_pre_score ∷ []) fw.new_cycle_state pod (n ∷ [])
          ≡ goes_on state =
        let nil : fw.is_success fw.nil_status ≡ true = is_success-nil in ground arith in
      let gives : All (λ m. All (Gives state pod (by_number c) m) (number_score ∷ [])) (n ∷ []) =
        ((number-Gives pod (n ∷ []) state fw.nil_status front c n pre name digit named, tt), tt) in
      let scored =
        run_score_plugins-sums state pod (by_number c) (number_score ∷ []) (n ∷ []) (refl, tt)
          gives in
      let entries = summed state pod (by_number c) (number_score ∷ []) (n ∷ []) in
      let selected : select_host a.intn entries ≡ some n.name =
        elim (select_host-highest a.intn entries) [
          | inl (empty, _) ↦ absurd (cc)
          | inr (ns, inl same, e, _) ↦ e ∙ ap (λ m. some m.name) same
          | inr (ns, inr member, _, _) ↦ absurd member
        ] in
      let (run, permitted, agreed, finishes) =
        number-permits a.now state pod n.name (at p pod [] []) named in
      (
        run.allows,
        record (at p pod [] []) { waiting_pods = run.waiting_pods },
        schedule_pod-binds a pod (at p pod [] []) (nodes ++ n ∷ []) answered (n ∷ []) state entries
            n.name run filtered prepared scored selected permitted agreed,
        finishes,
      )

  -- The scheduler that New makes is told of a pod whose name ends in a digit, while all of the nodes,
  -- one or more, are unschedulable; later, at least one second after the pod was put back, a node
  -- with a name is added that is not unschedulable. Then the first call of scheduleOne puts the pod
  -- back, a call before the node is added would spin, and the call after it starts a goroutine that
  -- binds the pod to that node, if the API server takes the binding: at once, or once the Allow of
  -- NodeNumber has run that the call has started. nodeunschedulable rejects exactly the unschedulable
  -- nodes; gvkMap has one entry for each resource and Add, which has some bit, among the action types
  -- of Node.
  pub retried-bound :
      (a a' : Answers) (added_at : ℕ) (nodes : List Node) (n : Node) (front : Text) (c : ℕ)
      (now : ℕ → QueuedPodInfo → ℕ) (m : List (Text × ℕ)) (action_types : ℕ)
      → RejectsUnschedulable p pod
      → pod.node_name ≡ []
      → pod.name ≡ front ++ c ∷ []
      → is_digit c ≡ true
      → a.nodes ≡ listed nodes
      → nodes ≢ []
      → All (λ m. m.unschedulable ≡ true) nodes
      → a'.nodes ≡ listed (nodes ++ n ∷ [])
      → n.unschedulable ≡ false
      → n.name ≢ []
      → HasNoDup m
      → lookup fw.node_gvk m ≡ some action_types
      → bit_and action_types fw.add_action ≢ 0
      → bit_and fw.add_action fw.add_action ≢ 0
      → ((info : QueuedPodInfo) → a.now + 1_000_000_000 ≤ now 0 info)
      → (rejected : Scheduler) × (schedule_one a (on_pod_added added_at pod (scheduler_of p))
          ≡ puts_back [] rejected)
        × (schedule_one a' rejected ≡ spins)
        × (allows : List (Text × ℕ)) × (bound : Scheduler) × (schedule_one a'
              (on_node now (add_all_event_handlers m) added rejected)
            ≡ binds (record { pod = pod; node_name = n.name }) allows bound)
        × Finishes (record { pod = pod; node_name = n.name }) allows bound
  unfolding schedule_one next_pod
  retried-bound a a' added_at nodes n front c now m action_types r unassigned name digit answered ne
        h answered' fit named d found nz add_nz late =
      let (plugins, first, has) = is_rejected p pod a nodes added_at r answered ne h in
      let requeued =
        is_requeued p pod now m action_types a.now plugins has d found nz add_nz
          (late (info p pod a.now plugins)) in
      let (allows, sched, second, finishes) =
        is_bound_to a' nodes n front c r answered' h fit named name digit in
      (
        put_back p pod a.now plugins,
        ap (schedule_one a) (is_added p pod added_at unassigned) ∙ first,
        refl,
        allows,
        sched,
        ap (schedule_one a') requeued ∙ pops p pod a' (info p pod a.now plugins) refl ∙ second,
        finishes,
      )
