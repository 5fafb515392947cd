-- ===== src/Scenario/Played.antt =====
-- sched.go: which requests the scenario sends, and when it fails.
use mathlib.Core.List.{append_assoc}
use mini_kube_scheduler.Common.{
  ℕ, zero, suc, ◌+◌, ◌*◌, ◌≡◌, ◌≢◌, refl, sym, ◌∙◌, ◌⊎◌, inl, inr, List, [], ◌∷◌, ◌++◌, arith, All,
  Option, none, some, length, length_zero, nat_beq, Bool-cases, map,
}
use mini_kube_scheduler.Common.Keys.{Text, str}
use mini_kube_scheduler.Framework.{Pod}
use mini_kube_scheduler.Scenario.{
  Request, creates_node, creates_pod, gets_pod, sleeps, ScenarioAnswers, Sent, ◌>>◌, sends, second,
  node_of, node10, unbound_yet, got, create_nodes, scenario,
}

-- All requests of a plan are sent and no error is returned, exactly if all is well; or the requests
-- are a first part of the plan, and there is an error.
abbrev pub Plays : Sent → List Request → (well : Type 0) → Type 0
Plays sent plan well =
    (well × (sent.0 ≡ none) × (sent.1 ≡ plan))
    ⊎ (¬ well) × (sent.0 ≢ none) × (rest : List Request) × (sent.1 ++ rest ≡ plan)

then-Plays :
    (s k : Sent) (p q : List Request) (g h : Type 0)
    → Plays s p g
    → Plays k q h
    → Plays (s >> k) (p ++ q) (g × h)
then-Plays (none, rs) k p q g h (inl (ok, e, same)) (inl (ok', e', same')) =
    inl ((ok, ok'), e', ground arith)
then-Plays (none, rs) k p q g h (inl (ok, e, same)) (inr (bad, err, rest, same')) =
    inr ((λ x. bad x.1), err, rest, append_assoc rs k.1 rest ∙ ground arith)
then-Plays (none, rs) k p q g h (inr (bad, err, rest, same)) played = absurd (err refl)
then-Plays (some text, rs) k p q g h (inl (ok, e, same)) played = absurd (cc)
then-Plays (some text, rs) k p q g h (inr (bad, err, rest, same)) played =
    inr ((λ x. bad x.0), err, rest ++ q, sym (append_assoc rs rest q) ∙ ground arith)

same-Plays :
    (s : Sent) (p : List Request) (g h : Type 0) → (g → h) → (h → g) → Plays s p g → Plays s p h
same-Plays s p g h to from (inl (ok, e, same)) = inl (to ok, e, same)
same-Plays s p g h to from (inr (bad, err, rest, part)) = inr ((λ x. bad (from x)), err, rest, part)

sends-Plays :
    (r : Request) (wrap : Text) (answer : Option Text)
    → Plays (sends r wrap answer) (r ∷ []) (answer ≡ none)
sends-Plays r wrap none = inl (refl, refl, refl)
sends-Plays r wrap (some text) = inr ((λ e. cc), (λ e. cc), [], refl)

sleeps-Plays : (t : ℕ) → Plays (none, sleeps t ∷ []) (sleeps t ∷ []) (Unit {0})
sleeps-Plays t = inl (tt, refl, refl)

-- The numbers from i on.
abbrev pub numbers : (rounds i : ℕ) → List ℕ
numbers zero i = []
numbers (suc rounds) i = i ∷ numbers rounds (i + 1)

abbrev pub made_nodes : (rounds i : ℕ) → List Request
made_nodes rounds i = map (λ j. creates_node (node_of j)) (numbers rounds i)

-- The pod is read, and it is not bound yet.
abbrev pub IsUnbound : Text ⊎ Pod → Type 0
IsUnbound answer = (pod : Pod) × (answer ≡ inr pod) × (pod.node_name ≡ [])

abbrev pub IsGot : Text ⊎ Pod → Type 0
IsGot answer = (pod : Pod) × (answer ≡ inr pod)

IsUnbound-Plays :
    (r : Request) (answer : Text ⊎ Pod)
    → Plays (unbound_yet answer, r ∷ []) (r ∷ []) (IsUnbound answer)
unfolding unbound_yet
IsUnbound-Plays r (inl text) = inr ((λ (pod, e, n). cc), (λ e. cc), [], refl)
IsUnbound-Plays r (inr pod) = elim (Bool-cases (nat_beq (length pod.node_name) 0)) [
  | inl e ↦ inl ((pod, refl, length_zero pod.node_name e), ground arith, refl)
  | inr e ↦ inr ((λ (p, same, n). ground arith), ground arith, [], refl)
]

got-Plays : (r : Request) (answer : Text ⊎ Pod) → Plays (got answer, r ∷ []) (r ∷ []) (IsGot answer)
unfolding got
got-Plays r (inl text) = inr ((λ (pod, e). cc), (λ e. cc), [], refl)
got-Plays r (inr pod) = inl ((pod, refl), refl, refl)

module _ (a : ScenarioAnswers) where
  nodes-Plays :
      (rounds i : ℕ)
      → Plays
          (create_nodes a rounds i)
          (made_nodes rounds i)
          (All (λ j. a.node j ≡ none) (numbers rounds i))
  unfolding create_nodes
  nodes-Plays zero i = inl (tt, refl, refl)
  nodes-Plays (suc rounds) i =
      then-Plays _ (create_nodes a rounds (i + 1)) (creates_node (node_of i) ∷ [])
        (made_nodes rounds (i + 1)) (a.node i ≡ none) _
        (sends-Plays (creates_node (node_of i)) (str "create node: ") (a.node i))
        (nodes-Plays rounds (i + 1))

  -- All that must go well.
  abbrev pub IsWell : Type 0
  IsWell =
      All (λ i. a.node i ≡ none) (numbers 9 0)
      × (a.pod ≡ none)
      × IsUnbound a.pod_before
      × (a.last_node ≡ none)
      × IsGot a.pod_after

  -- Nine nodes that are unschedulable, and the pod; after three seconds it is read, and a node is
  -- created that is not unschedulable; after five more the pod is read again.
  abbrev pub plan : List Request
  plan =
      made_nodes 9 0
      ++ creates_pod (str "default") (str "pod1")
        ∷ sleeps (3 * second)
        ∷ gets_pod (str "default") (str "pod1")
        ∷ creates_node node10
        ∷ sleeps (5 * second)
        ∷ gets_pod (str "default") (str "pod1")
        ∷ []

  scenario-Plays : Plays (scenario a) plan (
      (((((All (λ i. a.node i ≡ none) (numbers 9 0) × (a.pod ≡ none)) × Unit {0})
            × IsUnbound a.pod_before)
          × (a.last_node ≡ none))
        × Unit {0})
      × IsGot a.pod_after)
  unfolding scenario
  scenario-Plays =
      let get = gets_pod (str "default") (str "pod1") in
      then-Plays _ _ _ _ _ _
        (then-Plays _ _ _ _ _ _
          (then-Plays _ _ _ _ _ _
            (then-Plays _ _ _ _ _ _
              (then-Plays _ _ _ _ _ _
                (then-Plays _ _ _ _ _ _ (nodes-Plays 9 0) (
                  sends-Plays (creates_pod (str "default") (str "pod1")) (str "create pod: ")
                    a.pod))
                (sleeps-Plays (3 * second)))
              (IsUnbound-Plays get a.pod_before))
            (sends-Plays (creates_node node10) (str "create node: ") a.last_node))
          (sleeps-Plays (5 * second)))
        (got-Plays get a.pod_after)

  -- The scenario sends exactly its plan and returns no error if every request succeeds and the pod is
  -- not bound when it is read first. If not, it returns an error, and what it has sent is a first
  -- part of the plan.
  pub scenario_lem : Plays (scenario a) plan IsWell
  scenario_lem =
      same-Plays _ _ _ _ (λ ((((((ns, p), t), u), l), t'), g). (ns, p, u, l, g))
        (λ (ns, p, u, l, g). ((((((ns, p), tt), u), l), tt), g)) scenario-Plays
