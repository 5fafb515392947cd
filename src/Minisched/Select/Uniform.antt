-- ===== src/Minisched/Select/Uniform.antt =====
-- minisched/minisched.go: with fair draws, selectHost picks each of the best nodes equally often.
use mini_kube_scheduler.Common.{
  ℕ, zero, suc, ◌+◌, ◌*◌, ◌≡◌, refl, sym, ◌∙◌, ap, subst, ◌<◌, inl, inr, Bool, true, false, ◌&&◌,
  List, [], ◌∷◌, map, arith, count, length, length-append, none, some, if◌then◌else◌, Bool-cases,
}
use mini_kube_scheduler.Common.Int.{ℤ, ltb_ℤ, beq_ℤ}
use mini_kube_scheduler.Common.Keys.{Text}
use mini_kube_scheduler.Framework.{NodeScore}
use mini_kube_scheduler.Minisched.Select.{select_host}
use mini_kube_scheduler.Minisched.Select.Draws.{
  draw, below, vectors, share, tied_at_last, top, length-map, if-higher, if-tied, if-lower, top-le,
}
use mini_kube_scheduler.Minisched.Select.Ways.{best, winners, best-tied, ways_lem}

-- As many nodes are best at the end as there are best ones.
tied_at_last-best :
    (rest : List NodeScore) (m : ℤ) (k : ℕ)
    → tied_at_last rest m k
      ≡ (if beq_ℤ m (top rest m) then k else 0) + best (λ t. true) rest (top rest m)
unfolding top tied_at_last
tied_at_last-best [] m k = ground arith
tied_at_last-best (ns ∷ rest) m k =
    let all_best = λ (t : ℤ). (if beq_ℤ m t then k else 0) + best (λ t. true) (ns ∷ rest) t in
    elim (Bool-cases (ltb_ℤ m ns.score)) [
      | inl lt ↦
          let (v, l, s, t) = if-higher ns rest m k lt in
          let above = top-le rest ns.score in
          let same : (if beq_ℤ ns.score (top rest ns.score) then 1 else 0)
                + best (λ t. true) rest (top rest ns.score)
              ≡ all_best (top rest ns.score) =
            ground arith in
          l ∙ tied_at_last-best rest ns.score 1 ∙ same ∙ ap all_best (sym t)
      | inr ge ↦ elim (Bool-cases (beq_ℤ ns.score m)) [
        | inl eq ↦
            let (v, l, s, t) = if-tied ns rest m k ge eq in
            let best_is = best-tied (λ t. true) ns rest m (top rest m) eq in
            let same : (if beq_ℤ m (top rest m) then k + 1 else 0)
                  + best (λ t. true) rest (top rest m)
                ≡ all_best (top rest m) =
              ground arith in
            l ∙ tied_at_last-best rest m (k + 1) ∙ same ∙ ap all_best (sym t)
        | inr ne ↦
            let (v, l, s, t) = if-lower ns rest m k ge ne in
            let above = top-le rest m in
            let same : (if beq_ℤ m (top rest m) then k else 0) + best (λ t. true) rest (top rest m)
                ≡ all_best (top rest m) =
              ground arith in
            l ∙ tied_at_last-best rest m k ∙ same ∙ ap all_best (sym t)
      ]
    ]

length-below : (n : ℕ) (vs : List (List ℕ)) → length (below n vs) ≡ n * length vs
length-below zero vs = omega arith
length-below (suc n) vs = ground (
  arith,
  length-append (below n vs) (map (λ (v : List ℕ). n ∷ v) vs),
  length-map (λ (v : List ℕ). n ∷ v) vs,
  length-below n vs,
)

length-vectors :
    (rest : List NodeScore) (m : ℤ) (k : ℕ) → length (vectors rest m k) ≡ share rest m k
unfolding vectors share
length-vectors [] m k = refl
length-vectors (ns ∷ rest) m k = elim (Bool-cases (ltb_ℤ m ns.score)) [
  | inl lt ↦ rw lt (length-vectors rest ns.score 1)
  | inr ge ↦ elim (Bool-cases (beq_ℤ ns.score m)) [
    | inl eq ↦
        rw (ge, eq)
          (length-below (k + 1) (vectors rest m (k + 1))
            ∙ ap (λ n. (k + 1) * n) (length-vectors rest m (k + 1)))
    | inr ne ↦ rw (ge, ne) (length-vectors rest m k)
  ]
]

tied_at_last-pos : (rest : List NodeScore) (m : ℤ) (k : ℕ) → 0 < k → 0 < tied_at_last rest m k
unfolding tied_at_last
tied_at_last-pos [] m k h = h
tied_at_last-pos (ns ∷ rest) m k h =
    let higher = tied_at_last-pos rest ns.score 1 (omega arith) in
    let tied = tied_at_last-pos rest m (k + 1) (omega arith) in
    let lower = tied_at_last-pos rest m k h in ground arith

-- selectHost selects a name that passes the test, with a vector of draws.
abbrev pub selects : (Text → Bool) → List NodeScore → List ℕ → Bool
selects q l v = elim (select_host (draw v) l) [ none ↦ false | some name ↦ q name ]

module _ (first : NodeScore) (rest : List NodeScore) where
  -- All vectors of draws that selectHost can make, of which rand.Intn makes each as often.
  abbrev pub all_draws : List (List ℕ)
  all_draws = vectors rest first.score 1

  -- How many of the nodes with the highest score pass the test.
  abbrev pub highest : (Text → Bool) → ℕ
  highest q = count (λ ns. q ns.name && beq_ℤ ns.score (top rest first.score)) (first ∷ rest)

  highest-winners :
      (q : Text → Bool) → winners q rest first.score first.name 1 (top rest first.score) ≡ highest q
  highest-winners q = ground arith

  highest-tied : tied_at_last rest first.score 1 ≡ highest (λ t. true)
  highest-tied = tied_at_last-best rest first.score 1 ∙ ground arith

  -- If each draw of rand.Intn is equally likely, so is each of the nodes with the highest score: for
  -- every set of names, the share of the vectors of draws with which selectHost selects one of them
  -- is the share of these nodes that have one of them. There is such a node.
  pub select_host-uniform :
      (q : Text → Bool)
      → (0 < highest (λ t. true))
        × (highest (λ t. true) * count (selects q (first ∷ rest)) all_draws
            ≡ length all_draws * highest q)
  unfolding select_host
  select_host-uniform q = (
    subst (λ n. 0 < n) highest-tied (tied_at_last-pos rest first.score 1 (omega arith)),
    ap (λ n. n * count (selects q (first ∷ rest)) all_draws) (sym highest-tied)
        ∙ ways_lem q rest first.score first.name 1
        ∙ ap (λ n. n * winners q rest first.score first.name 1 (top rest first.score))
            (sym (length-vectors rest first.score 1))
        ∙ ap (λ n. length all_draws * n) (highest-winners q),
  )
