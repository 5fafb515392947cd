-- ===== src/Minisched/Select/Ways.antt =====
-- minisched/minisched.go: how many vectors of draws make selectHost select a name.
use mini_kube_scheduler.Common.{
  ℕ, suc, ◌+◌, ◌*◌, ◌≡◌, refl, sym, ◌∙◌, ap, inl, inr, Bool, true, false, ◌&&◌, List, [], ◌∷◌,
  arith, count, nat_beq, if◌then◌else◌, Bool-cases,
}
use mini_kube_scheduler.Common.Int.{ℤ, ltb_ℤ, beq_ℤ}
use mini_kube_scheduler.Common.Keys.{Text}
use mini_kube_scheduler.Framework.{NodeScore}
use mini_kube_scheduler.Minisched.Select.{select_loop}
use mini_kube_scheduler.Minisched.Select.Draws.{
  draw, below, vectors, share, tied_at_last, top, one, choice, count-ext, count-below, if-higher,
  if-tied, if-lower, top-le, select_loop-later, consider-higher, consider-lower, consider-tied,
}

tie_algebra :
    (s k a b c : ℕ)
    → s * ((k + 1) * a + c) + k * (s * ((k + 1) * b + c)) ≡ (k + 1) * s * (k * b + (a + c))
tie_algebra s k a b c = grind arith

tie_algebra_zero : (s k c : ℕ) → s * (0 + c) + k * (s * (0 + c)) ≡ (k + 1) * s * (0 + c)
tie_algebra_zero s k c = grind arith

distribute : (l w k w' : ℕ) → l * (w + k * w') ≡ l * w + k * (l * w')
distribute l w k w' = grind arith

tied_sum :
    (l s k w w' a b c : ℕ) (is_top : Bool)
    → l * w ≡ s * ((if is_top then (k + 1) * a else 0) + c)
    → l * w' ≡ s * ((if is_top then (k + 1) * b else 0) + c)
    → l * (w + k * w')
      ≡ (k + 1) * s * ((if is_top then k * b else 0) + (if is_top then a + c else c))
tied_sum l s k w w' a b c true e e' = distribute l w k w' ∙ rw (e, e') (tie_algebra s k a b c)
tied_sum l s k w w' a b c false e e' = distribute l w k w' ∙ rw (e, e') (tie_algebra_zero s k c)

product : (f : ℤ → ℕ) (s s' : ℕ) (t t' : ℤ) → s' ≡ s → t' ≡ t → s * f t ≡ s' * f t'
product f s s' t t' e e' = rw (e, e') refl

module _ (q : Text → Bool) where
  -- How many vectors select a name that passes the test.
  abbrev pub ways : List NodeScore → ℤ → Text → ℕ → ℕ
  ways rest m sel k =
      count (λ v. q (select_loop (draw v) rest (choice m sel k)).selected) (vectors rest m k)

  -- How many of the best nodes pass the test.
  abbrev pub best : List NodeScore → ℤ → ℕ
  best rest t = count (λ ns. q ns.name && beq_ℤ ns.score t) rest

  module _ (ns : NodeScore) (rest : List NodeScore) (m : ℤ) (sel : Text) (k : ℕ) where
    ways-higher : ltb_ℤ m ns.score ≡ true → ways (ns ∷ rest) m sel k ≡ ways rest ns.score ns.name 1
    unfolding select_loop
    ways-higher lt = rw ((if-higher ns rest m k lt).0) (
        count-ext _ (λ v. q (select_loop (draw v) rest (choice ns.score ns.name 1)).selected)
          (vectors rest ns.score 1)
          (λ v.
            ap (λ c. q (select_loop (draw v) rest c).selected)
              (consider-higher (draw v) ns m sel k lt)))

    ways-lower :
        ltb_ℤ m ns.score ≡ false
        → beq_ℤ ns.score m ≡ false
        → ways (ns ∷ rest) m sel k ≡ ways rest m sel k
    unfolding select_loop
    ways-lower ge ne = rw ((if-lower ns rest m k ge ne).0) (
        count-ext _ (λ v. q (select_loop (draw v) rest (choice m sel k)).selected)
          (vectors rest m k)
          (λ v.
            ap (λ c. q (select_loop (draw v) rest c).selected)
              (consider-lower (draw v) ns m sel k ge ne)))

    drawn :
        (d : ℕ) (v : List ℕ)
        → ltb_ℤ m ns.score ≡ false
        → beq_ℤ ns.score m ≡ true
        → (select_loop (draw (d ∷ v)) (ns ∷ rest) (choice m sel k)).selected
          ≡ (select_loop
              (draw v)
              rest
              (choice m (if nat_beq d 0 then ns.name else sel) (k + 1))).selected
    unfolding select_loop
    drawn d v ge eq =
        ap (λ c. (select_loop (draw (d ∷ v)) rest c).selected)
          (consider-tied (draw (d ∷ v)) ns m sel k ge eq)
        ∙ select_loop-later (draw (d ∷ v)) rest
            (choice m (if nat_beq d 0 then ns.name else sel) (k + 1))

    not_drawn : (d : ℕ) → (if nat_beq (suc d) 0 then ns.name else sel) ≡ sel
    not_drawn d = ground arith

    ways-tied :
        ltb_ℤ m ns.score ≡ false
        → beq_ℤ ns.score m ≡ true
        → ways (ns ∷ rest) m sel k ≡ ways rest m ns.name (k + 1) + k * ways rest m sel (k + 1)
    ways-tied ge eq =
        let keeps = λ (d : ℕ) (v : List ℕ).
          ap (λ t. (select_loop (draw v) rest (choice m t (k + 1))).selected) (not_drawn d) in
        let vs = vectors rest m (k + 1) in
        let p = λ (v : List ℕ). q (select_loop (draw v) (ns ∷ rest) (choice m sel k)).selected in
        let kept = λ (v : List ℕ). q (select_loop (draw v) rest (choice m sel (k + 1))).selected in
        let taken =
          λ (v : List ℕ). q (select_loop (draw v) rest (choice m ns.name (k + 1))).selected in
        let one_more : k + 1 ≡ suc k = omega arith in
        rw ((if-tied ns rest m k ge eq).0) (
          ap (λ n. count p (below n vs)) one_more
          ∙ count-below p kept k vs (λ d v. ap q (drawn (suc d) v ge eq ∙ keeps d v))
          ∙ ap (λ n. n + k * count kept vs)
              (count-ext (λ v. p (0 ∷ v)) taken vs (λ v. ap q (drawn 0 v ge eq))))

  -- The best nodes that pass the test, the selected one counted for all before it.
  abbrev pub winners : List NodeScore → ℤ → Text → ℕ → ℤ → ℕ
  winners rest m sel k t = (if beq_ℤ m t then k * one q sel else 0) + best rest t

  -- A node that ties is best if the score that it ties with is.
  pub best-tied :
      (ns : NodeScore) (rest : List NodeScore) (m t : ℤ)
      → beq_ℤ ns.score m ≡ true
      → best (ns ∷ rest) t ≡ (if beq_ℤ m t then one q ns.name + best rest t else best rest t)
  best-tied ns rest m t eq = ground arith

  pub ways_lem :
      (rest : List NodeScore) (m : ℤ) (sel : Text) (k : ℕ)
      → tied_at_last rest m k * ways rest m sel k
        ≡ share rest m k * winners rest m sel k (top rest m)
  unfolding select_loop vectors share top tied_at_last
  ways_lem [] m sel k = elim (Bool-cases (q sel)) [
    | inl e ↦ rw e (ground arith)
    | inr e ↦ rw e (ground arith)
  ]
  ways_lem (ns ∷ rest) m sel k =
      let won = winners (ns ∷ rest) m sel k in
      elim (Bool-cases (ltb_ℤ m ns.score)) [
        | inl lt ↦
            let (v, l, s, t) = if-higher ns rest m k lt in
            let above = top-le rest ns.score in
            let same : winners rest ns.score ns.name 1 (top rest ns.score)
                ≡ won (top rest ns.score) =
              ground arith in
            rw (l, ways-higher ns rest m sel k lt)
              (ways_lem rest ns.score ns.name 1
                ∙ ap (λ w. share rest ns.score 1 * w) same
                ∙ product won _ _ _ _ s t)
        | inr ge ↦ elim (Bool-cases (beq_ℤ ns.score m)) [
          | inl eq ↦
              let (v, l, s, t) = if-tied ns rest m k ge eq in
              let s' = share rest m (k + 1) in
              let best_is = best-tied ns rest m (top rest m) eq in
              rw (l, ways-tied ns rest m sel k ge eq)
                (tied_sum (tied_at_last rest m (k + 1)) s' k _ _ (one q ns.name) (one q sel)
                    (best rest (top rest m)) (beq_ℤ m (top rest m))
                    (ways_lem rest m ns.name (k + 1)) (ways_lem rest m sel (k + 1))
                  ∙ ap
                      (λ b.
                        (k + 1) * s' * ((if beq_ℤ m (top rest m) then k * one q sel else 0) + b))
                      (sym best_is)
                  ∙ product won _ _ _ _ s t)
          | inr ne ↦
              let (v, l, s, t) = if-lower ns rest m k ge ne in
              let above = top-le rest m in
              let same : winners rest m sel k (top rest m) ≡ won (top rest m) = ground arith in
              rw (l, ways-lower ns rest m sel k ge ne)
                (ways_lem rest m sel k
                  ∙ ap (λ w. share rest m k * w) same
                  ∙ product won _ _ _ _ s t)
        ]
      ]
