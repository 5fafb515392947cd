-- ===== src/Minisched/Select/Highest.antt =====
-- minisched/minisched.go: selectHost picks a node of the highest score, and can pick any.
use mathlib.Core.List.{append_assoc, append-nil}
use mini_kube_scheduler.Common.{
  sym, ap, subst, All-append, In-append_left, In-append_right, ℕ, ◌+◌, ◌≡◌, ◌≢◌, refl, ◌⊎◌, inl,
  inr, List, [], ◌∷◌, ◌++◌, none, some, arith, In, All, nat_beq, if◌then◌else◌, Bool-cases,
}
use mini_kube_scheduler.Common.Int.{ℤ, ltb_ℤ, beq_ℤ, ◌≤ℤ◌, eq_of_parts}
use mini_kube_scheduler.Framework.{NodeScore}
use mini_kube_scheduler.Minisched.Select.{
  Choice, first_choice, tie, consider, select_loop, select_host,
}

-- The choice is one of the scores seen, and none of them is higher.
record IsHighest (seen : List NodeScore) (c : Choice) : Type 0 where
  member : (ns : NodeScore) × In ns seen × (ns.name ≡ c.selected) × (ns.score ≡ c.max_score)
  bound : All (λ ns. ns.score ≤ℤ c.max_score) seen

module _ (intn : ℕ → ℕ → ℕ) where
  -- What one node does to the choice, by the draw that a tie makes.
  pub consider_cases :
      (ns : NodeScore) (c : Choice)
      → ((c.max_score ≤ℤ ns.score)
          × (c.max_score ≢ ns.score)
          × (consider intn ns c
              ≡ record c { max_score = ns.score; selected = ns.name; cnt_of_max_score = 1 }))
        ⊎ ((ns.score ≡ c.max_score)
            × (consider intn ns c ≡ record c {
              selected =
                  if nat_beq (intn c.calls (c.cnt_of_max_score + 1)) 0 then ns.name else c.selected;
              cnt_of_max_score = c.cnt_of_max_score + 1;
              calls = c.calls + 1;
            }))
        ⊎ (ns.score ≤ℤ c.max_score) × (ns.score ≢ c.max_score) × (consider intn ns c ≡ c)
  unfolding consider tie
  consider_cases ns c = elim (Bool-cases (ltb_ℤ c.max_score ns.score)) [
    | inl lt ↦ inl (ground arith, (λ e. ground arith), rw lt refl)
    | inr ge ↦ elim (Bool-cases (beq_ℤ ns.score c.max_score)) [
      | inl same ↦ inr (inl (eq_of_parts ns.score c.max_score (ground arith), rw (ge, same) refl))
      | inr other ↦ inr (inr (ground arith, (λ e. ground arith), rw (ge, other) refl))
    ]
  ]

  All-mono :
      (m n : ℤ) (seen : List NodeScore)
      → m ≤ℤ n
      → All (λ ns. ns.score ≤ℤ m) seen
      → All (λ ns. ns.score ≤ℤ n) seen
  All-mono m n [] le h = tt
  All-mono m n (ns ∷ seen) le h = (omega arith, All-mono m n seen le h.1)

  module _ (ns : NodeScore) (seen : List NodeScore) (c : Choice) (h : IsHighest seen c) where
    -- The old choice stays, or the new node takes its place.
    keeps :
        (d : Choice)
        → d.selected ≡ c.selected
        → d.max_score ≡ c.max_score
        → ns.score ≤ℤ c.max_score
        → IsHighest (seen ++ ns ∷ []) d
    keeps d name score le =
        let (old, m, old_name, old_score) = h.member in
        record {
          member = (old, In-append_left old seen (ns ∷ []) m, cc, cc);
          bound =
              rw score (All-append (λ o. o.score ≤ℤ c.max_score) seen (ns ∷ []) h.bound (le, tt));
        }

    takes :
        (d : Choice)
        → d.selected ≡ ns.name
        → d.max_score ≡ ns.score
        → c.max_score ≤ℤ ns.score
        → IsHighest (seen ++ ns ∷ []) d
    takes d name score le = record {
      member = (ns, In-append_right ns seen (ns ∷ []) (inl refl), sym name, sym score);
      bound = rw score (
          All-append (λ o. o.score ≤ℤ ns.score) seen (ns ∷ [])
            (All-mono c.max_score ns.score seen le h.bound) (omega arith, tt));
    }

    consider-IsHighest : IsHighest (seen ++ ns ∷ []) (consider intn ns c)
    consider-IsHighest = elim (consider_cases ns c) [
      | inl (le, ne, e) ↦ rw e (takes _ refl refl le)
      | inr (inl (same, e)) ↦
          elim (Bool-cases (nat_beq (intn c.calls (c.cnt_of_max_score + 1)) 0)) [
            | inl zero_drawn ↦ rw (e, zero_drawn) (takes _ refl (sym same) (rw same (omega arith)))
            | inr other ↦ rw (e, other) (keeps _ refl refl (rw same (omega arith)))
          ]
      | inr (inr (le, ne, e)) ↦ rw e (keeps c refl refl le)
    ]

  select_loop-IsHighest :
      (rest seen : List NodeScore) (c : Choice)
      → IsHighest seen c
      → IsHighest (seen ++ rest) (select_loop intn rest c)
  unfolding select_loop
  select_loop-IsHighest [] seen c h = rw (append-nil seen) h
  select_loop-IsHighest (ns ∷ rest) seen c h = rw (← append_assoc seen (ns ∷ []) rest) (
      select_loop-IsHighest rest (seen ++ ns ∷ []) (consider intn ns c)
        (consider-IsHighest ns seen c h))

  -- Whatever rand.Intn returns, selectHost fails on the empty list only, and otherwise selects the
  -- name of a node of the list such that no node has a higher score.
  pub select_host-highest :
      (l : List NodeScore)
      → ((l ≡ []) × (select_host intn l ≡ none))
        ⊎ (ns : NodeScore) × In ns l
          × (select_host intn l ≡ some ns.name)
          × All (λ o. o.score ≤ℤ ns.score) l
  unfolding select_host
  select_host-highest [] = inl (refl, refl)
  select_host-highest (first ∷ rest) =
      let h =
        select_loop-IsHighest rest (first ∷ []) (first_choice first)
          (record { member = (first, inl refl, refl, refl); bound = (omega arith, tt) }) in
      let (ns, m, name, score) = h.member in
      inr (
        ns,
        m,
        ap some (sym name),
        subst (λ m. All (λ o. o.score ≤ℤ m) (first ∷ rest)) (sym score) h.bound,
      )
