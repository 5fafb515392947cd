-- ===== src/Minisched/Select/Draws.antt =====
-- minisched/minisched.go: the draws that selectHost can make, and what each does.
use mini_kube_scheduler.Common.{
  ℕ, zero, suc, ◌+◌, ◌*◌, ◌≡◌, refl, ◌∙◌, ap, inl, inr, Bool, true, false, List, [], ◌∷◌, ◌++◌, map,
  arith, count, count-append, length, none, some, nat_beq, if◌then◌else◌, Bool-cases, get_elem?,
}
use mini_kube_scheduler.Common.Int.{ℤ, ltb_ℤ, beq_ℤ, ◌≤ℤ◌}
use mini_kube_scheduler.Common.Keys.{Text}
use mini_kube_scheduler.Framework.{NodeScore}
use mini_kube_scheduler.Minisched.Select.{Choice, tie, consider, select_loop}

-- The draws of a vector, in order.
abbrev pub draw : List ℕ → ℕ → ℕ → ℕ
draw v i n = elim (get_elem? v i) [ none ↦ 0 | some d ↦ d ]

-- Each vector with each number below n in front.
abbrev pub below : ℕ → List (List ℕ) → List (List ℕ)
below zero vs = []
below (suc n) vs = below n vs ++ map (λ v. n ∷ v) vs

-- All vectors of draws that the loop can make, from a highest score and its count.
unfoldable pub vectors : List NodeScore → ℤ → ℕ → List (List ℕ)
vectors [] m k = [] ∷ []
vectors (ns ∷ rest) m k =
    let higher = vectors rest ns.score 1 in
    let tied = below (k + 1) (vectors rest m (k + 1)) in
    let lower = vectors rest m k in
    if ltb_ℤ m ns.score then higher else if beq_ℤ ns.score m then tied else lower

-- How many vectors there are.
unfoldable pub share : List NodeScore → ℤ → ℕ → ℕ
share [] m k = 1
share (ns ∷ rest) m k =
    let higher = share rest ns.score 1 in
    let tied = (k + 1) * share rest m (k + 1) in
    let lower = share rest m k in
    if ltb_ℤ m ns.score then higher else if beq_ℤ ns.score m then tied else lower

-- How many nodes have the highest score at the end.
unfoldable pub tied_at_last : List NodeScore → ℤ → ℕ → ℕ
tied_at_last [] m k = k
tied_at_last (ns ∷ rest) m k =
    let higher = tied_at_last rest ns.score 1 in
    let tied = tied_at_last rest m (k + 1) in
    let lower = tied_at_last rest m k in
    if ltb_ℤ m ns.score then higher else if beq_ℤ ns.score m then tied else lower

-- The highest score, from a first one.
unfoldable pub top : List NodeScore → ℤ → ℤ
top [] m = m
top (ns ∷ rest) m = top rest (if ltb_ℤ m ns.score then ns.score else m)

pub count-map :
    {A B : Type 0} (p : B → Bool) (f : A → B) (xs : List A)
    → count p (map f xs) ≡ count (λ x. p (f x)) xs
count-map p f [] = refl
count-map p f (x ∷ xs) = ground (arith, count-map p f xs)

pub length-map : {A B : Type 0} (f : A → B) (xs : List A) → length (map f xs) ≡ length xs
length-map f [] = refl
length-map f (x ∷ xs) = ap suc (length-map f xs)

pub count-ext :
    {A : Type 0} (p q : A → Bool) (xs : List A) → ((x : A) → p x ≡ q x) → count p xs ≡ count q xs
count-ext p q [] h = refl
count-ext p q (x ∷ xs) h = ground (arith, h x, count-ext p q xs h)

-- The draw 0 and the n others, between which a test does not tell.
pub count-below :
    (p : List ℕ → Bool) (q : List ℕ → Bool) (n : ℕ) (vs : List (List ℕ))
    → ((d : ℕ) (v : List ℕ) → p (suc d ∷ v) ≡ q v)
    → count p (below (suc n) vs) ≡ count (λ v. p (0 ∷ v)) vs + n * count q vs
count-below p q zero vs h = ground (arith, count-map p (λ (v : List ℕ). 0 ∷ v) vs)
count-below p q (suc n) vs h = ground (
  arith,
  count-append p (below (suc n) vs) (map (λ (v : List ℕ). suc n ∷ v) vs),
  count-map p (λ (v : List ℕ). suc n ∷ v) vs,
  count-ext (λ v. p (suc n ∷ v)) q vs (h n),
  count-below p q n vs h,
)

module _ (ns : NodeScore) (rest : List NodeScore) (m : ℤ) (k : ℕ) where
  -- The three cases of a round.
  pub if-higher :
      ltb_ℤ m ns.score ≡ true
      → (vectors (ns ∷ rest) m k ≡ vectors rest ns.score 1)
        × (tied_at_last (ns ∷ rest) m k ≡ tied_at_last rest ns.score 1)
        × (share (ns ∷ rest) m k ≡ share rest ns.score 1)
        × (top (ns ∷ rest) m ≡ top rest ns.score)
  unfolding vectors share top tied_at_last
  if-higher lt = rw lt (refl, refl, refl, refl)

  pub if-tied :
      ltb_ℤ m ns.score ≡ false
      → beq_ℤ ns.score m ≡ true
      → (vectors (ns ∷ rest) m k ≡ below (k + 1) (vectors rest m (k + 1)))
        × (tied_at_last (ns ∷ rest) m k ≡ tied_at_last rest m (k + 1))
        × (share (ns ∷ rest) m k ≡ (k + 1) * share rest m (k + 1))
        × (top (ns ∷ rest) m ≡ top rest m)
  unfolding vectors share top tied_at_last
  if-tied ge eq = rw (ge, eq) (refl, refl, refl, refl)

  pub if-lower :
      ltb_ℤ m ns.score ≡ false
      → beq_ℤ ns.score m ≡ false
      → (vectors (ns ∷ rest) m k ≡ vectors rest m k)
        × (tied_at_last (ns ∷ rest) m k ≡ tied_at_last rest m k)
        × (share (ns ∷ rest) m k ≡ share rest m k)
        × (top (ns ∷ rest) m ≡ top rest m)
  unfolding vectors share top tied_at_last
  if-lower ge ne = rw (ge, ne) (refl, refl, refl, refl)

pub top-le : (rest : List NodeScore) (m : ℤ) → m ≤ℤ top rest m
unfolding top
top-le [] m = omega arith
top-le (ns ∷ rest) m = elim (Bool-cases (ltb_ℤ m ns.score)) [
  | inl e ↦ let later = top-le rest ns.score in rw e (ground arith)
  | inr e ↦ rw e (top-le rest m)
]

-- One call of rand.Intn more has been made.
abbrev pub later : Choice → Choice
later c = record c { calls = suc c.calls }

consider-later :
    (intn : ℕ → ℕ → ℕ) (ns : NodeScore) (c : Choice)
    → consider intn ns (later c) ≡ later (consider (λ i. intn (suc i)) ns c)
unfolding consider tie
consider-later intn ns c = ground arith

pub select_loop-later :
    (intn : ℕ → ℕ → ℕ) (rest : List NodeScore) (c : Choice)
    → (select_loop intn rest (later c)).selected ≡ (select_loop (λ i. intn (suc i)) rest c).selected
unfolding select_loop
select_loop-later intn [] c = refl
select_loop-later intn (ns ∷ rest) c =
    ap (λ d. (select_loop intn rest d).selected) (consider-later intn ns c)
    ∙ select_loop-later intn rest (consider (λ i. intn (suc i)) ns c)

abbrev pub one : (Text → Bool) → Text → ℕ
one q t = if q t then 1 else 0

-- A choice before any draw.
abbrev pub choice : ℤ → Text → ℕ → Choice
choice m sel k = record { max_score = m; selected = sel; cnt_of_max_score = k; calls = 0 }

module _ (intn : ℕ → ℕ → ℕ) (ns : NodeScore) (m : ℤ) (sel : Text) (k : ℕ) where
  pub consider-higher :
      ltb_ℤ m ns.score ≡ true → consider intn ns (choice m sel k) ≡ choice ns.score ns.name 1
  unfolding consider
  consider-higher lt = rw lt refl

  pub consider-lower :
      ltb_ℤ m ns.score ≡ false
      → beq_ℤ ns.score m ≡ false
      → consider intn ns (choice m sel k) ≡ choice m sel k
  unfolding consider
  consider-lower ge ne = rw (ge, ne) refl

  -- The draw 0 takes the node, and the others keep what was selected.
  pub consider-tied :
      ltb_ℤ m ns.score ≡ false
      → beq_ℤ ns.score m ≡ true
      → consider intn ns (choice m sel k)
        ≡ later (choice m (if nat_beq (intn 0 (k + 1)) 0 then ns.name else sel) (k + 1))
  unfolding consider tie
  consider-tied ge eq = rw (ge, eq) (ground arith)
