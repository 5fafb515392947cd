-- ===== src/Common/Lists.antt =====
-- Lists measured and indexed by the native numbers, predicates over lists, and Boolean filters.
use Prim.Native.Nat.{ℕ, zero, suc, ◌+◌}
use mathlib.Core.Path.{◌≡◌, refl, sym, ap, subst}
use mathlib.Core.Logic.{◌⊎◌, inl, inr}
use mathlib.Core.Bool.{Bool, true, false, ◌||◌, ◌&&◌}
use mathlib.Core.List.{List, [], ◌∷◌, ◌++◌, map}
use mathlib.Core.Option.{Option, none, some}
use native.Mathlib.Omega.{arith}
use mini_kube_scheduler.Common.Tests.{nat_beq, if◌then◌else◌, Bool-cases}

module _ {ℓ} {A : Type ℓ} where
  abbrev pub length : List A → ℕ
  length [] = 0
  length (x ∷ xs) = suc (length xs)

  abbrev pub get_elem? : List A → ℕ → Option A
  get_elem? [] i = none
  get_elem? (x ∷ xs) zero = some x
  get_elem? (x ∷ xs) (suc i) = get_elem? xs i

  -- A write out of bounds changes nothing.
  abbrev pub set : List A → ℕ → A → List A
  set [] i v = []
  set (x ∷ xs) zero v = v ∷ xs
  set (x ∷ xs) (suc i) v = x ∷ set xs i v

  abbrev pub replicate : ℕ → A → List A
  replicate zero a = []
  replicate (suc n) a = a ∷ replicate n a

  -- The elements that pass a Boolean test, in order.
  abbrev pub keep : (A → Bool) → List A → List A
  keep p [] = []
  keep p (x ∷ xs) = if p x then x ∷ keep p xs else keep p xs

  abbrev pub any : (A → Bool) → List A → Bool
  any p [] = false
  any p (x ∷ xs) = p x || any p xs

  abbrev pub all : (A → Bool) → List A → Bool
  all p [] = true
  all p (x ∷ xs) = p x && all p xs

  abbrev pub All {κ} : (A → Type κ) → List A → Type κ
  All P [] = Unit
  All P (x ∷ xs) = P x × All P xs

-- Membership that keeps the position.
abbrev pub In : {A : Type 0} → A → List A → Type 0
In a [] = ⊥
In a (x ∷ xs) = (a ≡ x) ⊎ In a xs

pub All-In {κ} : {A : Type 0} (P : A → Type κ) (xs : List A) (a : A) → All P xs → In a xs → P a
All-In P [] a h m = absurd m
All-In P (x ∷ xs) a h (inl e) = rw e h.0
All-In P (x ∷ xs) a h (inr m) = All-In P xs a h.1 m

module _ {ℓ} {A : Type ℓ} where
  pub length-append : (xs ys : List A) → length (xs ++ ys) ≡ length xs + length ys
  length-append [] ys = omega arith
  length-append (x ∷ xs) ys = omega (arith, length-append xs ys)

  pub length_zero : (xs : List A) → nat_beq (length xs) 0 ≡ true → xs ≡ []
  length_zero [] h = refl
  length_zero (x ∷ xs) h = absurd (ground arith)

  pub length-set : (xs : List A) (i : ℕ) (v : A) → length (set xs i v) ≡ length xs
  length-set [] i v = refl
  length-set (x ∷ xs) zero v = refl
  length-set (x ∷ xs) (suc i) v = ap suc (length-set xs i v)

  pub length-replicate : (n : ℕ) (a : A) → length (replicate n a) ≡ n
  length-replicate zero a = refl
  length-replicate (suc n) a = ap suc (length-replicate n a)

  pub keep-all : (p : A → Bool) (xs : List A) → all p xs ≡ true → keep p xs ≡ xs
  keep-all p [] h = refl
  keep-all p (x ∷ xs) h = ground (arith, keep-all p xs)

  pub keep-none : (p : A → Bool) (xs : List A) → any p xs ≡ false → keep p xs ≡ []
  keep-none p [] h = refl
  keep-none p (x ∷ xs) h = ground (arith, keep-none p xs)

  pub All-append {κ} : (P : A → Type κ) (xs ys : List A) → All P xs → All P ys → All P (xs ++ ys)
  All-append P [] ys h k = k
  All-append P (x ∷ xs) ys h k = (h.0, All-append P xs ys h.1 k)

  pub All-map {κ μ} :
      {P : A → Type κ} {Q : A → Type μ} (f : (x : A) → P x → Q x) (xs : List A)
      → All P xs
      → All Q xs
  All-map f [] h = tt
  All-map f (x ∷ xs) h = (f x h.0, All-map f xs h.1)

  pub keep-cong : (p q : A → Bool) (xs : List A) → All (λ x. p x ≡ q x) xs → keep p xs ≡ keep q xs
  keep-cong p q [] h = refl
  keep-cong p q (x ∷ xs) h = ground (arith, keep-cong p q xs h.1)

  pub keep-ext : (p q : A → Bool) (xs : List A) → ((x : A) → p x ≡ q x) → keep p xs ≡ keep q xs
  keep-ext p q [] h = refl
  keep-ext p q (x ∷ xs) h = ground (arith, h x, keep-ext p q xs h)

  pub keep-true : (xs : List A) → keep (λ x. true) xs ≡ xs
  keep-true [] = refl
  keep-true (x ∷ xs) = ap (◌∷◌ x) (keep-true xs)

  pub All-keep {κ} : (P : A → Type κ) (q : A → Bool) (xs : List A) → All P xs → All P (keep q xs)
  All-keep P q [] h = tt
  All-keep P q (x ∷ xs) h = elim (Bool-cases (q x)) [
    | inl e ↦ rw e (h.0, All-keep P q xs h.1)
    | inr e ↦ rw e (All-keep P q xs h.1)
  ]

  -- How many elements pass a test.
  abbrev pub count : (A → Bool) → List A → ℕ
  count q [] = 0
  count q (x ∷ xs) = if q x then suc (count q xs) else count q xs

  pub count-append : (q : A → Bool) (xs ys : List A) → count q (xs ++ ys) ≡ count q xs + count q ys
  count-append q [] ys = omega arith
  count-append q (x ∷ xs) ys = ground (arith, count-append q xs ys)

-- Membership in a concatenation and in a filter.
pub In-append_left : {A : Type 0} (a : A) (xs ys : List A) → In a xs → In a (xs ++ ys)
In-append_left a [] ys m = absurd m
In-append_left a (x ∷ xs) ys (inl e) = inl e
In-append_left a (x ∷ xs) ys (inr m) = inr (In-append_left a xs ys m)

pub In-append_right : {A : Type 0} (a : A) (xs ys : List A) → In a ys → In a (xs ++ ys)
In-append_right a [] ys m = m
In-append_right a (x ∷ xs) ys m = inr (In-append_right a xs ys m)

pub In-keep :
    {A : Type 0} (q : A → Bool) (xs : List A) (a : A) → In a xs → q a ≡ true → In a (keep q xs)
In-keep q [] a m h = absurd m
In-keep q (x ∷ xs) a (inl e) h = rw (← e, h) (inl refl)
In-keep q (x ∷ xs) a (inr m) h = elim (Bool-cases (q x)) [
  | inl e ↦ rw e (inr (In-keep q xs a m h))
  | inr e ↦ rw e (In-keep q xs a m h)
]

-- A test that holds of some element of a list, and back.
pub any→In :
    {A : Type 0} (p : A → Bool) (xs : List A) → any p xs ≡ true → (a : A) × In a xs × (p a ≡ true)
any→In p [] h = absurd (ground arith)
any→In p (x ∷ xs) h = elim (Bool-cases (p x)) [
  | inl e ↦ (x, inl refl, e)
  | inr e ↦ let (a, m, q) = any→In p xs (ground arith) in (a, inr m, q)
]

pub In→any :
    {A : Type 0} (p : A → Bool) (xs : List A) (a : A) → In a xs → p a ≡ true → any p xs ≡ true
In→any p [] a m h = absurd m
In→any p (x ∷ xs) a (inl e) h = rw (← e) (ground arith)
In→any p (x ∷ xs) a (inr m) h = ground (arith, In→any p xs a m h)

pub keep-In :
    {A : Type 0} (q : A → Bool) (xs : List A) (a : A) → In a (keep q xs) → In a xs × (q a ≡ true)
keep-In q [] a m = absurd m
keep-In {A} q (x ∷ xs) a m = elim (Bool-cases (q x)) [
  | inl e ↦ elim (subst (In a) (ap kept e) m) [
    | inl same ↦ (inl same, rw same e)
    | inr later ↦ let (i, h) = keep-In q xs a later in (inr i, h)
  ]
  | inr e ↦ let (i, h) = keep-In q xs a (subst (In a) (ap kept e) m) in (inr i, h)
]
  where
    kept : Bool → List A
    kept b = if b then x ∷ keep q xs else keep q xs

pub In-map : {A B : Type 0} (f : A → B) (xs : List A) (a : A) → In a xs → In (f a) (map f xs)
In-map f [] a m = absurd m
In-map f (x ∷ xs) a (inl e) = inl (ap f e)
In-map f (x ∷ xs) a (inr m) = inr (In-map f xs a m)

pub map-In :
    {A B : Type 0} (f : A → B) (xs : List A) (b : B)
    → In b (map f xs)
    → (a : A) × In a xs × (f a ≡ b)
map-In f [] b m = absurd m
map-In f (x ∷ xs) b (inl e) = (x, inl refl, sym e)
map-In f (x ∷ xs) b (inr m) = let (a, i, e) = map-In f xs b m in (a, inr i, e)
