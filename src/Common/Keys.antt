-- ===== src/Common/Keys.antt =====
-- Keys with a Boolean equality, and Go strings: the bytes of a text.
use Prim.Native.Char.{code}
use Prim.Native.String.{String}
use mini_kube_scheduler.Common.{
  ℕ, ◌≡◌, refl, ◌↔◌, ◌≢◌, ◌++◌, All, Bool, true, false, ◌&&◌, List, [], ◌∷◌, arith, nat_beq,
  nat_beq_iff,
}

-- A Boolean test of equality, and its law.
pub record Eq {ℓ} (K : Type ℓ) : Type ℓ where
  pub test : (j k : K) → Bool
  pub test_iff : (j k : K) → (test j k ≡ true) ↔ (j ≡ k)

abbrev pub ◌==◌ {κ} : {K : Type κ} ⦃e : Eq K⦄ → (j k : K) → Bool
◌==◌ ⦃e⦄ j k = e.test j k

infix 50 ◌==◌
-- The law of the test, at two keys.
pub eq_iff {ℓ} : {A : Type ℓ} ⦃e : Eq A⦄ (a b : A) → ((a == b) ≡ true) ↔ (a ≡ b)
eq_iff ⦃e⦄ a b = e.test_iff a b

pub eq_refl {ℓ} : {A : Type ℓ} ⦃e : Eq A⦄ (a : A) → (a == a) ≡ true
eq_refl ⦃e⦄ a = (e.test_iff a a).1 refl

-- A Go string is a sequence of bytes.
abbrev pub Text : Type 0
Text = List ℕ

-- The bytes of an ASCII literal.
abbrev pub str : String → Text
str String.[] = []
str (String.◌∷◌ c s) = code c ∷ str s

unfoldable pub text_beq : Text → Text → Bool
text_beq [] [] = true
text_beq [] (y ∷ ys) = false
text_beq (x ∷ xs) [] = false
text_beq (x ∷ xs) (y ∷ ys) = nat_beq x y && text_beq xs ys

pub text_beq_iff : (s t : Text) → (text_beq s t ≡ true) ↔ (s ≡ t)
unfolding text_beq
text_beq_iff [] [] = ground arith
text_beq_iff [] (y ∷ ys) = ground arith
text_beq_iff (x ∷ xs) [] = ground arith
text_beq_iff (x ∷ xs) (y ∷ ys) = ground (arith, text_beq_iff xs ys)

instance abbrev pub nat_eq : Eq ℕ
nat_eq = record { test = nat_beq; test_iff = nat_beq_iff }

instance abbrev pub text_eq : Eq Text
text_eq = record { test = text_beq; test_iff = text_beq_iff }

-- Two texts that are joined at a separator, which the first part does not hold, can be told apart.
pub split_at_separator :
    (c : ℕ) (a b x y : Text)
    → All (λ d. d ≢ c) a
    → All (λ d. d ≢ c) b
    → a ++ c ∷ x ≡ b ++ c ∷ y
    → (a ≡ b) × (x ≡ y)
split_at_separator c [] [] x y ha hb e = ground arith
split_at_separator c [] (d ∷ b) x y ha hb e = absurd (ground arith)
split_at_separator c (d ∷ a) [] x y ha hb e = absurd (ground arith)
split_at_separator c (d ∷ a) (f ∷ b) x y ha hb e =
    ground (arith, split_at_separator c a b x y ha.1 hb.1)
