-- ===== src/Strconv/RoundTrip.antt =====
-- strconv: Atoi reads what FormatInt writes.
use mini_kube_scheduler.Common.{
  ℕ, zero, suc, ◌≡◌, ◌<◌, ◌≤◌, refl, ◌∙◌, arith, true, ◌+◌, ◌-◌, ◌*◌, ◌/◌, ◌%◌, ◌^◌, [], ◌∷◌, ◌++◌,
  Option, none, some, ltb, if◌then◌else◌, Bool-cases, inl, inr,
}
use mini_kube_scheduler.Common.Int.{ℤ, pos, negsuc, InInt64}
use mini_kube_scheduler.Common.Keys.{Text}
use mini_kube_scheduler.Strconv.{
  is_digit, digits_value, unsigned, in_range, atoi, digits_of, format_int,
}

-- One digit more at the end.
push : Option ℕ → ℕ → Option ℕ
push none c = none
push (some v) c = if is_digit c then some (10 * v + (c - b'0')) else none

digits_value-append :
    (acc : ℕ) (xs : Text) (c : ℕ) → digits_value acc (xs ++ c ∷ []) ≡ push (digits_value acc xs) c
unfolding digits_value push
digits_value-append acc [] c = refl
digits_value-append acc (x ∷ xs) c =
    ground (arith, digits_value-append (10 * acc + (x - b'0')) xs c)

is_digit-below : (n : ℕ) → n < 10 → is_digit (b'0' + n) ≡ true
unfolding is_digit
is_digit-below n h = ground arith

digits_value-digits_of : (fuel n : ℕ) → n < fuel → digits_value 0 (digits_of fuel n) ≡ some n
unfolding digits_of digits_value push
digits_value-digits_of zero n h = absurd (omega arith)
digits_value-digits_of (suc fuel) n h = elim (Bool-cases (ltb n 10)) [
  | inl small ↦ rw small (ground (arith, is_digit-below n))
  | inr large ↦ rw large (
      digits_value-append 0 (digits_of fuel (n / 10)) (b'0' + n % 10)
      ∙ ground (
        arith,
        digits_value-digits_of fuel (n / 10) (ground arith),
        is_digit-below (n % 10) (omega arith),
      ))
]

starts_with_digit :
    (fuel n : ℕ)
    → n < fuel
    → (c : ℕ) × (cs : Text) × (digits_of fuel n ≡ c ∷ cs) × (is_digit c ≡ true)
unfolding digits_of
starts_with_digit zero n h = absurd (omega arith)
starts_with_digit (suc fuel) n h = elim (Bool-cases (ltb n 10)) [
  | inl small ↦ (b'0' + n, [], ground arith, is_digit-below n (ground arith))
  | inr large ↦
      let (c, cs, e, d) = starts_with_digit fuel (n / 10) (ground arith) in
      (c, cs ++ (b'0' + n % 10) ∷ [], ground arith, d)
]

unsigned-digits_of : (fuel n : ℕ) → n < fuel → unsigned (digits_of fuel n) ≡ some n
unfolding unsigned
unsigned-digits_of fuel n h =
    let (c, cs, e, d) = starts_with_digit fuel n h in
    let value = digits_value-digits_of fuel n h in rw e (rw e at value)

atoi-digits :
    (t : Text) (c : ℕ) (cs : Text) (n : ℕ)
    → t ≡ c ∷ cs
    → is_digit c ≡ true
    → unsigned t ≡ some n
    → n < 2 ^ 63
    → atoi t ≡ some (pos n)
unfolding atoi in_range is_digit
atoi-digits t c cs n e d value below =
    let value' : unsigned (c ∷ cs) ≡ some n = rw e at value in rw (e, atoi) (ground arith)

atoi-minus :
    (t : Text) (n : ℕ)
    → unsigned t ≡ some (suc n)
    → suc n ≤ 2 ^ 63
    → atoi (b'-' ∷ t) ≡ some (negsuc n)
unfolding atoi in_range
atoi-minus t n value below = rw value (ground arith)

-- Atoi reads back any int64 that FormatInt writes in base 10.
pub atoi-format_int : (z : ℤ) → InInt64 z → atoi (format_int z) ≡ some z
unfolding format_int
atoi-format_int (pos n) h =
    let (c, cs, e, d) = starts_with_digit (suc n) n (omega arith) in
    atoi-digits (digits_of (suc n) n) c cs n e d (unsigned-digits_of (suc n) n (omega arith)) h.0
atoi-format_int (negsuc n) h =
    atoi-minus (digits_of (suc (suc n)) (suc n)) n
      (unsigned-digits_of (suc (suc n)) (suc n) (omega arith)) h.1
