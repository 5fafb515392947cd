-- ===== src/Strconv.antt =====
-- Go's strconv.Atoi, and slices of the last byte of a string, as the program uses them.
pub mod RoundTrip
use mini_kube_scheduler.Common.{
  zero, suc, ◌/◌, ◌%◌, ◌++◌, ℕ, ◌≡◌, ◌<◌, refl, ◌∙◌, arith, true, false, ◌+◌, ◌-◌, ◌*◌, ◌^◌, Bool,
  ◌&&◌, [], ◌∷◌, Option, none, some, ltb, leb, nat_beq, if◌then◌else◌,
}
use mini_kube_scheduler.Common.Int.{ℤ, pos, negsuc}
use mini_kube_scheduler.Common.Keys.{Text}

unfoldable pub is_digit : ℕ → Bool
is_digit c = leb b'0' c && leb c b'9'

-- The value of a run of digits, after the value of those before it.
unfoldable pub digits_value : ℕ → Text → Option ℕ
unfolding is_digit
digits_value acc [] = some acc
digits_value acc (c ∷ cs) =
    let rest = digits_value (10 * acc + (c - b'0')) cs in if is_digit c then rest else none

-- The digits after the sign: at least one.
unfoldable pub unsigned : Text → Option ℕ
unfolding digits_value
unsigned [] = none
unsigned (c ∷ cs) = digits_value 0 (c ∷ cs)

abbrev pub negate : ℕ → ℤ
negate n = if nat_beq n 0 then pos 0 else negsuc (n - 1)

-- An int has 64 bits.
unfoldable pub in_range : (negative : Bool) → Option ℕ → Option ℤ
in_range negative none = none
in_range true (some n) = if leb n (2 ^ 63) then some (negate n) else none
in_range false (some n) = if ltb n (2 ^ 63) then some (pos n) else none

-- `none` is an error. Only these characters may stand before the digits.
unfoldable pub atoi : Text → Option ℤ
unfolding unsigned in_range
atoi [] = none
atoi (c ∷ cs) =
    if nat_beq c b'-'
    then in_range true (unsigned cs)
    else if nat_beq c b'+'
    then in_range false (unsigned cs)
    else in_range false (unsigned (c ∷ cs))

-- The decimal digits of a number that is less than the fuel.
unfoldable pub digits_of : (fuel n : ℕ) → Text
digits_of zero n = []
digits_of (suc fuel) n =
    let front = digits_of fuel (n / 10) in
    if ltb n 10 then (b'0' + n) ∷ [] else front ++ (b'0' + n % 10) ∷ []

-- FormatInt with base 10.
unfoldable pub format_int : ℤ → Text
unfolding digits_of
format_int (pos n) = digits_of (suc n) n
format_int (negsuc n) = b'-' ∷ digits_of (suc (suc n)) (suc n)

-- s[len(s)-1:], where `none` is the panic on an empty string.
unfoldable pub last_byte : Text → Option Text
last_byte [] = none
last_byte (c ∷ []) = some (c ∷ [])
last_byte (c ∷ d ∷ cs) = last_byte (d ∷ cs)

-- The number at the end of a name that ends in a digit.
pub atoi-digit : (c : ℕ) → atoi (c ∷ []) ≡ (if is_digit c then some (pos (c - b'0')) else none)
unfolding atoi is_digit
atoi-digit c = ground arith

pub atoi_of_digit : (c : ℕ) → is_digit c ≡ true → atoi (c ∷ []) ≡ some (pos (c - b'0'))
atoi_of_digit c h = atoi-digit c ∙ rw h refl

pub atoi_of_other : (c : ℕ) → is_digit c ≡ false → atoi (c ∷ []) ≡ none
atoi_of_other c h = atoi-digit c ∙ rw h refl

pub digit_below : (c : ℕ) → is_digit c ≡ true → c - b'0' < 10
unfolding is_digit
digit_below c h = ground arith
