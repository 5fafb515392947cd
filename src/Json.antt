-- ===== src/Json.antt =====
-- Go's encoding/json, for maps of texts to texts and maps of such maps. Bytes from 128 on stand for
-- themselves, as in valid UTF-8 without U+2028 and U+2029.
use mini_kube_scheduler.Common.{
  ℕ, ◌+◌, ◌-◌, ◌/◌, ◌%◌, Bool, true, false, ◌||◌, ◌&&◌, List, [], ◌∷◌, ◌++◌, ltb, nat_beq,
  if◌then◌else◌,
}
use mini_kube_scheduler.Common.Keys.{Text}

hex_digit : ℕ → ℕ
hex_digit n = if ltb n 10 then b'0' + n else b'a' + n - 10

-- The escape of one byte: quotes, backslashes, control characters, and the characters of HTML.
escape_byte : ℕ → Text
unfolding hex_digit
escape_byte c =
    if nat_beq c 34 || nat_beq c 92
    then 92 ∷ c ∷ []
    else if nat_beq c 10
    then 92 ∷ b'n' ∷ []
    else if nat_beq c 13
    then 92 ∷ b'r' ∷ []
    else if nat_beq c 9
    then 92 ∷ b't' ∷ []
    else if ltb c 32 || (nat_beq c b'<' || (nat_beq c b'>' || nat_beq c b'&'))
    then 92 ∷ b'u' ∷ b'0' ∷ b'0' ∷ hex_digit (c / 16) ∷ hex_digit (c % 16) ∷ []
    else c ∷ []

escape : Text → Text
unfolding escape_byte
escape [] = []
escape (c ∷ cs) = escape_byte c ++ escape cs

pub encode_text : Text → Text
unfolding escape
encode_text t = 34 ∷ escape t ++ 34 ∷ []

-- Keys are written in the order of their bytes.
text_ltb : Text → Text → Bool
text_ltb [] [] = false
text_ltb [] (d ∷ t) = true
text_ltb (c ∷ s) [] = false
text_ltb (c ∷ s) (d ∷ t) = ltb c d || (nat_beq c d && text_ltb s t)

place : {V : Type 0} → Text × V → List (Text × V) → List (Text × V)
unfolding text_ltb
place e [] = e ∷ []
place e (f ∷ m) = let rest = place e m in if text_ltb f.0 e.0 then f ∷ rest else e ∷ f ∷ m

sort_keys : {V : Type 0} → List (Text × V) → List (Text × V)
unfolding place
sort_keys [] = []
sort_keys (e ∷ m) = place e (sort_keys m)

-- The members of an object, by an encoding of the values.
members : {V : Type 0} → (V → Text) → List (Text × V) → Text
unfolding encode_text
members encode [] = []
members encode ((k, v) ∷ []) = encode_text k ++ b':' ∷ encode v
members encode ((k, v) ∷ e ∷ m) = encode_text k ++ b':' ∷ encode v ++ b',' ∷ members encode (e ∷ m)

encode_object : {V : Type 0} → (V → Text) → List (Text × V) → Text
unfolding sort_keys members
encode_object encode m = b'{' ∷ members encode (sort_keys m) ++ b'}' ∷ []

-- json.Marshal; no map of this type is refused.
unfoldable pub marshal : List (Text × List (Text × Text)) → Text
unfolding encode_object encode_text
marshal m = encode_object (encode_object encode_text) m
