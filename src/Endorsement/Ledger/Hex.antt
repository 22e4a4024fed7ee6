-- ===== src/Endorsement/Ledger/Hex.antt =====
-- `toString('hex')` and `Buffer.from(s, 'hex')`, as nodejs/query.js calls them: the reading ends at
-- the first pair that is not hexadecimal.
use fabric_common.Base.{
  ℕ, ◌+◌, ◌-◌, ◌*◌, ◌/◌, ◌%◌, ◌<◌, ◌≤◌, ◌≡◌, refl, ap, Bool, true, Option, none, some, [], ◌∷◌,
  ◌&&◌, suc, conditions, ltb, leb, if◌then◌else◌, Text, length, all, arith,
}
use fabric_common.Endorsement.Check.{Bytes}

abbrev pub hex_digit : ℕ → ℕ
hex_digit n = if ltb n 10 then b'0' + n else b'a' + (n - 10)

abbrev pub hex_value : ℕ → Option ℕ
hex_value c =
    if leb b'0' c && leb c b'9'
    then some (c - b'0')
    else if leb b'a' c && leb c b'f'
    then some (c - b'a' + 10)
    else if leb b'A' c && leb c b'F'
    then some (c - b'A' + 10)
    else none

unfoldable pub to_hex : Bytes → Text
to_hex [] = []
to_hex (b ∷ bs) = hex_digit (b / 16) ∷ hex_digit (b % 16) ∷ to_hex bs

abbrev pub pair : Option ℕ → Option ℕ → Bytes → Bytes
pair (some x) (some y) rest = (x * 16 + y) ∷ rest
pair _ _ rest = []

unfoldable pub from_hex : Text → Bytes
from_hex [] = []
from_hex (c ∷ []) = []
from_hex (c ∷ d ∷ s) = pair (hex_value c) (hex_value d) (from_hex s)

-- A buffer holds bytes.
abbrev pub is_byte : ℕ → Bool
is_byte b = ltb b 256

hex_value-hex_digit : (n : ℕ) → n < 16 → hex_value (hex_digit n) ≡ some n
hex_value-hex_digit n h = ground arith

pub from_hex-to_hex : (bs : Bytes) → all is_byte bs ≡ true → from_hex (to_hex bs) ≡ bs
unfolding from_hex to_hex
from_hex-to_hex [] h = refl
from_hex-to_hex (b ∷ bs) h =
    let (small, rest) = conditions (is_byte b) (all is_byte bs) h in
    rw
      (
        hex_value-hex_digit (b / 16) (ground arith),
        hex_value-hex_digit (b % 16) (ground arith),
        from_hex-to_hex bs rest,
      )
      (ap (λ x. x ∷ bs) (omega arith))

hex_value-lt : (c : ℕ) {n : ℕ} → hex_value c ≡ some n → n < 16
hex_value-lt c h = ground arith

pair-bounds :
    (x y : Option ℕ) (rest : Bytes)
    → ((n : ℕ) → x ≡ some n → n < 16)
    → ((n : ℕ) → y ≡ some n → n < 16)
    → all is_byte rest ≡ true
    → (all is_byte (pair x y rest) ≡ true) × (length (pair x y rest) ≤ suc (length rest))
pair-bounds none y rest hx hy h = (refl, omega arith)
pair-bounds (some x) none rest hx hy h = (refl, omega arith)
pair-bounds (some x) (some y) rest hx hy h = (ground (arith, hx x refl, hy y refl), omega arith)

-- What is read from a text holds bytes, at most half as many as the text has characters.
pub from_hex-bounds :
    (s : Text)
    → (all is_byte (from_hex s) ≡ true) × (length (from_hex s) + length (from_hex s) ≤ length s)
unfolding from_hex
from_hex-bounds [] = (refl, omega arith)
from_hex-bounds (c ∷ []) = (refl, omega arith)
from_hex-bounds (c ∷ d ∷ s) =
    let (bytes, short) = from_hex-bounds s in
    let (bytes', short') =
      pair-bounds (hex_value c) (hex_value d) (from_hex s) (λ n. hex_value-lt c)
        (λ n. hex_value-lt d) bytes in
    (bytes', omega (arith, short, short'))
