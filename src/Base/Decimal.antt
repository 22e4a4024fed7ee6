-- ===== src/Base/Decimal.antt =====
-- Decimal numerals: what `\d` matches and `parseInt` reads, and the printing of a number.
use Prim.Native.Nat.{ℕ, zero, suc, ◌+◌, ◌-◌, ◌*◌, ◌/◌, ◌%◌, ◌<◌}
use mathlib.Core.Path.{◌≡◌, refl, ◌∙◌}
use mathlib.Core.Logic.{inl, inr}
use mathlib.Core.Bool.{Bool, true, false, ◌&&◌}
use mathlib.Core.List.{[], ◌∷◌, ◌++◌}
use native.Mathlib.Omega.{arith}
use fabric_common.Base.Tests.{leb, ltb, if◌then◌else◌, Bool-cases}
use fabric_common.Base.Lists.{all, all-append, is_empty}
use fabric_common.Base.Chars.{Text}

-- `\d`
abbrev pub is_digit : ℕ → Bool
is_digit c = leb b'0' c && leb c b'9'

-- The value of a text of digits, from the left.
abbrev pub value_from : ℕ → Text → ℕ
value_from acc [] = acc
value_from acc (c ∷ s) = value_from (acc * 10 + (c - b'0')) s

-- `parseInt` at a text of digits.
abbrev pub parse_int : Text → ℕ
parse_int s = value_from 0 s

-- A number in decimal; the fuel bounds its digits.
pub print_from : ℕ → ℕ → Text
print_from zero n = []
print_from (suc fuel) n =
    let more = print_from fuel (n / 10) ++ (b'0' + n % 10) ∷ [] in
    if ltb n 10 then (b'0' + n) ∷ [] else more

-- `n.toString()`
unfoldable pub print_int : ℕ → Text
unfolding print_from
print_int n = print_from (suc n) n

value_from-append :
    (acc : ℕ) (s : Text) (c : ℕ) → value_from acc (s ++ c ∷ []) ≡ value_from acc s * 10 + (c - b'0')
value_from-append acc [] c = refl
value_from-append acc (d ∷ s) c = value_from-append (acc * 10 + (d - b'0')) s c

print_from-value : (fuel n : ℕ) → n < fuel → parse_int (print_from fuel n) ≡ n
unfolding print_from
print_from-value zero n h = elim h [ ]
print_from-value (suc fuel) n h = elim (Bool-cases (ltb n 10)) [
  | inl small ↦ rw (small, print_from) (ground arith)
  | inr large ↦
      rw (large, print_from)
        (value_from-append 0 (print_from fuel (n / 10)) (b'0' + n % 10)
          ∙ rw (print_from-value fuel (n / 10) (ground arith)) (omega arith))
]

-- Reading a printed number gives it back.
pub parse_int-print_int : (n : ℕ) → parse_int (print_int n) ≡ n
unfolding print_int
parse_int-print_int n = print_from-value (suc n) n (omega arith)

print_from-digits : (fuel n : ℕ) → all is_digit (print_from fuel n) ≡ true
unfolding print_from
print_from-digits zero n = refl
print_from-digits (suc fuel) n = elim (Bool-cases (ltb n 10)) [
  | inl small ↦ rw (small, print_from) (ground arith)
  | inr large ↦
      rw (large, print_from)
        (all-append is_digit (print_from fuel (n / 10)) ((b'0' + n % 10) ∷ [])
          (print_from-digits fuel (n / 10)) (ground arith))
]

pub print_int-digits : (n : ℕ) → all is_digit (print_int n) ≡ true
unfolding print_int
print_int-digits n = print_from-digits (suc n) n

append_one-filled : (s : Text) (c : ℕ) → is_empty (s ++ c ∷ []) ≡ false
append_one-filled [] c = refl
append_one-filled (d ∷ s) c = refl

pub print_int-filled : (n : ℕ) → is_empty (print_int n) ≡ false
unfolding print_int
print_int-filled n = elim (Bool-cases (ltb n 10)) [
  | inl small ↦ rw (small, print_from) refl
  | inr large ↦ rw (large, print_from) (append_one-filled _ _)
]
