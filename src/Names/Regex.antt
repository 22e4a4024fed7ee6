-- ===== src/Names/Regex.antt =====
-- The regular expressions that the rules for names are written in, and whether one matches a whole
-- text: `^…$` without flags. A class of characters is a test on a UTF-16 code unit.
pub mod Laws
use fabric_common.Base.{
  ℕ, zero, suc, ◌≡◌, Bool, true, false, List, [], ◌∷◌, ◌++◌, ◌&&◌, ◌||◌, ◌==◌, Text, if◌then◌else◌,
}

pub data Regex : Type 0 where
  never epsilon : Regex
  one : (ℕ → Bool) → Regex
  seq alt : Regex → Regex → Regex
  star : Regex → Regex

-- `r+`
abbrev pub plus : Regex → Regex
plus r = seq r (star r)

-- `r{n}`
abbrev pub times : ℕ → Regex → Regex
times zero r = epsilon
times (suc n) r = seq r (times n r)

-- A text as it stands.
abbrev pub literal : Text → Regex
literal [] = epsilon
literal (c ∷ s) = seq (one (λ d. d == c)) (literal s)

-- Whether an expression matches the empty text.
abbrev pub nullable : Regex → Bool
nullable never = false
nullable epsilon = true
nullable (one p) = false
nullable (seq r q) = nullable r && nullable q
nullable (alt r q) = nullable r || nullable q
nullable (star r) = true

-- What is left to match behind the unit `c`.
unfoldable pub derive : ℕ → Regex → Regex
derive c never = never
derive c epsilon = never
derive c (one p) = if p c then epsilon else never
derive c (seq r q) =
    let left = derive c r in
    let right = derive c q in if nullable r then alt (seq left q) right else seq left q
derive c (alt r q) = alt (derive c r) (derive c q)
derive c (star r) = seq (derive c r) (star r)

unfoldable pub matches : Regex → Text → Bool
unfolding derive
matches r [] = nullable r
matches r (c ∷ s) = matches (derive c r) s

-- What an expression stands for: the texts that it matches.
pub data Matches : Regex → Text → Type 0 where
  at_end : Matches epsilon []
  at_one : {p : ℕ → Bool} (c : ℕ) → p c ≡ true → Matches (one p) (c ∷ [])
  both :
      {r q : Regex} (s t : Text) {u : Text}
      → Matches r s
      → Matches q t
      → u ≡ s ++ t
      → Matches (seq r q) u
  left : {r q : Regex} {s : Text} → Matches r s → Matches (alt r q) s
  right : {r q : Regex} {s : Text} → Matches q s → Matches (alt r q) s
  none_more : {r : Regex} → Matches (star r) []
  one_more :
      {r : Regex} (s t : Text) {u : Text}
      → Matches r s
      → Matches (star r) t
      → u ≡ s ++ t
      → Matches (star r) u
