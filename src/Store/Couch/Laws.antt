-- ===== src/Store/Couch/Laws.antt =====
-- What the selector of a query holds.
use Prim.Native.String.{String}
use text.Mathlib.Text.{◌==◌ as str_eq}
use text.Mathlib.TextEquality.{eq_iff}
use fabric_common.Base.{
  ◌≡◌, refl, sym, ap, ◌∙◌, inl, inr, Bool, some, List, [], ◌∷◌, any, arith, Bool-cases,
  if◌then◌else◌,
}
use fabric_common.Config.Json.{Json, Fields, lookup, put}
use fabric_common.Config.Json.Paths.{lookup-put_self, lookup-put_ne, differ}
use fabric_common.Store.Couch.{greater_than_null, with_sorts}

abbrev pub sorted_by : String → List String → Bool
sorted_by key cols = any (λ col. str_eq col key) cols

lookup-put :
    (key col : String) (v : Json) (fs : Fields)
    → lookup key (put col v fs) ≡ (if str_eq col key then some v else lookup key fs)
lookup-put key col v fs = elim (Bool-cases (str_eq col key)) [
  | inl t ↦
      let same : col ≡ key = ground (arith, eq_iff col key) in
      rw t (ap (λ k. lookup k (put col v fs)) (sym same) ∙ lookup-put_self col v fs)
  | inr f ↦ rw f (lookup-put_ne col key v fs (differ col key f))
]

-- The selector asks of every sorted column that it is not null, whatever the caller asked of it; what
-- the caller asked of the other columns stays.
pub lookup-with_sorts :
    (key : String) (cols : List String) (fs : Fields)
    → lookup key (with_sorts cols fs)
      ≡ (if sorted_by key cols then some greater_than_null else lookup key fs)
unfolding with_sorts
lookup-with_sorts key [] fs = refl
lookup-with_sorts key (col ∷ cols) fs =
    lookup-with_sorts key cols (put col greater_than_null fs)
    ∙ elim (Bool-cases (sorted_by key cols)) [
      | inl t ↦ elim (Bool-cases (str_eq col key)) [
        | inl u ↦ rw (t, u) refl
        | inr u ↦ rw (t, u) refl
      ]
      | inr f ↦
          rw (f, lookup-put key col greater_than_null fs)
            (elim (Bool-cases (str_eq col key)) [ inl u ↦ rw u refl | inr u ↦ rw u refl ])
    ]
