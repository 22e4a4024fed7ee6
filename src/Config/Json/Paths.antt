-- ===== src/Config/Json/Paths.antt =====
-- What an edit at a path changes, and what it leaves alone.
use Prim.Native.String.{String}
use text.Mathlib.Text.{◌==◌ as str_eq}
use text.Mathlib.TextEquality.{eq_iff}
use fabric_common.Base.{
  ◌≡◌, refl, sym, ap, ◌∙◌, ◌≢◌, ◌⊎◌, inl, inr, false, Option, none, some, List, [], ◌∷◌, ◌++◌,
  arith, Option-cases, some_inj,
}
use fabric_common.Base.Result.{Result, ok, ◌>>=◌, ok_inj, Result-cases}
use fabric_common.Config.Json.{
  Json, null, bool, number, string, array, object, Fields, end, field, Failure, lookup, put,
  drop_key, child, read, get_path, Edit, assign_here, delete_here, edit_at,
}

pub lookup-put_self : (k : String) (v : Json) (fs : Fields) → lookup k (put k v fs) ≡ some v
unfolding lookup put
lookup-put_self k v end = ground (arith, eq_iff k k)
lookup-put_self k v (field j w fs) = ground (arith, eq_iff j k, lookup-put_self k v fs)

pub lookup-put_ne :
    (k j : String) (v : Json) (fs : Fields) → k ≢ j → lookup j (put k v fs) ≡ lookup j fs
unfolding lookup put
lookup-put_ne k j v end h = ground (arith, eq_iff k j)
lookup-put_ne k j v (field i w fs) h =
    ground (arith, eq_iff i k, eq_iff i j, lookup-put_ne k j v fs h)

lookup-drop_key_self : (k : String) (fs : Fields) → lookup k (drop_key k fs) ≡ none
unfolding lookup drop_key
lookup-drop_key_self k end = refl
lookup-drop_key_self k (field j w fs) = ground (arith, eq_iff j k, lookup-drop_key_self k fs)

lookup-drop_key_ne : (k j : String) (fs : Fields) → k ≢ j → lookup j (drop_key k fs) ≡ lookup j fs
unfolding lookup drop_key
lookup-drop_key_ne k j end h = refl
lookup-drop_key_ne k j (field i w fs) h =
    ground (arith, eq_iff i k, eq_iff i j, lookup-drop_key_ne k j fs h)

-- Two names that the test tells apart.
pub differ : (a b : String) → str_eq a b ≡ false → a ≢ b
differ a b h e = ground (arith, eq_iff a b)

-- Two paths that part at some step.
abbrev pub Apart : List String → List String → Type 0
Apart [] q = ⊥
Apart (a ∷ p) [] = ⊥
Apart (a ∷ p) (b ∷ q) = (a ≢ b) ⊎ ((a ≡ b) × Apart p q)

-- One step of an edit that succeeds.
record Stepped (a : String) (p : List String) (f : Edit) (j j' : Json) : Type 0 where
  fs : Fields
  c : Json
  c' : Json
  before : j ≡ object fs
  found : lookup a fs ≡ some c
  inner : edit_at p f c ≡ ok c'
  after : j' ≡ object (put a c' fs)

edit_at-step :
    (a : String) (p : List String) (f : Edit) (j j' : Json)
    → edit_at (a ∷ p) f j ≡ ok j'
    → Stepped a p f j j'
unfolding edit_at child assign_here
edit_at-step a p f (object fs) j' h = elim (Option-cases (lookup a fs)) [
  | inl missing ↦ absurd (ground (arith, missing))
  | inr (c, found) ↦ elim (Result-cases (edit_at p f c)) [
    | inl (c', inner) ↦ record {
      fs = fs;
      c = c;
      c' = c';
      before = refl;
      found = found;
      inner = inner;
      after = ground (arith, found, inner);
    }
    | inr (x, failed) ↦ absurd (ground (arith, found, failed))
  ]
]
edit_at-step a p f null j' h = absurd (cc)
edit_at-step a p f (bool b) j' h = absurd (cc)
edit_at-step a p f (number n) j' h = absurd (cc)
edit_at-step a p f (string s) j' h = absurd (cc)
edit_at-step a p f (array vs) j' h = absurd (cc)

-- What an assignment writes is read back.
pub get_path-assign :
    (p : List String) (key : String) (v j j' : Json)
    → edit_at p (assign_here key v) j ≡ ok j'
    → get_path (p ++ key ∷ []) (some j') ≡ ok (some v)
unfolding get_path edit_at assign_here read child
get_path-assign [] key v (object fs) j' h = rw (← ok_inj h) (ap ok (lookup-put_self key v fs))
get_path-assign [] key v _ j' h = absurd (cc)
get_path-assign (a ∷ p) key v j j' h =
    let s = edit_at-step a p (assign_here key v) j j' h in
    rw s.after (rw (lookup-put_self a s.c' s.fs) (get_path-assign p key v s.c s.c' s.inner))

-- Nothing is read behind an undefined value.
pub nothing : (p : List String) (c : Json) → get_path p none ≢ ok (some c)
unfolding get_path read
nothing [] c h = cc
nothing (a ∷ p) c h = cc

-- What a deletion removes reads as undefined.
pub get_path-delete_at :
    (p : List String) (key : String) (j j' : Json)
    → edit_at p (delete_here key) j ≡ ok j'
    → get_path (p ++ key ∷ []) (some j') ≡ ok none
unfolding get_path edit_at delete_here read child
get_path-delete_at [] key (object fs) j' h = rw (← ok_inj h) (ap ok (lookup-drop_key_self key fs))
get_path-delete_at [] key null j' h = absurd (cc)
get_path-delete_at [] key (bool b) j' h = rw (← ok_inj h) refl
get_path-delete_at [] key (number n) j' h = rw (← ok_inj h) refl
get_path-delete_at [] key (string s) j' h = rw (← ok_inj h) refl
get_path-delete_at [] key (array vs) j' h = rw (← ok_inj h) refl
get_path-delete_at (a ∷ p) key j j' h =
    let s = edit_at-step a p (delete_here key) j j' h in
    rw s.after (rw (lookup-put_self a s.c' s.fs) (get_path-delete_at p key s.c s.c' s.inner))

-- What an edit of an object's own keys leaves alone, an edit at a path to it leaves alone.
abbrev pub Spares : Edit → List String → Type 0
Spares f q = (j j' : Json) → f j ≡ ok j' → get_path q (some j') ≡ get_path q (some j)

pub edit_at-Spares-Apart :
    (p : List String) (f : Edit) (q : List String) → Apart p q → Spares (edit_at p f) q
unfolding get_path read child
edit_at-Spares-Apart [] f q apart j j' h = absurd apart
edit_at-Spares-Apart (a ∷ p) f [] apart j j' h = absurd apart
edit_at-Spares-Apart (a ∷ p) f (b ∷ q) (inl ne) j j' h =
    let s = edit_at-step a p f j j' h in
    rw (s.after, s.before) (rw (lookup-put_ne a b s.c' s.fs ne) refl)
edit_at-Spares-Apart (a ∷ p) f (b ∷ q) (inr (e, apart)) j j' h =
    let s = edit_at-step a p f j j' h in
    rw (s.after, s.before, ← e)
      (rw (lookup-put_self a s.c' s.fs, s.found)
        (edit_at-Spares-Apart p f q apart s.c s.c' s.inner))

pub edit_at-Spares_below :
    (p : List String) (f : Edit) (q : List String) → Spares f q → Spares (edit_at p f) (p ++ q)
unfolding get_path read child edit_at
edit_at-Spares_below [] f q spares j j' h = spares j j' h
edit_at-Spares_below (a ∷ p) f q spares j j' h =
    let s = edit_at-step a p f j j' h in
    rw (s.after, s.before)
      (rw (lookup-put_self a s.c' s.fs, s.found)
        (edit_at-Spares_below p f q spares s.c s.c' s.inner))

pub assign_here-Spares :
    (key b : String) (v : Json) (q : List String) → key ≢ b → Spares (assign_here key v) (b ∷ q)
unfolding get_path read child assign_here
assign_here-Spares key b v q ne (object fs) j' h =
    rw (← ok_inj h) (rw (lookup-put_ne key b v fs ne) refl)
assign_here-Spares key b v q ne _ j' h = absurd (cc)

pub delete_here-Spares :
    (key b : String) (q : List String) → key ≢ b → Spares (delete_here key) (b ∷ q)
unfolding get_path read child delete_here
delete_here-Spares key b q ne (object fs) j' h =
    rw (← ok_inj h) (rw (lookup-drop_key_ne key b fs ne) refl)
delete_here-Spares key b q ne null j' h = absurd (cc)
delete_here-Spares key b q ne _ j' h = rw (← ok_inj h) refl

-- An edit succeeds where the path leads to a value on which it succeeds.
pub edit_at-total :
    (p : List String) (f : Edit) (j c d : Json)
    → get_path p (some j) ≡ ok (some c)
    → f c ≡ ok d
    → (j' : Json) × (edit_at p f j ≡ ok j')
unfolding get_path edit_at read child assign_here
edit_at-total [] f j c d h k = (d, rw (some_inj (ok_inj h)) k)
edit_at-total (a ∷ p) f (object fs) c d h k = elim (Option-cases (lookup a fs)) [
  | inl missing ↦ absurd (nothing p c (rw (missing, get_path) at h))
  | inr (e, found) ↦
      let (e', inner) = edit_at-total p f e c d (rw (found, get_path) at h) k in
      (object (put a e' fs), rw (found, edit_at) (rw inner refl))
]
edit_at-total (a ∷ p) f null c d h k = absurd (cc)
edit_at-total (a ∷ p) f (bool b) c d h k = absurd (nothing p c h)
edit_at-total (a ∷ p) f (number n) c d h k = absurd (nothing p c h)
edit_at-total (a ∷ p) f (string s) c d h k = absurd (nothing p c h)
edit_at-total (a ∷ p) f (array vs) c d h k = absurd (nothing p c h)

-- What an edit at a path reads there, and what is read there behind it.
pub get_path-edit_at :
    (p : List String) (f : Edit) (j j' : Json)
    → edit_at p f j ≡ ok j'
    → (c : Json) × (c' : Json) × (get_path p (some j) ≡ ok (some c))
      × (f c ≡ ok c')
      × (get_path p (some j') ≡ ok (some c'))
unfolding get_path edit_at read child
get_path-edit_at [] f j j' h = (j, j', refl, h, refl)
get_path-edit_at (a ∷ p) f j j' h =
    let s = edit_at-step a p f j j' h in
    let (c, c', before, inner, after) = get_path-edit_at p f s.c s.c' s.inner in
    (
      c,
      c',
      rw s.before (rw (s.found, get_path) before),
      inner,
      rw s.after (rw (lookup-put_self a s.c' s.fs, get_path) after),
    )

put-put : (k : String) (v w : Json) (fs : Fields) → put k w (put k v fs) ≡ put k w fs
unfolding put
put-put k v w end = ground (arith, eq_iff k k)
put-put k v w (field j u fs) = ground (arith, eq_iff j k, put-put k v w fs)

edit_at-object :
    (a : String) (p : List String) (f : Edit) (fs : Fields) (c : Json)
    → lookup a fs ≡ some c
    → edit_at (a ∷ p) f (object fs) ≡ (edit_at p f c >>= λ d. ok (object (put a d fs)))
unfolding edit_at assign_here child
edit_at-object a p f fs c found = rw (found, edit_at) refl

edit_at-put :
    (a : String) (p : List String) (f g : Edit) (fs : Fields) (c d : Json)
    → lookup a fs ≡ some c
    → edit_at p g d ≡ edit_at p f c
    → edit_at (a ∷ p) g (object (put a d fs)) ≡ (edit_at p f c >>= λ e. ok (object (put a e fs)))
edit_at-put a p f g fs c d found same =
    edit_at-object a p g (put a d fs) d (lookup-put_self a d fs)
    ∙ ap (λ m. m >>= λ e. ok (object (put a e (put a d fs)))) same
    ∙ elim (Result-cases (edit_at p f c)) [
      | inl (e, h) ↦ rw h (ap (λ gs. ok (object gs)) (put-put a d e fs))
      | inr (x, h) ↦ rw h refl
    ]

-- Of two assignments at one place the second counts.
pub assign-assign :
    (p : List String) (key : String) (v w j j' : Json)
    → edit_at p (assign_here key v) j ≡ ok j'
    → edit_at p (assign_here key w) j' ≡ edit_at p (assign_here key w) j
unfolding edit_at assign_here child
assign-assign [] key v w (object fs) j' h =
    rw (← ok_inj h) (ap (λ gs. ok (object gs)) (put-put key v w fs))
assign-assign [] key v w _ j' h = absurd (cc)
assign-assign (a ∷ p) key v w j j' h =
    let s = edit_at-step a p (assign_here key v) j j' h in
    let f = assign_here key w in
    ap (edit_at (a ∷ p) f) s.after
    ∙ edit_at-put a p f f s.fs s.c s.c' s.found (assign-assign p key v w s.c s.c' s.inner)
    ∙ sym (edit_at-object a p f s.fs s.c s.found)
    ∙ sym (ap (edit_at (a ∷ p) f) s.before)

pub get_path-append :
    (p q : List String) (o : Option Json) → get_path (p ++ q) o ≡ (get_path p o >>= get_path q)
unfolding get_path
get_path-append [] q o = refl
get_path-append (a ∷ p) q o = elim (Result-cases (read a o)) [
  | inl (next, e) ↦ rw (e, get_path) (get_path-append p q next)
  | inr (x, e) ↦ rw (e, get_path) refl
]

pub get_path-behind :
    (p q : List String) (o : Option Json) {v : Option Json} {m : Result Failure (Option Json)}
    → get_path p o ≡ ok v
    → get_path q v ≡ m
    → get_path (p ++ q) o ≡ m
get_path-behind p q o h k = get_path-append p q o ∙ ap (λ n. n >>= get_path q) h ∙ k
