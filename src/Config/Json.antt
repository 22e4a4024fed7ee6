-- ===== src/Config/Json.antt =====
-- JSON values as JavaScript reads and writes them: property access, assignment and `delete` at a
-- path. The undefined value is `none`. Strict mode: a write to a value that is no object throws.
-- Objects have no inherited properties here, and arrays no named ones.
pub mod Paths
use Prim.Native.String.{String}
use text.Mathlib.Text.{◌==◌ as str_eq}
use fabric_common.Base.{
  ℕ, zero, suc, Bool, true, false, Option, none, some, List, [], ◌∷◌, if◌then◌else◌,
}
use fabric_common.Base.Result.{Result, ok, err, ◌>>=◌}

mutual
  pub data Json : Type 0 where
    null : Json
    bool : Bool → Json
    number : ℕ → Json
    string : String → Json
    array : Items → Json
    object : Fields → Json

  pub data Items : Type 0 where
    nil : Items
    cons : Json → Items → Items

  pub data Fields : Type 0 where
    end : Fields
    field : String → Json → Fields → Fields

-- What the code throws: a TypeError, a failed read of a file, or the factory's own Error.
pub data Failure : Type 0 where
  type_error io_error unsupported : Failure

abbrev pub Object : Type 0
Object = List (String × Json)

abbrev pub fields : Object → Fields
fields [] = end
fields ((k, v) ∷ fs) = field k v (fields fs)

abbrev pub items : List Json → Items
items [] = nil
items (v ∷ vs) = cons v (items vs)

unfoldable pub lookup : String → Fields → Option Json
lookup key end = none
lookup key (field k v fs) = if str_eq k key then some v else lookup key fs

-- An existing property keeps its place, a new one goes to the end.
unfoldable pub put : String → Json → Fields → Fields
put key v end = field key v end
put key v (field k w fs) = if str_eq k key then field k v fs else field k w (put key v fs)

unfoldable pub drop_key : String → Fields → Fields
drop_key key end = end
drop_key key (field k w fs) =
    let rest = drop_key key fs in if str_eq k key then rest else field k w rest

-- A property of a value that is neither undefined nor null.
unfoldable pub child : String → Json → Option Json
unfolding lookup
child key (object fs) = lookup key fs
child key _ = none

-- `o[key]`
unfoldable pub read : String → Option Json → Result Failure (Option Json)
unfolding child
read key none = err type_error
read key (some null) = err type_error
read key (some j) = ok (child key j)

-- `o.a.b.c`
unfoldable pub get_path : List String → Option Json → Result Failure (Option Json)
unfolding read
get_path [] o = ok o
get_path (key ∷ keys) o = read key o >>= λ next. get_path keys next

abbrev pub Edit : Type 0
Edit = Json → Result Failure Json

-- `o[key] = v` at the object itself.
unfoldable pub assign_here : String → Json → Edit
unfolding put
assign_here key v (object fs) = ok (object (put key v fs))
assign_here key v _ = err type_error

-- `delete o[key]` at the object itself; on a value with no such property it does nothing.
unfoldable pub delete_here : String → Edit
unfolding drop_key
delete_here key null = err type_error
delete_here key (object fs) = ok (object (drop_key key fs))
delete_here key j = ok j

-- An edit in place of the value at a path, each step of which is a property access.
unfoldable pub edit_at : List String → Edit → Edit
unfolding child assign_here
edit_at [] f j = f j
edit_at (key ∷ keys) f j = elim (child key j) [
  | none ↦ err type_error
  | some c ↦ edit_at keys f c >>= λ c'. assign_here key c' j
]

-- `o.a.b[key] = v` and `delete o.a.b[key]`
abbrev pub assign : List String → String → Json → Edit
assign path key v = edit_at path (assign_here key v)

abbrev pub delete_at : List String → String → Edit
delete_at path key = edit_at path (delete_here key)

-- A value as a condition.
abbrev pub truthy : Option Json → Bool
truthy none = false
truthy (some null) = false
truthy (some (bool b)) = b
truthy (some (number zero)) = false
truthy (some (number (suc n))) = true
truthy (some (string s)) = elim s [ String.[] ↦ false | String.◌∷◌ _ _ ↦ true ]
truthy (some (array _)) = true
truthy (some (object _)) = true

abbrev pub obj : Object → Json
obj fs = object (fields fs)

abbrev pub arr : List Json → Json
arr vs = array (items vs)
