-- ===== src/Store/Couch.antt =====
-- `queryBuilder` and `couchDBIndex` of nodejs/couchdb.js. The query is the JSON value whose text the
-- code returns; `resolve` is `path.resolve` of all its arguments.
pub mod Laws
use Prim.Native.String.{String}
use fabric_common.Base.{
  ℕ, zero, suc, Option, none, some, List, [], ◌∷◌, ◌++◌, map, Text, codes, starts_with, is_empty,
  if◌then◌else◌,
}
use fabric_common.Base.Result.{Result, ok, err}
use fabric_common.Config.Json.{
  Json, null, number, string, array, object, Items, nil, cons, Fields, end, field, put, obj, arr,
}

abbrev pub greater_than_null : Json
greater_than_null = obj (("$gt", null) ∷ [])

-- `{[sortCol]: directions[direction]}`: a value that is undefined is not written.
abbrev pub sort_entry : ℕ → String → Json
sort_entry zero col = obj ((col, string "asc") ∷ [])
sort_entry (suc zero) col = obj ((col, string "desc") ∷ [])
sort_entry (suc (suc n)) col = object end

-- The selector behind the loop.
unfoldable pub with_sorts : List String → Fields → Fields
unfolding put
with_sorts [] selector = selector
with_sorts (col ∷ cols) selector = with_sorts cols (put col greater_than_null selector)

-- `queryBuilder`
unfoldable pub query_builder : Fields → List String → ℕ → ℕ → Json
unfolding with_sorts
query_builder selector sorts direction limit = object (
    field "selector" (object (with_sorts sorts selector))
      (field "sort" (arr (map (sort_entry direction) sorts)) (field "limit" (number limit) end)))

abbrev pub ends_with_reversed : Text → Text → Text
ends_with_reversed [] acc = acc
ends_with_reversed (c ∷ s) acc = ends_with_reversed s (c ∷ acc)

abbrev pub reversed : Text → Text
reversed s = ends_with_reversed s []

pub data NotJson : Type 0 where
  not_json : Text → NotJson

-- The path of the index and its content.
unfoldable pub couch_db_index :
    (List Text → Text) → Text → Option Text → Text → List String → Result NotJson (Text × Json)
couch_db_index resolve meta_inf collection file_name fields =
    let name = if is_empty file_name then codes "index.json" else file_name in
    let dir = elim collection as (λ c. List Text) [
      | none ↦ codes "indexes" ∷ []
      | some c ↦
          if is_empty c
          then codes "indexes" ∷ []
          else codes "collections" ∷ c ∷ codes "indexes" ∷ []
    ] in
    let index =
      obj (
        ("index", obj (("fields", arr (map string fields)) ∷ [])) ∷ ("type", string "json") ∷ []) in
    if starts_with (reversed name) (reversed (codes ".json"))
    then ok (resolve (meta_inf ∷ codes "statedb" ∷ codes "couchdb" ∷ (dir ++ name ∷ [])), index)
    else err (not_json name)
