-- ===== src/Store/Tests.antt =====
-- Queries, keys and calls at concrete values.
use fabric_common.Base.{◌≡◌, refl, true, false, none, [], ◌∷◌, ◌++◌, Text, codes}
use fabric_common.Base.Result.{ok, err}
use fabric_common.Config.Json.{string, number, end, field, obj, arr, put}
use fabric_common.Store.Couch.{
  greater_than_null, query_builder, with_sorts, couch_db_index, not_json,
}
use fabric_common.Store.Level.{state_filter, split_from}
use fabric_common.Store.Remote.{health, not_ok}

-- The caller's condition on the sorted column is gone.
sorted_owner :
    query_builder (field "owner" (string "tom") end) ("owner" ∷ []) 0 25
    ≡ obj (
        ("selector", obj (("owner", greater_than_null) ∷ []))
        ∷ ("sort", arr (obj (("owner", string "asc") ∷ []) ∷ []))
        ∷ ("limit", number 25)
        ∷ [])
unfolding query_builder with_sorts put
sorted_owner = refl

wrong_name :
    couch_db_index (λ ps. []) (codes "/m") none (codes "owner") ("owner" ∷ [])
    ≡ err (not_json (codes "owner"))
unfolding couch_db_index
wrong_name = refl

-- A key of the state database: the channel, the chaincode and the key, with a 0 behind each.
abbrev state_key : Text
state_key = codes "ch" ++ 0 ∷ codes "cc" ++ 0 ∷ codes "k"

of_chaincode : state_filter (codes "ch") (codes "cc") state_key ≡ true
unfolding state_filter split_from
of_chaincode = refl

of_another : state_filter (codes "ch") (codes "c") state_key ≡ false
unfolding state_filter split_from
of_another = refl

unhealthy :
    health {X = Text} (λ url. ok (codes "Service Unavailable")) (λ r. r) (codes "http://peer0:9443")
    ≡ err (not_ok (codes "http://peer0:9443/healthz") (codes "Service Unavailable"))
unfolding health
unhealthy = refl
