-- ===== src/Store/Level.antt =====
-- The filter of the state database in nodejs/leveldb.js. A missing channel or chaincode is the empty
-- text.
use fabric_common.Base.{
  Bool, Option, none, some, List, [], ◌∷◌, ◌++◌, ◌&&◌, ◌||◌, ◌==◌, Text, text_eq, is_empty,
  get_elem?, if◌then◌else◌,
}

-- `key.split('\u0000')`
unfoldable pub split_from : Text → Text → List Text
split_from acc [] = acc ∷ []
split_from acc (c ∷ s) =
    let here = acc ∷ split_from [] s in
    let on = split_from (acc ++ c ∷ []) s in if c == 0 then here else on

-- `token !== wanted` only counts where something is wanted.
abbrev pub token_matches : Text → Option Text → Bool
token_matches wanted none = is_empty wanted
token_matches wanted (some t) = is_empty wanted || text_eq t wanted

unfoldable pub state_filter : Text → Text → Text → Bool
unfolding split_from
state_filter channel chaincode_id key =
    let tokens = split_from [] key in
    token_matches channel (get_elem? tokens 0) && token_matches chaincode_id (get_elem? tokens 1)
