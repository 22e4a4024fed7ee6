-- ===== src/Ca/Affiliation.antt =====
-- `AffiliationServiceBuilder` of nodejs/ca/affiliationService.js over the SDK's affiliation service.
use fabric_common.Base.{
  Bool, Option, none, some, List, [], ◌∷◌, Text, codes, text_eq, if◌then◌else◌,
}
use fabric_common.Base.Io.{Io, ◌>>=◌, pure}
use fabric_common.Ca.Identity.{Failure, ServerError, is_single_error, call, unless_missing}

-- An affiliation with the names below it.
pub record Entry : Type 0 where
  pub name : Text
  pub affiliations : Option (List Text)

pub record AffiliationService (W X Affiliation : Type 0) : Type 0 where
  pub errors_of : X → Option (List ServerError)
  pub get_one : Text → Io W X Affiliation
  pub get_all : Io W X (Text × List Entry)
  pub create : Text → Bool → Io W X Affiliation
  pub delete : Text → Io W X Affiliation

abbrev pub names_below : Option (List Text) → List Text
names_below none = []
names_below (some names) = names

-- `affiliationsMap[entryName] = …`
unfoldable pub put_names : Text → List Text → List (Text × List Text) → List (Text × List Text)
put_names name below [] = (name, below) ∷ []
put_names name below ((n, b) ∷ m) =
    let rest = put_names name below m in if text_eq n name then (n, below) ∷ m else (n, b) ∷ rest

unfoldable pub affiliations_map : List Entry → List (Text × List Text) → List (Text × List Text)
unfolding put_names
affiliations_map [] m = m
affiliations_map (e ∷ es) m = affiliations_map es (put_names e.name (names_below e.affiliations) m)

module _ {W X Affiliation : Type 0} (sdk : AffiliationService W X Affiliation) where
  -- `getOne`
  unfoldable pub get_one : Text → Io W (Failure X) (Option Affiliation)
  get_one name w =
      unless_missing
        (λ x.
          is_single_error (codes "Failed to get affiliation: sql: no rows in result set")
            (sdk.errors_of x))
        (sdk.get_one name w)

  abbrev pub create_unless : Text → Bool → Option Affiliation → Io W (Failure X) Affiliation
  create_unless name force (some existing) = pure existing
  create_unless name force none = call (sdk.create name force)

  -- `createIfNotExist`
  unfoldable pub create_if_not_exist : Text → Bool → Io W (Failure X) Affiliation
  unfolding get_one
  create_if_not_exist name force = get_one name >>= create_unless name force

  -- `getAll`
  unfoldable pub get_all : Io W (Failure X) (List (Text × List Text) × Text)
  unfolding affiliations_map
  get_all = call sdk.get_all >>= λ result. pure (affiliations_map (result.1) [], result.0)

  -- `delete`, which returns nothing.
  unfoldable pub delete : Text → Io W (Failure X) Unit
  delete name = call (sdk.delete name) >>= λ _. pure tt
