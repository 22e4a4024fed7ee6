-- ===== src/Ca/Identity.antt =====
-- `IdentityServiceWrapper` of nodejs/ca/identityService.js over the SDK's identity service, the fields
-- of `IdentityService`. `W` is the state of the CA, and `X` what the SDK throws.
use fabric_common.Base.{
  ℕ, zero, Bool, false, Option, none, some, List, [], ◌∷◌, ◌==◌, ◌&&◌, not, Text, codes, text_eq,
  any, if◌then◌else◌,
}
use fabric_common.Base.Result.{Result, ok, err}
use fabric_common.Base.Io.{Io, ◌>>=◌, pure, raise}
use fabric_common.Endorsement.Lifecycle.{is_given}

pub record ServerError : Type 0 where
  pub code : ℕ
  pub message : Text

pub data Failure (X : Type 0) : Type 0 where
  service : X → Failure X
  invalid_role : Option Text → Failure X

-- A number of enrolments; `unlimited` is -1.
pub data Limit : Type 0 where
  limited : ℕ → Limit
  unlimited : Limit

pub record IdentityRequest (Attribute : Type 0) : Type 0 where
  pub enrollment_id : Option Text
  pub enrollment_secret : Option Text
  pub affiliation : Option Text
  pub type : Option Text
  pub max_enrollments : Option Limit
  pub attrs : Option (List Attribute)
  pub caname : Option Text

-- `errors_of` is the property `errors` of what is thrown; `none` is one that is not an array.
pub record IdentityService (W X Attribute Identity : Type 0) : Type 0 where
  pub allowed_types : List Text
  pub errors_of : X → Option (List ServerError)
  pub get_one : Option Text → Io W X Identity
  pub get_all : Io W X (List Identity)
  pub create : IdentityRequest Attribute → Io W X Text
  pub update : Option Text → IdentityRequest Attribute → Io W X Identity
  pub delete : Option Text → Io W X Identity

abbrev pub is_single_error : Text → Option (List ServerError) → Bool
is_single_error message none = false
is_single_error message (some []) = false
is_single_error message (some (e ∷ [])) = e.code == 63 && text_eq e.message message
is_single_error message (some (e ∷ f ∷ es)) = false

abbrev pub is_allowed : List Text → Option Text → Bool
is_allowed types none = false
is_allowed types (some role) = any (λ t. text_eq t role) types

-- A number that is missing or 0 is falsy.
abbrev pub or_unlimited : Option Limit → Limit
or_unlimited none = unlimited
or_unlimited (some (limited zero)) = unlimited
or_unlimited (some limit) = limit

module _ {W X A : Type 0} where
  abbrev pub wrap : Result X A × W → Result (Failure X) A × W
  wrap (ok a, w) = (ok a, w)
  wrap (err x, w) = (err (service x), w)

  -- A call of the service.
  abbrev pub call : Io W X A → Io W (Failure X) A
  call m w = wrap (m w)

  -- `none` where the service throws that there is no such row.
  abbrev pub unless_missing : (X → Bool) → Result X A × W → Result (Failure X) (Option A) × W
  unless_missing is_missing (ok a, w) = (ok (some a), w)
  unless_missing is_missing (err x, w) = (if is_missing x then ok none else err (service x), w)

module _ {W X Attribute Identity : Type 0} (sdk : IdentityService W X Attribute Identity) where
  -- `isNotExistError`
  unfoldable pub is_not_exist_error : X → Bool
  is_not_exist_error x =
      is_single_error (codes "Failed to get User: sql: no rows in result set") (sdk.errors_of x)

  -- `getOne`
  unfoldable pub get_one : Option Text → Io W (Failure X) (Option Identity)
  unfolding is_not_exist_error
  get_one id w = unless_missing is_not_exist_error (sdk.get_one id w)

  -- `delete`
  unfoldable pub delete : Option Text → Io W (Failure X) (Option Identity)
  unfolding is_not_exist_error
  delete id w = unless_missing is_not_exist_error (sdk.delete id w)

  -- `getAll`
  unfoldable pub get_all : Io W (Failure X) (List Identity)
  get_all = call sdk.get_all

  -- What `createIfNotExist` does where nothing exists; a role that is not given is not checked.
  unfoldable pub create_new : IdentityRequest Attribute → Io W (Failure X) (Option Text)
  create_new q =
      let request = record q { max_enrollments = some (or_unlimited q.max_enrollments) } in
      if is_given q.type && not (is_allowed sdk.allowed_types q.type)
      then raise (invalid_role q.type)
      else call (sdk.create request) >>= λ secret. pure (some secret)

  abbrev pub create_unless :
      IdentityRequest Attribute → Option Identity → Io W (Failure X) (Option Text)
  create_unless q (some existing) = pure none
  create_unless q none = create_new q

  -- `createIfNotExist`: the secret, if the identity is new.
  unfoldable pub create_if_not_exist : IdentityRequest Attribute → Io W (Failure X) (Option Text)
  unfolding get_one
  create_if_not_exist q = get_one q.enrollment_id >>= create_unless q

  -- `update`
  unfoldable pub update : IdentityRequest Attribute → Io W (Failure X) Identity
  update q =
      if is_allowed sdk.allowed_types q.type
      then call (sdk.update q.enrollment_id q)
      else raise (invalid_role q.type)
