-- ===== src/Client/User.antt =====
-- `UserBuilder.build` and the transaction ids of nodejs/admin/user.js. Keys and signing identities are
-- the crypto suite's; a file that cannot be read throws.
use fabric_common.Base.{Option, none, some, [], ◌∷◌, Text}
use fabric_common.Base.Result.{Result, ok, ◌>>=◌}
use fabric_common.Endorsement.Check.{Bytes}
use fabric_common.View.Block.{Creator, calculate_transaction_id}

-- A key that a caller gives: the suite's own, or its text.
pub data GivenKey (Key : Type 0) : Type 0 where
  own_key : Key → GivenKey Key
  pem_key : Text → GivenKey Key

pub record BuildOpts (Key : Type 0) : Type 0 where
  pub key : Option (GivenKey Key)
  pub keystore : Text
  pub certificate : Option Text
  pub cert : Text
  pub mspid : Text

pub record Identity (Key : Type 0) : Type 0 where
  pub certificate : Text
  pub public_key : Key
  pub msp_id : Text
  pub private_key : Key

module _ {X Key : Type 0} (read_file : Text → Result X Text)
    (create_key_from_raw : Text → Result X Key) where
  -- An empty text counts as missing.
  abbrev pub text_or_file : Option Text → Text → Result X Text
  text_or_file none path = read_file path
  text_or_file (some []) path = read_file path
  text_or_file (some (c ∷ s)) path = ok (c ∷ s)

  unfoldable pub private_key_of : Option (GivenKey Key) → Text → Result X Key
  private_key_of (some (own_key k)) keystore = ok k
  private_key_of (some (pem_key s)) keystore =
      text_or_file (some s) keystore >>= create_key_from_raw
  private_key_of none keystore = read_file keystore >>= create_key_from_raw

  -- `build`
  unfoldable pub build_user : BuildOpts Key → Result X (Identity Key)
  unfolding private_key_of
  build_user o = private_key_of o.key o.keystore >>= λ private.
      text_or_file o.certificate o.cert >>= λ certificate.
      create_key_from_raw certificate >>= λ public. ok record {
        certificate = certificate;
        public_key = public;
        msp_id = o.mspid;
        private_key = private;
      }

-- `calculateTransactionId`: the certificate is the creator's identity.
unfoldable pub user_transaction_id :
    {Key : Type 0} → (Bytes → Text) → (Creator → Bytes) → Identity Key → Text → Bytes → Text
unfolding calculate_transaction_id
user_transaction_id sha2_256 encode_identity identity mspid nonce =
    calculate_transaction_id sha2_256 encode_identity
      record { creator = record { mspid = mspid; id_bytes = identity.certificate }; nonce = nonce }
