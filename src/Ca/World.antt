-- ===== src/Ca/World.antt =====
-- What the generation of key material works on: the files and the CA, an enrolment (`enroll` of
-- nodejs/ca/certificateService.js) and what comes of a registration (nodejs/ca/ca-crypto-gen.js).
-- Nobody here brings a signing request, so each enrolment makes a key.
use fabric_common.Base.{ℕ, Bool, Option, List, ◌++◌, Text, codes, if◌then◌else◌}
use fabric_common.Base.Result.{Result, ok, err}
use fabric_common.Base.Io.{Io}
use fabric_common.Endorsement.Lifecycle.{is_given, shown}
use fabric_common.Crypto.Files.{Bytes}
use fabric_common.Crypto.Location as Location
use fabric_common.Crypto.Material.{Material}
use fabric_common.Ca.Identity.{Failure}

pub record EnrollRequest : Type 0 where
  pub enrollment_id : Option Text
  pub enrollment_secret : Option Text
  pub profile : Option Text
  pub subject : Option Text
  pub dns : List (Option Text)

-- The SDK's client for enrolments; `new_csr` makes a key and a signing request for a subject and
-- names of hosts.
pub record Enroller (W X : Type 0) : Type 0 where
  pub new_csr : ℕ → Text → List (Option Text) → W → (Bytes × Bytes) × W
  pub enroll : Option Text → Option Text → Bytes → Option Text → Io W X (Bytes × Bytes)
  pub is_endpoint_failure : X → Bool

-- What stops the generation of key material; `waiting` is an administrator who is not enrolled yet.
pub data Stop (X : Type 0) : Type 0 where
  files : Location.Failure → Stop X
  authority : Failure X → Stop X
  waiting : Stop X

pub data Status : Type 0 where
  generated existed assigned : Status

pub record Registration : Type 0 where
  pub enrollment_id : Option Text
  pub enrollment_secret : Option Text
  pub status : Status

-- The files, and the state of the CA.
pub record World (S W : Type 0) : Type 0 where
  pub files : S
  pub ca : W

module _ {S W X A : Type 0} where
  abbrev pub keep_ca : W → Result Location.Failure A × S → Result (Stop X) A × World S W
  keep_ca w (ok a, s) = (ok a, record { files = s; ca = w })
  keep_ca w (err x, s) = (err (files x), record { files = s; ca = w })

  abbrev pub on_files : Io S Location.Failure A → Io (World S W) (Stop X) A
  on_files m w = keep_ca w.ca (m w.files)

  abbrev pub keep_files : S → Result (Failure X) A × W → Result (Stop X) A × World S W
  keep_files s (ok a, w) = (ok a, record { files = s; ca = w })
  keep_files s (err x, w) = (err (authority x), record { files = s; ca = w })

  abbrev pub on_ca : Io W (Failure X) A → Io (World S W) (Stop X) A
  on_ca m w = keep_files w.files (m w.ca)

module _ {W X : Type 0} (sdk : Enroller W X) where
  abbrev pub finish_enroll : Bytes → Result X (Bytes × Bytes) × W → Result X Material × W
  finish_enroll key (ok issued, w) =
      let m : Material = record {
        key = key;
        certificate = issued.0;
        root_certificate = issued.1;
      } in
      (ok m, w)
  finish_enroll key (err x, w) = (err x, w)

  -- `enroll`, with the size of its keys.
  unfoldable pub enroll : EnrollRequest → Io W X Material
  enroll q w =
      let subject =
        if is_given q.subject then shown q.subject else codes "CN=" ++ shown q.enrollment_id in
      let (pair, w') = sdk.new_csr 256 subject q.dns w in
      finish_enroll (pair.0) (sdk.enroll q.enrollment_id q.enrollment_secret (pair.1) q.profile w')

-- `registerIfNotExist`, where `secret` is what `createIfNotExist` returns.
unfoldable pub registration : Option Text → Option Text → Option Text → Registration
registration id enrollment_secret secret = record {
  enrollment_id = id;
  enrollment_secret = if is_given enrollment_secret then enrollment_secret else secret;
  status =
      if is_given enrollment_secret
      then if is_given secret then assigned else existed
      else generated;
}
