-- ===== src/Tool/Package.antt =====
-- `ChaincodePackage.calculateID` of nodejs/chaincodePackage.js, and `pack` where the binary packs. The
-- digest and the runs are parameters.
use fabric_common.Base.{
  Bool, true, false, Option, none, some, ◌++◌, Text, codes, is_empty, if◌then◌else◌,
}
use fabric_common.Base.Result.{Result, ok, err}
use fabric_common.Base.Io.{Io, ◌>>=◌, pure, raise}
use fabric_common.Endorsement.Check.{Bytes}
use fabric_common.Tool.Disk.{read_file}
use fabric_common.Tool.Peer.{Process}
use fabric_common.Channel.Anchor.{trim}

pub data Failure (X : Type 0) : Type 0 where
  run_failed : X → Failure X
  no_archive : Failure X

pub record ChaincodePackage : Type 0 where
  pub path : Text
  pub type : Text
  pub label : Text

-- The constructor: the type is golang if it is not given.
unfoldable pub new_package : Text → Text → Text → ChaincodePackage
new_package path type label = record {
  path = path;
  type = if is_empty type then codes "golang" else type;
  label = label;
}

-- The calls of the binary's `lifecycle`: `packageID` and `package`.
pub record Lifecycle (X : Type 0) : Type 0 where
  pub package_id_of : Text → Io Process X Text
  pub package_to : Text → Text → Text → Text → Io Process X Text

abbrev pub wrapped : {X A : Type 0} → Result X A × Process → Result (Failure X) A × Process
wrapped (ok a, p) = (ok a, p)
wrapped (err x, p) = (err (run_failed x), p)

module _ {X : Type 0} (sha2_256 : Bytes → Text) (shell : Text → Io Process X Text) where
  abbrev pub failing : {A : Type 0} → Io Process X A → Io Process (Failure X) A
  failing m p = wrapped (m p)

  abbrev pub labelled : ChaincodePackage → Text → Text
  labelled c hash = c.label ++ codes ":" ++ hash

  abbrev pub digest_of : ChaincodePackage → Option Bytes → Io Process (Failure X) Text
  digest_of c none = raise no_archive
  digest_of c (some b) = pure (labelled c (sha2_256 b))

  -- `calculateID`
  unfoldable pub calculate_id :
      ChaincodePackage → Text → Option (Lifecycle X) → Bool → Io Process (Failure X) Text
  unfolding read_file
  calculate_id c archive tool true =
      failing (shell (codes "sha256sum " ++ archive ++ codes " | awk '{print $1}'")) >>= λ hash.
      pure (labelled c (trim hash))
  calculate_id c archive (some tool) false =
      failing (tool.package_id_of archive) >>= λ out. pure (trim out)
  calculate_id c archive none false = λ p. digest_of c (read_file archive p.disk) p

  -- `pack` of a type that the binary knows.
  unfoldable pub pack_by_tool : ChaincodePackage → Text → Lifecycle X → Io Process (Failure X) Text
  unfolding calculate_id
  pack_by_tool c output tool = failing (tool.package_to c.type c.label c.path output) >>= λ written.
      calculate_id c output (some tool) false
