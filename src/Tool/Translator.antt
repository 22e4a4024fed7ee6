-- ===== src/Tool/Translator.antt =====
-- `configtxlator` of nodejs/binManager/configtxlator.js: `encode`, `decode` and `computeUpdate` on
-- temporary files. A run of the binary is a parameter: its outcome and the files that it leaves.
pub mod Laws
use fabric_common.Base.{Option, none, some, List, [], ◌∷◌, Text, codes}
use fabric_common.Base.Result.{Result, ok, err}
use fabric_common.Base.Io.{Io, ◌>>=◌, pure, raise}
use fabric_common.Endorsement.Check.{Bytes}
use fabric_common.Tool.Disk.{Disk, CreateTmp, read_file, write_file, remove_file}
use fabric_common.Tool.Command.{encode_file_cmd, decode_file_cmd, compute_update_file_cmd}

-- What a call throws: what the run throws, or that the output cannot be read.
pub data Failure (X : Type 0) : Type 0 where
  run_failed : X → Failure X
  no_output : Failure X

-- A temporary file: the end of its name and, if it is an input, its content.
pub record Tmp : Type 0 where
  pub postfix : Text
  pub content : Option Bytes

-- The calls of `createTmpFile`, in order.
unfoldable pub create_all : CreateTmp → List Tmp → Disk → List Text × Disk
create_all create [] d = ([], d)
create_all create (t ∷ ts) d =
    let (p, d1) = create t.postfix d in let (ps, d2) = create_all create ts d1 in (p ∷ ps, d2)

abbrev pub write_one : Option Bytes → Text → Disk → Disk
write_one none p d = d
write_one (some c) p d = write_file p c d

-- The calls of `writeFileSync`.
unfoldable pub write_all : List Tmp → List Text → Disk → Disk
write_all [] ps d = d
write_all ts [] d = d
write_all (t ∷ ts) (p ∷ ps) d = write_all ts ps (write_one t.content p d)

-- The calls of the cleaners.
unfoldable pub remove_all : List Text → Disk → Disk
remove_all [] d = d
remove_all (p ∷ ps) d = remove_all ps (remove_file p d)

-- The output is the last file.
abbrev pub last_path : List Text → Text
last_path [] = []
last_path (p ∷ []) = p
last_path (p ∷ q ∷ ps) = last_path (q ∷ ps)

abbrev pub first_path : List Text → Text
first_path [] = []
first_path (p ∷ ps) = p

abbrev pub rest_paths : List Text → List Text
rest_paths [] = []
rest_paths (p ∷ ps) = ps

module _ {X : Type 0} (create : CreateTmp) (run : Text → Disk → Result X (Unit {0}) × Disk) where
  -- What follows the run: the output is read and the files are removed, or the error leaves all.
  abbrev pub cleaned : List Text → Option Bytes → Disk → Result (Failure X) Bytes × Disk
  cleaned ps none d = (err no_output, d)
  cleaned ps (some b) d = (ok b, remove_all ps d)

  abbrev pub finish_run : List Text → Result X (Unit {0}) × Disk → Result (Failure X) Bytes × Disk
  finish_run ps (err x, d) = (err (run_failed x), d)
  finish_run ps (ok _, d) = cleaned ps (read_file (last_path ps) d) d

  unfoldable pub on_files : List Tmp → (List Text → Text) → Io Disk (Failure X) Bytes
  unfolding create_all write_all remove_all read_file
  on_files ts command d =
      let (ps, d1) = create_all create ts d in finish_run ps (run (command ps) (write_all ts ps d1))

  module _ (resolve : Text → Text → Text) (bin_path : Text) where
    -- `encode`
    unfoldable pub encode : Text → Bytes → Io Disk (Failure X) Bytes
    unfolding on_files encode_file_cmd
    encode type json =
        on_files
          (record { postfix = codes ".json"; content = some json }
            ∷ record { postfix = []; content = none }
            ∷ [])
          (λ ps. encode_file_cmd resolve bin_path type (first_path ps) (first_path (rest_paths ps)))

    -- `decode`
    unfoldable pub decode : Text → Bytes → Io Disk (Failure X) Bytes
    unfolding on_files decode_file_cmd
    decode type proto =
        on_files
          (record { postfix = []; content = some proto }
            ∷ record { postfix = codes ".json"; content = none }
            ∷ [])
          (λ ps. decode_file_cmd resolve bin_path type (first_path ps) (first_path (rest_paths ps)))

    abbrev pub update_cmd : Text → List Text → Text
    update_cmd channel ps =
        compute_update_file_cmd resolve bin_path channel (first_path ps)
          (first_path (rest_paths ps)) (first_path (rest_paths (rest_paths ps)))

    -- `computeUpdate`
    unfoldable pub compute_update : Text → Bytes → Bytes → Io Disk (Failure X) Bytes
    unfolding on_files compute_update_file_cmd
    compute_update channel original updated =
        on_files
          (record { postfix = []; content = some original }
            ∷ record { postfix = []; content = some updated }
            ∷ record { postfix = []; content = none }
            ∷ [])
          (update_cmd channel)
