-- ===== src/Tool/Peer.antt =====
-- `peer` and `lifecycle` of nodejs/binManager/peer.js: the settings and the directory that stand
-- around a run. `create_dir` and `remove_dir` are those of `createTmpDir`, `resolve` is `path.resolve`,
-- and a run is its outcome and the files that it leaves.
pub mod Laws
use fabric_common.Base.{
  Option, none, some, List, [], ◌∷◌, ◌++◌, Text, codes, text_eq, if◌then◌else◌,
}
use fabric_common.Base.Result.{Result, ok, err}
use fabric_common.Base.Io.{Io}
use fabric_common.Endorsement.Check.{Bytes}
use fabric_common.Tool.Disk.{Disk, write_file}
use fabric_common.Tool.Command.{build_cmd}

abbrev pub Env : Type 0
Env = List (Text × Text)

-- `process.env`
unfoldable pub get_env : Text → Env → Option Text
get_env name [] = none
get_env name ((n, v) ∷ e) = if text_eq n name then some v else get_env name e

unfoldable pub set_env : Text → Text → Env → Env
set_env name v [] = (name, v) ∷ []
set_env name v ((n, w) ∷ e) =
    let rest = set_env name v e in if text_eq n name then (n, v) ∷ e else (n, w) ∷ rest

unfoldable pub delete_env : Text → Env → Env
delete_env name [] = []
delete_env name ((n, w) ∷ e) =
    let rest = delete_env name e in if text_eq n name then rest else (n, w) ∷ rest

pub record Process : Type 0 where
  pub env : Env
  pub disk : Disk

abbrev pub cfg_path : Text
cfg_path = codes "FABRIC_CFG_PATH"

abbrev pub local_mspid : Text
local_mspid = codes "CORE_PEER_LOCALMSPID"

abbrev pub msp_config_path : Text
msp_config_path = codes "CORE_PEER_MSPCONFIGPATH"

module _ {X : Type 0} (create_dir : Disk → Text × Disk) (remove_dir : Text → Disk → Disk)
    (resolve : Text → Text → Text) (run : Text → Process → Result X Bytes × Disk)
    (bin_path : Text) where
  -- `createTmpCoreYml`: the directory, and the process with it.
  unfoldable pub create_core_yml : Process → Text × Process
  unfolding set_env
  create_core_yml p =
      let (dir, d) = create_dir p.disk in
      (
        dir,
        record {
          env = set_env cfg_path dir p.env;
          disk = write_file (resolve dir (codes "core.yml")) [] d;
        },
      )

  -- The function that it returns.
  unfoldable pub clean_core_yml : Text → Process → Process
  unfolding delete_env
  clean_core_yml dir p = record { env = delete_env cfg_path p.env; disk = remove_dir dir p.disk }

  -- What a call returns of the output.
  abbrev pub finish_run :
      {A : Type 0} → (Bytes → A) → Text → Process → Result X Bytes × Disk → Result X A × Process
  finish_run view dir p (err x, d) = (err x, record p { disk = d })
  finish_run view dir p (ok out, d) = (ok (view out), clean_core_yml dir (record p { disk = d }))

  -- `signconfigtx`
  unfoldable pub sign_configtx : Text → Text → Text → Io Process X (Unit {0})
  unfolding create_core_yml clean_core_yml set_env build_cmd
  sign_configtx file mspid config_path p =
      let (dir, p1) = create_core_yml p in
      let p2 : Process = record p1 {
        env = set_env msp_config_path config_path (set_env local_mspid mspid p1.env);
      } in
      finish_run (λ out. tt) dir p2
        (run
          (build_cmd resolve bin_path (codes "peer")
            ((codes "channel signconfigtx --file " ++ file) ∷ []))
          p2)

  abbrev pub lifecycle_executable : Text
  lifecycle_executable = codes "peer lifecycle chaincode"

  abbrev pub in_core_yml : {A : Type 0} → (Bytes → A) → Text → Io Process X A
  in_core_yml view command p =
      let (dir, p1) = create_core_yml p in finish_run view dir p1 (run command p1)

  -- `package` and `packageID`
  unfoldable pub package_chaincode : Text → Text → Text → Text → Io Process X Text
  unfolding create_core_yml clean_core_yml build_cmd
  package_chaincode type label path output =
      in_core_yml (λ out. output)
        (build_cmd resolve bin_path lifecycle_executable (
          codes "package"
          ∷ (codes "--label=" ++ label ++ codes " --lang=" ++ type ++ codes " --path=" ++ path)
          ∷ output
          ∷ []))

  unfoldable pub package_id : Text → Io Process X Bytes
  unfolding create_core_yml clean_core_yml build_cmd
  package_id archive =
      in_core_yml (λ out. out)
        (build_cmd resolve bin_path lifecycle_executable
          ((codes "calculatepackageid " ++ archive) ∷ []))
