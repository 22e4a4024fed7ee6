-- ===== src/Tool/Peer/Laws.antt =====
-- The environment behind the signing of an update.
use fabric_common.Base.{
  ◌≡◌, refl, ◌∙◌, ◌⊎◌, inl, inr, none, some, [], ◌∷◌, arith, Text, text_eq, text_eq_iff,
  if◌then◌else◌,
}
use fabric_common.Base.Result.{Result, ok, err}
use fabric_common.Endorsement.Check.{Bytes}
use fabric_common.Tool.Disk.{Disk}
use fabric_common.Tool.Peer.{
  Env, Process, get_env, set_env, delete_env, cfg_path, local_mspid, msp_config_path,
  create_core_yml, clean_core_yml, finish_run, sign_configtx,
}

get_env-set_env :
    (n m v : Text) (e : Env)
    → get_env m (set_env n v e) ≡ (if text_eq n m then some v else get_env m e)
unfolding get_env set_env
get_env-set_env n m v [] = refl
get_env-set_env n m v ((k, w) ∷ e) =
    ground (arith, text_eq_iff k n, text_eq_iff k m, text_eq_iff n m, get_env-set_env n m v e)

get_env-delete_env :
    (n m : Text) (e : Env)
    → get_env m (delete_env n e) ≡ (if text_eq n m then none else get_env m e)
unfolding get_env delete_env
get_env-delete_env n m [] = ground arith
get_env-delete_env n m ((k, w) ∷ e) =
    ground (arith, text_eq_iff k n, text_eq_iff k m, text_eq_iff n m, get_env-delete_env n m e)

abbrev signing_env : Text → Text → Text → Env → Env
signing_env dir mspid config_path e =
    set_env msp_config_path config_path (set_env local_mspid mspid (set_env cfg_path dir e))

signing_env-settings :
    (dir mspid config_path : Text) (e : Env)
    → (get_env cfg_path (signing_env dir mspid config_path e) ≡ some dir)
      × (get_env local_mspid (signing_env dir mspid config_path e) ≡ some mspid)
      × (get_env msp_config_path (signing_env dir mspid config_path e) ≡ some config_path)
signing_env-settings dir mspid config_path e = (
  rw (get_env-set_env, get_env-set_env, get_env-set_env) refl,
  rw (get_env-set_env, get_env-set_env) refl,
  rw (get_env-set_env) refl,
)

module _ {X : Type 0} (create_dir : Disk → Text × Disk) (remove_dir : Text → Disk → Disk)
    (resolve : Text → Text → Text) (run : Text → Process → Result X Bytes × Disk)
    (bin_path : Text) where
  -- The settings of the two branches.
  abbrev pub Left : Text → Text → Text → Result X (Unit {0}) × Process → Type 0
  Left dir mspid config_path r =
      (((r.0 ≡ ok tt) × (get_env cfg_path r.1.env ≡ none))
        ⊎ ((x : X) × (r.0 ≡ err x) × (get_env cfg_path r.1.env ≡ some dir)))
      × (get_env local_mspid r.1.env ≡ some mspid)
      × (get_env msp_config_path r.1.env ≡ some config_path)

  finish_run-Left :
      (dir mspid config_path : Text) (p : Process) (r : Result X Bytes × Disk)
      → get_env cfg_path p.env ≡ some dir
      → get_env local_mspid p.env ≡ some mspid
      → get_env msp_config_path p.env ≡ some config_path
      → Left dir mspid config_path
          (finish_run create_dir remove_dir resolve run bin_path (λ out. tt) dir p r)
  unfolding clean_core_yml
  finish_run-Left dir mspid config_path p (err x, d) a b c = (inr (x, refl, a), b, c)
  finish_run-Left dir mspid config_path p (ok out, d) a b c = (
    inl (refl, get_env-delete_env cfg_path cfg_path p.env ∙ refl),
    get_env-delete_env cfg_path local_mspid p.env ∙ b,
    get_env-delete_env cfg_path msp_config_path p.env ∙ c,
  )

  -- The signing of an update: where it returns, FABRIC_CFG_PATH is not set, even if it was before;
  -- where it throws, it is the temporary directory. The MSP and the path of its configuration stay set
  -- either way.
  pub sign_configtx-Left :
      (file mspid config_path : Text) (p : Process)
      → Left
          (create_dir p.disk).0
          mspid
          config_path
          (sign_configtx create_dir remove_dir resolve run bin_path file mspid config_path p)
  unfolding sign_configtx create_core_yml
  sign_configtx-Left file mspid config_path p =
      let dir = (create_dir p.disk).0 in
      let (a, b, c) = signing_env-settings dir mspid config_path p.env in
      let p2 : Process = record {
        env = signing_env dir mspid config_path p.env;
        disk = (create_core_yml create_dir remove_dir resolve run bin_path p).1.disk;
      } in
      finish_run-Left dir mspid config_path p2 _ a b c
