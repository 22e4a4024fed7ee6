-- ===== src/Tool/Command.antt =====
-- The command lines of nodejs/binManager: binManager.js, configtxgen.js, configtxlator.js and
-- osnadmin.js. `resolve` is `path.resolve`.
use fabric_common.Base.{
  ℕ, Option, none, some, List, [], ◌∷◌, ◌++◌, Text, codes, text_eq, is_empty, if◌then◌else◌, any,
}
use fabric_common.Base.Result.{Result, ok, err}
use fabric_common.Base.Decimal.{print_int}

pub data Missing : Type 0 where
  no_path no_directory : Missing
  no_binary : Text → Missing

abbrev pub expected_binaries : List Text
expected_binaries =
    codes "configtxgen"
    ∷ codes "configtxlator"
    ∷ codes "cryptogen"
    ∷ codes "discover"
    ∷ codes "fabric-ca-client"
    ∷ codes "fabric-ca-server"
    ∷ codes "ledgerutil"
    ∷ codes "orderer"
    ∷ codes "osnadmin"
    ∷ codes "peer"
    ∷ []

-- `every` with a callback that throws or returns undefined: it ends behind the first binary.
unfoldable pub check_binaries : List Text → List Text → Result Missing (Unit {0})
check_binaries files [] = ok tt
check_binaries files (b ∷ bs) = if any (text_eq b) files then ok tt else err (no_binary b)

-- The constructor of `BinManager`; `readdir` is `none` where there is no directory.
unfoldable pub new_bin_manager : (Text → Option (List Text)) → Text → Result Missing Text
unfolding check_binaries
new_bin_manager readdir bin_path =
    if is_empty bin_path then err no_path else elim (readdir bin_path) [
      | none ↦ err no_directory
      | some files ↦ elim (check_binaries files expected_binaries) [
        | err x ↦ err x
        | ok _ ↦ ok bin_path
      ]
    ]

-- `args.join(sep)`
abbrev pub join_rest : Text → List Text → Text
join_rest sep [] = []
join_rest sep (s ∷ ss) = sep ++ s ++ join_rest sep ss

abbrev pub join_texts : Text → List Text → Text
join_texts sep [] = []
join_texts sep (s ∷ ss) = s ++ join_rest sep ss

module _ (resolve : Text → Text → Text) (bin_path : Text) where
  -- `_buildCMD`
  unfoldable pub build_cmd : Text → List Text → Text
  build_cmd executable args =
      resolve bin_path executable ++ codes " " ++ join_texts (codes " ") args

  -- `encodeFile`, `decodeFile` and `computeUpdateFile` of configtxlator.
  unfoldable pub encode_file_cmd : Text → Text → Text → Text
  unfolding build_cmd
  encode_file_cmd type input output = build_cmd (codes "configtxlator") (
      (codes "proto_encode --type="
        ++ type
        ++ codes " --input="
        ++ input
        ++ codes " --output="
        ++ output)
      ∷ [])

  unfoldable pub decode_file_cmd : Text → Text → Text → Text
  unfolding build_cmd
  decode_file_cmd type input output = build_cmd (codes "configtxlator") (
      (codes "proto_decode --type="
        ++ type
        ++ codes " --input="
        ++ input
        ++ codes " "
        ++ (if is_empty output then [] else codes "--output=" ++ output))
      ∷ [])

  unfoldable pub compute_update_file_cmd : Text → Text → Text → Text → Text
  unfolding build_cmd
  compute_update_file_cmd channel original updated output = build_cmd (codes "configtxlator") (
      (codes "compute_update --channel_id="
        ++ channel
        ++ codes " --original="
        ++ original
        ++ codes " --updated="
        ++ updated
        ++ codes "  --output="
        ++ output)
      ∷ [])

  -- The reduction over CORS puts nothing between two domains.
  abbrev pub cors_options : Text → List Text → Text
  cors_options opt [] = opt
  cors_options opt (d ∷ ds) = cors_options (opt ++ codes "--CORS=" ++ d) ds

  -- `Server.start`
  unfoldable pub start_server_cmd : Text → ℕ → List Text → Text
  unfolding build_cmd
  start_server_cmd hostname port cors = build_cmd (codes "configtxlator") (
      (codes "start --hostname="
        ++ hostname
        ++ codes " --port="
        ++ print_int port
        ++ codes " "
        ++ cors_options [] cors)
      ∷ [])

  -- `genBlock`, `genTx`, `viewBlock` and `viewChannel` of configtxgen.
  unfoldable pub gen_block_cmd : Text → Text → Text → Text → Text
  unfolding build_cmd
  gen_block_cmd profile channel config_path output = build_cmd (codes "configtxgen") (
      (codes "-outputBlock "
        ++ output
        ++ codes " -profile "
        ++ profile
        ++ codes " -channelID "
        ++ channel
        ++ codes " -configPath "
        ++ config_path)
      ∷ [])

  unfoldable pub gen_tx_cmd : Text → Text → Text → Text → Text
  unfolding build_cmd
  gen_tx_cmd profile channel config_path output = build_cmd (codes "configtxgen") (
      (codes "-outputCreateChannelTx "
        ++ output
        ++ codes " -profile "
        ++ profile
        ++ codes " -channelID "
        ++ channel
        ++ codes " -configPath "
        ++ config_path)
      ∷ [])

  unfoldable pub view_block_cmd : Text → Text → Text → Text
  unfolding build_cmd
  view_block_cmd profile config_path file = build_cmd (codes "configtxgen") (
      (codes "-inspectBlock "
        ++ file
        ++ codes " -profile "
        ++ profile
        ++ codes " -configPath "
        ++ config_path)
      ∷ [])

  unfoldable pub view_channel_cmd : Text → Text → Text → Text → Text
  unfolding build_cmd
  view_channel_cmd profile channel config_path file = build_cmd (codes "configtxgen") (
      (codes "-inspectChannelCreateTx "
        ++ file
        ++ codes " -profile "
        ++ profile
        ++ codes " -channelID "
        ++ channel
        ++ codes " -configPath "
        ++ config_path)
      ∷ [])

  -- `osnadmin.join`
  unfoldable pub osn_join_cmd : Text → Text → Text → Text → Text → Text → Text
  unfolding build_cmd
  osn_join_cmd address tls_ca_cert client_cert client_key channel block_file =
      build_cmd (codes "osnadmin") (
        codes "channel join"
        ∷ (codes "--orderer-address=" ++ address)
        ∷ (codes "--ca-file="
            ++ tls_ca_cert
            ++ codes " --client-cert="
            ++ client_cert
            ++ codes " --client-key="
            ++ client_key)
        ∷ (codes "--channel-id=" ++ channel)
        ∷ (codes "--config-block=" ++ block_file)
        ∷ [])
