-- ===== src/Config/Orgs.antt =====
-- The edits of an organisation by `ConfigFactory` of nodejs/formatter/configFactory.js. `newConfig`
-- is the tree that JSON.parse returns; an edit is a function on it. The messages to the logger are
-- left out. Files are read through the parameter `to_base64`, where `none` is a read that throws.
pub mod Laws
use Prim.Native.String.{String}
use text.Mathlib.Text.{◌==◌ as str_eq}
use fabric_common.Base.{
  ℕ, Bool, true, false, Option, none, some, List, [], ◌∷◌, map, ◌==◌, ◌||◌, if◌then◌else◌, not,
}
use fabric_common.Base.Result.{Result, ok, err, ◌>>=◌}
use fabric_common.Config.Json.{
  Json, null, bool, number, string, array, object, Items, nil, cons, Fields, end, Failure,
  type_error, io_error, unsupported, Object, fields, items, get_path, Edit, edit_at, assign,
  delete_at, truthy, put, obj, arr,
}

-- `channel_group.groups[channelGroupType].groups`
abbrev pub orgs_path : String → List String
orgs_path target = "channel_group" ∷ "groups" ∷ target ∷ "groups" ∷ []

abbrev pub org_path : String → String → List String
org_path target org = "channel_group" ∷ "groups" ∷ target ∷ "groups" ∷ org ∷ []

-- `channel_group.groups.Application.groups[orgName].values`
abbrev pub org_values : String → List String
org_values org = "channel_group" ∷ "groups" ∷ "Application" ∷ "groups" ∷ org ∷ "values" ∷ []

unfoldable pub delete_msp : String → String → Edit
delete_msp org target = delete_at (orgs_path target) org

-- The signature policy "one signature of this role of this MSP".
abbrev pub one_of_role : String → String → Json
one_of_role mspid role = obj (
    ("type", number 1)
    ∷ (
      "value",
      obj (
          (
            "identities",
            arr (
                obj (
                  ("principal", obj (("msp_identifier", string mspid) ∷ ("role", string role) ∷ []))
                  ∷ ("principal_classification", string "ROLE")
                  ∷ [])
                ∷ []),
          )
          ∷ (
            "rule",
            obj (
                (
                  "n_out_of",
                  obj (
                      ("n", number 1)
                      ∷ ("rules", arr (obj (("signed_by", number 0) ∷ []) ∷ []))
                      ∷ []),
                )
                ∷ []),
          )
          ∷ []),
    )
    ∷ [])

unfoldable pub assign_dictator : String → String → Edit
assign_dictator mspid target =
    assign ("channel_group" ∷ "groups" ∷ target ∷ "policies" ∷ "Admins" ∷ []) "policy"
      (one_of_role mspid "ADMIN")

unfoldable pub get_org : String → String → Json → Result Failure (Option Json)
get_org org target config = get_path (org_path target org) (some config)

-- `Array.prototype.find` with an argument that is no function throws, on every array; on any
-- other JSON value `find` is no method.
abbrev pub find : Option Json → Json → Result Failure (Option Json)
find admins sought = err type_error

unfoldable pub get_anchor_peers : String → Json → Result Failure (Option Json)
get_anchor_peers org config =
    get_path
      ("channel_group" ∷ "groups" ∷ "Application" ∷ "groups" ∷ org ∷ "values" ∷ "AnchorPeers" ∷ [])
      (some config)

pub record AnchorPeer : Type 0 where
  pub host : String
  pub port : ℕ

abbrev pub anchor_peers_json : List AnchorPeer → Json
anchor_peers_json peers =
    arr (map (λ p. obj (("host", string p.host) ∷ ("port", number p.port) ∷ [])) peers)

-- The value that is new where the organisation has no anchor peers.
abbrev pub new_anchor_peers : List AnchorPeer → Json
new_anchor_peers peers = obj (
    ("mod_policy", string "Admins")
    ∷ ("value", obj (("anchor_peers", anchor_peers_json peers) ∷ []))
    ∷ ("version", string "0")
    ∷ [])

unfoldable pub set_anchor_peers : String → List AnchorPeer → Edit
unfolding get_anchor_peers
set_anchor_peers org peers config = get_anchor_peers org config >>= λ old.
    if truthy old
    then assign
        ("channel_group" ∷ "groups" ∷ "Application" ∷ "groups" ∷ org ∷ "values" ∷ "AnchorPeers"
          ∷ "value" ∷ [])
        "anchor_peers" (anchor_peers_json peers) config
    else assign (org_values org) "AnchorPeers" (new_anchor_peers peers) config

-- The pem files of an organisation.
pub record PemFiles : Type 0 where
  pub admins : List String
  pub root_certs : List String
  pub tls_root_certs : List String

-- One policy of an organisation.
abbrev pub org_policy : String → String → Json
org_policy mspid role =
    obj (("mod_policy", string "Admins") ∷ ("policy", one_of_role mspid role) ∷ [])

-- The value that `createOrUpdateOrg` writes.
abbrev pub org_json : String → List Json → List Json → List Json → Json
org_json mspid admins root_certs tls_root_certs = obj (
    ("mod_policy", string "Admins")
    ∷ (
      "policies",
      obj (
          ("Admins", org_policy mspid "ADMIN")
          ∷ ("Readers", org_policy mspid "MEMBER")
          ∷ ("Writers", org_policy mspid "MEMBER")
          ∷ []),
    )
    ∷ (
      "values",
      obj (
          (
            "MSP",
            obj (
                ("mod_policy", string "Admins")
                ∷ (
                  "value",
                  obj (
                      (
                        "config",
                        obj (
                            ("admins", arr admins)
                            ∷ (
                              "crypto_config",
                              obj (
                                  ("identity_identifier_hash_function", string "SHA256")
                                  ∷ ("signature_hash_family", string "SHA2")
                                  ∷ []),
                            )
                            ∷ ("name", string mspid)
                            ∷ ("root_certs", arr root_certs)
                            ∷ ("tls_root_certs", arr tls_root_certs)
                            ∷ []),
                      )
                      ∷ ("type", number 0)
                      ∷ []),
                )
                ∷ []),
          )
          ∷ []),
    )
    ∷ [])

-- `admins.map(ConfigFactory._toBase64)`: the first file that cannot be read throws.
unfoldable pub read_all : (String → Option String) → List String → Result Failure (List Json)
read_all to_base64 [] = ok []
read_all to_base64 (pem ∷ pems) = elim (to_base64 pem) [
  | none ↦ err io_error
  | some text ↦ read_all to_base64 pems >>= λ rest. ok (string text ∷ rest)
]

unfoldable pub push : Json → Items → Items
push v nil = cons v nil
push v (cons w ws) = cons w (push v ws)

-- `Array.prototype.push` on a property.
unfoldable pub push_here : Json → Edit
unfolding push
push_here v (array vs) = ok (array (push v vs))
push_here v _ = err type_error

-- The path of an organisation's admin certificates.
abbrev pub admins_path : String → String → List String
admins_path org target =
    "channel_group" ∷ "groups" ∷ target ∷ "groups" ∷ org ∷ "values" ∷ "MSP" ∷ "value" ∷ "config"
    ∷ "admins" ∷ []

module _ (to_base64 : String → Option String) where
  -- `createOrUpdateOrg`. The object that is written to is evaluated before the files are read.
  unfoldable pub create_or_update_org : String → String → String → PemFiles → Bool → Edit
  unfolding read_all get_org
  create_or_update_org org mspid target pems skip_if_exist config =
      (if skip_if_exist then get_org org target config else ok none) >>= λ old.
      if truthy old
      then ok config
      else get_path (orgs_path target) (some config) >>= λ groups.
          read_all to_base64 pems.admins >>= λ admins.
          read_all to_base64 pems.root_certs >>= λ roots.
          read_all to_base64 pems.tls_root_certs >>= λ tls_roots.
          assign (orgs_path target) org (org_json mspid admins roots tls_roots) config

  -- `addAdmin`
  unfoldable pub add_admin : String → String → String → Edit
  unfolding get_org push_here
  add_admin org target admin config = get_org org target config >>= λ old.
      if truthy old
      then elim (to_base64 admin) [
        | none ↦ err io_error
        | some cert ↦ get_path (admins_path org target) (some config) >>= λ admins.
            find admins (string cert) >>= λ found.
            if truthy found
            then ok config
            else edit_at (admins_path org target) (push_here (string cert)) config
      ]
      else ok config
