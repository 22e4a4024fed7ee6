-- ===== src/Config/Tests.antt =====
-- Runs of the edits of ConfigFactory, and the witnesses of what is proved about them.
use Prim.Native.String.{String}
use fabric_common.Base.{
  ◌≡◌, refl, sym, ◌≢◌, true, false, Option, none, some, List, [], ◌∷◌, ◌⊎◌, codes, contains,
}
use fabric_common.Base.Result.{Result, ok, err}
use fabric_common.Config.Json.{
  Json, null, string, array, object, Items, end, Failure, type_error, unsupported, lookup, put,
  drop_key, child, read, get_path, edit_at, assign_here, delete_here, obj, arr, truthy,
}
use fabric_common.Config.Json.Paths.{differ}
use fabric_common.Config.Orgs.{
  delete_msp, assign_dictator, get_org, get_anchor_peers, AnchorPeer, anchor_peers_json,
  set_anchor_peers, PemFiles, org_json, read_all, create_or_update_org, add_admin, push, push_here,
}
use fabric_common.Config.Orgs.Laws.{
  get_org-delete_msp, get_anchor_peers-set_anchor_peers, IsMissing, IsThere,
  get_org-create_or_update_org, add_admin-never_adds,
}
use fabric_common.Config.Orderer.{
  set_capability, includes, add_orderer_address, get_orderer_addresses, set_consensus_type,
  Consenter, read_consenter, read_consenters, set_consensus_metadata, maintenance_mode,
  from_sem_ver, replace_dot,
}
use fabric_common.Config.Orderer.Laws.{distinct, add_orderer_address-distinct}

-- A channel configuration with one organisation, one orderer and a solo consensus.
abbrev config : Json
config = obj (
    (
      "channel_group",
      obj (
          (
            "groups",
            obj (
                (
                  "Application",
                  obj (
                      ("groups", obj (("org1", obj (("values", object end) ∷ [])) ∷ []))
                      ∷ ("policies", obj (("Admins", object end) ∷ []))
                      ∷ []),
                )
                ∷ (
                  "Orderer",
                  obj (
                      (
                        "values",
                        obj (
                            ("ConsensusType", obj (("value", object end) ∷ []))
                            ∷ ("KafkaBrokers", object end)
                            ∷ []),
                      )
                      ∷ []),
                )
                ∷ []),
          )
          ∷ (
            "values",
            obj (
                (
                  "OrdererAddresses",
                  obj (("value", obj (("addresses", arr (string "orderer0:7050" ∷ [])) ∷ [])) ∷ []),
                )
                ∷ []),
          )
          ∷ []),
    )
    ∷ [])

abbrev from_ok : Result Failure Json → Json
from_ok (ok j) = j
from_ok (err _) = null

abbrev files : String → Option String
files path = some "LS0t"

abbrev pems : PemFiles
pems = record { admins = "admin.pem" ∷ []; root_certs = "ca.pem" ∷ []; tls_root_certs = [] }

abbrev peers : List AnchorPeer
peers = record { host = "peer0"; port = 7051 } ∷ []

abbrev consenters : List Consenter
consenters =
    record { client_tls_cert = "c.pem"; server_tls_cert = "s.pem"; host = "o"; port = none } ∷ []

org1_is_not_org2 : ◌≢◌ {A = String} "org1" "org2"
org1_is_not_org2 = differ "org1" "org2" refl

-- The version loses its first dot only.
one_dot : from_sem_ver "1.4.2" ≡ "V1_4.2"
unfolding from_sem_ver replace_dot
one_dot = refl

two_dots : from_sem_ver "2.0" ≡ "V2_0"
unfolding from_sem_ver replace_dot
two_dots = refl

missing_group : delete_msp "org1" "Consortiums" config ≡ err type_error
unfolding delete_msp edit_at child lookup
missing_group = refl

kafka_refused : set_consensus_type "kafka" config ≡ err unsupported
unfolding set_consensus_type
kafka_refused = refl

abbrev deleted : Json
unfolding delete_msp edit_at child lookup assign_here put delete_here drop_key
deleted = from_ok (delete_msp "org1" "Application" config)

delete_msp-runs : delete_msp "org1" "Application" config ≡ ok deleted
unfolding delete_msp edit_at child lookup assign_here put delete_here drop_key
delete_msp-runs = refl

get_org-delete_msp_example :
    (get_org "org1" "Application" deleted ≡ ok none)
    × (get_org "org2" "Application" deleted ≡ get_org "org2" "Application" config)
get_org-delete_msp_example =
    get_org-delete_msp "org1" "org2" "Application" config deleted org1_is_not_org2 delete_msp-runs

abbrev dictated : Json
unfolding assign_dictator edit_at child lookup assign_here put
dictated = from_ok (assign_dictator "org1MSP" "Application" config)

assign_dictator-runs : assign_dictator "org1MSP" "Application" config ≡ ok dictated
unfolding assign_dictator edit_at child lookup assign_here put
assign_dictator-runs = refl

abbrev anchored : Json
unfolding set_anchor_peers get_anchor_peers get_path read edit_at child lookup assign_here put
anchored = from_ok (set_anchor_peers "org1" peers config)

set_anchor_peers-runs : set_anchor_peers "org1" peers config ≡ ok anchored
unfolding set_anchor_peers get_anchor_peers get_path read edit_at child lookup assign_here put
set_anchor_peers-runs = refl

get_anchor_peers-set_anchor_peers_example :
    (get_path
        ("channel_group" ∷ "groups" ∷ "Application" ∷ "groups" ∷ "org1" ∷ "values" ∷ "AnchorPeers"
          ∷ "value" ∷ "anchor_peers" ∷ [])
        (some anchored)
      ≡ ok (some (anchor_peers_json peers)))
    × (get_anchor_peers "org2" anchored ≡ get_anchor_peers "org2" config)
get_anchor_peers-set_anchor_peers_example =
    get_anchor_peers-set_anchor_peers "org1" "org2" peers config anchored org1_is_not_org2
      set_anchor_peers-runs

abbrev with_org2 : Json
unfolding create_or_update_org get_org read_all get_path read edit_at child lookup assign_here put
with_org2 = from_ok (create_or_update_org files "org2" "org2MSP" "Application" pems true config)

create_or_update_org-runs :
    create_or_update_org files "org2" "org2MSP" "Application" pems true config ≡ ok with_org2
unfolding create_or_update_org get_org read_all get_path read edit_at child lookup assign_here put
create_or_update_org-runs = refl

get_org-create_or_update_org_example :
    (((true ≡ true) × IsThere "org2" "Application" config × (with_org2 ≡ config))
      ⊎ (((true ≡ false) ⊎ IsMissing "org2" "Application" config)
          × ((admins : List Json) × (roots : List Json) × (tls_roots : List Json) × (read_all files
                  pems.admins
                ≡ ok admins)
              × (read_all files pems.root_certs ≡ ok roots)
              × (read_all files pems.tls_root_certs ≡ ok tls_roots)
              × (get_org "org2" "Application" with_org2
                  ≡ ok (some (org_json "org2MSP" admins roots tls_roots))))))
    × (get_org "org1" "Application" with_org2 ≡ get_org "org1" "Application" config)
get_org-create_or_update_org_example =
    get_org-create_or_update_org files "org2" "org1" "org2MSP" "Application" pems true config
      with_org2 (λ e. org1_is_not_org2 (sym e)) create_or_update_org-runs

add_admin-never_adds_example :
    ((add_admin files "org1" "Application" "admin.pem" config ≡ ok config)
      × ((get_org "org1" "Application" config ≡ ok none)
          ⊎ ((old : Json) × (get_org "org1" "Application" config ≡ ok (some old))
              × (truthy (some old) ≡ false))))
    ⊎ ((e : Failure) × (add_admin files "org1" "Application" "admin.pem" config ≡ err e))
add_admin-never_adds_example = add_admin-never_adds files "org1" "Application" "admin.pem" config

abbrev addressed : Json
unfolding add_orderer_address includes get_path read edit_at child lookup assign_here put push_here
    push
addressed = from_ok (add_orderer_address "orderer1:7050" config)

add_orderer_address-runs : add_orderer_address "orderer1:7050" config ≡ ok addressed
unfolding add_orderer_address includes get_path read edit_at child lookup assign_here put push_here
    push
add_orderer_address-runs = refl

add_orderer_address-distinct_example :
    (((vs : Items) × (vs' : Items) × (get_orderer_addresses config ≡ ok (some (array vs)))
        × (get_orderer_addresses addressed ≡ ok (some (array vs')))
        × (includes "orderer1:7050" vs' ≡ true)
        × ((distinct vs ≡ false) ⊎ (distinct vs' ≡ true)))
      ⊎ ((s : String) × (get_orderer_addresses config ≡ ok (some (string s)))
          × (contains (codes s) (codes "orderer1:7050") ≡ true)
          × (addressed ≡ config)))
    × (add_orderer_address "orderer1:7050" addressed ≡ ok addressed)
add_orderer_address-distinct_example =
    add_orderer_address-distinct "orderer1:7050" config addressed add_orderer_address-runs

abbrev capable : Json
unfolding set_capability from_sem_ver replace_dot get_path read edit_at child lookup assign_here put
capable = from_ok (set_capability "1.4.2" config)

set_capability-runs : set_capability "1.4.2" config ≡ ok capable
unfolding set_capability from_sem_ver replace_dot get_path read edit_at child lookup assign_here put
set_capability-runs = refl

abbrev raft : Json
unfolding set_consensus_type edit_at child lookup assign_here put delete_here drop_key
raft = from_ok (set_consensus_type "etcdraft" config)

set_consensus_type-runs : set_consensus_type "etcdraft" config ≡ ok raft
unfolding set_consensus_type edit_at child lookup assign_here put delete_here drop_key
set_consensus_type-runs = refl

abbrev paused : Json
unfolding maintenance_mode edit_at child lookup assign_here put
paused = from_ok (maintenance_mode true config)

abbrev resumed : Json
unfolding maintenance_mode edit_at child lookup assign_here put
resumed = from_ok (maintenance_mode false paused)

pauses : maintenance_mode true config ≡ ok paused
unfolding maintenance_mode edit_at child lookup assign_here put
pauses = refl

resumes : maintenance_mode false paused ≡ ok resumed
unfolding maintenance_mode edit_at child lookup assign_here put
resumes = refl

abbrev consented : Json
unfolding set_consensus_metadata read_consenters read_consenter get_path read edit_at child lookup
    assign_here put
consented = from_ok (set_consensus_metadata files (some consenters) none config)

set_consensus_metadata-runs :
    set_consensus_metadata files (some consenters) none config ≡ ok consented
unfolding set_consensus_metadata read_consenters read_consenter get_path read edit_at child lookup
    assign_here put
set_consensus_metadata-runs = refl
