-- ===== src/View/Tests.antt =====
-- A block and a discovery at concrete values, and the witness of what is proved about a block.
use fabric_common.Base.{◌≡◌, refl, true, false, none, some, List, [], ◌∷◌, Text, codes, all, ℕ}
use fabric_common.Base.Result.{err}
use fabric_common.Endorsement.Check.{Bytes}
use fabric_common.View.Block.{
  Creator, SignatureHeader, Entry, config, actions, data_view, metadata_view, assertion,
}
use fabric_common.View.Block.Laws.{Judged, is_sound, invocations, data_view-Judged}
use fabric_common.View.Discovery.{on_error, on_other, parse_result, parse_from, parse_one}

abbrev identity_bytes : Creator → Bytes
identity_bytes c = c.id_bytes

abbrev digest : Bytes → Text
digest b = 35 ∷ b

abbrev signature_header : SignatureHeader
signature_header = record {
  creator = record { mspid = codes "org1MSP"; id_bytes = 7 ∷ [] };
  nonce = 5 ∷ [];
}

-- A configuration, then a transaction whose id is not the digest.
abbrev entries : List (Entry Unit)
entries =
    record { tx_id = 35 ∷ 5 ∷ 7 ∷ []; signature_header = signature_header; body = config tt }
    ∷ record {
      tx_id = codes "tx";
      signature_header = signature_header;
      body = actions (record { chaincode_id = codes "cc"; args = []; is_init = false } ∷ []);
    }
    ∷ []

data_view-Judged_example :
    Judged
      (all (is_sound digest identity_bytes) entries)
      (entries, invocations entries)
      (data_view digest identity_bytes entries)
data_view-Judged_example = data_view-Judged digest identity_bytes entries

-- A block whose first transaction is not valid has no view of its metadata.
first_is_invalid :
    metadata_view {Signature = ℕ}
      (λ b. some 1)
      (λ b. some ([], []))
      record {
        value = [];
        signatures = [];
        last_config_is_empty = true;
        orderer_is_empty = true;
        transactions_filter = 11 ∷ 0 ∷ [];
        commit_hash = [];
      }
    ≡ err assertion
unfolding metadata_view
first_is_invalid = refl

-- Of two errors the last is kept.
last_error :
    parse_result {Error = ℕ} {Interest = Unit} {Endpoint = Unit}
      (λ b. [])
      (on_error 1 ∷ on_other ∷ on_error 2 ∷ [])
    ≡ record { error = some 2; cc_query_res = none; config_result = none; members = none }
unfolding parse_result parse_from parse_one
last_error = refl
