-- ===== src/Endorsement/Tests.antt =====
-- Runs on concrete answers, and the witnesses of what is proved about the endorsements. The SDK of
-- these runs sends nothing and returns a fixed result.
use fabric_common.Base.{
  ℕ, ◌≡◌, refl, ◌⊎◌, true, false, Option, none, some, List, [], ◌∷◌, ◌&&◌, ◌||◌, not, Text, codes,
  text_eq, is_empty, all, any,
}
use fabric_common.Base.Result.{ok, err}
use fabric_common.Endorsement.Ledger.{
  ChainInfo, chain_info_view, query_results_of, query_block_by_hash_request, block_from_hash,
  block_from_height, ask, new_proposal,
}
use fabric_common.Endorsement.Ledger.Hex.{to_hex}
use fabric_common.Endorsement.Ledger.Laws.{block_from_hash-chain_info}
use fabric_common.Endorsement.Check.{
  Bytes, Endorsement, Proposal, Verdicts, Thrown, read_error, system_error, endorse_error,
  succeeded, without_payload, san_check, endorse_all,
}
use fabric_common.Endorsement.Check.Laws.{is_failure, names, endorse_all-names}
use fabric_common.Endorsement.Manager.{Sdk, Manager, send, apply_nonce}
use fabric_common.Endorsement.Lifecycle.{
  is_given, has_installed, has_no_change, has_no_definition, skip_if_installed, skip_if_no_change,
  Answer, Properties, install_chaincode, approve_for_my_org, query_chaincode_definition, decode_all,
}
use fabric_common.Endorsement.Lifecycle.Laws.{
  IsSettled, install_chaincode-IsSettled, approve_for_my_org-IsSettled,
  query_chaincode_definition-IsSettled,
}
use fabric_common.Endorsement.Queries.{is_not_found, decode_each, tx, has_joined, join}
use fabric_common.Endorsement.Queries.Laws.{AreDecoded, tx-is_not_found, join-has_joined}

abbrev answer_of : Text → ℕ → Text → Endorsement
answer_of url status message = record {
  response = record { status = status; message = message; payload = [] };
  url = url;
}

abbrev good : Endorsement
good = answer_of (codes "peer0") 200 []

abbrev bad : Endorsement
bad = answer_of (codes "peer1") 500 (codes "boom")

abbrev result_of : List Endorsement → Proposal ℕ
result_of es = record { errors = []; responses = es; query_results = [] }

abbrev sdk : List Endorsement → Sdk ℕ Unit Unit
sdk es = record {
  calculate_transaction_id = λ id nonce. codes "tx";
  build = λ id q. (tt, id);
  build_commit = λ id. tt;
  sign = λ p id. tt;
  attach = λ p s. tt;
  send = λ s t. ok (result_of es);
  commit = λ s t. ok record { status = codes "SUCCESS"; info = [] };
}

abbrev manager : Manager ℕ Unit
manager = record {
  identity = record { nonce = none; transaction_id = [] };
  assert_proposal_result = some (endorse_all none);
  assert_commit_result = none;
  sign_function = none;
}

abbrev properties : Properties Unit
properties = record {
  endorsement_plugin = none;
  init_required = true;
  validation_plugin = none;
  validation_parameter = none;
  collections = none;
}

-- With no answer at all the package counts as installed before.
no_answer :
    (install_chaincode (sdk []) (λ b. b) (λ b. some tt) (some []) none none manager).0
    ≡ ok record { result = result_of []; flag = true; query_results = [] }
unfolding install_chaincode send endorse_all san_check decode_all apply_nonce
no_answer = refl

endorse_all-names_example :
    let r = result_of (good ∷ bad ∷ []) in
    ((endorse_all none r ≡ ok r)
      × (is_empty r.errors ≡ true)
      × (all (λ e. not (is_failure none e)) r.responses ≡ true))
    ⊎ ((endorse_all none r ≡ err (system_error r.errors)) × (is_empty r.errors ≡ false))
    ⊎ ((m : Verdicts) × (endorse_all none r ≡ err (endorse_error m))
        × (is_empty r.errors ≡ true)
        × (all (λ e. not (is_failure none e)) r.responses ≡ false)
        × (names m (codes "peer1")
            ≡ any (λ e. is_failure none e && text_eq e.url (codes "peer1")) r.responses))
endorse_all-names_example = endorse_all-names none (result_of (good ∷ bad ∷ [])) (codes "peer1")

install_chaincode-IsSettled_example :
    let file : Option Bytes = some [] in
    let (result, next) =
      install_chaincode
        (sdk (good ∷ []))
        (λ b. b)
        (λ b. some (codes "label"))
        file
        none
        none
        manager in
    ((file ≡ none) × (result ≡ err read_error) × (next ≡ manager))
    ⊎ ((content : Bytes) × (file ≡ some content)
        × (((a : Answer ℕ Text) × (result ≡ ok a)
              × IsSettled (has_installed none) a.result a.flag
              × (next.assert_proposal_result ≡ some (endorse_all none)))
            ⊎ ((x : Thrown ℕ) × (result ≡ err x)
                × (next.assert_proposal_result ≡ some (skip_if_installed none)))))
install_chaincode-IsSettled_example =
    install_chaincode-IsSettled (sdk (good ∷ [])) (λ b. b) (λ b. some (codes "label")) (some [])
      none none manager

approve_for_my_org-IsSettled_example :
    let (result, next) =
      approve_for_my_org
        (sdk (good ∷ []))
        (λ d. [])
        (codes "cc")
        (codes "1.0")
        1
        none
        properties
        manager in
    (((a : Answer ℕ Unit) × (result ≡ ok a)
        × IsSettled (has_no_change (codes "cc") 1) a.result a.flag)
      ⊎ ((x : Thrown ℕ) × (result ≡ err x)))
    × (next.assert_proposal_result ≡ some (skip_if_no_change (codes "cc") 1))
approve_for_my_org-IsSettled_example =
    approve_for_my_org-IsSettled (sdk (good ∷ [])) (λ d. []) (codes "cc") (codes "1.0") 1 none
      properties manager

abbrev queried : Answer ℕ Unit
queried = record { result = result_of (good ∷ []); flag = false; query_results = tt ∷ [] }

query_runs :
    (query_chaincode_definition
      (sdk (good ∷ []))
      (λ t. t)
      (λ b. some tt)
      (λ b. some tt)
      (some (codes "cc"))
      manager).0
    ≡ ok queried
unfolding query_chaincode_definition send endorse_all san_check has_no_definition decode_all
    apply_nonce
query_runs = refl

query_chaincode_definition-IsSettled_example :
    ((is_given (some (codes "cc")) ≡ true)
      × IsSettled (has_no_definition (some (codes "cc"))) queried.result queried.flag)
    ⊎ ((is_given (some (codes "cc")) ≡ false)
        × (is_empty queried.result.errors ≡ true)
        × (all succeeded queried.result.responses ≡ true))
query_chaincode_definition-IsSettled_example =
    query_chaincode_definition-IsSettled (sdk (good ∷ [])) (λ t. t) (λ b. some tt) (λ b. some tt)
      (some (codes "cc")) manager queried query_runs

tx-is_not_found_example :
    let r = result_of (good ∷ bad ∷ []) in
    let id = codes "tx" in
    ((is_empty r.errors ≡ false) × (tx some id (ok r) ≡ err (system_error r.errors)))
    ⊎ ((is_empty r.errors ≡ true)
        × (all succeeded r.responses ≡ true)
        × AreDecoded some r.query_results (tx some id (ok r)))
    ⊎ ((is_empty r.errors ≡ true)
        × (all succeeded r.responses ≡ false)
        × (all (λ e. succeeded e || is_not_found id e) r.responses ≡ true)
        × (tx some id (ok r) ≡ ok []))
    ⊎ ((is_empty r.errors ≡ true)
        × (all (λ e. succeeded e || is_not_found id e) r.responses ≡ false)
        × ((m : Verdicts) × (tx some id (ok r) ≡ err (endorse_error m))))
tx-is_not_found_example = tx-is_not_found some (codes "tx") (result_of (good ∷ bad ∷ []))

abbrev joined_before : Proposal ℕ
joined_before = result_of (
    good
    ∷ answer_of (codes "peer1") 500 (
        codes
          "cannot create ledger from genesis block: ledger [ch] already exists with state [ACTIVE]")
    ∷ [])

each_has_joined :
    all
      (λ e. succeeded e || has_joined (codes "ch") (without_payload e.response))
      joined_before.responses
    ≡ true
unfolding has_joined
each_has_joined = refl

join-has_joined_example :
    ((all succeeded joined_before.responses ≡ true)
      × (join (codes "ch") (endorse_all none joined_before) ≡ ok (some joined_before)))
    ⊎ ((all succeeded joined_before.responses ≡ false)
        × (join (codes "ch") (endorse_all none joined_before) ≡ ok none))
join-has_joined_example = join-has_joined (codes "ch") joined_before refl each_has_joined

abbrev info : ChainInfo Bytes ℕ
info = record { height = 7; current_block_hash = 0 ∷ 171 ∷ 255 ∷ []; previous_block_hash = [] }

-- The hash as the client sees it.
hash_shown : (chain_info_view (λ n. n) info).current_block_hash ≡ codes "00abff"
unfolding chain_info_view to_hex
hash_shown = refl

block_from_hash-chain_info_example :
    block_from_hash
      (sdk (good ∷ []))
      manager.identity
      (λ b. some b)
      (codes "ch")
      (chain_info_view (λ n. n) info).current_block_hash
    ≡ query_results_of
        (sdk (good ∷ []))
        manager.identity
        (λ b. some b)
        (query_block_by_hash_request (codes "ch") (0 ∷ 171 ∷ 255 ∷ []))
block_from_hash-chain_info_example =
    block_from_hash-chain_info (sdk (good ∷ [])) manager.identity (λ b. some b) (λ n. n)
      (codes "ch") info refl

-- A block that every peer gives.
block_at_height :
    block_from_height (sdk (good ∷ [])) manager.identity (λ b. some b) (codes "ch") 3 ≡ ok []
unfolding block_from_height query_results_of ask new_proposal send endorse_all san_check decode_each
    apply_nonce
block_at_height = refl
