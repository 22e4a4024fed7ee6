-- ===== src/Events/Tests.antt =====
-- Runs on concrete streams, and the witnesses of what is proved about them.
use fabric_common.Base.{
  ℕ, ◌≡◌, refl, ◌⊎◌, true, false, none, some, List, [], ◌∷◌, ◌++◌, map, ◌||◌, codes, get_elem?,
}
use mathlib.Core.Path.{subst}
use fabric_common.Base.Result.{Result, ok, ok_inj}
use fabric_common.Events.Settling.{pending, resolved, is_settled}
use fabric_common.Events.Query.{
  failure, event, Block, get_single_block, wait_until_block, wait_for_blocks, TxEvent, replay_tx,
  listen,
}
use fabric_common.Events.Query.Laws.{
  first_outcome, wait_until_block-first_outcome, wait_for_blocks-get_elem?, replay_tx-length,
}
use fabric_common.Events.Deliver.{
  full_block, status, code, Signal, on_data, on_timeout, on_end, is_success, handle_all,
  settled_with, send_deliver, Endpoint, connect, connect_endpoint,
}
use fabric_common.Events.Deliver.Laws.{send_deliver-blocks, send_deliver-IsEnded}

abbrev block : ℕ → Block Unit
block n = record { height = n; content = tt }

-- An error leaves the query of a single block pending, though it could reject.
single_block_hangs :
    get_single_block {X = ℕ} {Content = Unit} 3 (failure 1 ∷ event (block 2) ∷ []) ≡ pending
unfolding get_single_block listen
single_block_hangs = refl

wait_until_block-first_outcome_example :
    wait_until_block {X = ℕ} 3 (event (block 2) ∷ event (block 3) ∷ failure 1 ∷ [])
    ≡ first_outcome {X = ℕ} 3 (event (block 2) ∷ event (block 3) ∷ failure 1 ∷ [])
wait_until_block-first_outcome_example =
    wait_until_block-first_outcome 3 (event (block 2) ∷ event (block 3) ∷ failure 1 ∷ [])

wait_for_blocks-get_elem?_example :
    ((b : Block Unit) × (get_elem? (block 7 ∷ block 8 ∷ []) 1 ≡ some b)
      × (wait_for_blocks {X = ℕ} 1 (map event (block 7 ∷ block 8 ∷ [])) ≡ resolved b))
    ⊎ ((get_elem? (block 7 ∷ block 8 ∷ []) 1 ≡ none)
        × (wait_for_blocks {X = ℕ} 1 (map event (block 7 ∷ block 8 ∷ [])) ≡ pending))
wait_for_blocks-get_elem?_example = wait_for_blocks-get_elem? {X = ℕ} 1 (block 7 ∷ block 8 ∷ [])

abbrev tx_event : ℕ → TxEvent
tx_event n = record { block_number = n; transaction_id = codes "tx"; status = codes "VALID" }

replay_tx-length_example :
    replay_tx {X = ℕ} 2 (map event (tx_event 1 ∷ tx_event 2 ∷ []) ++ failure 1 ∷ [])
    ≡ resolved (tx_event 1 ∷ tx_event 2 ∷ [])
replay_tx-length_example =
    replay_tx-length {X = ℕ} (tx_event 1 ∷ tx_event 2 ∷ []) 1 (failure 1 ∷ []) refl

abbrev blocks : List ℕ
blocks = 5 ∷ 6 ∷ []

success : is_success (code 200) ≡ true
unfolding is_success
success = refl

send_deliver-blocks_example :
    settled_with (
      send_deliver (
        map (λ b. on_data (full_block b)) blocks
        ++ on_data (status (code 200) true) ∷ on_timeout ∷ []))
    ≡ resolved (blocks ++ [])
send_deliver-blocks_example = send_deliver-blocks blocks (code 200) true (on_timeout ∷ []) success

abbrev cut_short : List (Signal ℕ)
cut_short = on_data (full_block 5) ∷ on_timeout ∷ []

send_deliver-IsEnded_example :
    (is_settled (send_deliver cut_short).promise ≡ false)
    ⊎ (((send_deliver cut_short).ended ≡ true)
        × ((handle_all (on_end ∷ []) (send_deliver cut_short)).promise
            ≡ (send_deliver cut_short).promise)
        × ((handle_all (on_end ∷ []) (send_deliver cut_short)).responses
            ≡ (send_deliver cut_short).responses ++ []))
send_deliver-IsEnded_example = send_deliver-IsEnded cut_short (on_end ∷ [])

abbrev opens : Endpoint → Result ℕ Endpoint
opens e = ok record { connected = true; has_service = true; connect_attempted = true }

opens_connected : (i j : Endpoint) → opens i ≡ ok j → (j.connected || j.has_service) ≡ true
opens_connected i j h = subst (λ e. (e.connected || e.has_service) ≡ true) (ok_inj h) refl

abbrev closed : Endpoint
closed = record { connected = false; has_service = false; connect_attempted = false }

abbrev opened : Endpoint
opened = record { connected = true; has_service = true; connect_attempted = true }

connects :
    connect opens record { committer = closed; eventer = closed }
    ≡ ok record { committer = opened; eventer = opened }
unfolding connect connect_endpoint
connects = refl
