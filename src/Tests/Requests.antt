-- ===== src/Tests/Requests.antt =====
-- Requests to the node and generated transactions, on the toy platform (api/mod.rs, transaction_generator.rs).
use ce334_bitcoin_client.Prelude.{
  ◌-◌, ◌*◌, ℕ, ◌≡◌, refl, true, false, not, ◌&&◌, some, List, [], ◌∷◌, arith, ltb, if◌then◌else◌,
  ◌==k◌, inl, inr, done, panicked, Returns, bytes_eq,
}
use ce334_bitcoin_client.HashMap.{get, insert, contains_key}
use ce334_bitcoin_client.State.Ico.{ico_address, ico_grants}
use ce334_bitcoin_client.Transaction.{SignedTransaction}
use ce334_bitcoin_client.Transaction.Signing.{hash_signed, address_of, get_deterministic_keypair}
use ce334_bitcoin_client.Blockchain.{new, insert_transaction_with_validation}
use ce334_bitcoin_client.Blockchain.Reach.{new-IsValid}
use ce334_bitcoin_client.TransactionGenerator.{generate}
use ce334_bitcoin_client.TransactionGenerator.Generated.{generate-insert}
use ce334_bitcoin_client.Blockchain.Submit.{pooled_with}
use ce334_bitcoin_client.Blockchain.Valid.{genesis_stored}
use ce334_bitcoin_client.Block.{genesis}
use ce334_bitcoin_client.Block.Hashing.{hash_block}
use ce334_bitcoin_client.Crypto.Hash.{h256_key}
use ce334_bitcoin_client.Crypto.Address.{h160_key}
use ce334_bitcoin_client.HashMap.Laws.{get-insert_self}
use ce334_bitcoin_client.Network.Server.{ok, handle_event, control_event}
use ce334_bitcoin_client.Network.Server.Kept.{IsServing}
use ce334_bitcoin_client.Network.Server.Broadcast.{IsSentTo}
use ce334_bitcoin_client.Api.{
  miner_exit, Text, Channel, Handles, invalid_digit, pos_overflow, parse_digits, parse_u64, codes,
  api_response, collect, send, start_request, handle_request, text_key,
}
use ce334_bitcoin_client.Api.Answers.{IsAnswer}
use ce334_bitcoin_client.Api.Requests.{handle_request-IsAnswer, ping_request-IsSentTo}
use ce334_bitcoin_client.Tests.Toy.{toy, toy-IsSigning}
use ce334_bitcoin_client.Tests.Accounts.{toy-HasDistinctKeys}
use ce334_bitcoin_client.Tests.Tables.{lists-IsSlabs, lookup}
use ce334_bitcoin_client.Tests.Servers.{table, serialized, grants, one_peer, one_peer-IsServing}

abbrev listening : {A : Type 0} → Channel A
listening = record { queue = []; is_open = true }

abbrev handles : Handles
handles = record {
  miner = listening;
  network = listening;
  tx_gen = record { queue = []; is_open = false };
}

numbers :
    (parse_u64 (codes "+007") ≡ inr 7)
    × (parse_u64 (codes "18446744073709551616") ≡ inl pos_overflow)
    × (parse_u64 (codes "-5") ≡ inl invalid_digit)
    × (parse_u64 (codes "+") ≡ inl invalid_digit)
unfolding parse_u64 parse_digits
numbers = (refl, refl, refl, refl)

abbrev last_pair : List (Text × Text)
last_pair = (codes "lambda", codes "x") ∷ (codes "lambda", codes "25") ∷ []

last_pair-lambda : get (codes "lambda") (collect last_pair []) ≡ some (codes "25")
unfolding get collect insert bytes_eq
last_pair-lambda = refl

no_lambda :
    handle_request (inr (codes "/miner/start", [])) (new toy) handles
    ≡ done (api_response false (codes "missing lambda") 200, handles)
unfolding handle_request start_request collect get bytes_eq
no_lambda = refl

-- The miner's thread has ended.
ended_miner :
    handle_request
      (inr (codes "/miner/exit", []))
      (new toy)
      (record handles { miner = record { queue = []; is_open = false } })
    ≡ panicked
unfolding handle_request miner_exit send bytes_eq
ended_miner = refl

handle_request-IsAnswer_example :
    Returns
      (IsAnswer (new toy) handles (inr (codes "/miner/start", last_pair)))
      (handle_request (inr (codes "/miner/start", last_pair)) (new toy) handles)
handle_request-IsAnswer_example =
    handle_request-IsAnswer toy (inr (codes "/miner/start", last_pair)) (new toy) handles
      (new-IsValid toy) refl refl

ping_request-IsSentTo_example :
    (h' : Handles) × (handle_request (inr (codes "/network/ping", [])) (new toy) handles
      ≡ done (api_response true (codes "ok") 200, h'))
    × Returns
        (λ r.
          (r.0 ≡ ok)
          × IsServing table (lists-IsSlabs _) serialized grants r.1
          × ((j : ℕ) → IsSentTo (9 ∷ 9 ∷ []) (lookup j one_peer.peers) (lookup j r.1.peers)))
        (handle_event table serialized grants (control_event h'.network.queue true) one_peer)
ping_request-IsSentTo_example =
    ping_request-IsSentTo table (lists-IsSlabs _) serialized grants [] (new toy) handles one_peer
      one_peer-IsServing refl refl

genesis-found : get (new toy).tip (new toy).hash_to_block ≡ some (genesis_stored toy)
unfolding new
genesis-found = get-insert_self (hash_block toy genesis) (genesis_stored toy) []

generate-insert_example :
    (t : SignedTransaction) × (generate toy 3 17 5 (new toy) ≡ done t)
    × (insert_transaction_with_validation toy t (new toy)
        ≡ done (
            if not (contains_key (hash_signed toy t) (new toy).mempool)
              && (address_of toy (get_deterministic_keypair toy 3) ==k ico_address toy 3)
              && not (ltb (1000 * (10 - 3)) 1)
            then (true, pooled_with toy t (new toy))
            else (false, new toy)))
generate-insert_example =
    generate-insert toy 3 17 5 (new toy) (genesis_stored toy)
      (record { nonce = 0; balance = 1000 * (10 - 3) }) toy-IsSigning (new-IsValid toy)
      genesis-found ((ico_grants toy toy-HasDistinctKeys).0 3 (omega arith))
