-- ===== src/Api/Answers.antt =====
-- What each request is to be answered with (api/mod.rs).
use ce334_bitcoin_client.Prelude.{
  ◌≢◌, ℕ, ◌≡◌, true, false, none, some, List, [], ◌∷◌, ◌++◌, inl, inr,
}
use ce334_bitcoin_client.HashMap.{get}
use ce334_bitcoin_client.Crypto.Hash.{h256_key}
use ce334_bitcoin_client.Blockchain.{Blockchain}
use ce334_bitcoin_client.Network.Message.{ping}
use ce334_bitcoin_client.Network.Server.{
  Peer, Server, PollCall, ok, control_event, broadcast_message, process_control, process_controls,
  handle_event,
}
use ce334_bitcoin_client.Network.Server
use ce334_bitcoin_client.Miner.{
  Miner, OperatingState, paused, run, start, exit, Received, signal, empty, handle_control_signal,
  miner_iteration,
}
use ce334_bitcoin_client.Miner
use ce334_bitcoin_client.Api.{
  length, Stored, IntErrorKind, error_text, Text, Url, codes, text_key, Handles, Response,
  api_response, text_response, collect,
}
use ce334_bitcoin_client.Api.Number.{IsNumeral}

abbrev pub with_miner : Miner.ControlSignal → Handles → Handles
with_miner x h = record h { miner = record h.miner { queue = h.miner.queue ++ x ∷ [] } }

abbrev pub with_network : Server.ControlSignal → Handles → Handles
with_network x h = record h { network = record h.network { queue = h.network.queue ++ x ∷ [] } }

-- What a request is answered with, and what then waits for the threads.
pub data IsAnswer (bc : Blockchain) (h : Handles) : Url → Response × Handles → Type 0 where
  broken_url :
      (e : Text)
      → IsAnswer bc h (inl e) (api_response false (codes "error parsing url: " ++ e) 200, h)
  no_lambda :
      (path : Text) (pairs : List (Text × Text))
      → path ≡ codes "/miner/start"
      → get (codes "lambda") (collect pairs []) ≡ none
      → IsAnswer bc h (inr (path, pairs)) (api_response false (codes "missing lambda") 200, h)
  bad_lambda :
      (path : Text) (pairs : List (Text × Text)) (lambda : Text) (k : IntErrorKind)
      → path ≡ codes "/miner/start"
      → get (codes "lambda") (collect pairs []) ≡ some lambda
      → ((v : ℕ) → ¬ IsNumeral lambda v)
      → IsAnswer bc h
          (inr (path, pairs))
          (api_response false (codes "error parsing lambda: " ++ error_text k) 200, h)
  starts :
      (path : Text) (pairs : List (Text × Text)) (lambda : Text) (v : ℕ)
      → path ≡ codes "/miner/start"
      → get (codes "lambda") (collect pairs []) ≡ some lambda
      → IsNumeral lambda v
      → IsAnswer bc h
          (inr (path, pairs))
          (api_response true (codes "ok") 200, with_miner (start v) h)
  exits :
      (path : Text) (pairs : List (Text × Text))
      → path ≡ codes "/miner/exit"
      → IsAnswer bc h (inr (path, pairs)) (api_response true (codes "ok") 200, with_miner exit h)
  generates :
      (path : Text) (pairs : List (Text × Text))
      → path ≡ codes "/tx_gen"
      → h.tx_gen.is_open ≡ true
      → IsAnswer bc h (inr (path, pairs)) (
        api_response true (codes "ok") 200,
        record h { tx_gen = record { queue = h.tx_gen.queue ++ tt ∷ []; is_open = true } },
      )
  no_generator :
      (path : Text) (pairs : List (Text × Text))
      → path ≡ codes "/tx_gen"
      → h.tx_gen.is_open ≡ false
      → IsAnswer bc h (inr (path, pairs)) (api_response true (codes "ok") 200, h)
  shows_status :
      (path : Text) (pairs : List (Text × Text)) (latest : Stored)
      → path ≡ codes "/status"
      → get bc.tip bc.hash_to_block ≡ some latest
      → IsAnswer bc h (inr (path, pairs)) (
        text_response (record {
          num_blocks = length bc.hash_to_block;
          height = latest.height;
          tip = bc.tip;
          mempool = bc.mempool;
          ledger = latest.state;
        }),
        h,
      )
  pings :
      (path : Text) (pairs : List (Text × Text))
      → path ≡ codes "/network/ping"
      → IsAnswer bc h (inr (path, pairs)) (
        api_response true (codes "ok") 200,
        with_network (broadcast_message (ping (codes "Test ping"))) h,
      )
  no_endpoint :
      (path : Text) (pairs : List (Text × Text))
      → path ≢ codes "/miner/start"
      → path ≢ codes "/miner/exit"
      → path ≢ codes "/tx_gen"
      → path ≢ codes "/status"
      → path ≢ codes "/network/ping"
      → IsAnswer bc h (inr (path, pairs)) (api_response false (codes "endpoint not found") 404, h)
