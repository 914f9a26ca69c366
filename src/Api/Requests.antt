-- ===== src/Api/Requests.antt =====
-- The answers to requests, and what the connections then do (api/mod.rs).
use ce334_bitcoin_client.Prelude.{
  arith, Option-cases, ◌≢◌, bytes_eq, ℕ, ◌≡◌, refl, Bool, true, false, some, List, [], ◌∷◌, ◌++◌,
  Bool-cases, ◌⊎◌, inl, inr, ◌==k◌, done, Returns, Returns-bind, ◌>>=◌,
}
use ce334_bitcoin_client.Platform.{Platform}
use ce334_bitcoin_client.HashMap.{get}
use ce334_bitcoin_client.Crypto.Hash.{h256_key}
use ce334_bitcoin_client.Blockchain.{Blockchain, tip_data}
use ce334_bitcoin_client.Blockchain.Valid.{IsValid}
use ce334_bitcoin_client.Network.Message.{Message, ping}
use ce334_bitcoin_client.Network.Slab.{Slabs, IsSlabs}
use ce334_bitcoin_client.Network.Server.{
  Peer, Server, PollCall, ok, control_event, broadcast_message, process_control, process_controls,
  handle_event,
}
use ce334_bitcoin_client.Network.Server
use ce334_bitcoin_client.Network.Server.Kept.{IsServing}
use ce334_bitcoin_client.Network.Server.Broadcast.{IsSentTo, broadcast_message-IsSentTo}
use ce334_bitcoin_client.Miner.{start, exit}
use ce334_bitcoin_client.Api.{
  Channel, bytes_eq, IntErrorKind, error_text, Text, Url, codes, text_key, Handles, api_response,
  send, try_send, miner_start, miner_exit, broadcast, status_of, parse_u64, collect, start_request,
  handle_request,
}
use ce334_bitcoin_client.Api.Answers.{
  with_miner, with_network, IsAnswer, broken_url, no_lambda, bad_lambda, starts, exits, generates,
  no_generator, shows_status, pings, no_endpoint,
}
use ce334_bitcoin_client.Api.Number.{parse_u64-IsNumeral}

miner_start_of :
    (v : ℕ) (h : Handles) → h.miner.is_open ≡ true → miner_start v h ≡ done (with_miner (start v) h)
unfolding miner_start send
miner_start_of v h e = rw (miner_start, send, e) refl

miner_exit_of : (h : Handles) → h.miner.is_open ≡ true → miner_exit h ≡ done (with_miner exit h)
unfolding miner_exit send
miner_exit_of h e = rw (miner_exit, send, e) refl

broadcast_of :
    (m : Message) (h : Handles)
    → h.network.is_open ≡ true
    → broadcast m h ≡ done (with_network (broadcast_message m) h)
unfolding broadcast send
broadcast_of m h e = rw (broadcast, send, e) refl

is_path : (path name : Text) → (path ==k name) ≡ true → path ≡ name
is_path path name e = (text_key.beq_iff path name).0 e

is_no_path : (path name : Text) → (path ==k name) ≡ false → path ≢ name
is_no_path path name e same = ground (arith, (text_key.beq_iff path name).1 same, e)

start_request-IsAnswer :
    (path : Text) (pairs : List (Text × Text)) (bc : Blockchain) (h : Handles)
    → path ≡ codes "/miner/start"
    → h.miner.is_open ≡ true
    → Returns (IsAnswer bc h (inr (path, pairs))) (start_request pairs h)
unfolding start_request
start_request-IsAnswer path pairs bc h here alive =
    elim (Option-cases (get (codes "lambda") (collect pairs []))) [
      | inl missing ↦ rw (start_request, missing) (no_lambda path pairs here missing)
      | inr (lambda, given) ↦
          rw (start_request, given) (parsed lambda given (parse_u64 lambda) refl)
    ]
  where
    parsed :
        (lambda : Text)
        → get (codes "lambda") (collect pairs []) ≡ some lambda
        → (r : IntErrorKind ⊎ ℕ) → parse_u64 lambda ≡ r
        → Returns (IsAnswer bc h (inr (path, pairs))) (elim r [
          | inl k ↦
              done (api_response false (codes "error parsing lambda: " ++ error_text k) 200, h)
          | inr v ↦ miner_start v h >>= (λ h'. done (api_response true (codes "ok") 200, h'))
        ])
    parsed lambda given (inl k) e =
        bad_lambda path pairs lambda k here given
          (λ v numeral. absurd (cc (e, (parse_u64-IsNumeral lambda v).1 numeral)))
    parsed lambda given (inr v) e =
        rw (miner_start_of v h alive)
          (starts path pairs lambda v here given ((parse_u64-IsNumeral lambda v).0 e))

try_send_open :
    (c : Channel Unit)
    → c.is_open ≡ true
    → try_send tt c ≡ record { queue = c.queue ++ tt ∷ []; is_open = true }
unfolding try_send
try_send_open c e = rw (try_send, e) refl

try_send_closed : (c : Channel Unit) → c.is_open ≡ false → try_send tt c ≡ c
unfolding try_send
try_send_closed c e = rw (try_send, e) refl

tx_gen-IsAnswer :
    (path : Text) (pairs : List (Text × Text)) (bc : Blockchain) (h : Handles)
    → path ≡ codes "/tx_gen"
    → IsAnswer bc h
        (inr (path, pairs))
        (api_response true (codes "ok") 200, record h { tx_gen = try_send tt h.tx_gen })
tx_gen-IsAnswer path pairs bc h here = elim (Bool-cases h.tx_gen.is_open) [
  | inl alive ↦ rw (try_send_open h.tx_gen alive) (generates path pairs here alive)
  | inr gone ↦ rw (try_send_closed h.tx_gen gone) (no_generator path pairs here gone)
]

-- On a well-formed chain and while the miner and the server listen, every request is answered, by its URL:
-- one that does not parse, another path than the five, and a start of the miner without a last "lambda"
-- that is a numeral of 64 bits are failures and change nothing. A start with such a numeral sends the
-- miner a start with its value, an exit sends it an exit, and a ping sends the server a broadcast of
-- "Test ping". /tx_gen sends the generator a signal where it listens, and else changes nothing; these four
-- are answered with "ok". The status shows the chain and changes nothing.
pub handle_request-IsAnswer :
    (p : Platform) (url : Url) (bc : Blockchain) (h : Handles)
    → IsValid p bc
    → h.miner.is_open ≡ true
    → h.network.is_open ≡ true
    → Returns (IsAnswer bc h url) (handle_request url bc h)
unfolding handle_request status_of tip_data
handle_request-IsAnswer p (inl e) bc h v alive alive' = broken_url e
handle_request-IsAnswer p (inr (path, pairs)) bc h v alive alive' =
    elim (Bool-cases (path ==k codes "/miner/start")) [
      | inl here ↦
          rw (handle_request, here)
            (start_request-IsAnswer path pairs bc h (is_path path _ here) alive)
      | inr no_start ↦ elim (Bool-cases (path ==k codes "/miner/exit")) [
        | inl here ↦
            rw (handle_request, no_start, here, miner_exit_of h alive)
              (exits path pairs (is_path path _ here))
        | inr no_exit ↦ elim (Bool-cases (path ==k codes "/tx_gen")) [
          | inl here ↦
              rw (handle_request, no_start, no_exit, here)
                (tx_gen-IsAnswer path pairs bc h (is_path path _ here))
          | inr no_tx_gen ↦ elim (Bool-cases (path ==k codes "/status")) [
            | inl here ↦
                rw (handle_request, no_start, no_exit, no_tx_gen, here, tip_data, v.top_stored)
                  (shows_status path pairs _ (is_path path _ here) v.top_stored)
            | inr no_status ↦ elim (Bool-cases (path ==k codes "/network/ping")) [
              | inl here ↦
                  rw
                    (
                      handle_request,
                      no_start,
                      no_exit,
                      no_tx_gen,
                      no_status,
                      here,
                      broadcast_of (ping (codes "Test ping")) h alive',
                    )
                    (pings path pairs (is_path path _ here))
              | inr no_ping ↦
                  rw (handle_request, no_start, no_exit, no_tx_gen, no_status, no_ping)
                    (no_endpoint path pairs (is_no_path path _ no_start) (is_no_path path _ no_exit)
                      (is_no_path path _ no_tx_gen) (is_no_path path _ no_status)
                      (is_no_path path _ no_ping))
            ]
          ]
        ]
      ]
    ]

-- A request to ping is answered with success, and where nothing else waits for a server that is sound, the
-- server's next control event leaves a frame of the ping to be sent last to each connected peer.
pub ping_request-IsSentTo :
    (S : Slabs Peer) (laws : IsSlabs S) (serialize : Message → List ℕ) (poll : PollCall → Bool)
    (pairs : List (Text × Text)) (bc : Blockchain) (h : Handles) (s : Server.Server S)
    → IsServing S laws serialize poll s
    → h.network.is_open ≡ true
    → h.network.queue ≡ []
    → (h' : Handles) × (handle_request (inr (codes "/network/ping", pairs)) bc h
        ≡ done (api_response true (codes "ok") 200, h'))
      × Returns
          (λ r.
            (r.0 ≡ ok)
            × IsServing S laws serialize poll r.1
            × ((j : ℕ)
                → IsSentTo
                    (serialize (ping (codes "Test ping")))
                    (S.get j s.peers)
                    (S.get j r.1.peers)))
          (handle_event S serialize poll (control_event h'.network.queue true) s)
unfolding handle_request handle_event process_controls bytes_eq
ping_request-IsSentTo S laws serialize poll pairs bc h s v alive idle =
    let msg = ping (codes "Test ping") in
    let sent = broadcast_message-IsSentTo S laws serialize poll msg s v in
    (
      with_network (broadcast_message msg) h,
      rw (handle_request, broadcast_of msg h alive) refl,
      rw idle (
          Returns-bind _ _ _ (process_control S serialize poll (broadcast_message msg) s >>= done)
            (Returns-bind _ _ _ (process_control S serialize poll (broadcast_message msg) s) sent
              (λ s' q. q))
            (λ s' q. (refl, q.0, q.2))),
    )
