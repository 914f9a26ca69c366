-- ===== src/Node/Outgoing.antt =====
-- The signals that wait for the server, and the blocks that they announce (main.rs, network/server.rs).
use ce334_bitcoin_client.Prelude.{
  ◌≡◌, refl, true, List, [], ◌∷◌, ◌==k◌, All, All-append, All-mono, arith, Returns, Returns-bind,
}
use ce334_bitcoin_client.Crypto.Hash.{H256, h256_key}
use ce334_bitcoin_client.Platform.{Platform}
use ce334_bitcoin_client.Blockchain.{Blockchain}
use ce334_bitcoin_client.Blockchain.Insert.{elem, elem-append}
use ce334_bitcoin_client.Blockchain.Growth.{IsStored, ComesAfter, IsStored-ComesAfter}
use ce334_bitcoin_client.Network.Message.{Message}
use ce334_bitcoin_client.Network.Server.{ControlSignal, connect_new_peer, broadcast_message}
use ce334_bitcoin_client.Network.Worker.{Effect}
use ce334_bitcoin_client.Network.Worker.Announced.{block_hashes, announced_by, announced}
use ce334_bitcoin_client.Api.{Url, Handles, Response, api_response, text_response, send}
use ce334_bitcoin_client.Api
use ce334_bitcoin_client.Api.Answers.{
  IsAnswer, broken_url, no_lambda, bad_lambda, starts, exits, generates, no_generator, shows_status,
  pings, no_endpoint,
}
use ce334_bitcoin_client.Node.{broadcast_all}

abbrev announced_hashes : ControlSignal → List H256
announced_hashes (broadcast_message m) = block_hashes m
announced_hashes (connect_new_peer connects peer_new) = []

-- The server's loop runs, and the blocks that waiting signals announce are stored.
abbrev pub IsOutgoing : Blockchain → Handles → Type 0
IsOutgoing bc h =
    (h.network.is_open ≡ true)
    × All (λ signal. All (IsStored bc) (announced_hashes signal)) h.network.queue

pub IsOutgoing-ComesAfter :
    (p : Platform) (bc bc' : Blockchain) (h : Handles)
    → ComesAfter p bc bc'
    → IsOutgoing bc h
    → IsOutgoing bc' h
IsOutgoing-ComesAfter p bc bc' h later o = (
  o.0,
  All-mono _ _ h.network.queue
      (λ signal stored.
        All-mono (IsStored bc) (IsStored bc') (announced_hashes signal)
          (IsStored-ComesAfter p bc bc' later) stored)
      o.1,
)

pub send-IsOutgoing :
    (bc : Blockchain) (signal : ControlSignal) (h : Handles)
    → All (IsStored bc) (announced_hashes signal)
    → IsOutgoing bc h
    → Returns (λ network. IsOutgoing bc (record h { network = network })) (send signal h.network)
unfolding send
send-IsOutgoing bc signal h stored o =
    rw (send, o.0)
      (
        refl,
        All-append (λ s. All (IsStored bc) (announced_hashes s)) h.network.queue (signal ∷ []) o.1
            (stored, tt),
      )

pub broadcast-IsOutgoing :
    (bc : Blockchain) (m : Message) (h : Handles)
    → All (IsStored bc) (block_hashes m)
    → IsOutgoing bc h
    → Returns (IsOutgoing bc) (Api.broadcast m h)
unfolding Api.broadcast
broadcast-IsOutgoing bc m h stored o =
    Returns-bind _ (IsOutgoing bc) _ (send (broadcast_message m) h.network)
      (send-IsOutgoing bc (broadcast_message m) h stored o) (λ network o'. o')

pub broadcast_all-IsOutgoing :
    (bc : Blockchain) (ms : List Message) (h : Handles)
    → All (λ m. All (IsStored bc) (block_hashes m)) ms
    → IsOutgoing bc h
    → Returns (IsOutgoing bc) (broadcast_all ms h)
unfolding broadcast_all
broadcast_all-IsOutgoing bc [] h stored o = o
broadcast_all-IsOutgoing bc (m ∷ ms) h stored o =
    Returns-bind (IsOutgoing bc) (IsOutgoing bc) _ (Api.broadcast m h)
      (broadcast-IsOutgoing bc m h stored.0 o)
      (λ h' o'. broadcast_all-IsOutgoing bc ms h' stored.1 o')

-- An answer to a request announces no block.
pub IsAnswer-IsOutgoing :
    (bc : Blockchain) (h : Handles) (url : Url) (r : Response × Handles)
    → IsOutgoing bc h
    → IsAnswer bc h url r
    → IsOutgoing bc r.1
IsAnswer-IsOutgoing bc h url r o (broken_url e) = o
IsAnswer-IsOutgoing bc h url r o (no_lambda path pairs here missing) = o
IsAnswer-IsOutgoing bc h url r o (bad_lambda path pairs lambda k here given no_numeral) = o
IsAnswer-IsOutgoing bc h url r o (starts path pairs lambda v here given numeral) = o
IsAnswer-IsOutgoing bc h url r o (exits path pairs here) = o
IsAnswer-IsOutgoing bc h url r o (generates path pairs here alive) = o
IsAnswer-IsOutgoing bc h url r o (no_generator path pairs here gone) = o
IsAnswer-IsOutgoing bc h url r o (shows_status path pairs latest here found) = o
IsAnswer-IsOutgoing bc h url r o (pings path pairs here) =
    (o.0, All-append (λ s. All (IsStored bc) (announced_hashes s)) h.network.queue _ o.1 (tt, tt))
IsAnswer-IsOutgoing bc h url r o (no_endpoint path pairs a b c d e) = o

abbrev pub AreStored : Blockchain → List Effect → Type 0
AreStored bc effects = All (λ effect. All (IsStored bc) (announced_by effect)) effects

hashes-IsStored :
    (bc : Blockchain) (hashes : List H256)
    → ((k : H256) → elem k hashes ≡ true → IsStored bc k)
    → All (IsStored bc) hashes
unfolding elem
hashes-IsStored bc [] h = tt
hashes-IsStored bc (k ∷ hashes) h =
    let itself : (k ==k k) ≡ true = (h256_key.beq_iff k k).1 refl in
    (h k (ground (arith, itself)), hashes-IsStored bc hashes (λ j q. h j (ground (arith, q))))

-- What is among the announced hashes is announced by one of the effects.
pub effects-AreStored :
    (bc : Blockchain) (effects : List Effect)
    → ((k : H256) → elem k (announced effects) ≡ true → IsStored bc k)
    → AreStored bc effects
unfolding announced
effects-AreStored bc [] h = tt
effects-AreStored bc (effect ∷ effects) h = (
  hashes-IsStored bc (announced_by effect)
      (λ k q. h k (ground (arith, q, elem-append k (announced_by effect) (announced effects)))),
  effects-AreStored bc effects
      (λ k q. h k (ground (arith, q, elem-append k (announced_by effect) (announced effects)))),
)
