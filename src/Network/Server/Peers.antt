-- ===== src/Network/Server/Peers.antt =====
-- A connection and its socket (network/peer.rs, network/server.rs).
use ce334_bitcoin_client.Prelude.{
  true, ℕ, zero, suc, Bool, Option, none, some, List, [], ◌∷◌, ◌++◌, ◌==◌, leb, if◌then◌else◌,
  Outcome, done, out_of_fuel, ◌>>=◌,
}
use ce334_bitcoin_client.Network.Peer.{
  ReadContext, WriteContext, continue, message, eof, read, new_reader, new_writer,
}

abbrev pub max_incoming_client : ℕ
max_incoming_client = 256

pub data Direction : Type 0 where
  incoming outgoing : Direction

-- `peer::Context`, less the socket and its address. The handle is the sending end of the writer's queue.
pub record Peer : Type 0 where
  pub reader : ReadContext
  pub writer : WriteContext
  pub direction : Direction

-- `peer::new`, when the calls of the socket succeed
abbrev pub new_peer : Direction → Peer
new_peer direction = record { reader = new_reader; writer = new_writer; direction = direction }

-- `self.new_msg_chan.send((m, peer.handle.clone()))`: the message and the peer
abbrev pub Delivery : Type 0
Delivery = List ℕ × ℕ

-- `.iter().position(|&x| x == peer_id)`
unfoldable pub position : ℕ → List ℕ → Option ℕ
position k [] = none
position k (x ∷ xs) =
    let rest = position k xs in
    if x == k then some 0 else elim rest [ none ↦ none | some i ↦ some (suc i) ]

-- `Vec::swap_remove`: the last item takes the place; nothing changes out of range
unfoldable pub last_or : ℕ → List ℕ → ℕ
last_or x [] = x
last_or x (y ∷ ys) = last_or y ys

unfoldable pub drop_last : List ℕ → List ℕ
drop_last [] = []
drop_last (x ∷ []) = []
drop_last (x ∷ y ∷ ys) = x ∷ drop_last (y ∷ ys)

unfoldable pub swap_remove : ℕ → List ℕ → List ℕ
unfolding last_or drop_last
swap_remove i [] = []
swap_remove zero (x ∷ []) = []
swap_remove zero (x ∷ y ∷ ys) = last_or y ys ∷ drop_last (y ∷ ys)
swap_remove (suc i) (x ∷ xs) = x ∷ swap_remove i xs

-- What a socket does after the bytes that it has.
pub data SocketEnd : Type 0 where
  would_block closed broken : SocketEnd

-- What a readable socket gives: its bytes, what it does after them, and how many more messages the
-- workers' channel takes before no worker is left; with `none` there is a worker throughout.
abbrev pub Inlet : Type 0
Inlet = List ℕ × SocketEnd × Option ℕ

-- The channel takes that many messages.
abbrev pub takes : Option ℕ → ℕ → Bool
takes none n = true
takes (some left) n = leb n left

-- Whether the peer stays connected.
pub data Fate : Type 0 where
  stays leaves : Fate

-- The loop of `process_readable` over the reads of a socket: the messages, and how it ends.
unfoldable pub drain :
    ℕ → List ℕ → SocketEnd → ReadContext → Outcome (Fate × ReadContext × List (List ℕ))
drain zero available end r = out_of_fuel
drain (suc fuel) [] would_block r = done (stays, r, [])
drain (suc fuel) [] broken r = done (leaves, r, [])
drain (suc fuel) [] closed r = do (_, r', _) ← read [] r; done (leaves, r', [])
drain (suc fuel) (b ∷ bytes) end r = do
  (result, r', rest) ← read (b ∷ bytes) r
  elim result [
    | eof ↦ done (leaves, r', [])
    | continue ↦ drain fuel rest end r'
    | message m ↦ do (fate, r'', messages) ← drain fuel rest end r'; done (fate, r'', m ∷ messages)
  ]

-- What a socket takes: see `write`. A failure is of another kind than `WouldBlock` where it is broken.
pub record Outlet : Type 0 where
  pub accepts : List ℕ
  pub flushes : Option ℕ
  pub is_broken : Bool

-- the peer's handle: `self.write_queue.send(bincode::serialize(&msg).unwrap())`
unfoldable pub enqueue : List ℕ → Peer → Peer
enqueue bytes peer = record peer {
  writer = record peer.writer { queue = peer.writer.queue ++ bytes ∷ [] };
}
