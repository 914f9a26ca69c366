-- ===== src/Node.antt =====
-- main.rs: the node, whose threads share the chain and send each other signals and messages. A turn is what
-- one thread does at once. Whether a connection is still the one that a message came from, the random
-- numbers and the times are arguments.
pub mod Outgoing
pub mod Sound
pub mod Step
pub mod Turns
pub mod Known
use ce334_bitcoin_client.Prelude.{
  ℕ, ◌==◌, Bool, true, false, Option, none, some, List, [], ◌∷◌, ◌++◌, Outcome, done, panicked,
  ◌>>=◌, if◌then◌else◌,
}
use ce334_bitcoin_client.Platform.{Platform}
use ce334_bitcoin_client.Blockchain.{Blockchain, new}
use ce334_bitcoin_client.Network.Message.{Message}
use ce334_bitcoin_client.Network.Slab.{Slabs}
use ce334_bitcoin_client.Network.Server.{
  Peer, Server, PollCall, IoResult, ok, err, Delivery, SocketEnd, Inlet, Outlet, Event,
  control_event, incoming_event, peer_event, ControlSignal, connect_new_peer, new_server, enqueue,
  handle_event,
}
use ce334_bitcoin_client.Network.Worker.{Effect, handle_message}
use ce334_bitcoin_client.Network.Worker
use ce334_bitcoin_client.Miner.{
  Miner, OperatingState, paused, shut_down, Received, signal, empty, miner_iteration,
}
use ce334_bitcoin_client.Miner
use ce334_bitcoin_client.TransactionGenerator.{generation_iteration}
use ce334_bitcoin_client.Api.{Channel, Handles, Url, send, handle_request}
use ce334_bitcoin_client.Api

-- What the threads keep and what waits in their channels.
pub record Node (S : Slabs Peer) : Type 0 where
  pub chain : Blockchain
  pub miner : Miner
  pub server : Server S
  -- the worker threads; the panic of one is the panic of the run
  pub workers : ℕ
  -- the messages that wait for a worker
  pub inbox : List Delivery
  -- the generator: whether its loop runs, and `next_sender_acc`
  pub is_generating : Bool
  pub next_sender_acc : ℕ
  pub handles : Handles

abbrev pub open_channel : {A : Type 0} → Channel A
open_channel = record { queue = []; is_open = true }

-- `main`, as far as the threads: the parts that are started
abbrev pub start_node : (p : Platform) (S : Slabs Peer) → (p2p_workers : ℕ) → Node S
start_node p S p2p_workers = record {
  chain = new p;
  miner = record { operating_state = paused; current_block = none };
  server = new_server S;
  workers = p2p_workers;
  inbox = [];
  is_generating = false;
  next_sender_acc = 0;
  handles = record { miner = open_channel; network = open_channel; tx_gen = open_channel };
}

pub data Turn : Type 0 where
  -- a worker handles a message; whether the message's connection is still there
  worker_turn : (is_connected : Bool) → Turn
  miner_turn : (random created now : ℕ) → Turn
  generator_turn : (random_receiver random_validity : ℕ) → Turn
  request_turn : Url → Turn
  -- the thread that connects to the known peers asks for a connection
  connect_turn : (connects peer_new : Bool) → Turn
  -- the server's loop takes the signals, streams, or an event of a connection
  control_turn : Turn
  incoming_turn : List Bool → (is_broken : Bool) → Turn
  peer_turn :
      (token : ℕ) → (readable : Option (List ℕ × SocketEnd)) → (writable : Option Outlet) → Turn

-- what `try_recv` gives the miner, and what waits then
abbrev pub receive : List Miner.ControlSignal → Received × List Miner.ControlSignal
receive [] = (empty, [])
receive (s ∷ rest) = (signal s, rest)

-- The miner's thread has its end of the channel until it shuts down.
abbrev pub listens : OperatingState → Bool
listens shut_down = false
listens _ = true

-- What a socket gives while there are that many workers: with none, no message can be sent to them.
abbrev pub heard_by : ℕ → Option (List ℕ × SocketEnd) → Option Inlet
heard_by workers none = none
heard_by workers (some (available, end)) =
    some (available, end, if workers == 0 then some 0 else none)

unfoldable pub broadcast_all : List Message → Handles → Outcome Handles
unfolding Api.broadcast
broadcast_all [] h = done h
broadcast_all (m ∷ ms) h = do h' ← Api.broadcast m h; broadcast_all ms h'

module _ (p : Platform) (S : Slabs Peer) (serialize : Message → List ℕ)
    (deserialize : List ℕ → Option Message) (poll : PollCall → Bool) where
  -- `peer.write` of a worker
  unfoldable pub write_to : Bool → ℕ → Message → Server S → Server S
  unfolding enqueue
  write_to false k m s = s
  write_to true k m s = elim (S.get k s.peers) [
    | none ↦ s
    | some peer ↦ record s { peers = S.update k (enqueue (serialize m) peer) s.peers }
  ]

  unfoldable pub act : Bool → ℕ → List Effect → Node S → Outcome (Node S)
  unfolding write_to Api.broadcast
  act is_connected k [] n = done n
  act is_connected k (Effect.write m ∷ effects) n =
      act is_connected k effects (record n { server = write_to is_connected k m n.server })
  act is_connected k (Effect.broadcast m ∷ effects) n = do
    h ← Api.broadcast m n.handles
    act is_connected k effects (record n { handles = h })

  -- an event of the poll, while the server's loop runs; an error ends it
  unfoldable pub serve : Event → Node S → Outcome (Node S)
  unfolding handle_event
  serve event n = elim n.handles.network.is_open [
    | false ↦ done n
    | true ↦ do
      (result, server, delivered) ← handle_event S serialize poll event n.server
      let runs : Bool = elim result [ ok ↦ true | err ↦ false ]
      done (record n {
        server = server;
        inbox = n.inbox ++ delivered;
        handles = record n.handles { network = record n.handles.network { is_open = runs } };
      })
  ]

  unfoldable pub take_turn : Turn → Node S → Outcome (Node S)
  unfolding act serve broadcast_all
  take_turn (worker_turn is_connected) n = elim n.inbox [
    | [] ↦ done n
    | (msg, k) ∷ rest ↦ elim (deserialize msg) [
      | none ↦ panicked
      | some m ↦ do
        (effects, chain) ← handle_message p m n.chain
        act is_connected k effects (record n { chain = chain; inbox = rest })
    ]
  ]
  take_turn (miner_turn random created now) n = do
    let (received, rest) = receive n.handles.miner.queue
    (miner, broadcasts, chain) ← miner_iteration p received random created now n.miner n.chain
    handles ← broadcast_all broadcasts (record n.handles {
      miner = record { queue = rest; is_open = listens miner.operating_state };
    })
    done (record n { miner = miner; chain = chain; handles = handles })
  take_turn (generator_turn random_receiver random_validity) n = elim n.handles.tx_gen.queue [
    | [] ↦ done n
    | _ ∷ rest ↦
        let taken = record n.handles { tx_gen = record n.handles.tx_gen { queue = rest } } in
        elim n.is_generating [
          | false ↦ done (record n { is_generating = true; handles = taken })
          | true ↦ do
            (next_sender_acc, message, chain) ←
                generation_iteration p n.next_sender_acc random_receiver random_validity n.chain
            handles ← Api.broadcast message taken
            done (record n { chain = chain; next_sender_acc = next_sender_acc; handles = handles })
        ]
  ]
  take_turn (request_turn url) n = do
    (_, handles) ← handle_request url n.chain n.handles
    done (record n { handles = handles })
  take_turn (connect_turn connects peer_new) n = do
    network ← send (connect_new_peer connects peer_new) n.handles.network
    done (record n { handles = record n.handles { network = network } })
  take_turn control_turn n =
      let idle = record n.handles { network = record n.handles.network { queue = [] } } in
      serve (control_event n.handles.network.queue true) (record n { handles = idle })
  take_turn (incoming_turn streams is_broken) n = serve (incoming_event streams is_broken) n
  take_turn (peer_turn token readable writable) n =
      serve (peer_event token (heard_by n.workers readable) writable) n

  unfoldable pub take_turns : List Turn → Node S → Outcome (Node S)
  unfolding take_turn
  take_turns [] n = done n
  take_turns (turn ∷ turns) n = do n' ← take_turn turn n; take_turns turns n'
