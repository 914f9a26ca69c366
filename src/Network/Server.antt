-- ===== src/Network/Server.antt =====
-- network/server.rs: the connections, and the event loop over the poll's events. What the sockets have or
-- take, for how long there is a worker, and which calls of the poll succeed, are arguments; whoever asks for
-- a connection waits for the answer.
mod Peers
pub mod Listed
pub mod Drain
pub mod Received
pub mod Conveyed
pub mod Kept
pub mod Sockets
pub mod Broadcast
pub mod Events
pub mod Running
pub mod Lost
use ce334_bitcoin_client.Prelude.{
  ℕ, zero, suc, ◌+◌, ◌*◌, ◌/◌, ◌%◌, Bool, true, false, not, Option, none, some, List, [], ◌∷◌, ◌++◌,
  length, leb, ◌==◌, if◌then◌else◌, Outcome, done, panicked, out_of_fuel, ◌>>=◌,
}
use ce334_bitcoin_client.Network.Message.{Message}
use ce334_bitcoin_client.Network.Peer.{
  ReadContext, WriteContext, ReadResult, continue, message, eof, read, new_reader, new_writer,
  WriteResult, complete, write_eof, chan_closed, failed, write,
}
use ce334_bitcoin_client.Network.Peer.Frames.{turns}
use ce334_bitcoin_client.Network.Slab.{Slabs}
pub use Peers.{
  max_incoming_client, Direction, incoming, outgoing, Peer, new_peer, Delivery, SocketEnd,
  would_block, closed, broken, Inlet, takes, Fate, stays, leaves, Outlet,
}
unfoldable pub use Peers.{position, last_or, drop_last, swap_remove, drain, enqueue}

pub record Server (S : Slabs Peer) : Type 0 where
  pub peers : S.Slab
  pub peer_list : List ℕ

-- `new`: no peer is connected
abbrev pub new_server : (S : Slabs Peer) → Server S
new_server S = record { peers = S.empty; peer_list = [] }

-- `mio::Ready` and `mio::PollOpt`, as they occur
pub data Interest : Type 0 where
  readable_edge readable_writable_edge readable_oneshot : Interest

-- a call of the poll, with the token of what it is about
pub data PollCall : Type 0 where
  register_call reregister_call : ℕ → Interest → PollCall
  deregister_call : ℕ → PollCall
  deregister_control : PollCall

-- `std::io::Result`
pub data IoResult : Type 0 where
  ok err : IoResult

-- `ControlSignal`; a request to connect comes with whether the connection and the peer can be made
pub data ControlSignal : Type 0 where
  connect_new_peer : (connects : Bool) → (peer_new : Bool) → ControlSignal
  broadcast_message : Message → ControlSignal

-- an event of the poll, with what the channel, the listener or the socket then gives
pub data Event : Type 0 where
  control_event : List ControlSignal → (is_connected : Bool) → Event
  -- the streams that are accepted, and whether the listener fails then
  incoming_event : List Bool → (is_broken : Bool) → Event
  peer_event : (token : ℕ) → (readable : Option Inlet) → (writable : Option Outlet) → Event

module _ (S : Slabs Peer) (serialize : Message → List ℕ) (poll : PollCall → Bool) where
  abbrev pub Result : Type 0
  Result = IoResult × Server S × List Delivery

  -- `register`, told whether `peer::new` succeeds
  unfoldable pub register : Direction → Bool → Server S → IoResult × Server S
  register direction peer_new s =
      let key = S.vacant_key s.peers in
      if leb max_incoming_client key
      then (err, s)
      else if not (poll (register_call (key * 2) readable_edge))
      then (err, s)
      else if not peer_new
      then (err, s)
      else if not (poll (register_call (key * 2 + 1) readable_oneshot))
      then (err, s)
      else (
        ok,
        record {
          peers = S.insert (new_peer direction) s.peers;
          peer_list = s.peer_list ++ key ∷ [];
        },
      )

  -- `connect`, told whether the stream connects
  unfoldable pub connect : Bool → Bool → Server S → IoResult × Server S
  unfolding register
  connect connects peer_new s = if connects then register outgoing peer_new s else (err, s)

  -- `for peer_id in &self.peer_list`
  unfoldable pub broadcast_to : List ℕ → List ℕ → S.Slab → Outcome S.Slab
  unfolding enqueue
  broadcast_to bytes [] peers = done peers
  broadcast_to bytes (peer_id ∷ ids) peers = elim (S.get peer_id peers) [
    | none ↦ panicked
    | some peer ↦ broadcast_to bytes ids (S.update peer_id (enqueue bytes peer) peers)
  ]

  unfoldable pub process_control : ControlSignal → Server S → Outcome (Server S)
  unfolding connect broadcast_to
  process_control (connect_new_peer connects peer_new) s = done (connect connects peer_new s).1
  process_control (broadcast_message msg) s = do
    peers ← broadcast_to (serialize msg) s.peer_list s.peers
    done (record s { peers = peers })

  unfoldable pub process_controls : List ControlSignal → Server S → Outcome (Server S)
  process_controls [] s = done s
  process_controls (req ∷ reqs) s = do s' ← process_control req s; process_controls reqs s'

  -- `accept`, for each stream; a failure to register is logged
  unfoldable pub accept_all : List Bool → Server S → Server S
  accept_all [] s = s
  accept_all (peer_new ∷ streams) s = accept_all streams (register incoming peer_new s).1

  -- `self.peers.remove(peer_id)`, and the same of the list
  unfoldable pub remove_peer : ℕ → Server S → Outcome (Server S)
  unfolding position swap_remove
  remove_peer peer_id s = elim (S.get peer_id s.peers) [
    | none ↦ panicked
    | some _ ↦ elim (position peer_id s.peer_list) [
      | none ↦ panicked
      | some index ↦
          done
            (record { peers = S.remove peer_id s.peers; peer_list = swap_remove index s.peer_list })
    ]
  ]

  unfoldable pub register_write_interest : ℕ → Server S → Outcome IoResult
  register_write_interest peer_id s = elim (S.get peer_id s.peers) [
    | none ↦ panicked
    | some _ ↦
        done (if poll (reregister_call (peer_id * 2) readable_writable_edge) then ok else err)
  ]

  abbrev pub deliveries : ℕ → List (List ℕ) → List Delivery
  deliveries peer_id [] = []
  deliveries peer_id (m ∷ ms) = (m, peer_id) ∷ deliveries peer_id ms

  -- Each read takes a byte or is the last. A message is sent as soon as it is read; here the sends are
  -- looked at after the reads, since nothing is left of the thread once the `unwrap` of one panics.
  unfoldable pub process_readable : ℕ → Inlet → Server S → Outcome (Server S × List Delivery)
  unfolding drain remove_peer
  process_readable peer_id (available, end, hearing) s = elim (S.get peer_id s.peers) [
    | none ↦ panicked
    | some peer ↦ do
      (fate, reader, messages) ← drain (length available + 1) available end peer.reader
      let read_on = record s { peers = S.update peer_id (record peer { reader = reader }) s.peers }
      elim (takes hearing (length messages)) [
        | false ↦ panicked
        | true ↦ do
          s' ← elim fate [ stays ↦ done read_on | leaves ↦ remove_peer peer_id read_on ]
          done (s', deliveries peer_id messages)
      ]
  ]

  unfoldable pub process_writable : ℕ → Outlet → Server S → Outcome (IoResult × Server S)
  unfolding remove_peer
  process_writable peer_id o s = elim (S.get peer_id s.peers) [
    | none ↦ panicked
    | some peer ↦ do
      (result, writer, sent) ← write o.flushes (turns o.accepts peer.writer) o.accepts peer.writer
      let written = record s { peers = S.update peer_id (record peer { writer = writer }) s.peers }
      elim result [
        | complete ↦ done (
            if not (poll (reregister_call (peer_id * 2) readable_edge))
            then (err, written)
            else if not (poll (reregister_call (peer_id * 2 + 1) readable_oneshot))
            then (err, written)
            else (ok, written))
        | chan_closed ↦ done (
            if not (poll (reregister_call (peer_id * 2) readable_edge))
            then (err, written)
            else if not (poll (deregister_call (peer_id * 2 + 1)))
            then (err, written)
            else (ok, written))
        | write_eof ↦ do s' ← remove_peer peer_id written; done (ok, s')
        | failed ↦ elim o.is_broken [
          | false ↦ done (ok, written)
          | true ↦ do s' ← remove_peer peer_id written; done (ok, s')
        ]
      ]
  ]

  -- `if readiness.is_readable() { … }`: whether the event is done with, as by `continue`.
  unfoldable pub socket_readable :
      ℕ → Option Inlet → Server S → Outcome (Bool × Server S × List Delivery)
  unfolding process_readable
  socket_readable peer_id none s = done (false, s, [])
  socket_readable peer_id (some input) s = elim (S.get peer_id s.peers) [
    | none ↦ done (true, s, [])
    | some _ ↦ do (s', delivered) ← process_readable peer_id input s; done (false, s', delivered)
  ]

  -- `if readiness.is_writable() { … }`, with the `unwrap`
  unfoldable pub socket_writable : ℕ → Option Outlet → Server S → Outcome (Server S)
  unfolding process_writable
  socket_writable peer_id none s = done s
  socket_writable peer_id (some outlet) s = elim (S.get peer_id s.peers) [
    | none ↦ done s
    | some _ ↦ do
      (result, s') ← process_writable peer_id outlet s
      elim result [ ok ↦ done s' | err ↦ panicked ]
  ]

  -- The `match event.token()` of `listen`; an error is returned by `?`.
  unfoldable pub handle_event : Event → Server S → Outcome Result
  unfolding process_controls accept_all socket_readable socket_writable register_write_interest
  handle_event (control_event reqs is_connected) s = do
    s' ← process_controls reqs s
    done (if is_connected then ok else if poll deregister_control then ok else err, s', [])
  handle_event (incoming_event streams is_broken) s =
      done (if is_broken then err else ok, accept_all streams s, [])
  handle_event (peer_event token readable writable) s =
      let peer_id = token / 2 in
      elim (token % 2 == 0) [
        | true ↦ do
          (finished, s', delivered) ← socket_readable peer_id readable s
          elim finished [
            | true ↦ done (ok, s', delivered)
            | false ↦ do s'' ← socket_writable peer_id writable s'; done (ok, s'', delivered)
          ]
        | false ↦ do result ← register_write_interest peer_id s; done (result, s, [])
      ]

  -- The loop of `listen` over events, until an error ends it.
  unfoldable pub listen : List Event → Server S → Outcome Result
  unfolding handle_event
  listen [] s = done (ok, s, [])
  listen (event ∷ events) s = do
    (result, s', delivered) ← handle_event event s
    elim result [
      | err ↦ done (err, s', delivered)
      | ok ↦ do (result', s'', more) ← listen events s'; done (result', s'', delivered ++ more)
    ]
