-- ===== src/Tests/Servers.antt =====
-- Runs of the server's event loop (network/server.rs).
use ce334_bitcoin_client.Prelude.{
  ◌++◌, inr, inl, done, ◌⊎◌, ℕ, ◌≤◌, ◌≡◌, refl, Bool, true, false, none, some, List, [], ◌∷◌, arith,
  length, panicked, Returns,
}
use ce334_bitcoin_client.Network.Message.{Message, ping}
use ce334_bitcoin_client.Network.Slab.{Slabs}
use ce334_bitcoin_client.Network.Server.{
  incoming, Peer, new_peer, Server, new_server, PollCall, position, would_block, closed, drain,
  remove_peer, broadcast_message, control_event, incoming_event, peer_event, register, broadcast_to,
  process_control, process_controls, process_readable, register_write_interest, socket_readable,
  socket_writable, handle_event, listen,
}
use ce334_bitcoin_client.Network.Server.Conveyed.{
  waiting, waiting-IsWriting, write-process_readable,
}
use ce334_bitcoin_client.Network.Peer.{write, complete, WriteContext, read, new_reader}
use ce334_bitcoin_client.Network.Peer.Frames.{unsent, IsWriting, frames, frame}
use ce334_bitcoin_client.Network.Server.Sockets.{heard_throughout}
use ce334_bitcoin_client.Network.Peer.Sent.{write-unsent}
use ce334_bitcoin_client.Network.Server.Kept.{IsServing, register-IsServing}
use ce334_bitcoin_client.Network.Server.Running.{new_server-IsServing, listen-Bounded}
use ce334_bitcoin_client.Network.Server.Events.{neither, IsFatal, Handled, handle_event-outcome}
use ce334_bitcoin_client.Network.Server.Broadcast.{IsSentTo, broadcast_message-IsSentTo}
use ce334_bitcoin_client.Network.Server.Lost.{listen-lost_peer}
use ce334_bitcoin_client.Tests.Tables.{lookup, above, without, lists, lists-IsSlabs}

abbrev pub table : Slabs Peer
table = lists Peer

abbrev pub serialized : Message → List ℕ
serialized m = 9 ∷ 9 ∷ []

abbrev pub grants : PollCall → Bool
grants c = true

-- the server that one peer has connected to
abbrev pub one_peer : Server table
one_peer = record { peers = (0, new_peer incoming) ∷ []; peer_list = 0 ∷ [] }

pub one_peer-IsServing : IsServing table (lists-IsSlabs Peer) serialized grants one_peer
unfolding register above
one_peer-IsServing =
    register-IsServing table (lists-IsSlabs Peer) serialized grants incoming true (new_server table)
      (new_server-IsServing table (lists-IsSlabs Peer) serialized grants)

one_peer-found : lookup 0 one_peer.peers ≡ some (new_peer incoming)
unfolding lookup
one_peer-found = refl

-- a broadcast, the end of the connection, and the message that the queue then still has
lost_run :
    listen table serialized grants
      (control_event (broadcast_message (ping []) ∷ []) true
        ∷ peer_event 0 (some ([], closed, none)) none
        ∷ peer_event 1 none none
        ∷ [])
      one_peer
    ≡ panicked
unfolding listen handle_event process_controls process_control broadcast_to lookup socket_readable
    process_readable drain read remove_peer position socket_writable register_write_interest without
lost_run = refl

refused_run : (register table serialized (λ c. false) incoming true one_peer).1 ≡ one_peer
unfolding register above
refused_run = refl

broadcast_message-IsSentTo_example :
    Returns
      (λ s'.
        IsServing table (lists-IsSlabs Peer) serialized grants s'
        × (s'.peer_list ≡ 0 ∷ [])
        × ((j : ℕ) → IsSentTo (9 ∷ 9 ∷ []) (lookup j one_peer.peers) (lookup j s'.peers)))
      (process_control table serialized grants (broadcast_message (ping [])) one_peer)
broadcast_message-IsSentTo_example =
    broadcast_message-IsSentTo table (lists-IsSlabs Peer) serialized grants (ping []) one_peer
      one_peer-IsServing

handle_event-outcome_example :
    (IsFatal table (lists-IsSlabs Peer) serialized grants (incoming_event (true ∷ []) true) one_peer
      × (handle_event table serialized grants (incoming_event (true ∷ []) true) one_peer
          ≡ panicked))
    ⊎ (¬ IsFatal table
          (lists-IsSlabs Peer)
          serialized
          grants
          (incoming_event (true ∷ []) true)
          one_peer
        × Returns
            (Handled table (lists-IsSlabs Peer) serialized grants true)
            (handle_event table serialized grants (incoming_event (true ∷ []) true) one_peer))
handle_event-outcome_example =
    handle_event-outcome table (lists-IsSlabs Peer) serialized grants (λ c. refl)
      (incoming_event (true ∷ []) true) one_peer one_peer-IsServing

even_harmless :
    ¬ IsFatal table
      (lists-IsSlabs Peer)
      serialized
      grants
      (peer_event 0 (some (frame (5 ∷ []), would_block, none)) none)
      one_peer
even_harmless (inl stale) = ground (arith, stale.0)
even_harmless (inr lost) = ground (
  arith,
  lost.1,
  heard_throughout table (lists-IsSlabs Peer) serialized grants 0 (frame (5 ∷ [])) would_block
      one_peer,
)

listen-Bounded_example :
    Returns
      (λ r.
        IsServing table (lists-IsSlabs Peer) serialized grants r.1 × (length r.1.peer_list ≤ 256))
      (listen table serialized grants
        (peer_event 0 (some (frame (5 ∷ []), would_block, none)) none
          ∷ incoming_event (true ∷ []) false
          ∷ [])
        one_peer)
listen-Bounded_example =
    listen-Bounded table (lists-IsSlabs Peer) serialized grants (λ c. refl)
      (peer_event 0 (some (frame (5 ∷ []), would_block, none)) none
        ∷ incoming_event (true ∷ []) false
        ∷ [])
      one_peer one_peer-IsServing
      (even_harmless, λ s' delivered e. (neither, λ s'' delivered' e'. tt))

listen-lost_peer_example :
    listen table serialized grants
      (peer_event 0 (some ([], closed, none)) none
        ∷ peer_event 1 none none
        ∷ incoming_event [] false
        ∷ [])
      one_peer
    ≡ panicked
listen-lost_peer_example =
    listen-lost_peer table (lists-IsSlabs Peer) serialized grants 0 (new_peer incoming) one_peer
      (incoming_event [] false ∷ []) one_peer-IsServing one_peer-found

-- the first message goes out in two portions
abbrev portions : List ℕ
portions = 3 ∷ 9 ∷ 2 ∷ 9 ∷ 9 ∷ 1 ∷ 1 ∷ 1 ∷ 1 ∷ 1 ∷ 1 ∷ []

abbrev two_messages : List (List ℕ)
two_messages = (5 ∷ []) ∷ (6 ∷ 7 ∷ []) ∷ []

write-process_readable_example :
    (w : WriteContext) × (sent : List ℕ) × (write none 40 portions (waiting two_messages)
      ≡ done (complete, w, sent))
    × Returns
        (λ r.
          (r.1 ≡ (5 ∷ [], 0) ∷ (6 ∷ 7 ∷ [], 0) ∷ [])
          × IsServing table (lists-IsSlabs Peer) serialized grants r.0)
        (process_readable table serialized grants 0 (sent, would_block, none) one_peer)
unfolding frames frame
write-process_readable_example =
    write-process_readable table (lists-IsSlabs Peer) serialized grants 40 portions two_messages 0
      one_peer (new_peer incoming) new_reader.buffer (omega arith)
      (
        omega arith,
        (
          omega arith,
          (
            omega arith,
            (
              omega arith,
              (
                omega arith,
                (
                  omega arith,
                  (omega arith, (omega arith, (omega arith, (omega arith, (omega arith, tt))))),
                ),
              ),
            ),
          ),
        ),
      )
      (omega arith) ((omega arith, omega arith), ((omega arith, omega arith), tt))
      one_peer-IsServing one_peer-found refl

-- the first message is on its way when the socket takes no more
write-unsent_example :
    Returns
      (λ r. IsWriting r.1 × (r.2 ++ unsent r.1 ≡ unsent (waiting two_messages)))
      (write (some 1) 20 (3 ∷ 9 ∷ []) (waiting two_messages))
write-unsent_example =
    write-unsent (some 1) 20 (3 ∷ 9 ∷ []) (waiting two_messages) (waiting-IsWriting two_messages)
      (omega arith)
