-- ===== src/Node/Step.antt =====
-- What a turn of each thread keeps (main.rs and the parts that it starts).
use ce334_bitcoin_client.Prelude.{
  ap, ◌/◌, ◌≤◌, Returns-mono, All, Returns-both, ℕ, ◌==◌, ◌≡◌, ◌≢◌, refl, Bool, true, Option, none,
  some, List, [], ◌∷◌, arith, inl, inr, Returns, Returns-bind, List-cases, Bool-cases,
}
use ce334_bitcoin_client.Platform.{Platform}
use ce334_bitcoin_client.Blockchain.Reach.{Reach-IsSound}
use ce334_bitcoin_client.Network.Message.{Message}
use ce334_bitcoin_client.Network.Slab.{Slabs, IsSlabs}
use ce334_bitcoin_client.Network.Server.{
  Outlet, SocketEnd, connect_new_peer, Peer, PollCall, control_event, incoming_event, peer_event,
}
use ce334_bitcoin_client.Network.Server.Sockets.{unheard, heard_throughout}
use ce334_bitcoin_client.Network.Server.Events.{IsFatal, neither}
use ce334_bitcoin_client.Network.Worker.{handle_message}
use ce334_bitcoin_client.Network.Worker.Reached.{handle_message-kept}
use ce334_bitcoin_client.Miner.{Received, signal, empty, disconnected, miner_iteration}
use ce334_bitcoin_client.Miner
use ce334_bitcoin_client.TransactionGenerator.{generation_iteration}
use ce334_bitcoin_client.TransactionGenerator.Generated.{generation_iteration-kept}
use ce334_bitcoin_client.Api.{text_response, api_response, Response, Handles, send, handle_request}
use ce334_bitcoin_client.Api
use ce334_bitcoin_client.Api.Answers.{IsAnswer}
use ce334_bitcoin_client.Api.Requests.{handle_request-IsAnswer}
use ce334_bitcoin_client.Crypto.Hash.{h256_key}
use ce334_bitcoin_client.HashMap.Laws.{contains_key-true}
use ce334_bitcoin_client.Blockchain.{Blockchain}
use ce334_bitcoin_client.Blockchain.Valid.{IsValid}
use ce334_bitcoin_client.Blockchain.Growth.{
  ComesAfter, ComesAfter-IsKept, ComesAfter-self, IsStored,
}
use ce334_bitcoin_client.Miner.Announced.{IsWork-ComesAfter, miner_iteration-MinerProgress}
use ce334_bitcoin_client.Network.Worker.Announced.{block_hashes, handle_message-announced}
use ce334_bitcoin_client.Node.Outgoing.{
  IsOutgoing, AreStored, IsOutgoing-ComesAfter, send-IsOutgoing, broadcast-IsOutgoing,
  broadcast_all-IsOutgoing, IsAnswer-IsOutgoing, effects-AreStored,
}
use ce334_bitcoin_client.Node.{
  false, heard_by, Node, Turn, worker_turn, miner_turn, generator_turn, request_turn, connect_turn,
  control_turn, incoming_turn, peer_turn, receive, broadcast_all, take_turn,
}
use ce334_bitcoin_client.Node.Sound.{IsSafe, IsAllowed, act-IsSafe, serve-IsSafe}

receive-connected : (q : List Miner.ControlSignal) → (receive q).0 ≢ disconnected
receive-connected [] e = grind (arith, e)
receive-connected (s ∷ rest) e = grind (arith, e)

module _ (p : Platform) (S : Slabs Peer) (laws : IsSlabs S) (serialize : Message → List ℕ)
    (deserialize : List ℕ → Option Message) (poll : PollCall → Bool)
    (granted : (c : PollCall) → poll c ≡ true) where
  abbrev Safe : Node S → Type 0
  Safe = IsSafe p S laws serialize deserialize poll

  miner_turn-IsSafe :
      (random created now : ℕ) (n : Node S)
      → Safe n
      → Returns Safe (take_turn p S serialize deserialize poll (miner_turn random created now) n)
  unfolding take_turn
  miner_turn-IsSafe random created now n safe =
      Returns-bind _ Safe _
        (miner_iteration p (receive n.handles.miner.queue).0 random created now n.miner n.chain)
        (miner_iteration-MinerProgress p _ random created now n.miner n.chain
          (receive-connected n.handles.miner.queue) safe.reached safe.working)
        (λ r progress.
          Returns-bind _ Safe _ (broadcast_all r.1 _)
            (broadcast_all-IsOutgoing r.2 r.1 _ progress.2
              (IsOutgoing-ComesAfter p n.chain r.2 n.handles progress.0 safe.outgoing))
            (λ h o. record {
              reached = progress.0.0;
              serving = safe.serving;
              staffed = safe.staffed;
              sender = safe.sender;
              working = progress.1;
              outgoing = o;
            }))

  generator_turn-IsSafe :
      (random_receiver random_validity : ℕ) (n : Node S)
      → Safe n
      → Returns Safe (
          take_turn p S serialize deserialize poll
            (generator_turn random_receiver random_validity)
            n)
  unfolding take_turn
  generator_turn-IsSafe rr rv n safe = elim (List-cases n.handles.tx_gen.queue) [
    | inl idle ↦ rw (take_turn, idle) safe
    | inr (x, rest, waits) ↦ elim (Bool-cases n.is_generating) [
      | inr starts ↦
          rw (take_turn, waits, starts)
            (record {
              reached = safe.reached;
              serving = safe.serving;
              staffed = safe.staffed;
              sender = safe.sender;
              working = safe.working;
              outgoing = safe.outgoing;
            })
      | inl loops ↦
          rw (take_turn, waits, loops)
            (Returns-bind _ Safe _ (generation_iteration p n.next_sender_acc rr rv n.chain)
              (generation_iteration-kept p (ComesAfter p n.chain) (ComesAfter-IsKept p n.chain)
                n.next_sender_acc rr rv n.chain safe.sender (ComesAfter-self p safe.reached))
              (λ r h.
                let taken = record n.handles {
                  tx_gen = record n.handles.tx_gen { queue = rest };
                } in
                let silent : All (IsStored r.2) (block_hashes r.1) = rw h.1.1 tt in
                Returns-bind (IsOutgoing r.2) Safe _ (Api.broadcast r.1 taken)
                  (broadcast-IsOutgoing r.2 r.1 taken silent
                    (IsOutgoing-ComesAfter p n.chain r.2 taken h.2 safe.outgoing))
                  (λ h' o. record {
                    reached = h.2.0;
                    serving = safe.serving;
                    staffed = safe.staffed;
                    sender = h.0;
                    working =
                        IsWork-ComesAfter p n.chain r.2 n.miner.current_block h.2 safe.working;
                    outgoing = o;
                  })))
    ]
  ]

  handle_message-AreStored :
      (m : Message) (bc : Blockchain)
      → IsValid p bc
      → Returns (λ r. AreStored r.1 r.0) (handle_message p m bc)
  handle_message-AreStored m bc v =
      Returns-mono _ (λ r. AreStored r.1 r.0) (handle_message p m bc)
        (λ r same.
          effects-AreStored r.1 r.0
            (λ k q. contains_key-true k r.1.hash_to_block (ground (arith, q, same k))))
        (handle_message-announced p m bc v)

  worker_turn-IsSafe :
      (is_connected : Bool) (n : Node S)
      → Safe n
      → IsAllowed p S laws serialize deserialize poll (worker_turn is_connected) n
      → Returns Safe (take_turn p S serialize deserialize poll (worker_turn is_connected) n)
  unfolding take_turn
  worker_turn-IsSafe c n safe allowed = elim (List-cases n.inbox) [
    | inl idle ↦ rw (take_turn, idle) safe
    | inr (d, rest, waits) ↦
        let (m, reads) : (m : Message) × (deserialize d.0 ≡ some m) = rw waits at allowed in
        rw (take_turn, waits, reads)
          (Returns-bind _ Safe _ (handle_message p m n.chain)
            (Returns-both (λ r. ComesAfter p n.chain r.1) (λ r. AreStored r.1 r.0) _
              (handle_message-kept p (ComesAfter p n.chain) (ComesAfter-IsKept p n.chain) m n.chain
                (ComesAfter-self p safe.reached))
              (handle_message-AreStored m n.chain (Reach-IsSound p safe.reached).valid))
            (λ r h.
              act-IsSafe p S laws serialize deserialize poll c d.1 r.0
                (record n { chain = r.1; inbox = rest })
                (record {
                  reached = h.0.0;
                  serving = safe.serving;
                  staffed = safe.staffed;
                  sender = safe.sender;
                  working = IsWork-ComesAfter p n.chain r.1 n.miner.current_block h.0 safe.working;
                  outgoing = IsOutgoing-ComesAfter p n.chain r.1 n.handles h.0 safe.outgoing;
                })
                h.1))
  ]

  -- While there is a worker, every message is heard.
  peer_harmless :
      (token : ℕ) (readable : Option (List ℕ × SocketEnd)) (writable : Option Outlet) (n : Node S)
      → 1 ≤ n.workers
      → IsAllowed p S laws serialize deserialize poll (peer_turn token readable writable) n
      → ¬ IsFatal S laws serialize poll
          (peer_event token (heard_by n.workers readable) writable)
          n.server
  peer_harmless token readable writable n staffed allowed (inl stale) = allowed stale
  peer_harmless token none writable n staffed allowed (inr lost) = ground (arith, lost.1)
  peer_harmless token (some (available, end)) writable n staffed allowed (inr lost) =
      let some_worker : (n.workers == 0) ≡ false = ground (arith, staffed) in
      let heard = heard_throughout S laws serialize poll (token / 2) available end n.server in
      let staffed_input : heard_by n.workers (some (available, end)) ≡ some (available, end, none) =
        rw some_worker refl in
      let same = ap (λ i. unheard S laws serialize poll (token / 2) i n.server) staffed_input in
      ground (arith, lost.1, same, heard)

  pub take_turn-IsSafe :
      (turn : Turn) (n : Node S)
      → Safe n
      → IsAllowed p S laws serialize deserialize poll turn n
      → Returns Safe (take_turn p S serialize deserialize poll turn n)
  unfolding take_turn
  take_turn-IsSafe (worker_turn c) n safe allowed = worker_turn-IsSafe c n safe allowed
  take_turn-IsSafe (miner_turn random created now) n safe allowed =
      miner_turn-IsSafe random created now n safe
  take_turn-IsSafe (generator_turn rr rv) n safe allowed = generator_turn-IsSafe rr rv n safe
  take_turn-IsSafe (request_turn url) n safe allowed =
      Returns-bind (IsAnswer n.chain n.handles url) Safe _ (handle_request url n.chain n.handles)
        (handle_request-IsAnswer p url n.chain n.handles (Reach-IsSound p safe.reached).valid
          allowed safe.outgoing.0)
        (λ r a. record {
          reached = safe.reached;
          serving = safe.serving;
          staffed = safe.staffed;
          sender = safe.sender;
          working = safe.working;
          outgoing = IsAnswer-IsOutgoing n.chain n.handles url r safe.outgoing a;
        })
  take_turn-IsSafe (connect_turn connects peer_new) n safe allowed =
      Returns-bind _ Safe _ (send (connect_new_peer connects peer_new) n.handles.network)
        (send-IsOutgoing n.chain (connect_new_peer connects peer_new) n.handles tt safe.outgoing)
        (λ network o. record {
          reached = safe.reached;
          serving = safe.serving;
          staffed = safe.staffed;
          sender = safe.sender;
          working = safe.working;
          outgoing = o;
        })
  take_turn-IsSafe control_turn n safe allowed =
      serve-IsSafe p S laws serialize deserialize poll (control_event n.handles.network.queue true)
        _
        (record {
          reached = safe.reached;
          serving = safe.serving;
          staffed = safe.staffed;
          sender = safe.sender;
          working = safe.working;
          outgoing = (safe.outgoing.0, tt);
        })
        granted neither refl
  take_turn-IsSafe (incoming_turn streams is_broken) n safe allowed =
      serve-IsSafe p S laws serialize deserialize poll (incoming_event streams is_broken) n safe
        granted neither allowed
  take_turn-IsSafe (peer_turn token readable writable) n safe allowed =
      serve-IsSafe p S laws serialize deserialize poll
        (peer_event token (heard_by n.workers readable) writable) n safe granted
        (peer_harmless token readable writable n safe.staffed allowed) refl
