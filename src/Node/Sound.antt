-- ===== src/Node/Sound.antt =====
-- What the turns of the node's threads keep (main.rs and the parts that it starts).
use ce334_bitcoin_client.Prelude.{
  ◌≤◌, ℕ, ◌<◌, ◌≡◌, refl, Bool, true, false, Option, some, List, [], ◌∷◌, inl, inr, Returns,
  Returns-bind, Option-cases,
}
use ce334_bitcoin_client.Platform.{Platform}
use ce334_bitcoin_client.Blockchain.Reach.{Reach}
use ce334_bitcoin_client.Network.Message.{Message}
use ce334_bitcoin_client.Network.Slab.{Slabs, IsSlabs}
use ce334_bitcoin_client.Network.Server.{
  Peer, Server, PollCall, Event, peer_event, enqueue, handle_event,
}
use ce334_bitcoin_client.Network.Server.Kept.{IsServing, update-IsServing, enqueue-IsSound}
use ce334_bitcoin_client.Network.Server.Events.{
  IsStale, IsFatal, fails, Handled, handle_event-outcome,
}
use ce334_bitcoin_client.Network.Worker.{Effect}
use ce334_bitcoin_client.Api.{text_response, api_response, Response, Handles, send, handle_request}
use ce334_bitcoin_client.Api
use ce334_bitcoin_client.Miner.Announced.{IsWorkIfAny}
use ce334_bitcoin_client.Node.Outgoing.{IsOutgoing, AreStored, broadcast-IsOutgoing}
use ce334_bitcoin_client.Node.{
  Node, Turn, worker_turn, miner_turn, generator_turn, request_turn, connect_turn, control_turn,
  incoming_turn, peer_turn, heard_by, write_to, act, serve,
}

module _ (p : Platform) (S : Slabs Peer) (laws : IsSlabs S) (serialize : Message → List ℕ)
    (deserialize : List ℕ → Option Message) (poll : PollCall → Bool) where
  -- The chain is reachable, the server is sound and its loop runs, there is a worker, the generator's sender is one of its
  -- ten accounts, the miner has a block to work on or none, and what waits to be announced is stored.
  pub record IsSafe (n : Node S) : Type 0 where
    pub reached : Reach p n.chain
    pub serving : IsServing S laws serialize poll n.server
    pub staffed : 1 ≤ n.workers
    pub sender : n.next_sender_acc < 10
    pub working : IsWorkIfAny p n.chain n.miner.current_block
    pub outgoing : IsOutgoing n.chain n.handles

  -- The bytes that a worker takes are a message, no request comes once the miner has ended, the listener
  -- does not fail, and no event is of the write queue of a peer that is not connected.
  abbrev pub IsAllowed : Turn → Node S → Type 0
  IsAllowed (worker_turn is_connected) n = elim n.inbox [
    | [] ↦ Unit
    | (msg, k) ∷ rest ↦ (m : Message) × (deserialize msg ≡ some m)
  ]
  IsAllowed (miner_turn random created now) n = Unit
  IsAllowed (generator_turn random_receiver random_validity) n = Unit
  IsAllowed (request_turn url) n = n.handles.miner.is_open ≡ true
  IsAllowed (connect_turn connects peer_new) n = Unit
  IsAllowed control_turn n = Unit
  IsAllowed (incoming_turn streams is_broken) n = is_broken ≡ false
  IsAllowed (peer_turn token readable writable) n =
      ¬ IsStale S laws serialize poll (peer_event token (heard_by n.workers readable) writable)
        n.server

  write_to-IsServing :
      (is_connected : Bool) (k : ℕ) (m : Message) (s : Server S)
      → IsServing S laws serialize poll s
      → IsServing S laws serialize poll (write_to p S serialize deserialize poll is_connected k m s)
  unfolding write_to
  write_to-IsServing false k m s v = v
  write_to-IsServing true k m s v = elim (Option-cases (S.get k s.peers)) [
    | inl absent ↦ rw (write_to, absent) v
    | inr (peer, found) ↦
        rw (write_to, found)
          (update-IsServing S laws serialize poll k peer (enqueue (serialize m) peer) s found
            (enqueue-IsSound (serialize m) peer (v.sound k peer found)) v)
  ]

  pub act-IsSafe :
      (is_connected : Bool) (k : ℕ) (effects : List Effect) (n : Node S)
      → IsSafe n
      → AreStored n.chain effects
      → Returns IsSafe (act p S serialize deserialize poll is_connected k effects n)
  unfolding act
  act-IsSafe c k [] n safe stored = safe
  act-IsSafe c k (Effect.write m ∷ effects) n safe stored =
      act-IsSafe c k effects
        (record n { server = write_to p S serialize deserialize poll c k m n.server })
        (record {
          reached = safe.reached;
          serving = write_to-IsServing c k m n.server safe.serving;
          staffed = safe.staffed;
          sender = safe.sender;
          working = safe.working;
          outgoing = safe.outgoing;
        })
        stored.1
  act-IsSafe c k (Effect.broadcast m ∷ effects) n safe stored =
      Returns-bind (IsOutgoing n.chain) IsSafe _ (Api.broadcast m n.handles)
        (broadcast-IsOutgoing n.chain m n.handles stored.0 safe.outgoing)
        (λ h s.
          act-IsSafe c k effects (record n { handles = h })
            (record {
              reached = safe.reached;
              serving = safe.serving;
              staffed = safe.staffed;
              sender = safe.sender;
              working = safe.working;
              outgoing = s;
            })
            stored.1)

  pub serve-IsSafe :
      (event : Event) (n : Node S)
      → IsSafe n
      → ((c : PollCall) → poll c ≡ true)
      → ¬ IsFatal S laws serialize poll event n.server
      → fails S laws serialize poll event ≡ false
      → Returns IsSafe (serve p S serialize deserialize poll event n)
  unfolding serve
  serve-IsSafe event n safe granted fresh holds =
      elim (handle_event-outcome S laws serialize poll granted event n.server safe.serving) [
        | inl fatal ↦ absurd (fresh fatal.0)
        | inr handled ↦
            rw (serve, safe.outgoing.0)
              (Returns-bind (Handled S laws serialize poll (fails S laws serialize poll event))
                IsSafe _ (handle_event S serialize poll event n.server) handled.1
                (λ r h.
                  rw (h.0, holds)
                    (record {
                      reached = safe.reached;
                      serving = h.1;
                      staffed = safe.staffed;
                      sender = safe.sender;
                      working = safe.working;
                      outgoing = (refl, safe.outgoing.1);
                    })))
      ]
