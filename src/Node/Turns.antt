-- ===== src/Node/Turns.antt =====
-- The turns of the node's threads, in any order (main.rs and the parts that it starts).
use ce334_bitcoin_client.Prelude.{
  ◌≤◌, Returns-done, ℕ, ◌≡◌, refl, Bool, true, Option, List, [], ◌∷◌, arith, done, Returns,
}
use ce334_bitcoin_client.Platform.{Platform}
use ce334_bitcoin_client.Blockchain.Reach.{Reach}
use ce334_bitcoin_client.Network.Message.{Message}
use ce334_bitcoin_client.Network.Slab.{Slabs, IsSlabs}
use ce334_bitcoin_client.Network.Server.{Peer, PollCall}
use ce334_bitcoin_client.Network.Server.Running.{new_server-IsServing}
use ce334_bitcoin_client.Crypto.Hash.{h256_key}
use ce334_bitcoin_client.Node.{Node, Turn, start_node, take_turn, take_turns}
use ce334_bitcoin_client.Node.Sound.{IsSafe, IsAllowed}
use ce334_bitcoin_client.Node.Step.{take_turn-IsSafe}

module _ (p : Platform) (S : Slabs Peer) (laws : IsSlabs S) (serialize : Message → List ℕ)
    (deserialize : List ℕ → Option Message) (poll : PollCall → Bool)
    (granted : (c : PollCall) → poll c ≡ true) where
  abbrev pub Safe : Node S → Type 0
  Safe = IsSafe p S laws serialize deserialize poll

  -- Each turn is allowed where it is taken.
  abbrev pub AreAllowed : List Turn → Node S → Type 0
  AreAllowed [] n = Unit
  AreAllowed (turn ∷ turns) n =
      IsAllowed p S laws serialize deserialize poll turn n
      × ((n' : Node S)
          → take_turn p S serialize deserialize poll turn n ≡ done n'
          → AreAllowed turns n')

  take_turns-kept :
      (turns : List Turn) (n : Node S)
      → Safe n
      → AreAllowed turns n
      → Returns Safe (take_turns p S serialize deserialize poll turns n)
  unfolding take_turns
  take_turns-kept [] n safe allowed = safe
  take_turns-kept (turn ∷ turns) n safe allowed =
      let (n', e, safe') =
        Returns-done Safe (take_turn p S serialize deserialize poll turn n)
          (take_turn-IsSafe p S laws serialize deserialize poll granted turn n safe (allowed.0)) in
      rw (take_turns, e) (take_turns-kept turns n' safe' (allowed.1 n' e))

  start_node-IsSafe : (p2p_workers : ℕ) → 1 ≤ p2p_workers → Safe (start_node p S p2p_workers)
  start_node-IsSafe p2p_workers staffed = record {
    staffed = staffed;
    reached = Reach.start;
    serving = new_server-IsServing S laws serialize poll;
    sender = omega arith;
    working = tt;
    outgoing = (refl, tt);
  }

  -- In any order in which the threads of a node started with at least one worker take turns, none panics and the server's loop
  -- does not end, as long as each turn is allowed where it is taken: the bytes that a worker takes are a
  -- message, requests come while the miner listens, the listener does not fail, no event is of the write
  -- queue of a peer that is not connected, and the poll takes every call. The chain is then a reachable
  -- one, the server's list and table of peers agree, the generator's sender is one of its accounts, the
  -- parent of the block that the miner works on is stored and takes its transactions, and every block
  -- whose hash waits to be announced, found by the miner or sent by a peer, is stored.
  pub take_turns-IsSafe :
      (turns : List Turn) (p2p_workers : ℕ)
      → 1 ≤ p2p_workers
      → AreAllowed turns (start_node p S p2p_workers)
      → Returns Safe (take_turns p S serialize deserialize poll turns (start_node p S p2p_workers))
  take_turns-IsSafe turns p2p_workers staffed allowed =
      take_turns-kept turns (start_node p S p2p_workers) (start_node-IsSafe p2p_workers staffed)
        allowed
