-- ===== src/Tests/Threads.antt =====
-- A run of the threads of a node, on the toy platform (main.rs).
use ce334_bitcoin_client.Prelude.{
  ℕ, ◌≡◌, refl, ◌-◌, Bool, take, leb, length, true, false, Option, none, some, List, [], ◌∷◌, arith,
  inl, inr, List-cases, Returns,
}
use ce334_bitcoin_client.Network.Message.{Message, ping}
use ce334_bitcoin_client.Network.Peer.Frames.{frame}
use ce334_bitcoin_client.Network.Server.{Peer, would_block}
use ce334_bitcoin_client.Api.{codes, Text}
use ce334_bitcoin_client.Node.{
  Node, Turn, worker_turn, miner_turn, generator_turn, request_turn, connect_turn, control_turn,
  incoming_turn, peer_turn, start_node, take_turns,
}
use ce334_bitcoin_client.Node.Sound.{IsSafe, IsAllowed}
use ce334_bitcoin_client.Node.Known.{
  retry, connect_known_peers, addresses, successes, connected, connect_known_peers-Reaches,
}
use ce334_bitcoin_client.Node.Turns.{take_turns-IsSafe}
use ce334_bitcoin_client.Tests.Toy.{toy}
use ce334_bitcoin_client.Tests.Tables.{lists-IsSlabs}
use ce334_bitcoin_client.Tests.Servers.{table, serialized, grants}

abbrev as_ping : List ℕ → Option Message
as_ping bytes = some (ping bytes)

-- a ping is asked for and broadcast, a peer connects and sends a message that a worker answers, the miner
-- and the generator go on, and a request comes last
abbrev some_turns : List Turn
some_turns =
    request_turn (inr (codes "/network/ping", []))
    ∷ control_turn
    ∷ incoming_turn (true ∷ []) false
    ∷ peer_turn 0 (some (frame (5 ∷ []), would_block)) none
    ∷ worker_turn true
    ∷ connect_turn true true
    ∷ miner_turn 1 2 3
    ∷ generator_turn 17 8
    ∷ []

readable_inbox :
    (n : Node table)
    → IsAllowed toy table (lists-IsSlabs Peer) serialized as_ping grants (worker_turn true) n
readable_inbox n = elim (List-cases n.inbox) [
  | inl idle ↦ rw idle tt
  | inr (d, rest, waits) ↦ rw waits (ping d.0, refl)
]

take_turns-IsSafe_example :
    Returns
      (IsSafe toy table (lists-IsSlabs Peer) serialized as_ping grants)
      (take_turns toy table serialized as_ping grants some_turns (start_node toy table 4))
take_turns-IsSafe_example =
    take_turns-IsSafe toy table (lists-IsSlabs Peer) serialized as_ping grants (λ c. refl)
      some_turns 4 (omega arith)
      (
        refl,
        λ n1 e1. (
          tt,
          λ n2 e2. (
            refl,
            λ n3 e3. (
              λ stale. ground (arith, stale.0),
              λ n4 e4.
                  (readable_inbox n4, λ n5 e5. (tt, λ n6 e6. (tt, λ n7 e7. (tt, λ n8 e8. tt)))),
            ),
          ),
        ),
      )

-- an address is a single digit here
abbrev one_digit : Text → Option ℕ
one_digit [] = none
one_digit (c ∷ []) = some (c - 48)
one_digit (c ∷ d ∷ cs) = none

abbrev known : List Text
known = codes "7" ∷ codes "localhost" ∷ codes "3" ∷ codes "5" ∷ []

abbrev connections : List Bool
connections = false ∷ true ∷ false ∷ false ∷ true ∷ []

known_run : connect_known_peers one_digit known connections ≡ record {
  made = (7, false) ∷ (7, true) ∷ (3, false) ∷ (3, false) ∷ (3, true) ∷ [];
  is_over = false;
}
unfolding connect_known_peers retry
known_run = refl

connect_known_peers-Reaches_example :
    (connected (connect_known_peers one_digit known connections).made
      ≡ take (successes connections) (addresses one_digit known))
    × ((connect_known_peers one_digit known connections).is_over
        ≡ leb (length (addresses one_digit known)) (successes connections))
connect_known_peers-Reaches_example = connect_known_peers-Reaches one_digit known connections
