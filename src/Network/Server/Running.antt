-- ===== src/Network/Server/Running.antt =====
-- The loop over the events of the poll (network/server.rs).
use ce334_bitcoin_client.Prelude.{
  ℕ, ◌≤◌, ◌≡◌, refl, ap, sym, Bool, true, List, [], ◌∷◌, arith, length, inl, inr, Outcome, done,
  panicked, Returns, Returns-bind,
}
use ce334_bitcoin_client.Network.Message.{Message}
use ce334_bitcoin_client.Network.Slab.{Slabs, IsSlabs}
use ce334_bitcoin_client.Network.Server.{
  max_incoming_client, new_server, Peer, Server, PollCall, ok, err, Delivery, Event, handle_event,
  listen, Result,
}
use ce334_bitcoin_client.Network.Server.Listed.{count, length-distinct}
use ce334_bitcoin_client.Network.Server.Kept.{occupied, occupied_le, IsServing}
use ce334_bitcoin_client.Network.Server.Events.{IsFatal, Handled, fails, handle_event-outcome}

module _ (S : Slabs Peer) (laws : IsSlabs S) (serialize : Message → List ℕ)
    (poll : PollCall → Bool) where
  pub new_server-IsServing : IsServing S laws serialize poll (new_server S)
  unfolding count
  new_server-IsServing = record {
    listed = λ k. sym (ap occupied (laws.get-empty k));
    sound = λ k peer q. absurd (ground (arith, laws.get-empty k));
    below = λ k q. absurd (omega (arith, q));
  }

  module _ (granted : (c : PollCall) → poll c ≡ true) where
    -- No event that the loop comes to is of the write queue of a peer that is then not connected, or of
    -- more messages than the workers' channel then takes.
    abbrev pub IsFresh : List Event → Server S → Type 0
    IsFresh [] s = Unit
    IsFresh (event ∷ events) s =
        ¬ IsFatal S laws serialize poll event s
        × ((s' : Server S) (delivered : List Delivery)
            → handle_event S serialize poll event s ≡ done (ok, s', delivered)
            → IsFresh events s')

    abbrev pub Bounded : Server S → Type 0
    Bounded s = IsServing S laws serialize poll s × (length s.peer_list ≤ max_incoming_client)

    Serving-Bounded : (s : Server S) → IsServing S laws serialize poll s → Bounded s
    Serving-Bounded s v = (
      v,
      length-distinct max_incoming_client s.peer_list
          (λ k. rw (v.listed k) (occupied_le (S.get k s.peers))) v.below,
    )

    listen_on :
        (event : Event) (events : List Event) (s : Server S) (m : Outcome (Result S serialize poll))
        → handle_event S serialize poll event s ≡ m
        → Returns (Handled S laws serialize poll (fails S laws serialize poll event)) m
        → ((s' : Server S) (delivered : List Delivery)
            → m ≡ done (ok, s', delivered)
            → IsServing S laws serialize poll s'
            → Returns (λ r. Bounded r.1) (listen S serialize poll events s'))
        → Returns (λ r. Bounded r.1) (listen S serialize poll (event ∷ events) s)
    unfolding listen
    listen_on event events s (done (err, s', delivered)) e h further =
        rw (listen, e) (Serving-Bounded s' h.1)
    listen_on event events s (done (ok, s', delivered)) e h further =
        rw (listen, e)
          (Returns-bind (λ (r : Result S serialize poll). Bounded r.1)
            (λ (r : Result S serialize poll). Bounded r.1) _ (listen S serialize poll events s')
            (further s' delivered refl h.1) (λ r b. b))
    listen_on event events s panicked e h further = absurd h
    listen_on event events s Outcome.out_of_fuel e h further = absurd h

    -- While the poll takes every call, no event is of the write queue of a peer that is not then connected,
    -- and the workers' channel takes every message that is read, the loop over the events of a sound server
    -- returns without a panic: the list of peers and the table agree, and there are at most 256 connections.
    pub listen-Bounded :
        (events : List Event) (s : Server S)
        → IsServing S laws serialize poll s
        → IsFresh events s
        → Returns (λ r. Bounded r.1) (listen S serialize poll events s)
    unfolding listen
    listen-Bounded [] s v fresh = Serving-Bounded s v
    listen-Bounded (event ∷ events) s v fresh =
        elim (handle_event-outcome S laws serialize poll granted event s v) [
          | inl fatal ↦ absurd (fresh.0 fatal.0)
          | inr handled ↦
              listen_on event events s (handle_event S serialize poll event s) refl handled.1
                (λ s' delivered e v'. listen-Bounded events s' v' (fresh.1 s' delivered e))
        ]
