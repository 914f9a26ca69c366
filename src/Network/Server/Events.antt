-- ===== src/Network/Server/Events.antt =====
-- The events of the poll, and which of them end the server's thread (network/server.rs).
use ce334_bitcoin_client.Prelude.{
  ◌⊎◌, ℕ, ◌*◌, ◌/◌, ◌%◌, ◌≡◌, refl, Bool, true, false, Option, none, some, List, [], ◌∷◌, arith,
  ◌==◌, if◌then◌else◌, Bool-cases, Option-cases, inl, inr, done, panicked, Returns, Returns-bind,
  Returns-mono, ◌>>=◌,
}
use ce334_bitcoin_client.Network.Message.{Message}
use ce334_bitcoin_client.Network.Slab.{Slabs, IsSlabs}
use ce334_bitcoin_client.Network.Server.{
  Inlet, readable_writable_edge, reregister_call, deregister_control, Peer, Server, PollCall,
  IoResult, ok, err, Delivery, ControlSignal, connect_new_peer, broadcast_message, connect, Event,
  control_event, incoming_event, peer_event, outgoing, incoming, Outlet, process_control,
  process_controls, accept_all, process_readable, process_writable, register_write_interest,
  socket_readable, socket_writable, handle_event, Result,
}
use ce334_bitcoin_client.Network.Server.Kept.{IsServing, register-IsServing}
use ce334_bitcoin_client.Network.Server.Sockets.{
  socket_readable-unheard, unheard, process_readable-IsServing, process_writable-IsServing,
}
use ce334_bitcoin_client.Network.Server.Broadcast.{broadcast_message-IsSentTo}

pub neither : ¬ (⊥ ⊎ ⊥)
neither (inl x) = x
neither (inr x) = x

module _ (S : Slabs Peer) (laws : IsSlabs S) (serialize : Message → List ℕ)
    (poll : PollCall → Bool) where
  -- The event is of the write queue of a peer that is not connected.
  abbrev pub IsStale : Event → Server S → Type 0
  IsStale (control_event reqs is_connected) s = ⊥
  IsStale (incoming_event streams is_broken) s = ⊥
  IsStale (peer_event token readable writable) s =
      (token % 2 ≡ 1) × (S.get (token / 2) s.peers ≡ none)

  -- The event is of bytes of a connected peer, with more messages than the workers' channel takes.
  abbrev pub IsUnheard : Event → Server S → Type 0
  IsUnheard (control_event reqs is_connected) s = ⊥
  IsUnheard (incoming_event streams is_broken) s = ⊥
  IsUnheard (peer_event token readable writable) s =
      (token % 2 ≡ 0) × (unheard S laws serialize poll (token / 2) readable s ≡ true)

  -- The thread does not outlive the event.
  abbrev pub IsFatal : Event → Server S → Type 0
  IsFatal event s = IsStale event s ⊎ IsUnheard event s

  abbrev Serving : Server S → Type 0
  Serving = IsServing S laws serialize poll

  process_control-IsServing :
      (req : ControlSignal) (s : Server S)
      → Serving s
      → Returns Serving (process_control S serialize poll req s)
  unfolding process_control connect
  process_control-IsServing (connect_new_peer true peer_new) s v =
      register-IsServing S laws serialize poll outgoing peer_new s v
  process_control-IsServing (connect_new_peer false peer_new) s v = v
  process_control-IsServing (broadcast_message msg) s v =
      Returns-mono _ Serving (process_control S serialize poll (broadcast_message msg) s)
        (λ s' q. q.0) (broadcast_message-IsSentTo S laws serialize poll msg s v)

  process_controls-IsServing :
      (reqs : List ControlSignal) (s : Server S)
      → Serving s
      → Returns Serving (process_controls S serialize poll reqs s)
  unfolding process_controls
  process_controls-IsServing [] s v = v
  process_controls-IsServing (req ∷ reqs) s v =
      Returns-bind Serving Serving _ (process_control S serialize poll req s)
        (process_control-IsServing req s v) (λ s' v'. process_controls-IsServing reqs s' v')

  accept_all-IsServing :
      (streams : List Bool) (s : Server S)
      → Serving s
      → Serving (accept_all S serialize poll streams s)
  unfolding accept_all
  accept_all-IsServing [] s v = v
  accept_all-IsServing (peer_new ∷ streams) s v =
      accept_all-IsServing streams _
        (register-IsServing S laws serialize poll incoming peer_new s v)

  socket_readable-IsServing :
      (k : ℕ) (input : Option Inlet) (s : Server S)
      → Serving s
      → unheard S laws serialize poll k input s ≡ false
      → Returns (λ r. Serving r.1) (socket_readable S serialize poll k input s)
  unfolding socket_readable
  socket_readable-IsServing k none s v heard = v
  socket_readable-IsServing k (some (available, end, hearing)) s v heard =
      elim (Option-cases (S.get k s.peers)) [
        | inl absent ↦ rw (socket_readable, absent) v
        | inr (peer, found) ↦
            rw (socket_readable, found)
              (Returns-bind (λ (r : Server S × List Delivery). Serving r.0)
                (λ (r : Bool × Server S × List Delivery). Serving r.1) _
                (process_readable S serialize poll k (available, end, hearing) s)
                (process_readable-IsServing S laws serialize poll k available end hearing s v peer
                  found (rw (unheard, found) at heard))
                (λ r v'. v'))
      ]

  -- The event is a failure of the listener.
  abbrev pub fails : Event → Bool
  fails (control_event reqs is_connected) = false
  fails (incoming_event streams is_broken) = is_broken
  fails (peer_event token readable writable) = false

  abbrev pub Handled : Bool → Result S serialize poll → Type 0
  Handled failed r = (r.0 ≡ (if failed then err else ok)) × Serving r.1

  module _ (granted : (c : PollCall) → poll c ≡ true) where
    socket_writable-IsServing :
        (k : ℕ) (outlet : Option Outlet) (s : Server S)
        → Serving s
        → Returns Serving (socket_writable S serialize poll k outlet s)
    unfolding socket_writable
    socket_writable-IsServing k none s v = v
    socket_writable-IsServing k (some o) s v = elim (Option-cases (S.get k s.peers)) [
      | inl absent ↦ rw (socket_writable, absent) v
      | inr (peer, found) ↦
          rw (socket_writable, found)
            (Returns-bind (λ (r : IoResult × Server S). (r.0 ≡ ok) × Serving r.1) Serving _
              (process_writable S serialize poll k o s)
              (process_writable-IsServing S laws serialize poll granted k o s v peer found)
              (λ r h. rw h.0 h.1))
    ]

    -- the rest of an event, once the socket is read
    after_read :
        (k : ℕ) (writable : Option Outlet) (finished : Bool) (s : Server S)
        (delivered : List Delivery)
        → Serving s
        → Returns (Handled false) (elim finished [
          | true ↦ done (ok, s, delivered)
          | false ↦
              socket_writable S serialize poll k writable s >>= (λ s'. done (ok, s', delivered))
        ])
    after_read k writable true s delivered v = (refl, v)
    after_read k writable false s delivered v =
        Returns-bind Serving (Handled false) _ (socket_writable S serialize poll k writable s)
          (socket_writable-IsServing k writable s v) (λ s' v'. (refl, v'))

    even_harmless :
        (token : ℕ) (readable : Option Inlet) (writable : Option Outlet) (s : Server S)
        → (token % 2 == 0) ≡ true
        → unheard S laws serialize poll (token / 2) readable s ≡ false
        → ¬ IsFatal (peer_event token readable writable) s
    even_harmless token readable writable s even heard (inl stale) = ground (arith, stale.0)
    even_harmless token readable writable s even heard (inr lost) = ground (arith, lost.1, heard)

    odd_harmless :
        (token : ℕ) (readable : Option Inlet) (writable : Option Outlet) (s : Server S)
        (peer : Peer)
        → token % 2 ≡ 1
        → S.get (token / 2) s.peers ≡ some peer
        → ¬ IsFatal (peer_event token readable writable) s
    odd_harmless token readable writable s peer odd found (inl stale) =
        ground (arith, stale.1, found)
    odd_harmless token readable writable s peer odd found (inr lost) = ground (arith, lost.0)

    -- While the server is sound and the poll takes every call, an event is handled without a panic and
    -- leaves the server sound, with an error just where it is a failure of the listener, unless it is of
    -- the write queue of a peer that is not connected, or of bytes of a connected peer that make more
    -- messages than the workers' channel takes before no worker is left: in just these two cases the
    -- server's thread panics.
    pub handle_event-outcome :
        (event : Event) (s : Server S)
        → Serving s
        → (IsFatal event s × (handle_event S serialize poll event s ≡ panicked))
          ⊎ (¬ IsFatal event s
              × Returns (Handled (fails event)) (handle_event S serialize poll event s))
    unfolding handle_event register_write_interest
    handle_event-outcome (control_event reqs is_connected) s v = inr (
      neither,
      Returns-bind Serving (Handled false) _ (process_controls S serialize poll reqs s)
          (process_controls-IsServing reqs s v) (λ s' v'. (ended is_connected, v')),
    )
      where
        ended : (c : Bool) → (if c then ok else if poll deregister_control then ok else err) ≡ ok
        ended true = refl
        ended false = rw (granted deregister_control) refl
    handle_event-outcome (incoming_event streams is_broken) s v =
        inr (neither, (refl, accept_all-IsServing streams s v))
    handle_event-outcome (peer_event token readable writable) s v =
        let k = token / 2 in
        elim (Bool-cases (token % 2 == 0)) [
          | inl even ↦ elim (Bool-cases (unheard S laws serialize poll k readable s)) [
            | inl lost ↦ inl (
              inr (ground arith, lost),
              rw
                  (
                    handle_event,
                    even,
                    socket_readable-unheard S laws serialize poll k readable s lost,
                  )
                  refl,
            )
            | inr heard ↦ inr (
              even_harmless token readable writable s even heard,
              rw (handle_event, even)
                  (Returns-bind (λ (r : Bool × Server S × List Delivery). Serving r.1)
                    (Handled false) _ (socket_readable S serialize poll k readable s)
                    (socket_readable-IsServing k readable s v heard)
                    (λ r v'. after_read k writable r.0 r.1 r.2 v')),
            )
          ]
          | inr odd ↦
              let is_odd : token % 2 ≡ 1 = ground arith in
              elim (Option-cases (S.get k s.peers)) [
                | inl absent ↦ inl (
                  inl (is_odd, absent),
                  rw (handle_event, odd, register_write_interest, absent) refl,
                )
                | inr (peer, found) ↦ inr (
                  odd_harmless token readable writable s peer is_odd found,
                  rw
                      (
                        handle_event,
                        odd,
                        register_write_interest,
                        found,
                        granted (reregister_call (k * 2) readable_writable_edge),
                      )
                      (refl, v),
                )
              ]
        ]
