-- ===== src/Network/Server/Sockets.antt =====
-- The sockets that are ready: reading from a peer, and writing to it (network/server.rs).
use ce334_bitcoin_client.Prelude.{
  inr, inl, Option-cases, ℕ, ◌+◌, ◌*◌, ◌≡◌, refl, Bool, true, false, not, Option, none, some, List,
  arith, length, if◌then◌else◌, done, Returns, Returns-bind, ◌>>=◌,
}
use ce334_bitcoin_client.Network.Message.{Message}
use ce334_bitcoin_client.Network.Peer.{
  complete, chan_closed, write_eof, failed, ReadContext, WriteContext, WriteResult, write,
}
use ce334_bitcoin_client.Network.Peer.Sent.{write-unsent}
use ce334_bitcoin_client.Network.Peer.Frames.{IsWriting, turns}
use ce334_bitcoin_client.Network.Peer.Framed.{IsReading}
use ce334_bitcoin_client.Network.Slab.{Slabs, IsSlabs}
use ce334_bitcoin_client.Network.Server.{
  panicked, Outcome, Inlet, takes, Option, socket_readable, reregister_call, deregister_call,
  IoResult, ok, err, Outlet, process_writable, readable_edge, readable_oneshot, Peer, Server,
  PollCall, remove_peer, SocketEnd, drain, Fate, stays, leaves, process_readable,
}
use ce334_bitcoin_client.Network.Server.Drain.{drain-IsReading}
use ce334_bitcoin_client.Network.Server.Kept.{
  IsServing, update-IsServing, remove_peer-IsServing, get-update_self,
}

module _ (S : Slabs Peer) (laws : IsSlabs S) (serialize : Message → List ℕ)
    (poll : PollCall → Bool) where
  abbrev Serving : Server S → Type 0
  Serving = IsServing S laws serialize poll

  -- The channel does not take all the messages that are read.
  abbrev pub overflows : Option ℕ → Outcome (Fate × ReadContext × List (List ℕ)) → Bool
  overflows hearing (done r) = not (takes hearing (length r.2))
  overflows hearing panicked = false
  overflows hearing Outcome.out_of_fuel = false

  -- the same of a peer, where it is connected
  abbrev pub unheard : ℕ → Option Inlet → Server S → Bool
  unheard k none s = false
  unheard k (some (available, end, hearing)) s = elim (S.get k s.peers) [
    | none ↦ false
    | some peer ↦ overflows hearing (drain (length available + 1) available end peer.reader)
  ]

  overflows-none : (m : Outcome (Fate × ReadContext × List (List ℕ))) → overflows none m ≡ false
  overflows-none (done r) = refl
  overflows-none panicked = refl
  overflows-none Outcome.out_of_fuel = refl

  -- While there is a worker throughout, every message is heard.
  pub heard_throughout :
      (k : ℕ) (available : List ℕ) (end : SocketEnd) (s : Server S)
      → unheard k (some (available, end, none)) s ≡ false
  heard_throughout k available end s = elim (Option-cases (S.get k s.peers)) [
    | inl absent ↦ rw (unheard, absent) refl
    | inr (peer, found) ↦ rw (unheard, found) (overflows-none _)
  ]

  taken :
      (hearing : Option ℕ) (m : Outcome (Fate × ReadContext × List (List ℕ)))
      → Returns (λ q. IsReading q.1) m
      → overflows hearing m ≡ false
      → Returns (λ q. IsReading q.1 × (takes hearing (length q.2) ≡ true)) m
  taken hearing (done r) v h = (v, ground (arith, h))
  taken hearing panicked v h = v
  taken hearing Outcome.out_of_fuel v h = v

  -- the peer read on, and is kept or removed
  read_on-IsServing :
      (k : ℕ) (peer : Peer) (s : Server S)
      → S.get k s.peers ≡ some peer
      → Serving s
      → (fate : Fate) (reader : ReadContext) → IsReading reader
      → Returns Serving (
          let read_on = record s { peers = S.update k (record peer { reader = reader }) s.peers } in
          elim fate [ stays ↦ done read_on | leaves ↦ remove_peer S serialize poll k read_on ])
  read_on-IsServing k peer s found v stays reader h =
      update-IsServing S laws serialize poll k peer (record peer { reader = reader }) s found
        (h, (v.sound k peer found).1) v
  read_on-IsServing k peer s found v leaves reader h =
      let next = record peer { reader = reader } in
      remove_peer-IsServing S laws serialize poll k next
        (record s { peers = S.update k next s.peers })
        (get-update_self S laws serialize poll k next peer s.peers found)
        (update-IsServing S laws serialize poll k peer next s found (h, (v.sound k peer found).1) v)

  pub process_readable-IsServing :
      (k : ℕ) (available : List ℕ) (end : SocketEnd) (hearing : Option ℕ) (s : Server S)
      → Serving s
      → (peer : Peer) → S.get k s.peers ≡ some peer
      → overflows hearing (drain (length available + 1) available end peer.reader) ≡ false
      → Returns (λ r. Serving r.0) (process_readable S serialize poll k (available, end, hearing) s)
  unfolding process_readable
  process_readable-IsServing k available end hearing s v peer found heard =
      let drained = drain (length available + 1) available end peer.reader in
      rw (process_readable, found)
        (Returns-bind
          (λ (q : Fate × ReadContext × List (List ℕ)).
            IsReading q.1 × (takes hearing (length q.2) ≡ true))
          (λ r. Serving r.0) _ drained
          (taken hearing drained
            (drain-IsReading (length available + 1) available end peer.reader (omega arith)
              (v.sound k peer found).0)
            heard)
          (λ q h. rw h.1 (
            Returns-bind Serving (λ r. Serving r.0) _ _
              (read_on-IsServing k peer s found v q.0 q.1 h.0) (λ s' v'. v'))))

  -- A message that no worker is left for ends the thread.
  process_readable-overflows :
      (k : ℕ) (available : List ℕ) (end : SocketEnd) (hearing : Option ℕ) (s : Server S)
      (peer : Peer) (m : Outcome (Fate × ReadContext × List (List ℕ)))
      → S.get k s.peers ≡ some peer
      → drain (length available + 1) available end peer.reader ≡ m
      → overflows hearing m ≡ true
      → process_readable S serialize poll k (available, end, hearing) s ≡ panicked
  unfolding process_readable
  process_readable-overflows k available end hearing s peer (done r) found e h =
      let full : takes hearing (length r.2) ≡ false = ground (arith, h) in
      rw (process_readable, found, e, ◌>>=◌, full) refl
  process_readable-overflows k available end hearing s peer panicked found e h =
      absurd (ground (arith, h))
  process_readable-overflows k available end hearing s peer Outcome.out_of_fuel found e h =
      absurd (ground (arith, h))

  pub socket_readable-unheard :
      (k : ℕ) (input : Option Inlet) (s : Server S)
      → unheard k input s ≡ true
      → socket_readable S serialize poll k input s ≡ panicked
  unfolding socket_readable
  socket_readable-unheard k none s h = absurd (ground (arith, h))
  socket_readable-unheard k (some (available, end, hearing)) s h =
      elim (Option-cases (S.get k s.peers)) [
        | inl absent ↦ absurd (ground (arith, rw (unheard, absent) at h))
        | inr (peer, found) ↦
            let over = rw (unheard, found) at h in
            rw
              (
                socket_readable,
                found,
                process_readable-overflows k available end hearing s peer _ found refl over,
              )
              refl
      ]

  after_write :
      (k : ℕ) (peer : Peer) (s : Server S)
      → S.get k s.peers ≡ some peer
      → Serving s
      → (writer : WriteContext) → IsWriting writer
      → Serving (record s { peers = S.update k (record peer { writer = writer }) s.peers })
  after_write k peer s found v writer h =
      update-IsServing S laws serialize poll k peer (record peer { writer = writer }) s found
        ((v.sound k peer found).0, h) v

  after_removal :
      (k : ℕ) (peer : Peer) (s : Server S)
      → S.get k s.peers ≡ some peer
      → Serving s
      → (writer : WriteContext) → IsWriting writer
      → Returns
          (λ (r : IoResult × Server S). (r.0 ≡ ok) × Serving r.1)
          (remove_peer S serialize poll k
              (record s { peers = S.update k (record peer { writer = writer }) s.peers })
            >>= (λ s'. done (ok, s')))
  after_removal k peer s found v writer h =
      let next = record peer { writer = writer } in
      let written = record s { peers = S.update k next s.peers } in
      Returns-bind Serving (λ (r : IoResult × Server S). (r.0 ≡ ok) × Serving r.1) _
        (remove_peer S serialize poll k written)
        (remove_peer-IsServing S laws serialize poll k next written
          (get-update_self S laws serialize poll k next peer s.peers found)
          (after_write k peer s found v writer h))
        (λ s' v'. (refl, v'))

  -- While the poll takes every call, a write leaves the server with sound connections.
  module _ (granted : (c : PollCall) → poll c ≡ true) where
    abbrev Wrote : IoResult × Server S → Type 0
    Wrote r = (r.0 ≡ ok) × Serving r.1

    written-IsServing :
        (k : ℕ) (peer : Peer) (s : Server S) (is_broken : Bool)
        → S.get k s.peers ≡ some peer
        → Serving s
        → (result : WriteResult) (writer : WriteContext) → IsWriting writer
        → Returns Wrote (
            let written = record s {
              peers = S.update k (record peer { writer = writer }) s.peers;
            } in
            elim result [
              | complete ↦ done (
                  if not (poll (reregister_call (k * 2) readable_edge))
                  then (err, written)
                  else if not (poll (reregister_call (k * 2 + 1) readable_oneshot))
                  then (err, written)
                  else (ok, written))
              | chan_closed ↦ done (
                  if not (poll (reregister_call (k * 2) readable_edge))
                  then (err, written)
                  else if not (poll (deregister_call (k * 2 + 1)))
                  then (err, written)
                  else (ok, written))
              | write_eof ↦ remove_peer S serialize poll k written >>= (λ s'. done (ok, s'))
              | failed ↦ elim is_broken [
                | false ↦ done (ok, written)
                | true ↦ remove_peer S serialize poll k written >>= (λ s'. done (ok, s'))
              ]
            ])
    written-IsServing k peer s is_broken found v complete writer h =
        rw
          (
            granted (reregister_call (k * 2) readable_edge),
            granted (reregister_call (k * 2 + 1) readable_oneshot),
          )
          (refl, after_write k peer s found v writer h)
    written-IsServing k peer s is_broken found v chan_closed writer h =
        rw (granted (reregister_call (k * 2) readable_edge), granted (deregister_call (k * 2 + 1)))
          (refl, after_write k peer s found v writer h)
    written-IsServing k peer s is_broken found v write_eof writer h =
        after_removal k peer s found v writer h
    written-IsServing k peer s false found v failed writer h =
        (refl, after_write k peer s found v writer h)
    written-IsServing k peer s true found v failed writer h =
        after_removal k peer s found v writer h

    pub process_writable-IsServing :
        (k : ℕ) (o : Outlet) (s : Server S)
        → Serving s
        → (peer : Peer) → S.get k s.peers ≡ some peer
        → Returns Wrote (process_writable S serialize poll k o s)
    unfolding process_writable
    process_writable-IsServing k o s v peer found =
        rw (process_writable, found)
          (Returns-bind _ Wrote _
            (write o.flushes (turns o.accepts peer.writer) o.accepts peer.writer)
            (write-unsent o.flushes (turns o.accepts peer.writer) o.accepts peer.writer
              (v.sound k peer found).1 (omega arith))
            (λ q h. written-IsServing k peer s o.is_broken found v q.0 q.1 h.0))
