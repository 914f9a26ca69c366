-- ===== src/Network/Server/Lost.antt =====
-- A peer that is lost while its queue has messages (network/server.rs).
use ce334_bitcoin_client.Prelude.{
  ℕ, ◌+◌, ◌*◌, ◌/◌, ◌%◌, ◌-◌, ◌≡◌, refl, ap, ◌∙◌, Bool, true, false, ◌&&◌, leb, take, length-take,
  none, some, List, [], ◌∷◌, arith, length, ◌==◌, done, panicked,
}
use ce334_bitcoin_client.Network.Message.{Message}
use ce334_bitcoin_client.Network.Slab.{Slabs, IsSlabs}
use ce334_bitcoin_client.Network.Peer.{ReadContext, read}
use ce334_bitcoin_client.Network.Peer.Framed.{IsReading}
use ce334_bitcoin_client.Network.Server.{
  ok, swap_remove, Peer, Server, PollCall, closed, leaves, drain, remove_peer, Event, peer_event,
  process_readable, register_write_interest, socket_readable, socket_writable, handle_event, listen,
}
use ce334_bitcoin_client.Network.Server.Listed.{count, swap_remove-position}
use ce334_bitcoin_client.Network.Server.Kept.{get-update_self, occupied, IsServing}

-- Where a socket is closed and has no more bytes, the peer leaves.
drain-closed : (r : ReadContext) → IsReading r → drain 1 [] closed r ≡ done (leaves, r, [])
unfolding drain read
drain-closed r v =
    let in_range : (leb r.read_length r.msg_length && leb r.msg_length (length r.buffer)) ≡ true =
      ground (arith, v.before, v.within) in
    let nothing : (length (take {A = ℕ} (r.msg_length - r.read_length) []) == 0) ≡ true =
      ground (arith, length-take {A = ℕ} (r.msg_length - r.read_length) []) in
    rw (drain, read, in_range, nothing) refl

module _ (S : Slabs Peer) (laws : IsSlabs S) (serialize : Message → List ℕ)
    (poll : PollCall → Bool) where
  -- the peer's end, by what the server then has
  closed_peer :
      (k : ℕ) (peer : Peer) (s : Server S)
      → IsServing S laws serialize poll s
      → S.get k s.peers ≡ some peer
      → (s' : Server S) × (process_readable S serialize poll k ([], closed, none) s ≡ done (s', []))
        × (S.get k s'.peers ≡ none)
  unfolding process_readable remove_peer
  closed_peer k peer s v found =
      let once : count k s.peer_list ≡ 1 = v.listed k ∙ ap occupied found in
      let (i, at, _) = swap_remove-position k s.peer_list (omega arith) in
      let read_on = S.update k peer s.peers in
      let found' : S.get k read_on ≡ some peer =
        get-update_self S laws serialize poll k peer peer s.peers found in
      (
        record { peers = S.remove k read_on; peer_list = swap_remove i s.peer_list },
        rw
            (
              process_readable,
              found,
              drain-closed peer.reader (v.sound k peer found).0,
              remove_peer,
              found',
              at,
            )
            refl,
        ground (arith, laws.get-remove k k peer read_on found'),
      )

  closed_event :
      (token : ℕ) (peer : Peer) (s s' : Server S)
      → token % 2 ≡ 0
      → S.get (token / 2) s.peers ≡ some peer
      → process_readable S serialize poll (token / 2) ([], closed, none) s ≡ done (s', [])
      → handle_event S serialize poll (peer_event token (some ([], closed, none)) none) s
        ≡ done (ok, s', [])
  unfolding handle_event socket_readable socket_writable
  closed_event token peer s s' even found processed =
      let is_even : (token % 2 == 0) ≡ true = ground arith in
      rw (handle_event, is_even, socket_readable, found, processed) refl

  stale_event :
      (token k : ℕ) (s : Server S)
      → token % 2 ≡ 1
      → token / 2 ≡ k
      → S.get k s.peers ≡ none
      → handle_event S serialize poll (peer_event token none none) s ≡ panicked
  unfolding handle_event register_write_interest
  stale_event token k s odd same absent =
      let is_odd : (token % 2 == 0) ≡ false = ground arith in
      rw (handle_event, is_odd, register_write_interest, same, absent) refl

  -- Where the events that a sound server handles begin with a connected peer that closes its connection,
  -- with no bytes left to read, directly followed by the event that its write queue has a message, the
  -- server's thread panics, whatever events follow.
  pub listen-lost_peer :
      (k : ℕ) (peer : Peer) (s : Server S) (events : List Event)
      → IsServing S laws serialize poll s
      → S.get k s.peers ≡ some peer
      → listen S serialize poll
          (peer_event (k * 2) (some ([], closed, none)) none
            ∷ peer_event (k * 2 + 1) none none
            ∷ events)
          s
        ≡ panicked
  unfolding listen
  listen-lost_peer k peer s events v found =
      let (s', processed, gone) = closed_peer k peer s v found in
      let same : k * 2 / 2 ≡ k = omega arith in
      let first =
        closed_event (k * 2) peer s s' (omega arith) (rw same found) (rw same processed) in
      let second = stale_event (k * 2 + 1) k s' (omega arith) (omega arith) gone in
      rw (listen, first, second) refl
