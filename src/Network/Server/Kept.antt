-- ===== src/Network/Server/Kept.antt =====
-- The connections that the server keeps: the list and the table agree, and every context is sound
-- (network/server.rs).
use ce334_bitcoin_client.Prelude.{
  ℕ_discrete, ◌≢◌, ℕ, ◌+◌, ◌*◌, ◌≤◌, ◌<◌, ◌≡◌, refl, ap, sym, ◌∙◌, subst, Bool, Option, none, some,
  List, [], ◌∷◌, ◌++◌, arith, leb, Bool-cases, inl, inr, Returns,
}
use ce334_bitcoin_client.Network.Message.{Message}
use ce334_bitcoin_client.Network.Peer.Frames.{IsWriting}
use ce334_bitcoin_client.Network.Peer.Framed.{IsReading}
use ce334_bitcoin_client.Network.Slab.{Slabs, IsSlabs}
use ce334_bitcoin_client.Network.Server.{
  register_call, readable_edge, readable_oneshot, max_incoming_client, Peer, Server, Direction,
  PollCall, new_peer, enqueue, swap_remove, register, remove_peer,
}
use ce334_bitcoin_client.Network.Server.Listed.{count, count-append, swap_remove-position}

abbrev pub IsSound : Peer → Type 0
IsSound peer = IsReading peer.reader × IsWriting peer.writer

new_peer-IsSound : (d : Direction) → IsSound (new_peer d)
new_peer-IsSound d = (
  record { before = omega arith; within = omega arith; room = omega arith },
  record {
    four = refl;
    counted = refl;
    within = λ e. omega arith;
    within_payload = λ e. omega arith;
  },
)

pub enqueue-IsSound : (bytes : List ℕ) (peer : Peer) → IsSound peer → IsSound (enqueue bytes peer)
unfolding enqueue
enqueue-IsSound bytes peer h = (
  h.0,
  record {
    four = h.1.four;
    counted = h.1.counted;
    within = h.1.within;
    within_payload = h.1.within_payload;
  },
)

abbrev pub occupied : Option Peer → ℕ
occupied none = 0
occupied (some peer) = 1

pub occupied_le : (o : Option Peer) → occupied o ≤ 1
occupied_le none = omega arith
occupied_le (some peer) = omega arith

module _ (S : Slabs Peer) (laws : IsSlabs S) (serialize : Message → List ℕ)
    (poll : PollCall → Bool) where
  -- The list has the key of each connected peer once and no other key, the contexts are sound, and the
  -- keys are below the greatest number of connections.
  pub record IsServing (s : Server S) : Type 0 where
    pub listed : (k : ℕ) → count k s.peer_list ≡ occupied (S.get k s.peers)
    pub sound : (k : ℕ) (peer : Peer) → S.get k s.peers ≡ some peer → IsSound peer
    pub below : (k : ℕ) → 1 ≤ count k s.peer_list → k < max_incoming_client

  pub get-update_self :
      (k : ℕ) (v w : Peer) (t : S.Slab) → S.get k t ≡ some w → S.get k (S.update k v t) ≡ some v
  get-update_self k v w t h = ground (arith, laws.get-update k k v w t h)

  pub get-update_ne :
      (j k : ℕ) (v w : Peer) (t : S.Slab)
      → S.get k t ≡ some w
      → k ≢ j
      → S.get j (S.update k v t) ≡ S.get j t
  get-update_ne j k v w t h ne = ground (arith, laws.get-update j k v w t h)

  pub update-IsServing :
      (k : ℕ) (old new : Peer) (s : Server S)
      → S.get k s.peers ≡ some old
      → IsSound new
      → IsServing s
      → IsServing (record s { peers = S.update k new s.peers })
  update-IsServing k old new s found h v = record {
    listed = λ j. elim (ℕ_discrete k j) [
      | yes e ↦
          let before : count k s.peer_list ≡ 1 = v.listed k ∙ ap occupied found in
          rw (← e) (before ∙ sym (ap occupied (get-update_self k new old s.peers found)))
      | no ne ↦ v.listed j ∙ sym (ap occupied (get-update_ne j k new old s.peers found ne))
    ];
    sound = λ j peer q. elim (ℕ_discrete k j) [
      | yes e ↦
          let now : S.get j (S.update k new s.peers) ≡ some new =
            rw (← e) (get-update_self k new old s.peers found) in
          let same : new ≡ peer = cc (now, q) in subst IsSound same h
      | no ne ↦ v.sound j peer (sym (get-update_ne j k new old s.peers found ne) ∙ q)
    ];
    below = v.below;
  }

  pub remove_peer-IsServing :
      (k : ℕ) (old : Peer) (s : Server S)
      → S.get k s.peers ≡ some old
      → IsServing s
      → Returns IsServing (remove_peer S serialize poll k s)
  unfolding remove_peer
  remove_peer-IsServing k old s found v =
      let once : count k s.peer_list ≡ 1 = v.listed k ∙ ap occupied found in
      let (i, at, rest) = swap_remove-position k s.peer_list (omega arith) in
      rw (remove_peer, found, at)
        (record {
          listed = λ j. elim (ℕ_discrete k j) [
            | yes e ↦
                let gone = laws.get-remove j k old s.peers found in
                let taken = rest j in
                let only : count j s.peer_list ≡ 1 = rw (← e) once in ground arith
            | no ne ↦
                let kept : S.get j (S.remove k s.peers) ≡ S.get j s.peers =
                  ground (arith, laws.get-remove j k old s.peers found) in
                let taken : count j (swap_remove i s.peer_list) ≡ count j s.peer_list =
                  ground (arith, rest j) in
                taken ∙ v.listed j ∙ sym (ap occupied kept)
          ];
          sound = λ j peer q. elim (ℕ_discrete k j) [
            | yes e ↦ absurd (ground (arith, laws.get-remove j k old s.peers found))
            | no ne ↦
                let kept : S.get j (S.remove k s.peers) ≡ S.get j s.peers =
                  ground (arith, laws.get-remove j k old s.peers found) in
                v.sound j peer (sym kept ∙ q)
          ];
          below = λ j q. v.below j (omega (arith, q, rest j));
        })

  -- A new peer takes the vacant key.
  inserted :
      (d : Direction) (s : Server S)
      → S.vacant_key s.peers < max_incoming_client
      → IsServing s
      → IsServing (record {
        peers = S.insert (new_peer d) s.peers;
        peer_list = s.peer_list ++ S.vacant_key s.peers ∷ [];
      })
  unfolding count
  inserted d s room v =
      let k = S.vacant_key s.peers in
      let vacant = laws.get-vacant_key s.peers in
      record {
        listed = λ j.
            let got = laws.get-insert j (new_peer d) s.peers in
            let before = v.listed j in
            let longer = count-append j s.peer_list (k ∷ []) in
            elim (ℕ_discrete k j) [
              | yes e ↦
                  let none_before : count j s.peer_list ≡ 0 =
                    rw (← e) (v.listed k ∙ ap occupied vacant) in
                  ground arith
              | no ne ↦ ground arith
            ];
        sound = λ j peer q. elim (ℕ_discrete k j) [
          | yes e ↦
              let now : S.get j (S.insert (new_peer d) s.peers) ≡ some (new_peer d) =
                ground (arith, laws.get-insert j (new_peer d) s.peers) in
              let same : new_peer d ≡ peer = cc (now, q) in subst IsSound same (new_peer-IsSound d)
          | no ne ↦
              let kept : S.get j (S.insert (new_peer d) s.peers) ≡ S.get j s.peers =
                ground (arith, laws.get-insert j (new_peer d) s.peers) in
              v.sound j peer (sym kept ∙ q)
        ];
        below = λ j q. elim (ℕ_discrete k j) [
          | yes e ↦ rw (← e) room
          | no ne ↦ v.below j (ground (arith, q, count-append j s.peer_list (k ∷ [])))
        ];
      }

  pub register-IsServing :
      (d : Direction) (peer_new : Bool) (s : Server S)
      → IsServing s
      → IsServing (register S serialize poll d peer_new s).1
  unfolding register
  register-IsServing d peer_new s v =
      elim (Bool-cases (leb max_incoming_client (S.vacant_key s.peers))) [
        | inl full ↦ rw (register, full) v
        | inr room ↦
            elim (Bool-cases (poll (register_call (S.vacant_key s.peers * 2) readable_edge))) [
              | inr refused ↦ rw (register, room, refused) v
              | inl watched ↦ elim (Bool-cases peer_new) [
                | inr broken ↦ rw (register, room, watched, broken) v
                | inl made ↦
                    elim (Bool-cases
                      (poll (register_call (S.vacant_key s.peers * 2 + 1) readable_oneshot))) [
                        | inr refused ↦ rw (register, room, watched, made, refused) v
                        | inl armed ↦
                            rw (register, room, watched, made, armed)
                              (inserted d s (ground (arith, room)) v)
                      ]
              ]
            ]
      ]
