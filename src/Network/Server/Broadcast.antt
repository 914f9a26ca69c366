-- ===== src/Network/Server/Broadcast.antt =====
-- A broadcast to the connected peers (network/server.rs).
use ce334_bitcoin_client.Prelude.{
  append-nil, inr, inl, Option-cases, ℕ, zero, suc, ◌≤◌, ◌≡◌, refl, ap, sym, ◌∙◌, subst, Option,
  none, some, List, [], ◌∷◌, ◌++◌, arith, ℕ_discrete, Returns, Returns-bind, Returns-mono,
  append_assoc,
}
use ce334_bitcoin_client.Network.Message.{Message}
use ce334_bitcoin_client.Network.Peer.Frames.{current, frame, frames, unsent}
use ce334_bitcoin_client.Network.Slab.{Slabs, IsSlabs}
use ce334_bitcoin_client.Network.Server.{
  Bool, Peer, Server, PollCall, enqueue, broadcast_to, broadcast_message, process_control,
}
use ce334_bitcoin_client.Network.Server.Listed.{count}
use ce334_bitcoin_client.Network.Server.Kept.{
  occupied, IsSound, IsServing, enqueue-IsSound, get-update_self, get-update_ne,
}

frames-append : (xs ys : List (List ℕ)) → frames (xs ++ ys) ≡ frames xs ++ frames ys
unfolding frames
frames-append [] ys = refl
frames-append (x ∷ xs) ys =
    ap (◌++◌ (frame x)) (frames-append xs ys) ∙ sym (append_assoc (frame x) (frames xs) (frames ys))

-- What is left to send to a peer grows by the message's frame.
pub unsent-enqueue :
    (bytes : List ℕ) (peer : Peer)
    → unsent (enqueue bytes peer).writer ≡ unsent peer.writer ++ frame bytes
unfolding unsent enqueue frames
unsent-enqueue bytes peer =
    let w = peer.writer in
    let now = current w.state w.written_length w.len_buffer w.msg_buffer in
    ap (◌++◌ now)
      (frames-append w.queue (bytes ∷ []) ∙ ap (◌++◌ (frames w.queue)) (append-nil (frame bytes)))
    ∙ sym (append_assoc now (frames w.queue) (frame bytes))

-- the message is queued this many times
unfoldable pub queued : ℕ → List ℕ → Option Peer → Option Peer
queued n bytes none = none
queued zero bytes (some peer) = some peer
queued (suc n) bytes (some peer) = queued n bytes (some (enqueue bytes peer))

queued_none : (bytes : List ℕ) (o : Option Peer) → queued 0 bytes o ≡ o
unfolding queued
queued_none bytes none = refl
queued_none bytes (some peer) = refl

-- The two states of a peer around a message to it: its frame is left to send after all else.
abbrev pub IsSentTo : List ℕ → Option Peer → Option Peer → Type 0
IsSentTo bytes none none = Unit
IsSentTo bytes (some before) (some after) =
    (unsent after.writer ≡ unsent before.writer ++ frame bytes)
    × (after.reader ≡ before.reader)
    × (after.direction ≡ before.direction)
IsSentTo bytes none (some after) = ⊥
IsSentTo bytes (some before) none = ⊥

-- of a peer that is listed as often as it is there
queued_listed :
    (bytes : List ℕ) (n : ℕ) (before after : Option Peer)
    → n ≡ occupied before
    → after ≡ queued n bytes before
    → ((peer : Peer) → before ≡ some peer → IsSound peer)
    → IsSentTo bytes before after
      × ((peer : Peer) → after ≡ some peer → IsSound peer)
      × (occupied after ≡ occupied before)
unfolding queued
queued_listed bytes n none after once e sound = rw e (tt, λ peer q. absurd (ground arith), refl)
queued_listed bytes n (some p) after once e sound =
    let now : after ≡ some (enqueue bytes p) = rw (e, once) refl in
    let it : IsSentTo bytes (some p) (some (enqueue bytes p)) =
      unfold enqueue in (unsent-enqueue bytes p, refl, refl) in
    rw now (
      it,
      λ peer q.
          let same : enqueue bytes p ≡ peer = cc q in
          subst IsSound same (enqueue-IsSound bytes p (sound p refl)),
      refl,
    )

at_most_one : {n : ℕ} (o : Option Peer) → n ≡ occupied o → 1 ≤ n → occupied o ≡ 1
at_most_one none e h = absurd (omega arith)
at_most_one (some peer) e h = refl

module _ (S : Slabs Peer) (laws : IsSlabs S) (serialize : Message → List ℕ)
    (poll : PollCall → Bool) where
  broadcast_to-get :
      (bytes : List ℕ) (ids : List ℕ) (peers : S.Slab)
      → ((k : ℕ) → 1 ≤ count k ids → occupied (S.get k peers) ≡ 1)
      → Returns
          (λ peers'. (j : ℕ) → S.get j peers' ≡ queued (count j ids) bytes (S.get j peers))
          (broadcast_to S serialize poll bytes ids peers)
  unfolding broadcast_to count queued
  broadcast_to-get bytes [] peers h = λ j. sym (queued_none bytes (S.get j peers))
  broadcast_to-get bytes (k ∷ ids) peers h =
      let one : 1 ≤ count k (k ∷ ids) = ground arith in
      let here : occupied (S.get k peers) ≡ 1 = h k one in
      elim (Option-cases (S.get k peers)) [
        | inl absent ↦ absurd (ground (arith, here, ap occupied absent))
        | inr (peer, found) ↦
            let peers' = S.update k (enqueue bytes peer) peers in
            let at_key : S.get k peers' ≡ some (enqueue bytes peer) =
              get-update_self S laws serialize poll k (enqueue bytes peer) peer peers found in
            rw (broadcast_to, found)
              (Returns-mono _ _ (broadcast_to S serialize poll bytes ids peers')
                (λ peers'' q j. q j ∙ elim (ℕ_discrete k j) [
                  | yes e ↦
                      let counted : count j (k ∷ ids) ≡ suc (count j ids) = ground arith in
                      let before : S.get j peers ≡ some peer = rw (← e) found in
                      let after : S.get j peers' ≡ some (enqueue bytes peer) = rw (← e) at_key in
                      rw (after, before, counted) refl
                  | no ne ↦
                      let counted : count j (k ∷ ids) ≡ count j ids = ground arith in
                      let kept : S.get j peers' ≡ S.get j peers =
                        get-update_ne S laws serialize poll j k (enqueue bytes peer) peer peers
                          found ne in
                      rw (kept, counted) refl
                ])
                (broadcast_to-get bytes ids peers' (λ j more. elim (ℕ_discrete k j) [
                  | yes e ↦ rw (← e) (ap occupied at_key)
                  | no ne ↦
                      ap occupied (
                        get-update_ne S laws serialize poll j k (enqueue bytes peer) peer peers
                          found ne)
                      ∙ h j (omega (arith, more))
                ])))
      ]

  -- A broadcast while the server is sound returns, and leaves the server sound with the same peers: of
  -- each of them the bytes that are left to send grow by one frame of the message at their end, and the
  -- reads are as before.
  pub broadcast_message-IsSentTo :
      (msg : Message) (s : Server S)
      → IsServing S laws serialize poll s
      → Returns
          (λ s'.
            IsServing S laws serialize poll s'
            × (s'.peer_list ≡ s.peer_list)
            × ((j : ℕ) → IsSentTo (serialize msg) (S.get j s.peers) (S.get j s'.peers)))
          (process_control S serialize poll (broadcast_message msg) s)
  unfolding process_control
  broadcast_message-IsSentTo msg s v =
      Returns-bind _ _ _ (broadcast_to S serialize poll (serialize msg) s.peer_list s.peers)
        (broadcast_to-get (serialize msg) s.peer_list s.peers
          (λ k some_time. at_most_one (S.get k s.peers) (v.listed k) some_time))
        (λ peers' q.
          let each = λ (j : ℕ).
            queued_listed (serialize msg) (count j s.peer_list) (S.get j s.peers) (S.get j peers')
              (v.listed j) (q j) (v.sound j) in
          (
            record {
              listed = λ j. v.listed j ∙ sym (each j).2;
              sound = λ j. (each j).1;
              below = v.below;
            },
            refl,
            λ j. (each j).0,
          ))
