-- ===== src/Network/Server/Received.antt =====
-- The messages that a readable socket yields (network/server.rs).
use ce334_bitcoin_client.Prelude.{
  ℕ, zero, suc, ◌+◌, ◌^◌, ◌≤◌, ◌<◌, ◌≡◌, refl, subst, ◌∙◌, Bool, some, List, [], ◌∷◌, ◌++◌, All,
  arith, length, length-append, done, Returns, Returns-both,
}
use ce334_bitcoin_client.Network.Message.{Message}
use ce334_bitcoin_client.Network.Peer.{
  ReadContext, decode_length, continue, message, read, to_be_bytes,
}
use ce334_bitcoin_client.Network.Peer.Frames.{frame, frames}
use ce334_bitcoin_client.Network.Peer.Delivered.{reader, read-frame}
use ce334_bitcoin_client.Network.Peer.Framed.{IsReading}
use ce334_bitcoin_client.Network.Slab.{Slabs, IsSlabs}
use ce334_bitcoin_client.Network.Server.{
  none, SocketEnd, would_block, Fate, stays, drain, Peer, Server, PollCall, process_readable,
  deliveries,
}
use ce334_bitcoin_client.Network.Server.Kept.{IsServing}
use ce334_bitcoin_client.Network.Server.Sockets.{process_readable-IsServing}

drain-continue :
    (fuel : ℕ) (bytes rest : List ℕ) (end : SocketEnd) (r r' : ReadContext)
    → 1 ≤ length bytes
    → read bytes r ≡ done (continue, r', rest)
    → drain (suc fuel) bytes end r ≡ drain fuel rest end r'
unfolding drain
drain-continue fuel [] rest end r r' some_byte e = absurd (omega arith)
drain-continue fuel (b ∷ bytes) rest end r r' some_byte e = rw (drain, e) refl

drain-message :
    (fuel : ℕ) (bytes rest m : List ℕ) (end : SocketEnd) (r r' : ReadContext) (fate : Fate)
    (r'' : ReadContext) (messages : List (List ℕ))
    → 1 ≤ length bytes
    → read bytes r ≡ done (message m, r', rest)
    → drain fuel rest end r' ≡ done (fate, r'', messages)
    → drain (suc fuel) bytes end r ≡ done (fate, r'', m ∷ messages)
unfolding drain
drain-message fuel [] rest m end r r' fate r'' messages some_byte e next = absurd (omega arith)
drain-message fuel (b ∷ bytes) rest m end r r' fate r'' messages some_byte e next =
    rw (drain, e, next) refl

-- A message that can be framed.
abbrev pub IsFramed : List ℕ → Type 0
IsFramed m = (1 ≤ length m) × (length m < 2 ^ 32)

length-frame : (m : List ℕ) → length (frame m) ≡ 4 + length m
unfolding frame
length-frame m = omega (arith, length-append (to_be_bytes (length m)) m)

drain-frames :
    (fuel : ℕ) (msgs : List (List ℕ)) (buffer : List ℕ)
    → All IsFramed msgs
    → 4 ≤ length buffer
    → length (frames msgs) < fuel
    → (buffer' : List ℕ) × (drain fuel (frames msgs) would_block (reader buffer 4 0 decode_length)
        ≡ done (stays, reader buffer' 4 0 decode_length, msgs))
unfolding drain frames
drain-frames zero msgs buffer all room h = absurd (omega arith)
drain-frames (suc fuel) [] buffer all room h = (buffer, refl)
drain-frames (suc zero) (m ∷ ms) buffer all room h =
    absurd (omega (arith, h, length-append (frame m) (frames ms), length-frame m))
drain-frames (suc (suc fuel)) (m ∷ ms) buffer all room h =
    let size = length-append (frame m) (frames ms) in
    let size' = length-append m (frames ms) in
    let four = length-frame m in
    let (r, buffer1, first, second, room1) = read-frame m (frames ms) buffer all.0.0 all.0.1 room in
    let (buffer', rest) = drain-frames fuel ms buffer1 all.1 room1 (omega arith) in
    (
      buffer',
      drain-continue (suc fuel) (frame m ++ frames ms) (m ++ frames ms) would_block
            (reader buffer 4 0 decode_length) r (omega arith) first
          ∙ drain-message fuel (m ++ frames ms) (frames ms) m would_block r
              (reader buffer1 4 0 decode_length) stays (reader buffer' 4 0 decode_length) ms
              (omega (arith, all.0.0)) second rest,
    )

module _ (S : Slabs Peer) (laws : IsSlabs S) (serialize : Message → List ℕ)
    (poll : PollCall → Bool) where
  -- While there is a worker, the frames of any messages of 1 to 2 ^ 32 - 1 bytes arrive from a peer of
  -- which no part of a message is yet read, and then nothing: just these messages are delivered, in order and with the peer's key, and
  -- the server stays sound.
  pub process_readable-frames :
      (k : ℕ) (msgs : List (List ℕ)) (s : Server S) (peer : Peer) (buffer : List ℕ)
      → IsServing S laws serialize poll s
      → S.get k s.peers ≡ some peer
      → peer.reader ≡ reader buffer 4 0 decode_length
      → All IsFramed msgs
      → Returns
          (λ r. (r.1 ≡ deliveries S serialize poll k msgs) × IsServing S laws serialize poll r.0)
          (process_readable S serialize poll k (frames msgs, would_block, none) s)
  unfolding process_readable
  process_readable-frames k msgs s peer buffer v found waits all =
      let sound = (v.sound k peer found).0 in
      let room : 4 ≤ length buffer = (subst IsReading waits sound).room in
      let (buffer', drained) =
        drain-frames (length (frames msgs) + 1) msgs buffer all room (omega arith) in
      Returns-both _ _ (process_readable S serialize poll k (frames msgs, would_block, none) s)
        (rw (process_readable, found, waits, drained) refl)
        (process_readable-IsServing S laws serialize poll k (frames msgs) would_block none s v peer
          found (rw (waits, drained) refl))
