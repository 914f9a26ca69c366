-- ===== src/Network/Peer/Delivered.antt =====
-- Frames as `WriteContext::write` sends them, at `ReadContext::read` (network/peer.rs).
use ce334_bitcoin_client.Prelude.{
  length-drop, length-append, ℕ, ◌+◌, ◌-◌, ◌^◌, ◌<◌, ◌≤◌, ◌≡◌, true, false, ◌&&◌, List, [], ◌∷◌,
  ◌++◌, length, take, drop, leb, ltb, ◌==◌, refl, arith, ap, ◌∙◌, Outcome, done, if◌then◌else◌,
}
use ce334_bitcoin_client.Crypto.Hash.{from_be_bytes}
use ce334_bitcoin_client.Network.Peer.{
  ReadContext, ReadResult, DecodeState, decode_length, decode_payload, continue, message, read,
  filled, overwrite, resize, to_be_bytes,
}
use ce334_bitcoin_client.Network.Peer.Frames.{frame}
use ce334_bitcoin_client.Network.Peer.Framed.{grown}

module _ {ℓ} {A : Type ℓ} where
  take-length-append : (xs ys : List A) → take (length xs) (xs ++ ys) ≡ xs
  take-length-append [] ys = refl
  take-length-append (x ∷ xs) ys = ap (◌∷◌ x) (take-length-append xs ys)

  drop-length-append : (xs ys : List A) → drop (length xs) (xs ++ ys) ≡ ys
  drop-length-append [] ys = refl
  drop-length-append (x ∷ xs) ys = drop-length-append xs ys

from_be_bytes-to_be_bytes : (n : ℕ) → n < 2 ^ 32 → from_be_bytes (to_be_bytes n) ≡ n
unfolding from_be_bytes
from_be_bytes-to_be_bytes n h = omega arith

abbrev pub reader : List ℕ → ℕ → ℕ → DecodeState → ReadContext
reader buffer n m st = record { buffer = buffer; msg_length = n; read_length = m; state = st }

-- A read that fills all that is to be filled.
read-full :
    (bytes rest buffer : List ℕ) (st : DecodeState)
    → 1 ≤ length bytes
    → length bytes ≤ length buffer
    → read (bytes ++ rest) (reader buffer (length bytes) 0 st) ≡ (
        let full = reader (bytes ++ drop (length bytes) buffer) (length bytes) (length bytes) st in
        done ((filled full).0, (filled full).1, rest))
unfolding read overwrite
read-full bytes rest buffer st some fits =
    let in_range : (leb 0 (length bytes) && leb (length bytes) (length buffer)) ≡ true =
      ground arith in
    let width : length bytes - 0 ≡ length bytes = omega arith in
    let nonempty : (length bytes == 0) ≡ false = ground arith in
    let all : (length bytes == length bytes) ≡ true = ground arith in
    let taken : take (length bytes - 0) (bytes ++ rest) ≡ bytes =
      ap (λ n. take n (bytes ++ rest)) width ∙ take-length-append bytes rest in
    let counted : 0 + length (take (length bytes - 0) (bytes ++ rest)) ≡ length bytes =
      omega (arith, ap length taken) in
    let none_before : 0 + length bytes ≡ length bytes = omega arith in
    rw
      (
        read,
        in_range,
        width,
        take-length-append bytes rest,
        drop-length-append bytes rest,
        nonempty,
        none_before,
        all,
      )
      (λ i. after (taken i) (counted i))
  where
    after : List ℕ → ℕ → Outcome (ReadResult × ReadContext × List ℕ)
    after b k =
        let full = reader (b ++ drop k buffer) (length bytes) k st in
        done ((filled full).0, (filled full).1, rest)

-- A reader that waits for a length is given a message of one byte or more after its length, and then any
-- bytes. Two reads take the message off, the second returns it, and the reader waits for a length again.
pub read-frame :
    (msg rest buffer : List ℕ)
    → 1 ≤ length msg
    → length msg < 2 ^ 32
    → 4 ≤ length buffer
    → (r : ReadContext) × (buffer' : List ℕ) × (read
          (frame msg ++ rest)
          (reader buffer 4 0 decode_length)
        ≡ done (continue, r, msg ++ rest))
      × (read (msg ++ rest) r ≡ done (message msg, reader buffer' 4 0 decode_length, rest))
      × (4 ≤ length buffer')
unfolding frame filled
read-frame msg rest buffer some bounded room =
    let size = to_be_bytes (length msg) in
    let b1 = size ++ drop 4 buffer in
    let announced : from_be_bytes size ≡ length msg =
      from_be_bytes-to_be_bytes (length msg) bounded in
    let b2 = grow (length msg) b1 in
    let room1 : 4 ≤ length b1 = omega arith in
    (
      (filled (reader b1 4 4 decode_length)).1,
      msg ++ drop (length msg) b2,
      read-full size (msg ++ rest) buffer decode_length (omega arith) room,
      ap (λ n. read (msg ++ rest) (reader (grow n b1) n 0 decode_payload)) announced
          ∙ read-full msg rest b2 decode_payload some (grown (length msg) b1).0
          ∙ ap (λ m. done (message m, reader (msg ++ drop (length msg) b2) 4 0 decode_length, rest))
              (take-length-append msg (drop (length msg) b2)),
      omega (
        arith,
        length-append msg (drop (length msg) b2),
        length-drop (length msg) b2,
        (grown (length msg) b1).0,
        (grown (length msg) b1).1,
        room1,
      ),
    )
  where
    grow : ℕ → List ℕ → List ℕ
    grow n b = if ltb (length b) n then resize n b else b
