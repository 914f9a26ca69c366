-- ===== src/Network/Peer/Framed.antt =====
-- The bounds of `ReadContext::read` in its buffer (network/peer.rs).
use ce334_bitcoin_client.Prelude.{
  ℕ, zero, suc, ◌+◌, ◌-◌, ◌≤◌, ◌≡◌, true, ◌&&◌, List, ◌++◌, length, take, drop, replicate, leb, ltb,
  ◌==◌, length-append, length-take, length-drop, refl, arith, ap, Returns, Bool-cases, inl, inr,
  if◌then◌else◌,
}
use ce334_bitcoin_client.Network.Peer.{
  from_be_bytes, ReadContext, DecodeState, decode_length, decode_payload, read, filled, overwrite,
  resize,
}

-- The part to fill lies in the buffer, and a length has four bytes.
pub record IsReading (r : ReadContext) : Type 0 where
  pub before : r.read_length ≤ r.msg_length
  pub within : r.msg_length ≤ length r.buffer
  pub room : 4 ≤ length r.buffer

pub length-overwrite :
    (i : ℕ) (bytes buffer : List ℕ)
    → i + length bytes ≤ length buffer
    → length (overwrite i bytes buffer) ≡ length buffer
unfolding overwrite
length-overwrite i bytes buffer h = omega (
  arith,
  length-append (take i buffer) (bytes ++ drop (i + length bytes) buffer),
  length-append bytes (drop (i + length bytes) buffer),
  length-take i buffer,
  length-drop (i + length bytes) buffer,
)

length-replicate : (n : ℕ) → length {A = ℕ} (replicate n 0) ≡ n
length-replicate zero = refl
length-replicate (suc n) = ap suc (length-replicate n)

length-resize : (n : ℕ) (buffer : List ℕ) → length buffer ≤ n → length (resize n buffer) ≡ n
length-resize n buffer h = omega (
  arith,
  length-append buffer (replicate (n - length buffer) 0),
  length-replicate (n - length buffer),
)

-- A buffer that is resized where it is too short has room.
pub grown :
    (n : ℕ) (buffer : List ℕ)
    → (n ≤ length (if ltb (length buffer) n then resize n buffer else buffer))
      × (length buffer ≤ length (if ltb (length buffer) n then resize n buffer else buffer))
grown n buffer = elim (Bool-cases (ltb (length buffer) n)) [
  | inl short ↦
      let longer : length buffer ≤ n = ground arith in
      rw short
        (omega (arith, length-resize n buffer longer), omega (arith, length-resize n buffer longer))
  | inr enough ↦ rw enough (ground arith, omega arith)
]

filled-IsReading :
    (buffer : List ℕ) (n m : ℕ) (st : DecodeState)
    → 4 ≤ length buffer
    → IsReading (filled (record { buffer = buffer; msg_length = n; read_length = m; state = st })).1
unfolding filled
filled-IsReading buffer n m decode_length h =
    let g = grown (from_be_bytes (take 4 buffer)) buffer in
    record { before = omega arith; within = g.0; room = omega (arith, g.1) }
filled-IsReading buffer n m decode_payload h = record { before = omega arith; within = h; room = h }

-- A read on a context whose part to fill lies in its buffer does not panic, whatever the socket has, and
-- leaves such a context. This is so for any length that a peer announces.
pub read-IsReading :
    (available : List ℕ) (r : ReadContext)
    → IsReading r
    → Returns (λ q. IsReading q.1) (read available r)
unfolding read
read-IsReading available r v =
    let bytes = take (r.msg_length - r.read_length) available in
    let fits : length bytes ≤ r.msg_length - r.read_length =
      omega (arith, length-take (r.msg_length - r.read_length) available) in
    let same : length (overwrite r.read_length bytes r.buffer) ≡ length r.buffer =
      length-overwrite r.read_length bytes r.buffer (omega (arith, fits, v.before, v.within)) in
    let in_range : (leb r.read_length r.msg_length && leb r.msg_length (length r.buffer)) ≡ true =
      ground (arith, v.before, v.within) in
    rw (read, in_range)
      (elim (Bool-cases (length bytes == 0)) [
        | inl nothing ↦ rw nothing v
        | inr something ↦
            rw something (elim (Bool-cases (r.read_length + length bytes == r.msg_length)) [
              | inl full ↦ rw full (
                  filled-IsReading (overwrite r.read_length bytes r.buffer) r.msg_length
                    (r.read_length + length bytes) r.state (omega (arith, same, v.room)))
              | inr short ↦ rw short (record {
                before = omega (arith, fits, v.before);
                within = omega (arith, same, v.within);
                room = omega (arith, same, v.room);
              })
            ])
      ])
