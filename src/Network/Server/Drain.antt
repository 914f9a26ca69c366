-- ===== src/Network/Server/Drain.antt =====
-- The reads of a readable socket, until it has no more (network/server.rs).
use ce334_bitcoin_client.Prelude.{
  Returns-both, ◌>>=◌, ℕ, zero, suc, ◌+◌, ◌-◌, ◌<◌, ◌≡◌, true, ◌&&◌, List, [], ◌∷◌, arith, length,
  length-take, length-drop, take, drop, leb, ◌==◌, Bool-cases, inl, inr, done, Returns,
  Returns-bind,
}
use ce334_bitcoin_client.Network.Peer.{
  ReadContext, ReadResult, DecodeState, decode_length, decode_payload, continue, message, eof, read,
  filled, overwrite,
}
use ce334_bitcoin_client.Network.Peer.Framed.{IsReading, read-IsReading}
use ce334_bitcoin_client.Network.Server.{
  SocketEnd, would_block, closed, broken, Fate, leaves, drain,
}

-- A read that is not the last takes a byte.
abbrev Advances : ReadResult → ℕ → ℕ → Type 0
Advances eof left before = Unit
Advances continue left before = left < before
Advances (message m) left before = left < before

filled-Advances :
    (buffer : List ℕ) (n m : ℕ) (st : DecodeState) (left before : ℕ)
    → left < before
    → Advances
        (filled (record { buffer = buffer; msg_length = n; read_length = m; state = st })).0
        left
        before
unfolding filled
filled-Advances buffer n m decode_length left before h = h
filled-Advances buffer n m decode_payload left before h = h

read-Advances :
    (available : List ℕ) (r : ReadContext)
    → IsReading r
    → Returns (λ q. Advances q.0 (length q.2) (length available)) (read available r)
unfolding read
read-Advances available r v =
    let n = r.msg_length - r.read_length in
    let in_range : (leb r.read_length r.msg_length && leb r.msg_length (length r.buffer)) ≡ true =
      ground (arith, v.before, v.within) in
    let taken = length-take n available in
    let dropped = length-drop n available in
    rw (read, in_range)
      (elim (Bool-cases (length (take n available) == 0)) [
        | inl nothing ↦ rw nothing tt
        | inr something ↦
            let less : length (drop n available) < length available =
              ground (arith, taken, dropped) in
            rw something
              (elim (Bool-cases (r.read_length + length (take n available) == r.msg_length)) [
                | inl full ↦ rw full (
                    filled-Advances (overwrite r.read_length (take n available) r.buffer)
                      r.msg_length (r.read_length + length (take n available)) r.state
                      (length (drop n available)) (length available) less)
                | inr short ↦ rw short less
              ])
      ])

-- With fuel for a read of each byte and one more, the reads of a socket end, without a panic, and leave
-- a context whose part to fill lies in its buffer.
pub drain-IsReading :
    (fuel : ℕ) (available : List ℕ) (end : SocketEnd) (r : ReadContext)
    → length available < fuel
    → IsReading r
    → Returns (λ q. IsReading q.1) (drain fuel available end r)
unfolding drain
drain-IsReading zero available end r h v = absurd (omega arith)
drain-IsReading (suc fuel) [] would_block r h v = v
drain-IsReading (suc fuel) [] broken r h v = v
drain-IsReading (suc fuel) [] closed r h v =
    Returns-bind (λ q. IsReading q.1) (λ q. IsReading q.1) _ (read [] r) (read-IsReading [] r v)
      (λ q w. w)
drain-IsReading (suc fuel) (b ∷ bytes) end r h v =
    Returns-bind _ (λ q. IsReading q.1) _ (read (b ∷ bytes) r)
      (Returns-both _ _ (read (b ∷ bytes) r) (read-IsReading (b ∷ bytes) r v)
        (read-Advances (b ∷ bytes) r v))
      (λ (q : ReadResult × ReadContext × List ℕ) a.
        next q.0 q.1 q.2 (λ less. drain-IsReading fuel q.2 end q.1 (omega arith) a.0) a.0 a.1)
  where
    next :
        (result : ReadResult) (r' : ReadContext) (rest : List ℕ)
        → (length rest < length (b ∷ bytes) → Returns (λ q. IsReading q.1) (drain fuel rest end r'))
        → IsReading r'
        → Advances result (length rest) (length (b ∷ bytes))
        → Returns
            (λ (q : Fate × ReadContext × List (List ℕ)). IsReading q.1)
            (elim result [
              | eof ↦ done (leaves, r', [])
              | continue ↦ drain fuel rest end r'
              | message m ↦
                  (drain fuel rest end r'
                    >>= (λ (q : Fate × ReadContext × List (List ℕ)). done (q.0, q.1, m ∷ q.2)))
            ])
    next eof r' rest recur w a = w
    next continue r' rest recur w a = recur a
    next (message m) r' rest recur w a =
        Returns-bind _ _ _ (drain fuel rest end r') (recur a) (λ q x. x)
