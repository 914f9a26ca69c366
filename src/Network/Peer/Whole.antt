-- ===== src/Network/Peer/Whole.antt =====
-- Calls of `WriteContext::write` on a socket that takes all that is left to send (network/peer.rs).
use ce334_bitcoin_client.Prelude.{
  ℕ, zero, suc, ◌+◌, ◌-◌, ◌≤◌, ◌≡◌, true, none, List, [], ◌∷◌, All, length, length-append,
  length-take, length-drop, take, refl, arith, ap, Returns, Returns-bind, Bool-cases, ◌==◌, inl,
  inr,
}
use ce334_bitcoin_client.Network.Peer.{
  drop, false, WriteContext, WriteResult, WriteState, complete, write_length, write_payload, write,
  load, slice, to_be_bytes,
}
use ce334_bitcoin_client.Network.Peer.Frames.{frame, frames, IsWriting, turns}
use ce334_bitcoin_client.Network.Peer.Slices.{slice_fits}
use ce334_bitcoin_client.Network.Peer.Sent.{context, switched, loaded}

length-frames :
    (m : List ℕ) (ms : List (List ℕ)) → length (frames (m ∷ ms)) ≡ 4 + length m + length (frames ms)
unfolding frames frame
length-frames m ms =
    omega (arith, length-append (frame m) (frames ms), length-append (to_be_bytes (length m)) m)

-- the bytes that are left to send
abbrev size : WriteState → ℕ → ℕ → List (List ℕ) → ℕ
size write_length wl ml queue = (4 - wl) + ml + length (frames queue)
size write_payload wl ml queue = (ml - wl) + length (frames queue)

abbrev IsComplete : WriteResult × WriteContext × List ℕ → Type 0
IsComplete r = r.0 ≡ complete

-- A slice that is not empty gives a byte to a socket that takes one.
some_bytes :
    (n from to : ℕ) (buffer : List ℕ)
    → 1 ≤ n
    → from + 1 ≤ to
    → to ≤ length buffer
    → 1 ≤ length (take n (slice from to buffer))
some_bytes n from to buffer some_room some_left fits = omega (
  arith,
  length-take n (slice from to buffer),
  length-take (to - from) (drop from buffer),
  length-drop from buffer,
)

next_whole :
    (fuel : ℕ) (accepts : List ℕ) (lb mb : List ℕ) (ml wl : ℕ) (queue : List (List ℕ))
    → ((msg : List ℕ) (more : List (List ℕ))
        → queue ≡ msg ∷ more
        → Returns IsComplete (
            write none fuel accepts
              (context more true (to_be_bytes (length msg)) msg (length msg) 0 write_length)))
    → (wl == ml) ≡ true
    → Returns IsComplete
        (write none (suc fuel) accepts (context queue true lb mb ml wl write_payload))
unfolding write load
next_whole fuel accepts lb mb ml wl [] recur all = rw (write, all) refl
next_whole fuel accepts lb mb ml wl (msg ∷ more) recur all = rw (write, all) (recur msg more refl)

-- Where all flushes succeed, a sender is left, and the socket takes a byte or more at each of as many
-- calls as bytes are left to send, the call is complete.
pub write-IsComplete :
    (fuel : ℕ) (accepts : List ℕ) (queue : List (List ℕ)) (lb mb : List ℕ) (ml wl : ℕ)
    (st : WriteState)
    → IsWriting (context queue true lb mb ml wl st)
    → turns accepts (context queue true lb mb ml wl st) ≤ fuel
    → All (λ n. 1 ≤ n) accepts
    → size st wl ml queue ≤ length accepts
    → Returns IsComplete (write none fuel accepts (context queue true lb mb ml wl st))
unfolding write
write-IsComplete zero accepts queue lb mb ml wl write_length v h room fits = absurd (omega arith)
write-IsComplete zero accepts queue lb mb ml wl write_payload v h room fits = absurd (omega arith)
write-IsComplete (suc fuel) [] queue lb mb ml wl write_length v h room fits =
    elim (Bool-cases (wl == 4)) [
      | inl all ↦
          rw (write, all)
            (write-IsComplete fuel [] queue lb mb ml 0 write_payload (switched true v) (omega arith)
              room (omega arith))
      | inr some_left ↦ absurd (ground (arith, v.within refl))
    ]
write-IsComplete (suc fuel) (n ∷ rest) queue lb mb ml wl write_length v h room fits =
    elim (Bool-cases (wl == 4)) [
      | inl all ↦
          rw (write, all)
            (write-IsComplete fuel (n ∷ rest) queue lb mb ml 0 write_payload (switched true v)
              (omega arith) room (omega arith))
      | inr some_left ↦
          let bytes = take n (slice wl 4 lb) in
          let short : wl + 1 ≤ 4 = ground (arith, v.within refl) in
          let sends = some_bytes n wl 4 lb room.0 short (omega (arith, v.four)) in
          let something : (length bytes == 0) ≡ false = ground arith in
          let fits' = slice_fits n wl 4 lb in
          rw (write, some_left, something)
            (Returns-bind IsComplete IsComplete _ _
              (write-IsComplete fuel rest queue lb mb ml (wl + length bytes) write_length
                (record {
                  four = v.four;
                  counted = v.counted;
                  within = λ e. omega (arith, fits', v.within refl);
                  within_payload = λ e. absurd cc;
                })
                (omega arith) room.1 (omega arith))
              (λ r e. e))
    ]
write-IsComplete (suc fuel) [] queue lb mb ml wl write_payload v h room fits =
    elim (Bool-cases (wl == ml)) [
      | inl all ↦
          next_whole fuel [] lb mb ml wl queue
            (λ msg more e.
              absurd (omega (arith, ap (λ q. length (frames q)) e, length-frames msg more)))
            all
      | inr some_left ↦ absurd (ground (arith, v.within_payload refl))
    ]
write-IsComplete (suc fuel) (n ∷ rest) queue lb mb ml wl write_payload v h room fits =
    elim (Bool-cases (wl == ml)) [
      | inl all ↦
          next_whole fuel (n ∷ rest) lb mb ml wl queue
            (λ msg more e.
              write-IsComplete fuel (n ∷ rest) more (to_be_bytes (length msg)) msg (length msg) 0
                write_length (loaded true msg) (omega (arith, ap length e)) room
                (omega (arith, ap (λ q. length (frames q)) e, length-frames msg more)))
            all
      | inr some_left ↦
          let bytes = take n (slice wl ml mb) in
          let short : wl + 1 ≤ ml = ground (arith, v.within_payload refl) in
          let sends = some_bytes n wl ml mb room.0 short (omega (arith, v.counted)) in
          let something : (length bytes == 0) ≡ false = ground arith in
          let fits' = slice_fits n wl ml mb in
          rw (write, some_left, something)
            (Returns-bind IsComplete IsComplete _ _
              (write-IsComplete fuel rest queue lb mb ml (wl + length bytes) write_payload
                (record {
                  four = v.four;
                  counted = v.counted;
                  within = λ e. absurd cc;
                  within_payload = λ e. omega (arith, fits', v.within_payload refl);
                })
                (omega arith) room.1 (omega arith))
              (λ r e. e))
    ]
