-- ===== src/Network/Peer/Sent.antt =====
-- The bytes that `WriteContext::write` gives to the socket (network/peer.rs).
use ce334_bitcoin_client.Prelude.{
  ◌>>=◌, Returns-mono, ℕ, zero, suc, ◌+◌, ◌≤◌, ◌≡◌, Bool, true, false, Option, none, some, List, [],
  ◌∷◌, ◌++◌, length, take, drop, append_assoc, refl, arith, sym, ap, ◌∙◌, Outcome, done, Returns,
  Returns-bind, Bool-cases, ◌==◌, inl, inr,
}
use ce334_bitcoin_client.Network.Peer.{
  some, flush, Option, WriteContext, WriteResult, WriteState, write_length, write_payload, write,
  load, flush, to_be_bytes, slice,
}
use ce334_bitcoin_client.Network.Peer.Frames.{frame, frames, unsent, IsWriting, turns}
use ce334_bitcoin_client.Network.Peer.Slices.{slice_sent, drop_end, slice_fits, glue}

-- What is sent and what is left make up what was left.
abbrev pub Sends : WriteContext → WriteResult × WriteContext × List ℕ → Type 0
Sends w r = IsWriting r.1 × (r.2 ++ unsent r.1 ≡ unsent w)

-- The rest of a call sends on.
go_on_sending :
    (w w1 : WriteContext) (bytes : List ℕ) (m : Outcome (WriteResult × WriteContext × List ℕ))
    → bytes ++ unsent w1 ≡ unsent w
    → Returns (Sends w1) m
    → Returns (Sends w) (do (result, next, sent) ← m; done (result, next, bytes ++ sent))
go_on_sending w w1 bytes m e h =
    Returns-bind (Sends w1) (Sends w) _ m h
      (λ r s. (s.0, append_assoc bytes r.2 (unsent r.1) ∙ ap (◌++◌ bytes) s.1 ∙ e))

same_unsent :
    (w w1 : WriteContext) (m : Outcome (WriteResult × WriteContext × List ℕ))
    → unsent w1 ≡ unsent w
    → Returns (Sends w1) m
    → Returns (Sends w) m
same_unsent w w1 m e h = Returns-mono (Sends w1) (Sends w) m (λ r s. (s.0, s.1 ∙ e)) h

abbrev pub context : List (List ℕ) → Bool → List ℕ → List ℕ → ℕ → ℕ → WriteState → WriteContext
context queue is_open lb mb ml wl st = record {
  queue = queue;
  is_open = is_open;
  len_buffer = lb;
  msg_buffer = mb;
  msg_length = ml;
  written_length = wl;
  state = st;
}

module _ (fuel : ℕ) (accepts : List ℕ) (is_open : Bool) (lb mb : List ℕ) (ml wl : ℕ) where
  -- the length is sent
  switch_step :
      (flushes : Option ℕ) (queue : List (List ℕ))
      → IsWriting (context queue is_open lb mb ml wl write_length)
      → (wl == 4) ≡ true
      → Returns
          (Sends (context queue is_open lb mb ml 0 write_payload))
          (write flushes fuel accepts (context queue is_open lb mb ml 0 write_payload))
      → Returns
          (Sends (context queue is_open lb mb ml wl write_length))
          (write flushes (suc fuel) accepts (context queue is_open lb mb ml wl write_length))
  unfolding write
  switch_step flushes queue v all recur =
      let four_sent : drop wl lb ≡ [] = drop_end wl lb (ground (arith, v.four)) in
      rw (write, all)
        (same_unsent (context queue is_open lb mb ml wl write_length)
          (context queue is_open lb mb ml 0 write_payload) _ (unfold unsent in (rw four_sent refl))
          recur)

  -- the payload is sent
  next_step :
      (flushes : Option ℕ) (left : Option (Option ℕ)) (queue : List (List ℕ))
      → flush flushes ≡ left
      → IsWriting (context queue is_open lb mb ml wl write_payload)
      → (wl == ml) ≡ true
      → ((flushes' : Option ℕ) (msg : List ℕ) (rest : List (List ℕ))
          → queue ≡ msg ∷ rest
          → Returns
              (Sends
                (context rest is_open (to_be_bytes (length msg)) msg (length msg) 0 write_length))
              (write flushes' fuel accepts
                (context rest is_open (to_be_bytes (length msg)) msg (length msg) 0 write_length)))
      → Returns
          (Sends (context queue is_open lb mb ml wl write_payload))
          (write flushes (suc fuel) accepts (context queue is_open lb mb ml wl write_payload))
  unfolding write load
  next_step flushes none queue e v all recur = rw (write, all, e) (v, refl)
  next_step flushes (some left) [] e v all recur = rw (write, all, e) (v, refl)
  next_step flushes (some left) (msg ∷ rest) e v all recur =
      let all_sent : drop wl mb ≡ [] = drop_end wl mb (ground (arith, v.counted)) in
      rw (write, all, e)
        (same_unsent (context (msg ∷ rest) is_open lb mb ml wl write_payload)
          (context rest is_open (to_be_bytes (length msg)) msg (length msg) 0 write_length) _
          (unfold unsent in (unfold frames in (unfold frame in (rw all_sent refl))))
          (recur left msg rest refl))

module _ (fuel n : ℕ) (rest : List ℕ) (queue : List (List ℕ)) (is_open : Bool) (lb mb : List ℕ)
    (ml wl : ℕ) (flushes : Option ℕ) where
  -- some bytes of the length are sent
  length_step :
      IsWriting (context queue is_open lb mb ml wl write_length)
      → (wl == 4) ≡ false
      → (IsWriting
            (context queue is_open lb mb ml (wl + length (take n (slice wl 4 lb))) write_length)
          → Returns
              (Sends (
                context queue is_open lb mb ml (wl + length (take n (slice wl 4 lb))) write_length))
              (write flushes fuel rest (
                context queue is_open lb mb ml
                  (wl + length (take n (slice wl 4 lb)))
                  write_length)))
      → Returns
          (Sends (context queue is_open lb mb ml wl write_length))
          (write flushes (suc fuel) (n ∷ rest) (context queue is_open lb mb ml wl write_length))
  unfolding write
  length_step v some_left recur =
      let bytes = take n (slice wl 4 lb) in
      elim (Bool-cases (length bytes == 0)) [
        | inl nothing ↦ rw (write, some_left, nothing) (v, refl)
        | inr something ↦
            rw (write, some_left, something)
              (go_on_sending (context queue is_open lb mb ml wl write_length)
                (context queue is_open lb mb ml (wl + length bytes) write_length) bytes _
                (unfold unsent in
                  (glue bytes (drop (wl + length bytes) lb) mb (frames queue)
                    (slice_sent n wl 4 lb (sym v.four))))
                (recur (record {
                  four = v.four;
                  counted = v.counted;
                  within = λ e. omega (arith, slice_fits n wl 4 lb, v.within refl);
                  within_payload = λ e. absurd cc;
                })))
      ]

  -- some bytes of the payload are sent
  payload_step :
      IsWriting (context queue is_open lb mb ml wl write_payload)
      → (wl == ml) ≡ false
      → (IsWriting
            (context queue is_open lb mb ml (wl + length (take n (slice wl ml mb))) write_payload)
          → Returns
              (Sends (
                context queue is_open lb mb ml
                  (wl + length (take n (slice wl ml mb)))
                  write_payload))
              (write flushes fuel rest (
                context queue is_open lb mb ml
                  (wl + length (take n (slice wl ml mb)))
                  write_payload)))
      → Returns
          (Sends (context queue is_open lb mb ml wl write_payload))
          (write flushes (suc fuel) (n ∷ rest) (context queue is_open lb mb ml wl write_payload))
  unfolding write
  payload_step v some_left recur =
      let bytes = take n (slice wl ml mb) in
      elim (Bool-cases (length bytes == 0)) [
        | inl nothing ↦ rw (write, some_left, nothing) (v, refl)
        | inr something ↦
            rw (write, some_left, something)
              (go_on_sending (context queue is_open lb mb ml wl write_payload)
                (context queue is_open lb mb ml (wl + length bytes) write_payload) bytes _
                (unfold unsent in
                  (sym (append_assoc bytes (drop (wl + length bytes) mb) (frames queue))
                    ∙ ap (λ xs. xs ++ frames queue) (slice_sent n wl ml mb v.counted)))
                (recur (record {
                  four = v.four;
                  counted = v.counted;
                  within = λ e. absurd cc;
                  within_payload = λ e. omega (arith, slice_fits n wl ml mb, v.within_payload refl);
                })))
      ]

module _ (is_open : Bool) where
  pub switched :
      {queue : List (List ℕ)} {lb mb : List ℕ} {ml wl : ℕ}
      → IsWriting (context queue is_open lb mb ml wl write_length)
      → IsWriting (context queue is_open lb mb ml 0 write_payload)
  switched v = record {
    four = v.four;
    counted = v.counted;
    within = λ e. omega arith;
    within_payload = λ e. omega arith;
  }

  pub loaded :
      (msg : List ℕ) {queue : List (List ℕ)}
      → IsWriting (context queue is_open (to_be_bytes (length msg)) msg (length msg) 0 write_length)
  loaded msg = record {
    four = refl;
    counted = refl;
    within = λ e. omega arith;
    within_payload = λ e. omega arith;
  }

  write_run :
      (flushes : Option ℕ) (fuel : ℕ) (accepts : List ℕ) (queue : List (List ℕ)) (lb mb : List ℕ)
      (ml wl : ℕ) (st : WriteState)
      → IsWriting (context queue is_open lb mb ml wl st)
      → turns accepts (context queue is_open lb mb ml wl st) ≤ fuel
      → Returns
          (Sends (context queue is_open lb mb ml wl st))
          (write flushes fuel accepts (context queue is_open lb mb ml wl st))
  unfolding write
  write_run flushes zero accepts queue lb mb ml wl write_length v h = absurd (omega arith)
  write_run flushes zero accepts queue lb mb ml wl write_payload v h = absurd (omega arith)
  write_run flushes (suc fuel) [] queue lb mb ml wl write_length v h = elim (Bool-cases (wl == 4)) [
    | inl all ↦
        switch_step fuel [] is_open lb mb ml wl flushes queue v all
          (write_run flushes fuel [] queue lb mb ml 0 write_payload (switched v) (omega arith))
    | inr some_left ↦ rw (write, some_left) (v, refl)
  ]
  write_run flushes (suc fuel) (n ∷ rest) queue lb mb ml wl write_length v h =
      elim (Bool-cases (wl == 4)) [
        | inl all ↦ switch_step fuel (n ∷ rest) is_open lb mb ml wl flushes queue v all (
            write_run flushes fuel (n ∷ rest) queue lb mb ml 0 write_payload (switched v)
              (omega arith))
        | inr some_left ↦
            length_step fuel n rest queue is_open lb mb ml wl flushes v some_left (λ v'.
              write_run flushes fuel rest queue lb mb ml (wl + length (take n (slice wl 4 lb)))
                write_length v' (omega arith))
      ]
  write_run flushes (suc fuel) [] queue lb mb ml wl write_payload v h =
      elim (Bool-cases (wl == ml)) [
        | inl all ↦
            next_step fuel [] is_open lb mb ml wl flushes (flush flushes) queue refl v all
              (λ flushes' msg more e.
                write_run flushes' fuel [] more (to_be_bytes (length msg)) msg (length msg) 0
                  write_length (loaded msg) (omega (arith, ap length e)))
        | inr some_left ↦ rw (write, some_left) (v, refl)
      ]
  write_run flushes (suc fuel) (n ∷ rest) queue lb mb ml wl write_payload v h =
      elim (Bool-cases (wl == ml)) [
        | inl all ↦
            next_step fuel (n ∷ rest) is_open lb mb ml wl flushes (flush flushes) queue refl v all
              (λ flushes' msg more e.
                write_run flushes' fuel (n ∷ rest) more (to_be_bytes (length msg)) msg (length msg)
                  0 write_length (loaded msg) (omega (arith, ap length e)))
        | inr some_left ↦
            payload_step fuel n rest queue is_open lb mb ml wl flushes v some_left (λ v'.
              write_run flushes fuel rest queue lb mb ml (wl + length (take n (slice wl ml mb)))
                write_payload v' (omega arith))
      ]

-- A call of `write` on buffers whose lengths fit returns, with fuel for the turns that it can need. The
-- bytes that it sends, followed by those left to send, are those that were left before: the rest of the
-- message in the buffers, then each message of the queue after its length in four bytes.
pub write-unsent :
    (flushes : Option ℕ) (fuel : ℕ) (accepts : List ℕ) (w : WriteContext)
    → IsWriting w
    → turns accepts w ≤ fuel
    → Returns (λ r. IsWriting r.1 × (r.2 ++ unsent r.1 ≡ unsent w)) (write flushes fuel accepts w)
write-unsent flushes fuel accepts w v h =
    write_run w.is_open flushes fuel accepts w.queue w.len_buffer w.msg_buffer w.msg_length
      w.written_length w.state v h
