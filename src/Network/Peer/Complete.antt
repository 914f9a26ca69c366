-- ===== src/Network/Peer/Complete.antt =====
-- What a call of `WriteContext::write` leaves when it reports that it is complete (network/peer.rs).
use ce334_bitcoin_client.Prelude.{
  ◌>>=◌, ℕ, zero, suc, ◌+◌, ◌≡◌, Bool, true, Option, none, some, List, [], ◌∷◌, ◌++◌, length, take,
  refl, arith, ap, Outcome, done, panicked, Bool-cases, ◌==◌, inl, inr, if◌then◌else◌, subst,
}
use ce334_bitcoin_client.Network.Peer.{
  flush, Option, WriteContext, WriteResult, WriteState, complete, chan_closed, failed, write_length,
  write_payload, write, load, flush, slice, to_be_bytes,
}
use ce334_bitcoin_client.Network.Peer.Frames.{frames, unsent}
use ce334_bitcoin_client.Network.Peer.Slices.{drop_end}
use ce334_bitcoin_client.Network.Peer.Sent.{context}

-- of the result, where there is one
abbrev Holds :
    (WriteResult × WriteContext × List ℕ → Type 0)
    → Outcome (WriteResult × WriteContext × List ℕ)
    → Type 0
Holds P (done r) = P r
Holds P panicked = Unit
Holds P Outcome.out_of_fuel = Unit

abbrev Drained : WriteResult × WriteContext × List ℕ → Type 0
Drained r = r.0 ≡ complete → unsent r.1 ≡ []

Drained-sent :
    (bytes : List ℕ) (m : Outcome (WriteResult × WriteContext × List ℕ))
    → Holds Drained m
    → Holds Drained (do (result, next, sent) ← m; done (result, next, bytes ++ sent))
Drained-sent bytes (done r) h = h
Drained-sent bytes panicked h = tt
Drained-sent bytes Outcome.out_of_fuel h = tt

module _ (is_open : Bool) where
  all_sent :
      (w : WriteContext)
      → w.msg_length ≡ length w.msg_buffer
      → (w.written_length == w.msg_length) ≡ true
      → w.state ≡ write_payload
      → w.queue ≡ []
      → unsent w ≡ []
  unfolding unsent frames
  all_sent w counted all payload idle =
      rw (payload, idle)
        (ap (λ xs. xs ++ [])
          (drop_end w.written_length w.msg_buffer (ground (arith, counted, all))))

  next_message :
      (f : Option (Option ℕ)) (fuel : ℕ) (accepts : List ℕ) (w : WriteContext)
      (queue : List (List ℕ))
      → w.queue ≡ queue
      → (queue ≡ [] → unsent w ≡ [])
      → ((flushes' : Option ℕ) (msg : List ℕ) (more : List (List ℕ))
          → Holds Drained (write flushes' fuel accepts (load msg more w)))
      → Holds Drained (elim f [
        | none ↦ done (failed, w, [])
        | some flushes' ↦ elim queue [
          | [] ↦ done (if w.is_open then complete else chan_closed, w, [])
          | msg ∷ more ↦ write flushes' fuel accepts (load msg more w)
        ]
      ])
  next_message none fuel accepts w queue e sent recur = λ e. absurd (cc e)
  next_message (some flushes') fuel accepts w [] e sent recur = λ _. sent refl
  next_message (some flushes') fuel accepts w (msg ∷ more) e sent recur = recur flushes' msg more

  write-Drained :
      (flushes : Option ℕ) (fuel : ℕ) (accepts : List ℕ) (queue : List (List ℕ)) (lb mb : List ℕ)
      (ml wl : ℕ) (st : WriteState)
      → ml ≡ length mb
      → Holds Drained (write flushes fuel accepts (context queue is_open lb mb ml wl st))
  unfolding write load
  write-Drained flushes zero accepts queue lb mb ml wl st counted = tt
  write-Drained flushes (suc fuel) [] queue lb mb ml wl write_length counted =
      elim (Bool-cases (wl == 4)) [
        | inl all ↦
            rw (write, all) (write-Drained flushes fuel [] queue lb mb ml 0 write_payload counted)
        | inr some_left ↦ rw (write, some_left) (λ e. absurd (cc e))
      ]
  write-Drained flushes (suc fuel) (n ∷ rest) queue lb mb ml wl write_length counted =
      elim (Bool-cases (wl == 4)) [
        | inl all ↦
            rw (write, all)
              (write-Drained flushes fuel (n ∷ rest) queue lb mb ml 0 write_payload counted)
        | inr some_left ↦
            let bytes = take n (slice wl 4 lb) in
            elim (Bool-cases (length bytes == 0)) [
              | inl nothing ↦ rw (write, some_left, nothing) (λ e. absurd (cc e))
              | inr something ↦
                  rw (write, some_left, something)
                    (Drained-sent bytes _ (
                      write-Drained flushes fuel rest queue lb mb ml (wl + length bytes)
                        write_length counted))
            ]
      ]
  write-Drained flushes (suc fuel) [] queue lb mb ml wl write_payload counted =
      elim (Bool-cases (wl == ml)) [
        | inl all ↦
            rw (write, all)
              (next_message (flush flushes) fuel []
                (context queue is_open lb mb ml wl write_payload) queue refl
                (all_sent (context queue is_open lb mb ml wl write_payload) counted all refl)
                (λ flushes' msg more.
                  write-Drained flushes' fuel [] more (to_be_bytes (length msg)) msg (length msg) 0
                    write_length refl))
        | inr some_left ↦ rw (write, some_left) (λ e. absurd (cc e))
      ]
  write-Drained flushes (suc fuel) (n ∷ rest) queue lb mb ml wl write_payload counted =
      elim (Bool-cases (wl == ml)) [
        | inl all ↦
            rw (write, all)
              (next_message (flush flushes) fuel (n ∷ rest)
                (context queue is_open lb mb ml wl write_payload) queue refl
                (all_sent (context queue is_open lb mb ml wl write_payload) counted all refl)
                (λ flushes' msg more.
                  write-Drained flushes' fuel (n ∷ rest) more (to_be_bytes (length msg)) msg
                    (length msg) 0 write_length refl))
        | inr some_left ↦
            let bytes = take n (slice wl ml mb) in
            elim (Bool-cases (length bytes == 0)) [
              | inl nothing ↦ rw (write, some_left, nothing) (λ e. absurd (cc e))
              | inr something ↦
                  rw (write, some_left, something)
                    (Drained-sent bytes _ (
                      write-Drained flushes fuel rest queue lb mb ml (wl + length bytes)
                        write_payload counted))
            ]
      ]

-- Where a write reports that it is complete, nothing is left to send.
pub write-complete :
    (flushes : Option ℕ) (fuel : ℕ) (accepts : List ℕ) (w w' : WriteContext) (sent : List ℕ)
    → w.msg_length ≡ length w.msg_buffer
    → write flushes fuel accepts w ≡ done (complete, w', sent)
    → unsent w' ≡ []
write-complete flushes fuel accepts w w' sent counted e =
    let drained =
      write-Drained w.is_open flushes fuel accepts w.queue w.len_buffer w.msg_buffer w.msg_length
        w.written_length w.state counted in
    let drained' : Holds Drained (done (complete, w', sent)) = subst (Holds Drained) e drained in
    drained' refl
