-- ===== src/Network/Server/Conveyed.antt =====
-- Messages from the queue of one node's connection to the workers of another (network/peer.rs, network/server.rs).
use ce334_bitcoin_client.Prelude.{
  Returns-done, ℕ, ◌≤◌, ◌≡◌, refl, ap, sym, subst, ◌∙◌, Bool, some, List, [], ◌++◌, append-nil, All,
  arith, done, Returns,
}
use ce334_bitcoin_client.Network.Message.{Message}
use ce334_bitcoin_client.Network.Peer.{
  write_payload, WriteContext, complete, write, new_writer, decode_length,
}
use ce334_bitcoin_client.Network.Peer.Frames.{frames, unsent, turns, IsWriting}
use ce334_bitcoin_client.Network.Peer.Sent.{Sends, write-unsent}
use ce334_bitcoin_client.Network.Peer.Complete.{write-complete}
use ce334_bitcoin_client.Network.Peer.Whole.{write-IsComplete}
use ce334_bitcoin_client.Network.Peer.Delivered.{reader}
use ce334_bitcoin_client.Network.Slab.{Slabs, IsSlabs}
use ce334_bitcoin_client.Network.Server.{
  length, none, Option, Peer, Server, PollCall, would_block, process_readable, deliveries,
}
use ce334_bitcoin_client.Network.Server.Kept.{IsServing}
use ce334_bitcoin_client.Network.Server.Received.{IsFramed, process_readable-frames}

-- the writer of a new connection whose queue has messages
abbrev pub waiting : List (List ℕ) → WriteContext
waiting msgs = record new_writer { queue = msgs }

pub waiting-IsWriting : (msgs : List (List ℕ)) → IsWriting (waiting msgs)
waiting-IsWriting msgs = record {
  four = refl;
  counted = refl;
  within = λ e. omega arith;
  within_payload = λ e. omega arith;
}

-- A complete write of a new connection has sent the frames of all messages.
write-frames :
    (flushes : Option ℕ) (fuel : ℕ) (accepts : List ℕ) (msgs : List (List ℕ)) (w : WriteContext)
    (sent : List ℕ)
    → turns accepts (waiting msgs) ≤ fuel
    → write flushes fuel accepts (waiting msgs) ≡ done (complete, w, sent)
    → sent ≡ frames msgs
unfolding unsent
write-frames flushes fuel accepts msgs w sent enough e =
    let made = write-unsent flushes fuel accepts (waiting msgs) (waiting-IsWriting msgs) enough in
    let made' : Returns (Sends (waiting msgs)) (done (complete, w, sent)) =
      subst (Returns (Sends (waiting msgs))) e made in
    let nothing : unsent w ≡ [] =
      write-complete flushes fuel accepts (waiting msgs) w sent refl e in
    sym (append-nil sent) ∙ ap (λ xs. sent ++ xs) (sym nothing) ∙ made'.1

module _ (S : Slabs Peer) (laws : IsSlabs S) (serialize : Message → List ℕ)
    (poll : PollCall → Bool) where
  -- what a complete write has sent is delivered
  complete-process_readable :
      (flushes : Option ℕ) (fuel : ℕ) (accepts : List ℕ) (msgs : List (List ℕ)) (w : WriteContext)
      (sent : List ℕ) (k : ℕ) (s : Server S) (peer : Peer) (buffer : List ℕ)
      → turns accepts (waiting msgs) ≤ fuel
      → write flushes fuel accepts (waiting msgs) ≡ done (complete, w, sent)
      → All IsFramed msgs
      → IsServing S laws serialize poll s
      → S.get k s.peers ≡ some peer
      → peer.reader ≡ reader buffer 4 0 decode_length
      → Returns
          (λ r. (r.1 ≡ deliveries S serialize poll k msgs) × IsServing S laws serialize poll r.0)
          (process_readable S serialize poll k (sent, would_block, none) s)
  complete-process_readable flushes fuel accepts msgs w sent k s peer buffer enough e all v found
        waits =
      rw (write-frames flushes fuel accepts msgs w sent enough e)
        (process_readable-frames S laws serialize poll k msgs s peer buffer v found waits all)

  -- A new connection has messages of 1 to 2 ^ 32 - 1 bytes in its queue; its socket takes a byte or more at
  -- each of as many calls as their frames have bytes, in whatever portions, and can be flushed. Then the
  -- write is complete, with fuel for the turns that it can need. Where the bytes that it sends arrive at
  -- another node's connection of which no part of a message is yet read, and that node's workers listen,
  -- just these messages are delivered to the workers, in order and with the connection's key, and the
  -- server stays sound.
  pub write-process_readable :
      (fuel : ℕ) (accepts : List ℕ) (msgs : List (List ℕ)) (k : ℕ) (s : Server S) (peer : Peer)
      (buffer : List ℕ)
      → turns accepts (waiting msgs) ≤ fuel
      → All (λ n. 1 ≤ n) accepts
      → length (frames msgs) ≤ length accepts
      → All IsFramed msgs
      → IsServing S laws serialize poll s
      → S.get k s.peers ≡ some peer
      → peer.reader ≡ reader buffer 4 0 decode_length
      → (w : WriteContext) × (sent : List ℕ) × (write none fuel accepts (waiting msgs)
          ≡ done (complete, w, sent))
        × Returns
            (λ r. (r.1 ≡ deliveries S serialize poll k msgs) × IsServing S laws serialize poll r.0)
            (process_readable S serialize poll k (sent, would_block, none) s)
  write-process_readable fuel accepts msgs k s peer buffer enough room fits all v found waits =
      let (r, e, is_complete) = Returns-done _ (write none fuel accepts (waiting msgs)) (
        write-IsComplete fuel accepts msgs (waiting msgs).len_buffer [] 0 0 write_payload
          (waiting-IsWriting msgs) enough room (omega arith)) in
      let e' : write none fuel accepts (waiting msgs) ≡ done (complete, r.1, r.2) =
        e ∙ ap (λ c. done (c, r.1, r.2)) is_complete in
      (
        r.1,
        r.2,
        e',
        complete-process_readable none fuel accepts msgs r.1 r.2 k s peer buffer enough e' all v
            found waits,
      )
