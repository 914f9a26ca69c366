-- ===== src/Network/Peer/Frames.antt =====
-- Framed messages, and what a writer has left to send (network/peer.rs).
use ce334_bitcoin_client.Prelude.{ℕ, ◌+◌, ◌*◌, ◌≤◌, ◌≡◌, List, [], ◌∷◌, ◌++◌, length, drop}
use ce334_bitcoin_client.Network.Peer.{
  WriteContext, WriteState, write_length, write_payload, to_be_bytes,
}

-- A message on the connection: its length in four bytes, then its bytes.
unfoldable pub frame : List ℕ → List ℕ
frame msg = to_be_bytes (length msg) ++ msg

unfoldable pub frames : List (List ℕ) → List ℕ
frames [] = []
frames (msg ∷ msgs) = frame msg ++ frames msgs

-- What is left to send of the message in the buffers, and then of the queue.
abbrev pub current : WriteState → ℕ → List ℕ → List ℕ → List ℕ
current write_length n len_buffer msg_buffer = drop n len_buffer ++ msg_buffer
current write_payload n len_buffer msg_buffer = drop n msg_buffer

unfoldable pub unsent : WriteContext → List ℕ
unfolding frames
unsent w = current w.state w.written_length w.len_buffer w.msg_buffer ++ frames w.queue

-- The lengths fit the buffers.
pub record IsWriting (w : WriteContext) : Type 0 where
  pub four : length w.len_buffer ≡ 4
  pub counted : w.msg_length ≡ length w.msg_buffer
  pub within : w.state ≡ write_length → w.written_length ≤ 4
  pub within_payload : w.state ≡ write_payload → w.written_length ≤ w.msg_length

-- The turns that a call can need.
abbrev pub turns : List ℕ → WriteContext → ℕ
turns accepts w =
    length accepts + 3 * length w.queue + elim w.state [ write_length ↦ 2 | write_payload ↦ 1 ]
