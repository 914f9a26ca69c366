-- ===== src/Network/Peer.antt =====
-- network/peer.rs: messages on a connection, framed by their lengths. What the socket has or takes is an
-- argument. A slice out of range is a panic.
pub mod Frames
pub mod Slices
pub mod Sent
pub mod Complete
pub mod Whole
pub mod Framed
pub mod Delivered
pub mod Pieces
use ce334_bitcoin_client.Prelude.{
  ℕ, zero, suc, ◌+◌, ◌-◌, ◌*◌, ◌/◌, ◌%◌, ◌^◌, min, Bool, true, false, ◌&&◌, Option, none, some,
  List, [], ◌∷◌, ◌++◌, length, take, drop, replicate, leb, ltb, ◌==◌, if◌then◌else◌, Outcome, done,
  panicked, out_of_fuel, ◌>>=◌,
}
use ce334_bitcoin_client.Crypto.Hash.{from_be_bytes}

pub data DecodeState : Type 0 where
  decode_length decode_payload : DecodeState

pub data ReadResult : Type 0 where
  continue : ReadResult
  message : List ℕ → ReadResult
  eof : ReadResult

pub record ReadContext : Type 0 where
  pub buffer : List ℕ
  pub msg_length : ℕ
  pub read_length : ℕ
  pub state : DecodeState

-- `ReadContext` as `new` makes it
abbrev pub new_reader : ReadContext
new_reader = record {
  buffer = replicate 4 0;
  msg_length = 4;
  read_length = 0;
  state = decode_length;
}

-- The bytes are copied into the buffer from an index on.
unfoldable pub overwrite : ℕ → List ℕ → List ℕ → List ℕ
overwrite i bytes buffer = take i buffer ++ (bytes ++ drop (i + length bytes) buffer)

-- `Vec::resize` to a greater length
abbrev pub resize : ℕ → List ℕ → List ℕ
resize n buffer = buffer ++ replicate (n - length buffer) 0

-- The buffer is filled: `match self.state` in `read`.
unfoldable pub filled : ReadContext → ReadResult × ReadContext
filled r = elim r.state [
  | decode_length ↦
      let message_length = from_be_bytes (take 4 r.buffer) in
      (
        continue,
        record r {
          state = decode_payload;
          read_length = 0;
          msg_length = message_length;
          buffer =
              if ltb (length r.buffer) message_length
              then resize message_length r.buffer
              else r.buffer;
        },
      )
  | decode_payload ↦ (
    message (take r.msg_length r.buffer),
    record r { state = decode_length; read_length = 0; msg_length = 4 },
  )
]

-- `ReadContext::read` on a socket that has these bytes: the result, the context, and the bytes not read.
-- A read into an empty slice, or from a closed socket, gives no bytes. An error of the socket, which the
-- code passes on and which changes nothing, is left out.
unfoldable pub read : List ℕ → ReadContext → Outcome (ReadResult × ReadContext × List ℕ)
unfolding overwrite filled
read available r = elim (leb r.read_length r.msg_length && leb r.msg_length (length r.buffer)) [
  | false ↦ panicked
  | true ↦
      let bytes = take (r.msg_length - r.read_length) available in
      let rest = drop (r.msg_length - r.read_length) available in
      let advanced = record r {
        buffer = overwrite r.read_length bytes r.buffer;
        read_length = r.read_length + length bytes;
      } in
      done (
        if length bytes == 0
        then (eof, r, rest)
        else if advanced.read_length == advanced.msg_length
        then ((filled advanced).0, (filled advanced).1, rest)
        else (continue, advanced, rest))
]

pub data WriteResult : Type 0 where
  complete write_eof chan_closed : WriteResult
  -- an error of the socket, returned by `?`
  failed : WriteResult

pub data WriteState : Type 0 where
  write_length write_payload : WriteState

pub record WriteContext : Type 0 where
  pub queue : List (List ℕ)
  -- whether a sender of the channel is left
  pub is_open : Bool
  pub len_buffer : List ℕ
  pub msg_buffer : List ℕ
  pub msg_length : ℕ
  pub written_length : ℕ
  pub state : WriteState

-- `WriteContext` as `new` makes it
abbrev pub new_writer : WriteContext
new_writer = record {
  queue = [];
  is_open = true;
  len_buffer = replicate 4 0;
  msg_buffer = [];
  msg_length = 0;
  written_length = 0;
  state = write_payload;
}

-- `(n as u32).to_be_bytes()`
abbrev pub to_be_bytes : ℕ → List ℕ
to_be_bytes n = (n / 2 ^ 24 % 256) ∷ (n / 2 ^ 16 % 256) ∷ (n / 2 ^ 8 % 256) ∷ (n % 256) ∷ []

-- `buffer[from..to]`
abbrev pub slice : ℕ → ℕ → List ℕ → List ℕ
slice from to buffer = take (to - from) (drop from buffer)

-- The next message of the queue and its length are put into the buffers.
unfoldable pub load : List ℕ → List (List ℕ) → WriteContext → WriteContext
load msg queue w = record w {
  queue = queue;
  msg_buffer = msg;
  msg_length = length msg;
  len_buffer = to_be_bytes (length msg);
  written_length = 0;
  state = write_length;
}

-- A flush, with what then holds of the next ones, where it succeeds.
abbrev pub flush : Option ℕ → Option (Option ℕ)
flush none = some none
flush (some zero) = none
flush (some (suc n)) = some (some n)

-- `WriteContext::write`: the result, the context, and the bytes given to the writer. The writer takes at
-- most as many bytes at a call as the next item of `accepts` says, and fails when there is no item;
-- `flushes` tells how many flushes succeed before one fails, `none` that all do.
unfoldable pub write :
    (flushes : Option ℕ) → ℕ → List ℕ → WriteContext → Outcome (WriteResult × WriteContext × List ℕ)
unfolding load
write flushes zero accepts w = out_of_fuel
write flushes (suc fuel) accepts w = elim w.state [
  | write_length ↦ elim (w.written_length == 4) [
    | true ↦ write flushes fuel accepts (record w { written_length = 0; state = write_payload })
    | false ↦ elim accepts [
      | [] ↦ done (failed, w, [])
      | n ∷ rest ↦
          let bytes = take n (slice w.written_length 4 w.len_buffer) in
          elim (length bytes == 0) [
            | true ↦ done (write_eof, w, [])
            | false ↦ do
              (result, next, sent) ←
                  write flushes fuel rest
                    (record w { written_length = w.written_length + length bytes })
              done (result, next, bytes ++ sent)
          ]
    ]
  ]
  | write_payload ↦ elim (w.written_length == w.msg_length) [
    | true ↦ elim (flush flushes) [
      | none ↦ done (failed, w, [])
      | some flushes' ↦ elim w.queue [
        | [] ↦ done (if w.is_open then complete else chan_closed, w, [])
        | msg ∷ queue ↦ write flushes' fuel accepts (load msg queue w)
      ]
    ]
    | false ↦ elim accepts [
      | [] ↦ done (failed, w, [])
      | n ∷ rest ↦
          let bytes = take n (slice w.written_length w.msg_length w.msg_buffer) in
          elim (length bytes == 0) [
            | true ↦ done (write_eof, w, [])
            | false ↦ do
              (result, next, sent) ←
                  write flushes fuel rest
                    (record w { written_length = w.written_length + length bytes })
              done (result, next, bytes ++ sent)
          ]
    ]
  ]
]
