-- ===== src/Api.antt =====
-- api/mod.rs: the requests that the node answers, with the handles of miner.rs and network/server.rs that
-- it calls. The crates parse the URL and lay the response out; what a request asks for and what is
-- answered are values.
pub mod Number
pub mod Answers
pub mod Requests
pub mod Ledger
use Prim.Native.Char.{code}
use Prim.Native.String.{String}
use ce334_bitcoin_client.Prelude.{
  ◌==k◌, not, ℕ, zero, suc, ◌+◌, ◌*◌, ◌-◌, ◌^◌, Bool, true, false, ◌||◌, Option, none, some, List,
  [], ◌∷◌, ◌++◌, length, ltb, leb, ◌==◌, if◌then◌else◌, ◌⊎◌, inl, inr, Eq, bytes_eq, bytes_eq_iff,
  Outcome, done, panicked, ◌>>=◌,
}
use ce334_bitcoin_client.HashMap.{HashMap, get, insert}
use ce334_bitcoin_client.Crypto.Hash.{H256}
use ce334_bitcoin_client.Transaction.{SignedTransaction}
use ce334_bitcoin_client.State.{State}
use ce334_bitcoin_client.Blockchain.{Blockchain, Stored, tip_data}
use ce334_bitcoin_client.Network.Message.{Message, ping}
use ce334_bitcoin_client.Network.Server.{broadcast_message}
use ce334_bitcoin_client.Network.Server
use ce334_bitcoin_client.Miner.{start, exit}
use ce334_bitcoin_client.Miner

-- the bytes of a string
abbrev pub Text : Type 0
Text = List ℕ

-- of a literal, which is ASCII
abbrev pub codes : String → Text
codes String.[] = []
codes (String.◌∷◌ c s) = code c ∷ codes s

instance abbrev pub text_key : Eq (List ℕ)
text_key = record { beq = bytes_eq; beq_iff = bytes_eq_iff }

-- `std::num::IntErrorKind`, as it occurs
pub data IntErrorKind : Type 0 where
  no_digits invalid_digit pos_overflow : IntErrorKind

-- its `Display`
abbrev pub error_text : IntErrorKind → Text
error_text no_digits = codes "cannot parse integer from empty string"
error_text invalid_digit = codes "invalid digit found in string"
error_text pos_overflow = codes "number too large to fit in target type"

abbrev pub is_digit : ℕ → Bool
is_digit c = if ltb c 48 then false else leb c 57

-- the digits of `parse::<u64>`, with both checks for overflow
unfoldable pub parse_digits : Text → ℕ → IntErrorKind ⊎ ℕ
parse_digits [] n = inr n
parse_digits (c ∷ cs) n =
    let next = n * 10 + (c - 48) in
    let rest = parse_digits cs next in
    if not (is_digit c)
    then inl invalid_digit
    else if leb (2 ^ 64) (n * 10)
    then inl pos_overflow
    else if leb (2 ^ 64) next
    then inl pos_overflow
    else rest

-- `parse::<u64>`: a plus sign may come first
unfoldable pub parse_u64 : Text → IntErrorKind ⊎ ℕ
unfolding parse_digits
parse_u64 [] = inl no_digits
parse_u64 (c ∷ []) = if c == 43 then inl invalid_digit else parse_digits (c ∷ []) 0
parse_u64 (c ∷ d ∷ cs) = if c == 43 then parse_digits (d ∷ cs) 0 else parse_digits (c ∷ d ∷ cs) 0

-- The sending side of a channel: what waits, and whether the receiver is there.
pub record Channel (A : Type 0) : Type 0 where
  pub queue : List A
  pub is_open : Bool

-- `.send(a).unwrap()`
unfoldable pub send : {A : Type 0} → A → Channel A → Outcome (Channel A)
send a c = if c.is_open then done (record c { queue = c.queue ++ a ∷ [] }) else panicked

-- `let _ = tx_gen.send(())`
unfoldable pub try_send : {A : Type 0} → A → Channel A → Channel A
try_send a c = if c.is_open then record c { queue = c.queue ++ a ∷ [] } else c

-- the handles of `Server`
pub record Handles : Type 0 where
  pub miner : Channel Miner.ControlSignal
  pub network : Channel Server.ControlSignal
  pub tx_gen : Channel Unit

-- `miner::Handle::start`
unfoldable pub miner_start : ℕ → Handles → Outcome Handles
unfolding send
miner_start lambda h = do miner ← send (start lambda) h.miner; done (record h { miner = miner })

-- `miner::Handle::exit`
unfoldable pub miner_exit : Handles → Outcome Handles
unfolding send
miner_exit h = do miner ← send exit h.miner; done (record h { miner = miner })

-- `server::Handle::broadcast`
unfoldable pub broadcast : Message → Handles → Outcome Handles
unfolding send
broadcast msg h = do
  network ← send (broadcast_message msg) h.network
  done (record h { network = network })

-- what the `Display` of the chain prints
pub record Status : Type 0 where
  pub num_blocks : ℕ
  pub height : ℕ
  pub tip : H256
  pub mempool : HashMap H256 SignedTransaction
  pub ledger : State

unfoldable pub status_of : Blockchain → Outcome Status
unfolding tip_data
status_of bc = do
  latest ← tip_data bc
  done (record {
    num_blocks = length bc.hash_to_block;
    height = latest.height;
    tip = bc.tip;
    mempool = bc.mempool;
    ledger = latest.state;
  })

-- `ApiResponse` with the status of HTTP, or the text of `/status`
pub data Response : Type 0 where
  api_response : (success : Bool) → (message : Text) → (status : ℕ) → Response
  text_response : Status → Response

-- what `base_url.join(req.url())` gives: the error's text, or the path and the query's pairs
abbrev pub Url : Type 0
Url = Text ⊎ (Text × List (Text × Text))

-- `params.into_owned().collect()`: a later pair replaces an earlier one of its key
unfoldable pub collect : List (Text × Text) → HashMap Text Text → HashMap Text Text
unfolding insert
collect [] params = params
collect ((key, value) ∷ pairs) params = collect pairs (insert key value params)

-- The case `"/miner/start"`.
unfoldable pub start_request : List (Text × Text) → Handles → Outcome (Response × Handles)
unfolding collect get parse_u64 miner_start
start_request pairs h = elim (get (codes "lambda") (collect pairs [])) [
  | none ↦ done (api_response false (codes "missing lambda") 200, h)
  | some lambda ↦ elim (parse_u64 lambda) [
    | inl e ↦ done (api_response false (codes "error parsing lambda: " ++ error_text e) 200, h)
    | inr v ↦ do h' ← miner_start v h; done (api_response true (codes "ok") 200, h')
  ]
]

-- The thread of a request.
unfoldable pub handle_request : Url → Blockchain → Handles → Outcome (Response × Handles)
unfolding start_request miner_exit try_send status_of broadcast
handle_request (inl e) bc h = done (api_response false (codes "error parsing url: " ++ e) 200, h)
handle_request (inr (path, pairs)) bc h =
    if path ==k codes "/miner/start"
    then start_request pairs h
    else if path ==k codes "/miner/exit"
    then (do h' ← miner_exit h; done (api_response true (codes "ok") 200, h'))
    else if path ==k codes "/tx_gen"
    then done (api_response true (codes "ok") 200, record h { tx_gen = try_send tt h.tx_gen })
    else if path ==k codes "/status"
    then (do status ← status_of bc; done (text_response status, h))
    else if path ==k codes "/network/ping"
    then (do
      h' ← broadcast (ping (codes "Test ping")) h
      done (api_response true (codes "ok") 200, h'))
    else done (api_response false (codes "endpoint not found") 404, h)
