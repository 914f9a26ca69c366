-- ===== src/Miner.antt =====
-- miner.rs: the control signals, the building of a block, and the iterations of the mining loop. The
-- random nonce and the times read from the clock are arguments; the sleep between iterations is left out.
pub mod Template
pub mod Mined
pub mod Announced
use ce334_bitcoin_client.Prelude.{
  ℕ, ◌+◌, ◌%◌, ◌^◌, Bool, true, false, not, Option, none, some, List, [], ◌∷◌, ◌++◌, length, ltb,
  leb, if◌then◌else◌, Outcome, done, panicked, ◌>>=◌,
}
use ce334_bitcoin_client.Crypto.Hash.{H256, gt, Hashable}
use ce334_bitcoin_client.Crypto.Merkle.{MerkleTree}
use ce334_bitcoin_client.Crypto.Merkle
use ce334_bitcoin_client.HashMap.{HashMap}
use ce334_bitcoin_client.Block.{Block, Header, Content}
use ce334_bitcoin_client.Block.Hashing.{hash_block}
use ce334_bitcoin_client.Transaction.{SignedTransaction}
use ce334_bitcoin_client.Transaction.Signing.{hash_signed}
use ce334_bitcoin_client.State.{State, update_in_place}
use ce334_bitcoin_client.Platform.{Platform}
use ce334_bitcoin_client.Blockchain.{Blockchain, Stored, tip_data, insert_block_with_validation}
use ce334_bitcoin_client.Network.Message.{Message, new_block_hashes}

abbrev pub our_minimum_block_size : ℕ
our_minimum_block_size = 5

abbrev pub our_maximum_block_size : ℕ
our_maximum_block_size = 7

pub data ControlSignal : Type 0 where
  start : ℕ → ControlSignal
  exit : ControlSignal

pub data OperatingState : Type 0 where
  paused : OperatingState
  run : ℕ → OperatingState
  shut_down : OperatingState

-- What the control channel gives.
pub data Received : Type 0 where
  signal : ControlSignal → Received
  empty : Received
  disconnected : Received

-- The miner's thread: the state of `Context`, and the local `current_block` of `miner_loop`.
pub record Miner : Type 0 where
  pub operating_state : OperatingState
  pub current_block : Option Block

unfoldable pub handle_control_signal : ControlSignal → Miner → Miner
handle_control_signal exit m = record m { operating_state = shut_down }
handle_control_signal (start i) m = record m { operating_state = run i }

-- The loop of `create_next_block` over the mempool: each transaction that the state takes joins.
unfoldable pub select_transactions :
    HashMap H256 SignedTransaction → List SignedTransaction → State → List SignedTransaction
select_transactions [] transactions state = transactions
select_transactions ((_, transaction) ∷ pool) transactions state =
    elim (leb our_maximum_block_size (length transactions)) [
      | true ↦ transactions
      | false ↦
          let (joins, updated) = update_in_place state transaction.raw_transaction in
          elim joins [
            | true ↦ select_transactions pool (transactions ++ transaction ∷ []) updated
            | false ↦ select_transactions pool transactions updated
          ]
    ]

module _ (p : Platform) where
  abbrev pub signed_hashable : Hashable SignedTransaction
  signed_hashable = record { hash = hash_signed p }

  -- `create_next_block`
  unfoldable pub create_next_block : ℕ → ℕ → Blockchain → Outcome (Option Block)
  unfolding tip_data select_transactions
  create_next_block starting_nonce timestamp bc = do
    parent ← tip_data bc
    let transactions = select_transactions bc.mempool [] parent.state
    if ltb (length transactions) our_minimum_block_size then done none else do
      merkle_tree ← Merkle.new p.digest signed_hashable transactions
      done (
          some (record {
            header = record {
              parent = bc.tip;
              nonce = starting_nonce;
              difficulty = parent.block.header.difficulty;
              timestamp = timestamp;
              merkle_root = Merkle.root merkle_tree;
            };
            content = record { transactions = transactions };
          }))

  -- `if let Some(block) = &mut current_block`: the block left to work on, what is broadcast, the chain.
  unfoldable pub try_nonce :
      ℕ → Option Block → Blockchain → Outcome (Option Block × List Message × Blockchain)
  try_nonce now none bc = done (none, [], bc)
  try_nonce now (some block) bc =
      let stamped = record block { header = record block.header { timestamp = now } } in
      let hash = hash_block p stamped in
      elim (gt hash stamped.header.difficulty) [
        | false ↦ do
          (added, bc') ← insert_block_with_validation p stamped bc
          done (none, new_block_hashes (hash ∷ []) ∷ [], bc')
        | true ↦
            let next_nonce = (stamped.header.nonce + 1) % 2 ^ 32 in
            let next = record stamped { header = record stamped.header { nonce = next_nonce } } in
            done (some next, [], bc)
      ]

  -- One iteration of mining: `current_block` is created if there is none.
  unfoldable pub mine :
      ℕ → ℕ → ℕ → Option Block → Blockchain → Outcome (Option Block × List Message × Blockchain)
  unfolding create_next_block try_nonce
  mine random created now (some block) bc = try_nonce now (some block) bc
  mine random created now none bc = do
    current_block ← create_next_block random created bc
    try_nonce now current_block bc

  -- The body of the loop of `miner_loop`, with what the control channel gives. A paused miner waits
  -- for a signal, and one that is shut down has left the loop.
  unfoldable pub miner_iteration :
      Received → ℕ → ℕ → ℕ → Miner → Blockchain → Outcome (Miner × List Message × Blockchain)
  unfolding handle_control_signal mine
  miner_iteration received random created now m bc = elim m.operating_state [
    | shut_down ↦ done (m, [], bc)
    | paused ↦ elim received [
      | signal s ↦ done (handle_control_signal s m, [], bc)
      | empty ↦ done (m, [], bc)
      | disconnected ↦ panicked
    ]
    | run _ ↦ elim received [
      | disconnected ↦ panicked
      | empty ↦ do
        (current_block, broadcasts, bc') ← mine random created now m.current_block bc
        done (record m { current_block = current_block }, broadcasts, bc')
      | signal s ↦
          let handled = handle_control_signal s m in
          elim handled.operating_state [
            | shut_down ↦ done (handled, [], bc)
            | _ ↦ do
              (current_block, broadcasts, bc') ← mine random created now handled.current_block bc
              done (record handled { current_block = current_block }, broadcasts, bc')
          ]
    ]
  ]
