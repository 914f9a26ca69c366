-- ===== src/Blockchain.antt =====
-- blockchain.rs: the blocks with their heights and states, the tip, the orphans and the mempool.
-- `panicked` is a failed `expect`. `insert_block_with_validation` recurs through the orphans, so it
-- runs on fuel.
pub mod Steps
pub mod Valid
pub mod Preserved
pub mod Kept
pub mod Accept
pub mod Total
pub mod Insert
pub mod Verdict
pub mod Submit
pub mod Reach
pub mod Balances
pub mod Growth
pub mod Walk
use ce334_bitcoin_client.Prelude.{
  ℕ, zero, suc, ◌+◌, ◌%◌, ◌^◌, Bool, true, false, not, ◌&&◌, Option, none, some, List, [], ◌∷◌,
  ◌++◌, map, ltb, if◌then◌else◌, length, ◌==◌, Outcome, done, panicked, out_of_fuel, ◌>>=◌,
}
use ce334_bitcoin_client.Crypto.Hash.{H256, h256_key, gt}
use ce334_bitcoin_client.HashMap.{HashMap, get, contains_key, insert, remove, retain, sum_values}
use ce334_bitcoin_client.Transaction.{RawTransaction, SignedTransaction}
use ce334_bitcoin_client.Block.{Block, genesis}
use ce334_bitcoin_client.State.{State, ico, update_with_transactions, check_transaction_validity}
use ce334_bitcoin_client.Platform.{Platform}
use ce334_bitcoin_client.Transaction.Signing.{hash_signed, verify_signature}
use ce334_bitcoin_client.Block.Hashing.{hash_block}

-- The triple `(Block, u64, Arc<State>)` that the table of blocks holds.
pub record Stored : Type 0 where
  pub block : Block
  pub height : ℕ
  pub state : State

pub record Blockchain : Type 0 where
  pub hash_to_block : HashMap H256 Stored
  pub tip : H256
  pub orphanage : HashMap H256 (List Block)
  pub mempool : HashMap H256 SignedTransaction
  pub dirty_mempool : Bool

abbrev pub parent_of : Block → H256
parent_of b = b.header.parent

-- `block.content.transactions.iter().map(|signed| &signed.raw_transaction)`
abbrev pub raw_transactions : Block → List RawTransaction
raw_transactions b = map (λ t. t.raw_transaction) b.content.transactions

-- `tip_data`
unfoldable pub tip_data : Blockchain → Outcome Stored
tip_data bc = elim (get bc.tip bc.hash_to_block) [ none ↦ panicked | some e ↦ done e ]

unfoldable pub look_up_block : Blockchain → H256 → Option Stored
look_up_block bc hash = get hash bc.hash_to_block

unfoldable pub get_transaction : Blockchain → H256 → Option SignedTransaction
get_transaction bc hash = get hash bc.mempool

-- The block joins its siblings: `self.orphanage.entry(*parent_hash).or_default().push(block)`.
unfoldable pub put_orphan : Block → Blockchain → Blockchain
put_orphan b bc =
    let waiting : List Block = elim (get (parent_of b) bc.orphanage) [ none ↦ [] | some os ↦ os ] in
    record bc { orphanage = insert (parent_of b) (waiting ++ b ∷ []) bc.orphanage }

module _ (p : Platform) where
  -- `Blockchain::new`
  unfoldable pub new : Blockchain
  new =
      let genesis_hash = hash_block p genesis in
      record {
        hash_to_block =
            insert genesis_hash (record { block = genesis; height = 0; state = ico p }) [];
        tip = genesis_hash;
        orphanage = [];
        mempool = [];
        dirty_mempool = false;
      }

  -- `for transaction in &block.content.transactions { self.mempool.remove(&transaction.hash()); }`
  unfoldable pub remove_transactions :
      List SignedTransaction → HashMap H256 SignedTransaction → HashMap H256 SignedTransaction
  remove_transactions [] m = m
  remove_transactions (t ∷ ts) m = remove_transactions ts (remove (hash_signed p t) m)

  -- `prune_invalid_transactions`
  unfoldable pub prune_invalid_transactions : Blockchain → Outcome Blockchain
  unfolding tip_data
  prune_invalid_transactions bc = do
    latest ← tip_data bc
    done (record bc {
      mempool = retain (λ t. check_transaction_validity latest.state t.raw_transaction) bc.mempool;
      dirty_mempool = false;
    })

  -- The accepted block is stored above its parent, and its transactions leave the mempool.
  unfoldable pub store_block : Block → Stored → State → Blockchain → Blockchain
  unfolding remove_transactions
  store_block b parent new_state bc = record bc {
    mempool = remove_transactions b.content.transactions bc.mempool;
    hash_to_block =
        insert (hash_block p b)
          (record { block = b; height = (parent.height + 1) % 2 ^ 64; state = new_state })
          bc.hash_to_block;
  }

  -- A block above the tip becomes the tip.
  unfoldable pub move_tip : H256 → ℕ → Blockchain → Outcome Blockchain
  unfolding tip_data
  move_tip hash height bc = do
    tallest ← tip_data bc
    done (if ltb tallest.height height then record bc { tip = hash; dirty_mempool = true } else bc)

  -- `self.orphanage.remove(&hash)`: the orphans that waited for the hash, in order of arrival.
  unfoldable pub waiting_for : H256 → Blockchain → List Block
  waiting_for hash bc = elim (get hash bc.orphanage) [ none ↦ [] | some os ↦ os ]

  abbrev pub drop_orphans : H256 → Blockchain → Blockchain
  drop_orphans hash bc = record bc { orphanage = remove hash bc.orphanage }

  -- `for orphan in orphan_children`, over the recursive call
  unfoldable pub insert_orphans :
      (Block → Blockchain → Outcome (List H256 × Blockchain))
      → List Block
      → Blockchain
      → Outcome (List H256 × Blockchain)
  insert_orphans recur [] bc = done ([], bc)
  insert_orphans recur (orphan ∷ orphans) bc = do
    (added_children, bc') ← recur orphan bc
    (rest, bc'') ← insert_orphans recur orphans bc'
    done (added_children ++ rest, bc'')

  unfoldable pub prune_if_dirty : Blockchain → Outcome Blockchain
  unfolding prune_invalid_transactions
  prune_if_dirty bc = if bc.dirty_mempool then prune_invalid_transactions bc else done bc

  -- The part of `insert_block_with_validation` after its checks.
  unfoldable pub accept_block :
      (Block → Blockchain → Outcome (List H256 × Blockchain))
      → Block
      → Stored
      → State
      → Blockchain
      → Outcome (List H256 × Blockchain)
  accept_block recur b parent new_state bc = do
    let hash = hash_block p b
    moved ← move_tip hash ((parent.height + 1) % 2 ^ 64) (store_block b parent new_state bc)
    (added, bc') ← insert_orphans recur (waiting_for hash moved) (drop_orphans hash moved)
    pruned ← prune_if_dirty bc'
    done (hash ∷ added, pruned)

  -- `insert_block_with_validation`: the hashes of the blocks added, and the new chain.
  unfoldable pub insert_block_on_fuel : ℕ → Block → Blockchain → Outcome (List H256 × Blockchain)
  insert_block_on_fuel zero b bc = out_of_fuel
  insert_block_on_fuel (suc fuel) b bc =
      if contains_key (hash_block p b) bc.hash_to_block
      then done ([], bc)
      else elim (get (parent_of b) bc.hash_to_block) [
        | none ↦ done ([], put_orphan b bc)
        | some parent ↦
            if gt (hash_block p b) parent.block.header.difficulty
            then done ([], bc)
            else elim (update_with_transactions parent.state (raw_transactions b)) [
              | none ↦ done ([], bc)
              | some new_state ↦ accept_block (insert_block_on_fuel fuel) b parent new_state bc
            ]
      ]

  -- The number of blocks in the orphanage bounds the depth of the recursion.
  unfoldable pub orphan_count : Blockchain → ℕ
  orphan_count bc = sum_values length bc.orphanage

  unfoldable pub insert_block_with_validation :
      Block → Blockchain → Outcome (List H256 × Blockchain)
  insert_block_with_validation b bc = insert_block_on_fuel (orphan_count bc + 1) b bc

  -- `insert_block`, "should only be used for debugging"
  unfoldable pub insert_block : Block → Blockchain → Outcome Blockchain
  unfolding tip_data
  insert_block b bc = elim (get (parent_of b) bc.hash_to_block) [
    | none ↦ panicked
    | some parent ↦ do
      let hash = hash_block p b
      let block_height = (parent.height + 1) % 2 ^ 64
      let stored = record bc {
        hash_to_block =
            insert hash (record { block = b; height = block_height; state = parent.state })
              bc.hash_to_block;
      }
      tallest ← tip_data stored
      done (if ltb tallest.height block_height then record stored { tip = hash } else stored)
  ]

  -- The flag that it returns, and the new chain.
  unfoldable pub insert_transaction_with_validation :
      SignedTransaction → Blockchain → Outcome (Bool × Blockchain)
  unfolding get_transaction tip_data
  insert_transaction_with_validation t bc =
      let hash = hash_signed p t in
      elim (get_transaction bc hash) [
        | some _ ↦ done (false, bc)
        | none ↦ if not (verify_signature p t) then done (false, bc) else do
          latest ← tip_data bc
          done (
              if not (check_transaction_validity latest.state t.raw_transaction)
              then (false, bc)
              else (true, record bc { mempool = insert hash t bc.mempool }))
      ]

  -- The loop of `all_blocks_in_longest_chain`, from a hash towards the genesis block.
  unfoldable pub ancestors : ℕ → H256 → Blockchain → Outcome (List H256)
  ancestors zero current_hash bc = out_of_fuel
  ancestors (suc fuel) current_hash bc = elim (get current_hash bc.hash_to_block) [
    | none ↦ done []
    | some e ↦ do rest ← ancestors fuel (parent_of e.block) bc; done (current_hash ∷ rest)
  ]

-- `all_blocks_in_longest_chain`, with its assertion on the length. No walk is longer than the table.
unfoldable pub all_blocks_in_longest_chain : Platform → Blockchain → Outcome (List H256)
unfolding tip_data ancestors
all_blocks_in_longest_chain p bc = do
  tallest ← tip_data bc
  results ← ancestors p (length bc.hash_to_block + 1) bc.tip bc
  if length results % 2 ^ 64 == (tallest.height + 1) % 2 ^ 64 then done results else panicked
