-- ===== src/Blockchain/Steps.antt =====
-- The insertion of a block as a sequence of atomic changes of the chain: a block is shelved as an
-- orphan, a block is attached to its parent, or the mempool is pruned.
use ce334_bitcoin_client.Prelude.{
  ℕ, ◌+◌, ◌%◌, ◌^◌, ◌≡◌, true, false, none, some, List, [], ◌∷◌, ◌++◌, append_assoc, ltb,
  if◌then◌else◌,
}
use ce334_bitcoin_client.Crypto.Hash.{H256, h256_key, gt}
use ce334_bitcoin_client.HashMap.{get, retain}
use ce334_bitcoin_client.Block.{Block}
use ce334_bitcoin_client.State.{State, update_with_transactions, check_transaction_validity}
use ce334_bitcoin_client.Platform.{Platform}
use ce334_bitcoin_client.Block.Hashing.{hash_block}
use ce334_bitcoin_client.Blockchain.{
  Stored, Blockchain, parent_of, raw_transactions, put_orphan, store_block, drop_orphans,
}

module _ (p : Platform) where
  -- The height that the code gives to a block above `parent`.
  abbrev pub child_height : Stored → ℕ
  child_height parent = (parent.height + 1) % 2 ^ 64

  -- `bc` with the block stored, the tip moved if the block is higher than `top`, and the block's
  -- orphans taken out.
  abbrev pub attached : Block → Stored → State → Stored → Blockchain → Blockchain
  attached b parent new_state top bc =
      let stored = store_block p b parent new_state bc in
      drop_orphans p (hash_block p b) (
        if ltb top.height (child_height parent)
        then record stored { tip = hash_block p b; dirty_mempool = true }
        else stored)

  abbrev pub pruned : Stored → Blockchain → Blockchain
  pruned top bc = record bc {
    mempool = retain (λ t. check_transaction_validity top.state t.raw_transaction) bc.mempool;
    dirty_mempool = false;
  }

  -- One atomic change, with the hashes of the blocks that it adds.
  pub data Step : Blockchain → List H256 → Blockchain → Type 0 where
    shelve :
        {bc : Blockchain} (b : Block)
        → get (parent_of b) bc.hash_to_block ≡ none
        → Step bc [] (put_orphan b bc)
    attach :
        {bc : Blockchain} (b : Block) (parent : Stored) (new_state : State) (top : Stored)
        → get (hash_block p b) bc.hash_to_block ≡ none
        → get (parent_of b) bc.hash_to_block ≡ some parent
        → gt (hash_block p b) parent.block.header.difficulty ≡ false
        → update_with_transactions parent.state (raw_transactions b) ≡ some new_state
        → get bc.tip bc.hash_to_block ≡ some top
        → Step bc (hash_block p b ∷ []) (attached b parent new_state top bc)
    prune :
        {bc : Blockchain} (top : Stored)
        → get bc.tip bc.hash_to_block ≡ some top
        → Step bc [] (pruned top bc)

  -- A sequence of changes.
  pub data Run : Blockchain → List H256 → Blockchain → Type 0 where
    stop : {bc : Blockchain} → Run bc [] bc
    step :
        {bc mid bc' : Blockchain} {a rest : List H256}
        → Step bc a mid
        → Run mid rest bc'
        → Run bc (a ++ rest) bc'

  pub Run-append :
      {bc mid bc' : Blockchain} {xs ys : List H256}
      → Run bc xs mid
      → Run mid ys bc'
      → Run bc (xs ++ ys) bc'
  Run-append stop r = r
  Run-append {ys} (step {a} {rest} s q) r = rw append_assoc (step s (Run-append q r))
