-- ===== src/Blockchain/Kept.antt =====
-- What stays stored under the atomic changes (blockchain.rs).
use ce334_bitcoin_client.Prelude.{◌≡◌, Bool, true, false, some, List, refl, ltb, if◌then◌else◌, ◌∙◌}
use ce334_bitcoin_client.Crypto.Hash.{H256, h256_key}
use ce334_bitcoin_client.HashMap.{get, insert}
use ce334_bitcoin_client.HashMap.Laws.{get-insert_ne}
use ce334_bitcoin_client.Block.{Block}
use ce334_bitcoin_client.State.{State}
use ce334_bitcoin_client.Platform.{Platform}
use ce334_bitcoin_client.Block.Hashing.{hash_block}
use ce334_bitcoin_client.Blockchain.{Stored, Blockchain, put_orphan, store_block}
use ce334_bitcoin_client.Blockchain.Steps.{
  child_height, attached, Step, shelve, attach, prune, Run, stop, step,
}
use ce334_bitcoin_client.Blockchain.Preserved.{absent_ne}

module _ (p : Platform) where
  if-table :
      (higher : Bool) (b : Block) (parent : Stored) (new_state : State) (bc : Blockchain)
      → let stored = store_block p b parent new_state bc in
        (if higher
          then record stored { tip = hash_block p b; dirty_mempool = true }
          else stored).hash_to_block
        ≡ insert
            (hash_block p b)
            (record { block = b; height = child_height p parent; state = new_state })
            bc.hash_to_block
  unfolding store_block
  if-table true b parent new_state bc = refl
  if-table false b parent new_state bc = refl

  -- What attaching a block makes of the table of blocks.
  pub attached-table :
      (b : Block) (parent : Stored) (new_state : State) (top : Stored) (bc : Blockchain)
      → (attached p b parent new_state top bc).hash_to_block
        ≡ insert
            (hash_block p b)
            (record { block = b; height = child_height p parent; state = new_state })
            bc.hash_to_block
  attached-table b parent new_state top bc =
      if-table (ltb top.height (child_height p parent)) b parent new_state bc

  -- A stored block stays, with its height and its state.
  pub Step-keeps :
      {bc : Blockchain} {added : List H256} {bc' : Blockchain} (k : H256) {e : Stored}
      → Step p bc added bc'
      → get k bc.hash_to_block ≡ some e
      → get k bc'.hash_to_block ≡ some e
  unfolding put_orphan
  Step-keeps k (shelve b h) q = q
  Step-keeps k (prune top h) q = q
  Step-keeps {bc} k (attach b parent new_state top new found hard moves h) q =
      rw (attached-table b parent new_state top bc)
        (get-insert_ne k (hash_block p b) _ bc.hash_to_block (absent_ne bc.hash_to_block new q) ∙ q)

  pub Run-keeps :
      {bc : Blockchain} {added : List H256} {bc' : Blockchain} (k : H256) {e : Stored}
      → Run p bc added bc'
      → get k bc.hash_to_block ≡ some e
      → get k bc'.hash_to_block ≡ some e
  Run-keeps k stop q = q
  Run-keeps k (step s r) q = Run-keeps k r (Step-keeps k s q)
