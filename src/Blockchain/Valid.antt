-- ===== src/Blockchain/Valid.antt =====
-- The well-formedness of a chain.
use ce334_bitcoin_client.Prelude.{◌≤◌, ◌<◌, ◌≡◌, true, false, none, some, All, length, ◌∙◌}
use ce334_bitcoin_client.Crypto.Hash.{H256, h256_key, gt}
use ce334_bitcoin_client.HashMap.{HashMap, get, insert}
use ce334_bitcoin_client.HashMap.Laws.{get-insert_ne}
use ce334_bitcoin_client.Block.{genesis}
use ce334_bitcoin_client.State.{ico, update_with_transactions, check_transaction_validity}
use ce334_bitcoin_client.Platform.{Platform}
use ce334_bitcoin_client.Transaction.{SignedTransaction}
use ce334_bitcoin_client.Transaction.Signing.{hash_signed, verify_signature}
use ce334_bitcoin_client.Block.Hashing.{hash_block}
use ce334_bitcoin_client.Blockchain.{Stored, Blockchain, parent_of, raw_transactions}
use ce334_bitcoin_client.Blockchain.Steps.{child_height}

module _ (p : Platform) where
  abbrev pub genesis_stored : Stored
  genesis_stored = record { block = genesis; height = 0; state = ico p }

  -- A stored block is the genesis block, or it stands under its own hash above a stored parent,
  -- meets the parent's difficulty, and has the state that its transactions make of the parent's.
  pub data IsLinked (m : HashMap H256 Stored) (x : H256 × Stored) : Type 0 where
    root : x.0 ≡ hash_block p genesis → x.1 ≡ genesis_stored → IsLinked m x
    child :
        (parent : Stored)
        → get (parent_of x.1.block) m ≡ some parent
        → x.0 ≡ hash_block p x.1.block
        → x.1.height ≡ child_height p parent
        → gt x.0 parent.block.header.difficulty ≡ false
        → update_with_transactions parent.state (raw_transactions x.1.block) ≡ some x.1.state
        → IsLinked m x

  -- A transaction of the mempool stands under its hash and is signed by its sender.
  abbrev pub IsPooled : H256 × SignedTransaction → Type 0
  IsPooled x = (x.0 ≡ hash_signed p x.1) × (verify_signature p x.1 ≡ true)

  pub record IsValid (bc : Blockchain) : Type 0 where
    -- the tip is stored, and no block is higher
    pub top : Stored
    pub top_stored : get bc.tip bc.hash_to_block ≡ some top
    pub highest : All (λ e. e.1.height ≤ top.height) bc.hash_to_block
    pub linked : All (IsLinked bc.hash_to_block) bc.hash_to_block
    -- heights count blocks
    pub sized : All (λ e. e.1.height < length bc.hash_to_block) bc.hash_to_block
    -- orphans wait under their parent's hash, and none waits for a block that is there
    pub homed : All (λ e. All (λ b. parent_of b ≡ e.0) e.1) bc.orphanage
    pub awaited :
        (k : H256) {e : Stored} → get k bc.hash_to_block ≡ some e → get k bc.orphanage ≡ none
    pub pooled : All IsPooled bc.mempool
    -- a clean mempool holds what the tip's state accepts
    pub fresh :
        bc.dirty_mempool ≡ false
        → All (λ e. check_transaction_validity top.state e.1.raw_transaction ≡ true) bc.mempool

  -- A block under a new hash leaves the links of the others.
  pub IsLinked-insert :
      (k : H256) (v : Stored) (m : HashMap H256 Stored) (x : H256 × Stored)
      → get k m ≡ none
      → IsLinked m x
      → IsLinked (insert k v m) x
  IsLinked-insert k v m x h (root a b) = root a b
  IsLinked-insert k v m x h (child parent a b c d e) =
      child parent (get-insert_ne (parent_of x.1.block) k v m (λ q. absurd (none_some q)) ∙ a) b c d
        e
    where
      none_some : k ≡ parent_of x.1.block → ⊥
      none_some q = cc (h, a, q)
