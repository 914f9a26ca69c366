-- ===== src/Blockchain/Growth.antt =====
-- What the insertions keep, and what stays of a chain (blockchain.rs).
use ce334_bitcoin_client.Blockchain.Insert.{insert_block_with_validation-IsValid}
use ce334_bitcoin_client.Prelude.{Returns, ◌≡◌, ap, ◌∙◌, sym, Bool, some, List, done}
use ce334_bitcoin_client.Crypto.Hash.{H256, h256_key}
use ce334_bitcoin_client.HashMap.{get}
use ce334_bitcoin_client.Block.{Block}
use ce334_bitcoin_client.Transaction.{SignedTransaction}
use ce334_bitcoin_client.Platform.{Platform}
use ce334_bitcoin_client.Blockchain.{
  Stored, Blockchain, insert_block_with_validation, insert_transaction_with_validation,
}
use ce334_bitcoin_client.Blockchain.Valid.{IsValid}
use ce334_bitcoin_client.Blockchain.Kept.{Run-keeps}
use ce334_bitcoin_client.Blockchain.Total.{insert_block_with_validation-ran}
use ce334_bitcoin_client.Blockchain.Submit.{insert_transaction_with_validation-IsValid}
use ce334_bitcoin_client.Blockchain.Reach.{Reach, block, transaction, Reach-IsSound}

module _ (p : Platform) where
  -- A property of reachable chains that the insertions of blocks and of transactions keep.
  pub record IsKept (Q : Blockchain → Type 0) : Type 0 where
    pub reached : {bc : Blockchain} → Q bc → Reach p bc
    pub block_kept :
        {bc bc' : Blockchain} (b : Block) (added : List H256)
        → Q bc
        → insert_block_with_validation p b bc ≡ done (added, bc')
        → Q bc'
    pub transaction_kept :
        {bc bc' : Blockchain} (t : SignedTransaction) (pooled : Bool)
        → Q bc
        → insert_transaction_with_validation p t bc ≡ done (pooled, bc')
        → Q bc'

  pub Reach-IsKept : IsKept (Reach p)
  Reach-IsKept = record {
    reached = λ r. r;
    block_kept = λ b added r e. block b added r e;
    transaction_kept = λ t pooled r e. transaction t pooled r e;
  }

  -- The chains that come after a chain: its stored blocks stay, with their heights and states.
  abbrev pub ComesAfter : Blockchain → Blockchain → Type 0
  ComesAfter before bc =
      Reach p bc
      × ((k : H256) (e : Stored)
          → get k before.hash_to_block ≡ some e
          → get k bc.hash_to_block ≡ some e)

  pub ComesAfter-IsKept : (before : Blockchain) → IsKept (ComesAfter before)
  ComesAfter-IsKept before = record {
    reached = λ q. q.0;
    block_kept = λ {bc} b added q e. (
      block b added q.0 e,
      λ k s h.
          Run-keeps p k (insert_block_with_validation-ran p b bc (Reach-IsSound p q.0).valid e).0
            (q.1 k s h),
    );
    transaction_kept = λ {bc} {bc'} t pooled q e. (
      transaction t pooled q.0 e,
      λ k s h. same_table t pooled (Reach-IsSound p q.0).valid e k s (q.1 k s h),
    );
  }
    where
      same_table :
          {bc bc' : Blockchain} (t : SignedTransaction) (pooled : Bool)
          → IsValid p bc
          → insert_transaction_with_validation p t bc ≡ done (pooled, bc')
          → (k : H256) (e : Stored) → get k bc.hash_to_block ≡ some e
          → get k bc'.hash_to_block ≡ some e
      same_table {bc} {bc'} t pooled v e k s h =
          let (q, e', w, dirty, table) = insert_transaction_with_validation-IsValid p t bc v in
          let same : q ≡ (pooled, bc') = cc (e', e) in
          let whole : bc'.hash_to_block ≡ bc.hash_to_block =
            ap (λ (x : Bool × Blockchain). x.1.hash_to_block) (sym same) ∙ table in
          rw whole h

module _ (p : Platform) (Q : Blockchain → Type 0) (kept : IsKept p Q) where
  pub insert_block-kept :
      (b : Block) (bc : Blockchain)
      → Q bc
      → Returns (λ r. Q r.1) (insert_block_with_validation p b bc)
  insert_block-kept b bc q =
      let (r, e, v) =
        insert_block_with_validation-IsValid p b bc (Reach-IsSound p (kept.reached q)).valid in
      rw e (kept.block_kept b r.0 q e)

-- the hash of a stored block
abbrev pub IsStored : Blockchain → H256 → Type 0
IsStored bc k = (e : Stored) × (get k bc.hash_to_block ≡ some e)

module _ (p : Platform) where
  pub ComesAfter-self : {bc : Blockchain} → Reach p bc → ComesAfter p bc bc
  ComesAfter-self r = (r, λ k e h. h)

  pub IsStored-ComesAfter :
      (bc bc' : Blockchain) → ComesAfter p bc bc' → (k : H256) → IsStored bc k → IsStored bc' k
  IsStored-ComesAfter bc bc' later k h = (h.0, later.1 k h.0 h.1)
