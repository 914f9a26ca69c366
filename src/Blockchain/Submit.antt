-- ===== src/Blockchain/Submit.antt =====
-- `insert_transaction_with_validation`: which transactions enter the mempool.
use ce334_bitcoin_client.Prelude.{
  ◌≡◌, Bool, true, false, not, ◌&&◌, Option, none, some, refl, arith, if◌then◌else◌, done,
  Bool-cases, inl, inr,
}
use ce334_bitcoin_client.Crypto.Hash.{H256, h256_key}
use ce334_bitcoin_client.HashMap.{get, insert, contains_key}
use ce334_bitcoin_client.HashMap.Laws.{All-insert, contains_key-some, contains_key-none}
use ce334_bitcoin_client.Transaction.{SignedTransaction}
use ce334_bitcoin_client.Transaction.Signing.{hash_signed, verify_signature}
use ce334_bitcoin_client.State.{State, check_transaction_validity}
use ce334_bitcoin_client.Platform.{Platform}
use ce334_bitcoin_client.Blockchain.{Blockchain, insert_transaction_with_validation}
use ce334_bitcoin_client.Blockchain.Valid.{IsValid, IsPooled}

module _ (p : Platform) where
  -- A transaction is admitted if it is not pooled yet, its sender has signed it, and the tip's state
  -- accepts it.
  abbrev pub admits : State → SignedTransaction → Blockchain → Bool
  admits state t bc =
      not (contains_key (hash_signed p t) bc.mempool)
      && verify_signature p t
      && check_transaction_validity state t.raw_transaction

  abbrev pub pooled_with : SignedTransaction → Blockchain → Blockchain
  pooled_with t bc = record bc { mempool = insert (hash_signed p t) t bc.mempool }

  submit_pooled :
      (t : SignedTransaction) (bc : Blockchain) (v : IsValid p bc) (o : Option SignedTransaction)
      → get (hash_signed p t) bc.mempool ≡ o
      → insert_transaction_with_validation p t bc
        ≡ done (if admits v.top.state t bc then (true, pooled_with t bc) else (false, bc))
  unfolding insert_transaction_with_validation
  submit_pooled t bc v (some s) e =
      ground (arith, e, v.top_stored, contains_key-some (hash_signed p t) s bc.mempool e)
  submit_pooled t bc v none e =
      ground (arith, e, v.top_stored, contains_key-none (hash_signed p t) bc.mempool e)

  -- On a well-formed chain the call returns, and it answers true and pools the transaction under its
  -- hash exactly if the transaction is admitted; otherwise it answers false and changes nothing.
  pub insert_transaction_with_validation-eq :
      (t : SignedTransaction) (bc : Blockchain) (v : IsValid p bc)
      → insert_transaction_with_validation p t bc
        ≡ done (if admits v.top.state t bc then (true, pooled_with t bc) else (false, bc))
  insert_transaction_with_validation-eq t bc v =
      submit_pooled t bc v (get (hash_signed p t) bc.mempool) refl

  pooled_with-IsValid :
      (t : SignedTransaction) (bc : Blockchain) (v : IsValid p bc)
      → admits v.top.state t bc ≡ true
      → IsValid p (pooled_with t bc)
  pooled_with-IsValid t bc v h = record {
    top = v.top;
    top_stored = v.top_stored;
    highest = v.highest;
    linked = v.linked;
    sized = v.sized;
    homed = v.homed;
    awaited = v.awaited;
    pooled = All-insert (IsPooled p) (hash_signed p t) t bc.mempool (refl, ground arith) v.pooled;
    fresh = λ clean.
        All-insert
          (λ (e : H256 × SignedTransaction).
            check_transaction_validity v.top.state e.1.raw_transaction ≡ true)
          (hash_signed p t) t bc.mempool (ground arith) (v.fresh clean);
  }

  -- Submitting a transaction keeps a chain well formed.
  pub insert_transaction_with_validation-IsValid :
      (t : SignedTransaction) (bc : Blockchain)
      → IsValid p bc
      → (r : Bool × Blockchain) × (insert_transaction_with_validation p t bc ≡ done r)
        × IsValid p r.1
        × (r.1.dirty_mempool ≡ bc.dirty_mempool)
        × (r.1.hash_to_block ≡ bc.hash_to_block)
  insert_transaction_with_validation-IsValid t bc v = elim (Bool-cases (admits v.top.state t bc)) [
    | inl admitted ↦ (
      (true, pooled_with t bc),
      (rw admitted at (insert_transaction_with_validation-eq t bc v)),
      pooled_with-IsValid t bc v admitted,
      refl,
      refl,
    )
    | inr refused ↦
        ((false, bc), (rw refused at (insert_transaction_with_validation-eq t bc v)), v, refl, refl)
  ]
