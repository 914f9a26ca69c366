-- ===== src/TransactionGenerator/Generated.antt =====
-- The generated transactions and the chain (transaction_generator.rs).
use ce334_bitcoin_client.Prelude.{
  ℕ, ◌%◌, ◌<◌, ◌≡◌, refl, ◌∙◌, true, false, not, ◌&&◌, some, List, [], ◌∷◌, arith, ◌==◌, ◌==k◌, ltb,
  if◌then◌else◌, done, Returns, Returns-bind, Returns-mono,
}
use ce334_bitcoin_client.Crypto.Address.{h160_key}
use ce334_bitcoin_client.Crypto.Hash.{H256, h256_key}
use ce334_bitcoin_client.HashMap.{get, contains_key}
use ce334_bitcoin_client.HashMap.Laws.{All-get}
use ce334_bitcoin_client.Transaction.{SignedTransaction, RawTransaction}
use ce334_bitcoin_client.Transaction.Signing.{
  get_deterministic_keypair, address_of, from_raw, hash_signed, verify_signature-from_raw,
}
use ce334_bitcoin_client.State.{AccountInfo, State, get_acc_info, check_transaction_validity}
use ce334_bitcoin_client.State.Ico.{ico_address}
use ce334_bitcoin_client.Platform.{Platform, IsSigning}
use ce334_bitcoin_client.Blockchain.{
  Blockchain, Stored, tip_data, insert_transaction_with_validation,
}
use ce334_bitcoin_client.Blockchain.Valid.{IsValid}
use ce334_bitcoin_client.Blockchain.Submit.{
  pooled_with, insert_transaction_with_validation-eq, insert_transaction_with_validation-IsValid,
}
use ce334_bitcoin_client.Blockchain.Reach.{Reach, Reach-IsSound}
use ce334_bitcoin_client.Blockchain.Growth.{IsKept, Reach-IsKept}
use ce334_bitcoin_client.Network.Message.{new_transaction_hashes}
use ce334_bitcoin_client.TransactionGenerator.{
  signs_validly, generate, add_to_mempool, generation_iteration,
}
use ce334_bitcoin_client.TransactionGenerator.Funded.{HasAccount, Reach-HasAccount}

module _ (p : Platform) where
  abbrev signer : ℕ → ℕ → ℕ → p.KeyPair
  signer k random_receiver random_validity =
      if signs_validly random_validity
      then get_deterministic_keypair p k
      else get_deterministic_keypair p (random_receiver % 10)

  -- the transfer of one coin to a random account
  abbrev transfer_of : ℕ → ℕ → AccountInfo → RawTransaction
  transfer_of k random_receiver info = record {
    from_addr = ico_address p k;
    to_addr = ico_address p (random_receiver % 10);
    value = 1;
    nonce = info.nonce;
  }

  generate_of :
      (k rr rv : ℕ) (bc : Blockchain) (top : Stored) (info : AccountInfo)
      → get bc.tip bc.hash_to_block ≡ some top
      → get_acc_info top.state (ico_address p k) ≡ some info
      → generate p k rr rv bc ≡ done (from_raw p (transfer_of k rr info) (signer k rr rv))
  unfolding generate
  generate_of k rr rv bc top info found funded =
      let latest : tip_data bc ≡ done top = unfold tip_data in rw (tip_data, found) in
      rw (generate, latest, funded)

  transfer_of-validity :
      (k rr : ℕ) (s : State) (info : AccountInfo)
      → get_acc_info s (ico_address p k) ≡ some info
      → check_transaction_validity s (transfer_of k rr info) ≡ not (ltb info.balance 1)
  unfolding check_transaction_validity get_acc_info
  transfer_of-validity k rr s info funded =
      let same : (info.nonce == info.nonce) ≡ true = ground arith in
      rw (check_transaction_validity, funded, same) (ground arith)

  -- On a well-formed chain whose tip's state has the sender's account, a transaction is generated. It
  -- enters the mempool exactly if the mempool has none under its hash, the account has a coin, and the
  -- key that signs it, the sender's or in one case of eight the receiver's, is one of the sender's address.
  pub generate-insert :
      (k random_receiver random_validity : ℕ) (bc : Blockchain) (top : Stored) (info : AccountInfo)
      → IsSigning p
      → IsValid p bc
      → get bc.tip bc.hash_to_block ≡ some top
      → get_acc_info top.state (ico_address p k) ≡ some info
      → (t : SignedTransaction) × (generate p k random_receiver random_validity bc ≡ done t)
        × (insert_transaction_with_validation p t bc
            ≡ done (
                if not (contains_key (hash_signed p t) bc.mempool)
                  && (address_of p (signer k random_receiver random_validity) ==k ico_address p k)
                  && not (ltb info.balance 1)
                then (true, pooled_with p t bc)
                else (false, bc)))
  unfolding from_raw
  generate-insert k rr rv bc top info s v found funded =
      let t = from_raw p (transfer_of k rr info) (signer k rr rv) in
      let signed = verify_signature-from_raw p (transfer_of k rr info) (signer k rr rv) s in
      let same : v.top ≡ top = cc (v.top_stored, found) in
      let checked : check_transaction_validity v.top.state t.raw_transaction
          ≡ not (ltb info.balance 1) =
        rw same (transfer_of-validity k rr top.state info funded) in
      (
        t,
        generate_of k rr rv bc top info found funded,
        insert_transaction_with_validation-eq p t bc v ∙ rw (signed, checked) refl,
      )

module _ (p : Platform) (Q : Blockchain → Type 0) (kept : IsKept p Q) where
  add_to_mempool-kept :
      (ts : List SignedTransaction) (bc : Blockchain) → Q bc → Returns Q (add_to_mempool p ts bc)
  unfolding add_to_mempool
  add_to_mempool-kept [] bc q = q
  add_to_mempool-kept (t ∷ ts) bc q =
      let (r, e, v, _, _) =
        insert_transaction_with_validation-IsValid p t bc
          (Reach-IsSound p (kept.reached q)).valid in
      rw (add_to_mempool, e) (add_to_mempool-kept ts r.1 (kept.transaction_kept t r.0 q e))

  -- An iteration of the generator keeps what the insertions keep, announces transactions, and the next
  -- sender is one of the ten accounts again.
  pub generation_iteration-kept :
      (k random_receiver random_validity : ℕ) (bc : Blockchain)
      → k < 10
      → Q bc
      → Returns
          (λ r. (r.0 < 10) × ((hashes : List H256) × (r.1 ≡ new_transaction_hashes hashes)) × Q r.2)
          (generation_iteration p k random_receiver random_validity bc)
  unfolding generation_iteration
  generation_iteration-kept k rr rv bc h q =
      let r = kept.reached q in
      let v = (Reach-IsSound p r).valid in
      let (info, funded) =
        All-get (λ (e : H256 × Stored). HasAccount (ico_address p k) e.1.state) bc.tip
          bc.hash_to_block (Reach-HasAccount p k h r) v.top_stored in
      let t = from_raw p (transfer_of p k rr info) (signer p k rr rv) in
      rw (generation_iteration, generate_of p k rr rv bc v.top info v.top_stored funded)
        (Returns-bind Q _ _ (add_to_mempool p (t ∷ []) bc) (add_to_mempool-kept (t ∷ []) bc q)
          (λ bc' q'. (omega arith, (hash_signed p t ∷ [], refl), q')))

module _ (p : Platform) where
  -- On a reachable chain the generator never panics: its accounts are there. An iteration leaves a reachable
  -- chain, and the next sender is one of the ten accounts again.
  pub generation_iteration-Reach :
      (k random_receiver random_validity : ℕ) (bc : Blockchain)
      → k < 10
      → Reach p bc
      → Returns
          (λ r. (r.0 < 10) × Reach p r.2)
          (generation_iteration p k random_receiver random_validity bc)
  generation_iteration-Reach k rr rv bc h r =
      Returns-mono _ (λ x. (x.0 < 10) × Reach p x.2) (generation_iteration p k rr rv bc)
        (λ x g. (g.0, g.2)) (generation_iteration-kept p (Reach p) (Reach-IsKept p) k rr rv bc h r)
