-- ===== src/Network/Worker/Relayed.antt =====
-- A transaction that one node announces, at another node (network/worker.rs).
use ce334_bitcoin_client.Prelude.{◌≡◌, refl, true, false, some, none, [], ◌∷◌, done}
use ce334_bitcoin_client.Crypto.Hash.{H256, h256_key}
use ce334_bitcoin_client.HashMap.{get, contains_key}
use ce334_bitcoin_client.HashMap.Laws.{All-get, get-insert_self}
use ce334_bitcoin_client.Platform.{Platform}
use ce334_bitcoin_client.State.{check_transaction_validity}
use ce334_bitcoin_client.Transaction.{SignedTransaction}
use ce334_bitcoin_client.Transaction.Signing.{hash_signed}
use ce334_bitcoin_client.Blockchain.{
  Blockchain, get_transaction, insert_transaction_with_validation,
}
use ce334_bitcoin_client.Blockchain.Valid.{IsValid, IsPooled}
use ce334_bitcoin_client.Blockchain.Submit.{
  admits, pooled_with, insert_transaction_with_validation-eq,
}
use ce334_bitcoin_client.Blockchain.Reach.{Reach, Reach-IsSound}
use ce334_bitcoin_client.Network.Message.{new_transaction_hashes, get_transactions, transactions}
use ce334_bitcoin_client.Network.Worker.{
  write, broadcast, handle_message, insert_transactions, unknown_transaction_hashes,
  requested_transactions,
}

module _ (p : Platform) where
  -- What a clean mempool has, a chain of the same tip admits.
  pooled-admitted :
      (k : H256) (t : SignedTransaction) (here there : Blockchain) (v : IsValid p here)
      (w : IsValid p there)
      → here.dirty_mempool ≡ false
      → get k here.mempool ≡ some t
      → get k there.mempool ≡ none
      → w.top ≡ v.top
      → (k ≡ hash_signed p t) × (admits p w.top.state t there ≡ true)
  unfolding contains_key
  pooled-admitted k t here there v w clean found new same =
      let (own, signed) = All-get (IsPooled p) k here.mempool v.pooled found in
      let valid : check_transaction_validity v.top.state t.raw_transaction ≡ true =
        All-get
          (λ (e : H256 × SignedTransaction).
            check_transaction_validity v.top.state e.1.raw_transaction ≡ true)
          k here.mempool (v.fresh clean) found in
      let lacks : get (hash_signed p t) there.mempool ≡ none = rw (← own) new in
      let absent : contains_key (hash_signed p t) there.mempool ≡ false =
        rw (contains_key, lacks) refl in
      (own, rw (same, absent, signed, valid) refl)

  insert_transactions-one :
      (t : SignedTransaction) (there : Blockchain) (w : IsValid p there)
      → admits p w.top.state t there ≡ true
      → handle_message p (transactions (t ∷ [])) there
        ≡ done
            (broadcast (new_transaction_hashes (hash_signed p t ∷ [])) ∷ [], pooled_with p t there)
  unfolding handle_message insert_transactions
  insert_transactions-one t there w admitted =
      let ran : insert_transaction_with_validation p t there ≡ done (true, pooled_with p t there) =
        rw admitted at (insert_transaction_with_validation-eq p t there w) in
      rw (handle_message, insert_transactions, ran) refl

  -- A node announces a transaction of its mempool to a node whose chain has the same tip and whose mempool
  -- lacks it, both chains being reached by blocks and transactions from anyone. The second asks the first
  -- for the transaction and is sent it; it then has it in its mempool, and announces it.
  pub handle_message-relayed :
      (k : H256) (t : SignedTransaction) (here there : Blockchain)
      → Reach p here
      → Reach p there
      → get there.tip there.hash_to_block ≡ get here.tip here.hash_to_block
      → get k here.mempool ≡ some t
      → get k there.mempool ≡ none
      → (handle_message p (new_transaction_hashes (k ∷ [])) there
          ≡ done (write (get_transactions (k ∷ [])) ∷ [], there))
        × (handle_message p (get_transactions (k ∷ [])) here
            ≡ done (write (transactions (t ∷ [])) ∷ [], here))
        × ((there' : Blockchain) × (handle_message p (transactions (t ∷ [])) there
              ≡ done (broadcast (new_transaction_hashes (k ∷ [])) ∷ [], there'))
            × (get k there'.mempool ≡ some t))
  unfolding handle_message unknown_transaction_hashes requested_transactions get_transaction
  handle_message-relayed k t here there r r' same found new =
      let v = (Reach-IsSound p r).valid in
      let w = (Reach-IsSound p r').valid in
      let top : w.top ≡ v.top = cc (v.top_stored, w.top_stored, same) in
      let (own, admitted) =
        pooled-admitted k t here there v w (Reach-IsSound p r).clean found new top in
      (
        rw (handle_message, unknown_transaction_hashes, get_transaction, new) refl,
        rw (handle_message, requested_transactions, get_transaction, found) refl,
        (
          pooled_with p t there,
          rw own (insert_transactions-one t there w admitted),
          rw own (get-insert_self (hash_signed p t) t there.mempool),
        ),
      )
