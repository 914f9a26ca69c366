-- ===== src/Network/Worker/Announced.antt =====
-- What a worker announces to all peers, and what the chain has stored (network/worker.rs).
use ce334_bitcoin_client.Prelude.{
  append-nil, ◌≡◌, Bool, false, ◌||◌, List, [], ◌∷◌, ◌++◌, refl, arith, ◌∙◌, Returns, Returns-bind,
}
use ce334_bitcoin_client.Crypto.Hash.{H256, h256_key}
use ce334_bitcoin_client.HashMap.{contains_key}
use ce334_bitcoin_client.Block.{Block}
use ce334_bitcoin_client.Transaction.{SignedTransaction}
use ce334_bitcoin_client.Platform.{Platform}
use ce334_bitcoin_client.Blockchain.{Blockchain, insert_block_with_validation}
use ce334_bitcoin_client.Blockchain.Valid.{IsValid}
use ce334_bitcoin_client.Blockchain.Insert.{
  elem, elem-append, insert_block_with_validation-IsValid, insert_block_with_validation-added,
}
use ce334_bitcoin_client.Blockchain.Submit.{insert_transaction_with_validation-IsValid}
use ce334_bitcoin_client.Network.Message.{
  Message, ping, pong, new_block_hashes, get_blocks, blocks, new_transaction_hashes,
  get_transactions, transactions,
}
use ce334_bitcoin_client.Network.Worker.{
  unknown_block_hashes, requested_blocks, unknown_transaction_hashes, requested_transactions,
  Effect, write, broadcast, unless_empty, insert_blocks, insert_transactions, handle_message,
}

-- The block hashes that a message announces.
abbrev pub block_hashes : Message → List H256
block_hashes (new_block_hashes hashes) = hashes
block_hashes _ = []

abbrev pub announced_by : Effect → List H256
announced_by (broadcast m) = block_hashes m
announced_by (write m) = []

-- The block hashes that the effects broadcast.
unfoldable pub announced : List Effect → List H256
announced [] = []
announced (effect ∷ effects) = announced_by effect ++ announced effects

abbrev stores : H256 → Blockchain → Bool
stores k bc = contains_key k bc.hash_to_block

or_false : (b : Bool) → b ≡ (b || false)
or_false b = ground arith

announced-unless_empty :
    (hs : List H256) → announced (unless_empty hs (broadcast (new_block_hashes hs))) ≡ hs
unfolding announced
announced-unless_empty [] = refl
announced-unless_empty (h ∷ hs) = append-nil (h ∷ hs)

announced-write {ℓ} :
    {A : Type ℓ} (xs : List A) (m : Message) → announced (unless_empty xs (write m)) ≡ []
unfolding announced
announced-write [] m = refl
announced-write (x ∷ xs) m = refl

announced-new_transactions :
    (hs : List H256) → announced (unless_empty hs (broadcast (new_transaction_hashes hs))) ≡ []
unfolding announced
announced-new_transactions [] = refl
announced-new_transactions (h ∷ hs) = refl

elem_nil : (k : H256) (b : Bool) (hs : List H256) → hs ≡ [] → b ≡ (b || elem k hs)
unfolding elem
elem_nil k b hs e = rw e (or_false b)

module _ (p : Platform) where
  abbrev Adds : Blockchain → List H256 × Blockchain → Type 0
  Adds bc r = IsValid p r.1 × ((k : H256) → stores k r.1 ≡ (stores k bc || elem k r.0))

  insert_block-Adds :
      (b : Block) (bc : Blockchain)
      → IsValid p bc
      → Returns (Adds bc) (insert_block_with_validation p b bc)
  insert_block-Adds b bc v =
      let (q, e, w) = insert_block_with_validation-IsValid p b bc v in
      rw e (w, (insert_block_with_validation-added p b bc v e).0)

  insert_blocks-Adds :
      (bs : List Block) (bc : Blockchain) → IsValid p bc → Returns (Adds bc) (insert_blocks p bs bc)
  unfolding insert_blocks elem
  insert_blocks-Adds [] bc v = (v, λ k. or_false (stores k bc))
  insert_blocks-Adds (b ∷ bs) bc v =
      Returns-bind (Adds bc) (Adds bc) _ (insert_block_with_validation p b bc)
        (insert_block-Adds b bc v)
        (λ q a.
          Returns-bind (Adds q.1) (Adds bc) _ (insert_blocks p bs q.1)
            (insert_blocks-Adds bs q.1 a.0)
            (λ q' a'. (a'.0, λ k. ground (arith, a.1 k, a'.1 k, elem-append k q.0 q'.0))))

  insert_transactions-stores :
      (ts : List SignedTransaction) (bc : Blockchain)
      → IsValid p bc
      → Returns
          (λ r. IsValid p r.1 × (r.1.hash_to_block ≡ bc.hash_to_block))
          (insert_transactions p ts bc)
  unfolding insert_transactions
  insert_transactions-stores [] bc v = (v, refl)
  insert_transactions-stores (t ∷ ts) bc v =
      let (q, e, w, _, same) = insert_transaction_with_validation-IsValid p t bc v in
      rw (insert_transactions, e)
        (Returns-bind (λ r. IsValid p r.1 × (r.1.hash_to_block ≡ q.1.hash_to_block))
          (λ r. IsValid p r.1 × (r.1.hash_to_block ≡ bc.hash_to_block)) _
          (insert_transactions p ts q.1) (insert_transactions-stores ts q.1 w)
          (λ q' a. (a.0, a.1 ∙ same)))

  -- On a well-formed chain, whatever the message, the handling returns, and the chain afterwards stores
  -- a block under a hash exactly if it did before or the hash is among those that are announced.
  pub handle_message-announced :
      (m : Message) (bc : Blockchain)
      → IsValid p bc
      → Returns
          (λ r.
            (k : H256)
            → contains_key k r.1.hash_to_block
              ≡ (contains_key k bc.hash_to_block || elem k (announced r.0)))
          (handle_message p m bc)
  unfolding handle_message announced elem
  handle_message-announced (ping nonce) bc v = λ k. or_false (stores k bc)
  handle_message-announced (pong nonce) bc v = λ k. or_false (stores k bc)
  handle_message-announced (new_block_hashes hs) bc v = λ k.
      elem_nil k (stores k bc) _
        (announced-write (unknown_block_hashes hs bc) (get_blocks (unknown_block_hashes hs bc)))
  handle_message-announced (get_blocks hs) bc v = λ k.
      elem_nil k (stores k bc) _
        (announced-write (requested_blocks hs bc) (blocks (requested_blocks hs bc)))
  handle_message-announced (blocks bs) bc v =
      Returns-bind (Adds bc) _ _ (insert_blocks p bs bc) (insert_blocks-Adds bs bc v)
        (λ q a k. rw (announced-unless_empty q.0) (a.1 k))
  handle_message-announced (new_transaction_hashes hs) bc v = λ k. elem_nil k (stores k bc) _ (
      announced-write (unknown_transaction_hashes hs bc)
        (get_transactions (unknown_transaction_hashes hs bc)))
  handle_message-announced (get_transactions hs) bc v = λ k.
      elem_nil k (stores k bc) _ (
        announced-write (requested_transactions hs bc)
          (transactions (requested_transactions hs bc)))
  handle_message-announced (transactions ts) bc v =
      Returns-bind (λ r. IsValid p r.1 × (r.1.hash_to_block ≡ bc.hash_to_block)) _ _
        (insert_transactions p ts bc) (insert_transactions-stores ts bc v)
        (λ q a k. rw a.1 (elem_nil k (stores k bc) _ (announced-new_transactions q.0)))
