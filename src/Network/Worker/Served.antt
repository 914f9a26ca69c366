-- ===== src/Network/Worker/Served.antt =====
-- The blocks and transactions that a worker serves (network/worker.rs).
use ce334_bitcoin_client.Prelude.{
  ◌≡◌, Bool, true, false, some, List, [], ◌∷◌, map, refl, ap, sym, ◌∙◌, Option-cases, inl, inr,
  if◌then◌else◌,
}
use ce334_bitcoin_client.Crypto.Hash.{H256, h256_key}
use ce334_bitcoin_client.HashMap.{get, contains_key}
use ce334_bitcoin_client.HashMap.Laws.{All-get, contains_key-none, contains_key-some}
use ce334_bitcoin_client.Block.Hashing.{hash_block}
use ce334_bitcoin_client.Transaction.Signing.{hash_signed}
use ce334_bitcoin_client.Platform.{Platform}
use ce334_bitcoin_client.Blockchain.{Stored, Blockchain, look_up_block, get_transaction}
use ce334_bitcoin_client.Blockchain.Valid.{IsPooled, IsValid, IsLinked, root, child}
use ce334_bitcoin_client.Network.Worker.{requested_blocks, requested_transactions}

-- The items that pass a test, in order.
unfoldable pub filter {ℓ} : {A : Type ℓ} → (A → Bool) → List A → List A
filter test [] = []
filter test (x ∷ xs) = let rest = filter test xs in if test x then x ∷ rest else rest

module _ (p : Platform) where
  IsLinked-hash :
      (bc : Blockchain) (x : H256 × Stored)
      → IsLinked p bc.hash_to_block x
      → x.0 ≡ hash_block p x.1.block
  IsLinked-hash bc x (root a b) = a ∙ sym (ap (λ s. hash_block p s.block) b)
  IsLinked-hash bc x (child parent a b c d e) = b

  stored_hash :
      (bc : Blockchain) (k : H256) (e : Stored)
      → IsValid p bc
      → get k bc.hash_to_block ≡ some e
      → hash_block p e.block ≡ k
  stored_hash bc k e v found = sym (
      IsLinked-hash bc (k, e)
        (All-get (IsLinked p bc.hash_to_block) k bc.hash_to_block v.linked found))

  -- On a well-formed chain, the blocks served for a request are those whose hashes are the requested ones
  -- that the chain stores, in the order of the request.
  pub requested_blocks-hashes :
      (hashes : List H256) (bc : Blockchain)
      → IsValid p bc
      → map (hash_block p) (requested_blocks hashes bc)
        ≡ filter (λ k. contains_key k bc.hash_to_block) hashes
  unfolding requested_blocks filter look_up_block
  requested_blocks-hashes [] bc v = refl
  requested_blocks-hashes (k ∷ hashes) bc v = elim (Option-cases (get k bc.hash_to_block)) [
    | inl e ↦
        let missing : contains_key k bc.hash_to_block ≡ false =
          contains_key-none k bc.hash_to_block e in
        rw (requested_blocks, filter, e, missing) (requested_blocks-hashes hashes bc v)
    | inr (s, e) ↦
        let there : contains_key k bc.hash_to_block ≡ true =
          contains_key-some k s bc.hash_to_block e in
        rw (
          requested_blocks,
          filter,
          e,
          there,
          stored_hash bc k s v e,
          requested_blocks-hashes hashes bc v,
        )
  ]

  -- The same of transactions and the mempool.
  pub requested_transactions-hashes :
      (hashes : List H256) (bc : Blockchain)
      → IsValid p bc
      → map (hash_signed p) (requested_transactions hashes bc)
        ≡ filter (λ k. contains_key k bc.mempool) hashes
  unfolding requested_transactions filter get_transaction
  requested_transactions-hashes [] bc v = refl
  requested_transactions-hashes (k ∷ hashes) bc v = elim (Option-cases (get k bc.mempool)) [
    | inl e ↦
        let missing : contains_key k bc.mempool ≡ false = contains_key-none k bc.mempool e in
        rw (requested_transactions, filter, e, missing) (requested_transactions-hashes hashes bc v)
    | inr (t, e) ↦
        let there : contains_key k bc.mempool ≡ true = contains_key-some k t bc.mempool e in
        rw (
          requested_transactions,
          filter,
          e,
          there,
          sym (All-get (IsPooled p) k bc.mempool v.pooled e).0,
          requested_transactions-hashes hashes bc v,
        )
  ]
