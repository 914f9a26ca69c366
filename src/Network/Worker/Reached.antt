-- ===== src/Network/Worker/Reached.antt =====
-- The chains that a worker leaves (network/worker.rs).
use ce334_bitcoin_client.Prelude.{◌≡◌, Option, some, List, [], ◌∷◌, All, Returns, Returns-bind}
use ce334_bitcoin_client.Crypto.Hash.{h256_key}
use ce334_bitcoin_client.Block.{Block}
use ce334_bitcoin_client.Transaction.{SignedTransaction}
use ce334_bitcoin_client.Platform.{Platform}
use ce334_bitcoin_client.Blockchain.{
  Blockchain, insert_block_with_validation, insert_transaction_with_validation,
}
use ce334_bitcoin_client.Blockchain.Submit.{insert_transaction_with_validation-IsValid}
use ce334_bitcoin_client.Blockchain.Reach.{Reach, Reach-IsSound}
use ce334_bitcoin_client.Blockchain.Growth.{IsKept, Reach-IsKept, insert_block-kept}
use ce334_bitcoin_client.Network.Message.{
  Message, ping, pong, new_block_hashes, get_blocks, blocks, new_transaction_hashes,
  get_transactions, transactions,
}
use ce334_bitcoin_client.Network.Worker.{
  ℕ, insert_blocks, insert_transactions, handle_message, worker_loop,
}

module _ (p : Platform) (Q : Blockchain → Type 0) (kept : IsKept p Q) where
  insert_transaction-kept :
      (t : SignedTransaction) (bc : Blockchain)
      → Q bc
      → Returns (λ r. Q r.1) (insert_transaction_with_validation p t bc)
  insert_transaction-kept t bc q =
      let (r, e, v, _, _) =
        insert_transaction_with_validation-IsValid p t bc
          (Reach-IsSound p (kept.reached q)).valid in
      rw e (kept.transaction_kept t r.0 q e)

  insert_blocks-kept :
      (bs : List Block) (bc : Blockchain) → Q bc → Returns (λ r. Q r.1) (insert_blocks p bs bc)
  unfolding insert_blocks
  insert_blocks-kept [] bc q = q
  insert_blocks-kept (b ∷ bs) bc q =
      Returns-bind (λ r. Q r.1) (λ r. Q r.1) _ (insert_block_with_validation p b bc)
        (insert_block-kept p Q kept b bc q)
        (λ r q'.
          Returns-bind (λ r'. Q r'.1) (λ r'. Q r'.1) _ (insert_blocks p bs r.1)
            (insert_blocks-kept bs r.1 q') (λ r' q''. q''))

  pub insert_transactions-kept :
      (ts : List SignedTransaction) (bc : Blockchain)
      → Q bc
      → Returns (λ r. Q r.1) (insert_transactions p ts bc)
  unfolding insert_transactions
  insert_transactions-kept [] bc q = q
  insert_transactions-kept (t ∷ ts) bc q =
      Returns-bind (λ r. Q r.1) (λ r. Q r.1) _ (insert_transaction_with_validation p t bc)
        (insert_transaction-kept t bc q)
        (λ r q'.
          Returns-bind (λ r'. Q r'.1) (λ r'. Q r'.1) _ (insert_transactions p ts r.1)
            (insert_transactions-kept ts r.1 q') (λ r' q''. q''))

  -- The handling of a message returns, and keeps what the insertions keep.
  pub handle_message-kept :
      (m : Message) (bc : Blockchain) → Q bc → Returns (λ r. Q r.1) (handle_message p m bc)
  unfolding handle_message
  handle_message-kept (ping nonce) bc q = q
  handle_message-kept (pong nonce) bc q = q
  handle_message-kept (new_block_hashes hs) bc q = q
  handle_message-kept (get_blocks hs) bc q = q
  handle_message-kept (blocks bs) bc q =
      Returns-bind (λ r. Q r.1) (λ r. Q r.1) _ (insert_blocks p bs bc) (insert_blocks-kept bs bc q)
        (λ r q'. q')
  handle_message-kept (new_transaction_hashes hs) bc q = q
  handle_message-kept (get_transactions hs) bc q = q
  handle_message-kept (transactions ts) bc q =
      Returns-bind (λ r. Q r.1) (λ r. Q r.1) _ (insert_transactions p ts bc)
        (insert_transactions-kept ts bc q) (λ r q'. q')

module _ (p : Platform) where
  -- On a reachable chain a worker handles any message without a panic, and leaves a reachable chain.
  pub handle_message-Reach :
      (m : Message) (bc : Blockchain)
      → Reach p bc
      → Returns (λ r. Reach p r.1) (handle_message p m bc)
  handle_message-Reach m bc r = handle_message-kept p (Reach p) (Reach-IsKept p) m bc r

  -- A worker that starts on a reachable chain and can read every byte string that it receives handles
  -- them all without a panic and leaves a reachable chain.
  pub worker_loop-Reach :
      (deserialize : List ℕ → Option Message) (msgs : List (List ℕ)) (bc : Blockchain)
      → All (λ msg. (m : Message) × (deserialize msg ≡ some m)) msgs
      → Reach p bc
      → Returns (λ r. Reach p r.1) (worker_loop p deserialize msgs bc)
  unfolding worker_loop
  worker_loop-Reach deserialize [] bc h r = r
  worker_loop-Reach deserialize (msg ∷ msgs) bc h r =
      rw (worker_loop, h.0.1)
        (Returns-bind (λ q. Reach p q.1) (λ q. Reach p q.1) _ (handle_message p (h.0.0) bc)
          (handle_message-Reach (h.0.0) bc r)
          (λ q rq.
            Returns-bind (λ q'. Reach p q'.1) (λ q'. Reach p q'.1) _
              (worker_loop p deserialize msgs q.1) (worker_loop-Reach deserialize msgs q.1 h.1 rq)
              (λ q' rq'. rq')))
