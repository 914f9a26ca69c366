-- ===== src/Network/Worker.antt =====
-- network/worker.rs: what a worker thread does with a message. It holds the lock of the chain during
-- a message's whole access to the chain, so that messages act one after another. `latency` is computed
-- and not used, and wraps around in a release build, so it is left out.
pub mod Reached
pub mod Served
pub mod Announced
pub mod Synced
pub mod Relayed
use ce334_bitcoin_client.Prelude.{
  ℕ, Bool, true, false, not, Option, none, some, List, [], ◌∷◌, ◌++◌, if◌then◌else◌, Outcome, done,
  panicked, ◌>>=◌,
}
use ce334_bitcoin_client.Crypto.Hash.{H256, h256_key}
use ce334_bitcoin_client.Block.{Block}
use ce334_bitcoin_client.Transaction.{SignedTransaction}
use ce334_bitcoin_client.Transaction.Signing.{hash_signed}
use ce334_bitcoin_client.Platform.{Platform}
use ce334_bitcoin_client.Blockchain.{
  Blockchain, Stored, look_up_block, get_transaction, insert_block_with_validation,
  insert_transaction_with_validation,
}
use ce334_bitcoin_client.Network.Message.{
  Message, ping, pong, new_block_hashes, get_blocks, blocks, new_transaction_hashes,
  get_transactions, transactions,
}

-- What leaves the worker: `peer.write` to the sender, `self.server.broadcast` to all peers.
pub data Effect : Type 0 where
  write : Message → Effect
  broadcast : Message → Effect

-- `.filter(|new_hash| blockchain.look_up_block(new_hash).is_none())`
unfoldable pub unknown_block_hashes : List H256 → Blockchain → List H256
unknown_block_hashes [] bc = []
unknown_block_hashes (hash ∷ hashes) bc =
    let rest = unknown_block_hashes hashes bc in
    elim (look_up_block bc hash) [ none ↦ hash ∷ rest | some _ ↦ rest ]

-- `.filter_map(|hash| blockchain.look_up_block(&hash)).map(|(block, _, _)| block.clone())`
unfoldable pub requested_blocks : List H256 → Blockchain → List Block
requested_blocks [] bc = []
requested_blocks (hash ∷ hashes) bc =
    let rest = requested_blocks hashes bc in
    elim (look_up_block bc hash) [ none ↦ rest | some stored ↦ stored.block ∷ rest ]

-- `.filter(|new_hash| blockchain.get_transaction(new_hash).is_none())`
unfoldable pub unknown_transaction_hashes : List H256 → Blockchain → List H256
unknown_transaction_hashes [] bc = []
unknown_transaction_hashes (hash ∷ hashes) bc =
    let rest = unknown_transaction_hashes hashes bc in
    elim (get_transaction bc hash) [ none ↦ hash ∷ rest | some _ ↦ rest ]

-- `.filter_map(|hash| blockchain.get_transaction(&hash))`
unfoldable pub requested_transactions : List H256 → Blockchain → List SignedTransaction
requested_transactions [] bc = []
requested_transactions (hash ∷ hashes) bc =
    let rest = requested_transactions hashes bc in
    elim (get_transaction bc hash) [ none ↦ rest | some t ↦ t ∷ rest ]

-- `if !items.is_empty() { … }`
abbrev pub unless_empty {ℓ} : {A : Type ℓ} → List A → Effect → List Effect
unless_empty [] effect = []
unless_empty (x ∷ xs) effect = effect ∷ []

module _ (p : Platform) where
  -- `for block in blocks`: the hashes of all blocks added.
  unfoldable pub insert_blocks : List Block → Blockchain → Outcome (List H256 × Blockchain)
  insert_blocks [] bc = done ([], bc)
  insert_blocks (b ∷ bs) bc = do
    (added_blocks, bc') ← insert_block_with_validation p b bc
    (rest, bc'') ← insert_blocks bs bc'
    done (added_blocks ++ rest, bc'')

  -- `for transaction in transactions`: the hashes of those that were added.
  unfoldable pub insert_transactions :
      List SignedTransaction → Blockchain → Outcome (List H256 × Blockchain)
  insert_transactions [] bc = done ([], bc)
  insert_transactions (t ∷ ts) bc = do
    (added, bc') ← insert_transaction_with_validation p t bc
    (rest, bc'') ← insert_transactions ts bc'
    done (if added then hash_signed p t ∷ rest else rest, bc'')

  -- The `match` of `worker_loop`.
  unfoldable pub handle_message : Message → Blockchain → Outcome (List Effect × Blockchain)
  unfolding unknown_block_hashes requested_blocks unknown_transaction_hashes requested_transactions
  handle_message (ping nonce) bc = done (write (pong nonce) ∷ [], bc)
  handle_message (pong nonce) bc = done ([], bc)
  handle_message (new_block_hashes hashes) bc =
      let unknown_hashes = unknown_block_hashes hashes bc in
      done (unless_empty unknown_hashes (write (get_blocks unknown_hashes)), bc)
  handle_message (get_blocks hashes) bc =
      let found = requested_blocks hashes bc in done (unless_empty found (write (blocks found)), bc)
  handle_message (blocks bs) bc = do
    (all_added_blocks, bc') ← insert_blocks bs bc
    done (unless_empty all_added_blocks (broadcast (new_block_hashes all_added_blocks)), bc')
  handle_message (new_transaction_hashes hashes) bc =
      let unknown_hashes = unknown_transaction_hashes hashes bc in
      done (unless_empty unknown_hashes (write (get_transactions unknown_hashes)), bc)
  handle_message (get_transactions hashes) bc =
      let found = requested_transactions hashes bc in
      done (unless_empty found (write (transactions found)), bc)
  handle_message (transactions ts) bc = do
    (all_added, bc') ← insert_transactions ts bc
    done (unless_empty all_added (broadcast (new_transaction_hashes all_added)), bc')

  -- `worker_loop` over the byte strings received, with `bincode::deserialize(&msg).unwrap()`.
  unfoldable pub worker_loop :
      (List ℕ → Option Message) → List (List ℕ) → Blockchain → Outcome (List Effect × Blockchain)
  unfolding handle_message
  worker_loop deserialize [] bc = done ([], bc)
  worker_loop deserialize (msg ∷ msgs) bc = elim (deserialize msg) [
    | none ↦ panicked
    | some message ↦ do
      (effects, bc') ← handle_message message bc
      (rest, bc'') ← worker_loop deserialize msgs bc'
      done (effects ++ rest, bc'')
  ]
