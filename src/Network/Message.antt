-- ===== src/Network/Message.antt =====
-- network/message.rs: what the nodes tell one another.
use ce334_bitcoin_client.Prelude.{ℕ, List}
use ce334_bitcoin_client.Crypto.Hash.{H256}
use ce334_bitcoin_client.Block.{Block}
use ce334_bitcoin_client.Transaction.{SignedTransaction}

-- A string is the list of its bytes.
pub data Message : Type 0 where
  ping : List ℕ → Message
  pong : List ℕ → Message
  new_block_hashes : List H256 → Message
  get_blocks : List H256 → Message
  blocks : List Block → Message
  new_transaction_hashes : List H256 → Message
  get_transactions : List H256 → Message
  transactions : List SignedTransaction → Message
