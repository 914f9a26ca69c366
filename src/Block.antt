-- ===== src/Block.antt =====
-- block.rs: the header, the content and the block; the genesis block.
pub mod Hashing
use ce334_bitcoin_client.Prelude.{ℕ, List, []}
use ce334_bitcoin_client.Crypto.Hash.{H256, zero_hash, with_leading_zeros}
use ce334_bitcoin_client.Transaction.{SignedTransaction}

pub record Header : Type 0 where
  pub parent : H256
  pub nonce : ℕ
  pub difficulty : H256
  pub timestamp : ℕ
  pub merkle_root : H256

pub record Content : Type 0 where
  pub transactions : List SignedTransaction

pub record Block : Type 0 where
  pub header : Header
  pub content : Content

unfoldable pub default_difficulty : H256
unfolding with_leading_zeros
default_difficulty = with_leading_zeros 2

-- `Block::genesis`
unfoldable pub genesis : Block
unfolding default_difficulty
genesis = record {
  header = record {
    parent = zero_hash;
    nonce = 0;
    difficulty = default_difficulty;
    timestamp = 0;
    merkle_root = zero_hash;
  };
  content = record { transactions = [] };
}
