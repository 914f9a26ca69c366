-- ===== src/Block/Hashing.antt =====
-- block.rs: the hash of a block is the hash of its header.
use ce334_bitcoin_client.Crypto.Hash.{H256, digest_of}
use ce334_bitcoin_client.Block.{Header, Block}
use ce334_bitcoin_client.Platform.{Platform}

module _ (p : Platform) where
  -- `impl Hashable for Header`
  unfoldable pub hash_header : Header → H256
  unfolding digest_of
  hash_header h = digest_of p.digest (p.serialize_header h)

  -- `impl Hashable for Block`
  unfoldable pub hash_block : Block → H256
  unfolding hash_header
  hash_block b = hash_header b.header
