-- ===== src/Transaction/Signing.antt =====
-- transaction.rs: signing, verifying and hashing; crypto/key_pair.rs: the keys of the coin offering.
use ce334_bitcoin_client.Prelude.{ℕ, ◌≡◌, Bool, true, ◌&&◌, List, replicate, set, ◌==k◌, arith}
use ce334_bitcoin_client.Crypto.Hash.{H256, digest_of}
use ce334_bitcoin_client.Crypto.Address.{H160, h160_key, from_pubkey}
use ce334_bitcoin_client.Transaction.{RawTransaction, SignedTransaction}
use ce334_bitcoin_client.Platform.{Platform, IsSigning}

module _ (p : Platform) where
  -- `impl Hashable for RawTransaction`
  unfoldable pub hash_raw : RawTransaction → H256
  unfolding digest_of
  hash_raw t = digest_of p.digest (p.serialize_raw t)

  -- `impl Hashable for SignedTransaction`
  unfoldable pub hash_signed : SignedTransaction → H256
  unfolding digest_of
  hash_signed t = digest_of p.digest (p.serialize_signed t)

  unfoldable pub sign : RawTransaction → p.KeyPair → List ℕ
  sign transaction key = p.sign_bytes key (p.serialize_raw transaction)

  -- the free function `verify`, on the bytes of the key and of the signature
  unfoldable pub verify : RawTransaction → List ℕ → List ℕ → Bool
  verify transaction public_key signature =
      p.verify_bytes public_key (p.serialize_raw transaction) signature

  unfoldable pub from_raw : RawTransaction → p.KeyPair → SignedTransaction
  unfolding sign
  from_raw raw_transaction key = record {
    raw_transaction = raw_transaction;
    pub_key = p.public_key key;
    signature = sign raw_transaction key;
  }

  unfoldable pub verify_signature : SignedTransaction → Bool
  verify_signature t =
      let serialized_raw = p.serialize_raw t.raw_transaction in
      let valid_signature = p.verify_bytes t.pub_key serialized_raw t.signature in
      let signed_by_owner = from_pubkey p.digest t.pub_key ==k t.raw_transaction.from_addr in
      valid_signature && signed_by_owner

  -- `get_deterministic_keypair`: the seed is the number followed by zeros.
  unfoldable pub get_deterministic_keypair : ℕ → p.KeyPair
  get_deterministic_keypair nonce = p.from_seed_unchecked (set (replicate 32 0) 0 nonce)

  -- `H160::from_pubkey(pair.public_key().as_ref())` of such a pair
  unfoldable pub address_of : p.KeyPair → H160
  address_of key = from_pubkey p.digest (p.public_key key)

  -- `verify` accepts what `sign` made with the same key pair.
  pub verify-sign :
      (t : RawTransaction) (key : p.KeyPair)
      → IsSigning p
      → verify t (p.public_key key) (sign t key) ≡ true
  unfolding verify sign
  verify-sign t key s = s.verify-sign key (p.serialize_raw t)

  -- A transaction signed by a key pair is accepted exactly if it spends from that pair's address:
  -- signed by the owner it verifies, signed by anyone else it does not.
  pub verify_signature-from_raw :
      (t : RawTransaction) (key : p.KeyPair)
      → IsSigning p
      → verify_signature (from_raw t key) ≡ (address_of key ==k t.from_addr)
  unfolding verify_signature from_raw address_of
  verify_signature-from_raw t key s = ground (arith, s.verify-sign key (p.serialize_raw t))
