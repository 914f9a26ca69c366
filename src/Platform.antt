-- ===== src/Platform.antt =====
-- What the program takes from the crates ring and bincode: parameters of the model.
use ce334_bitcoin_client.Prelude.{ℕ, List, Bool, true, ◌≡◌}
use ce334_bitcoin_client.Crypto.Hash.{Digest}
use ce334_bitcoin_client.Transaction.{RawTransaction, SignedTransaction}
use ce334_bitcoin_client.Block.{Header}

pub record Platform : Type 1 where
  pub digest : Digest
  -- `bincode::serialize`; the source unwraps its results
  pub serialize_header : Header → List ℕ
  pub serialize_raw : RawTransaction → List ℕ
  pub serialize_signed : SignedTransaction → List ℕ
  -- ring's Ed25519 key pairs; a seed of 32 bytes is always accepted
  pub KeyPair : Type 0
  pub from_seed_unchecked : List ℕ → KeyPair
  pub public_key : KeyPair → List ℕ
  pub sign_bytes : KeyPair → List ℕ → List ℕ
  -- public key, message, signature
  pub verify_bytes : List ℕ → List ℕ → List ℕ → Bool

-- What ring documents of Ed25519: a signature verifies under the key that made it.
pub record IsSigning (p : Platform) : Type 0 where
  pub verify-sign :
      (k : p.KeyPair) (m : List ℕ) → p.verify_bytes (p.public_key k) m (p.sign_bytes k m) ≡ true
