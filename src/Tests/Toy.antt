-- ===== src/Tests/Toy.antt =====
-- A platform that can be evaluated: a 16-bit checksum for SHA-256, plain encodings, and key pairs
-- that are numbers.
use ce334_bitcoin_client.Prelude.{
  ℕ, ◌+◌, ◌*◌, ◌/◌, ◌%◌, ◌<◌, refl, List, [], ◌∷◌, ◌++◌, All, arith, bytes_eq, bytes_eq_iff,
}
use ce334_bitcoin_client.Crypto.Hash.{Digest}
use ce334_bitcoin_client.Transaction.{RawTransaction}
use ce334_bitcoin_client.Block.{Header}
use ce334_bitcoin_client.Platform.{Platform, IsSigning}

unfoldable pub checksum_from : ℕ → List ℕ → ℕ
checksum_from acc [] = acc
checksum_from acc (b ∷ bs) = checksum_from ((acc * 31 + b + 7) % 65536) bs

unfoldable pub checksum : List ℕ → ℕ
unfolding checksum_from
checksum bs = checksum_from 0 bs % 65536

abbrev pub toy_sha256 : List ℕ → List ℕ
toy_sha256 bs =
    0
    ∷ 0
    ∷ 0
    ∷ 0
    ∷ 0
    ∷ 0
    ∷ 0
    ∷ 0
    ∷ 0
    ∷ 0
    ∷ 0
    ∷ 0
    ∷ 0
    ∷ 0
    ∷ 0
    ∷ 0
    ∷ 0
    ∷ 0
    ∷ 0
    ∷ 0
    ∷ 0
    ∷ 0
    ∷ 0
    ∷ 0
    ∷ 0
    ∷ 0
    ∷ 0
    ∷ 0
    ∷ 0
    ∷ 0
    ∷ (checksum bs / 256)
    ∷ (checksum bs % 256)
    ∷ []

checksum-lt : (bs : List ℕ) → checksum bs < 65536
unfolding checksum
checksum-lt bs = omega arith

pub toy_sha256_range : (bs : List ℕ) → All (λ b. b < 256) (toy_sha256 bs)
toy_sha256_range bs = omega (arith, checksum-lt bs)

abbrev pub toy_digest : Digest
toy_digest = record {
  sha256 = toy_sha256;
  length-sha256 = λ bs. refl;
  sha256_range = toy_sha256_range;
}

abbrev pub toy_raw : RawTransaction → List ℕ
toy_raw t = t.from_addr.bytes ++ (t.to_addr.bytes ++ (t.value ∷ t.nonce ∷ []))

abbrev pub toy_header : Header → List ℕ
toy_header h =
    h.parent.bytes ++ (h.nonce ∷ h.timestamp ∷ (h.difficulty.bytes ++ h.merkle_root.bytes))

abbrev pub toy_seed : List ℕ → ℕ
toy_seed [] = 0
toy_seed (k ∷ _) = k

abbrev pub toy : Platform
toy = record {
  digest = toy_digest;
  serialize_header = toy_header;
  serialize_raw = toy_raw;
  serialize_signed = λ t. toy_raw t.raw_transaction ++ (t.pub_key ++ t.signature);
  KeyPair = ℕ;
  from_seed_unchecked = toy_seed;
  public_key = λ k. k ∷ [];
  sign_bytes = λ k m. k ∷ checksum m ∷ [];
  verify_bytes = λ key m signature. bytes_eq signature (key ++ (checksum m ∷ []));
}

pub toy-IsSigning : IsSigning toy
toy-IsSigning = record {
  verify-sign = λ k m. (bytes_eq_iff (k ∷ checksum m ∷ []) (k ∷ checksum m ∷ [])).1 refl;
}
