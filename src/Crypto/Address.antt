-- ===== src/Crypto/Address.antt =====
-- crypto/address.rs: a 160-bit address, the last 20 bytes of the SHA-256 of a public key.
use ce334_bitcoin_client.Prelude.{
  ℕ, ◌-◌, ◌<◌, ◌≡◌, ◌↔◌, ap, Bool, true, List, length, drop, length-drop, All, All-drop, Eq,
  bytes_eq, bytes_eq_iff, arith,
}
use ce334_bitcoin_client.Crypto.Hash.{Digest}

-- `struct H160([u8; 20])`
pub record H160 : Type 0 where
  pub bytes : List ℕ

-- the derived `PartialEq`
unfoldable pub h160_eq : H160 → H160 → Bool
unfolding bytes_eq
h160_eq a b = bytes_eq a.bytes b.bytes

pub h160_eq_iff : (a b : H160) → (h160_eq a b ≡ true) ↔ (a ≡ b)
h160_eq_iff a b = (
  λ h.
      let e : a.bytes ≡ b.bytes = (bytes_eq_iff a.bytes b.bytes).0 (unfold h160_eq in h) in
      λ i. record { bytes = e i },
  λ e. unfold h160_eq in (bytes_eq_iff a.bytes b.bytes).1 (ap (λ (x : H160). x.bytes) e),
)

instance abbrev pub h160_key : Eq H160
h160_key = record { beq = h160_eq; beq_iff = h160_eq_iff }

-- `H160::from_pubkey`
unfoldable pub from_pubkey : Digest → List ℕ → H160
from_pubkey d pub_key_as_bytes =
    let digest_bytes = d.sha256 pub_key_as_bytes in
    record { bytes = drop (length digest_bytes - 20) digest_bytes }

-- The assertion in `from_pubkey`: the slice has 20 bytes, each in range.
pub from_pubkey-length :
    (d : Digest) (key : List ℕ)
    → (length (from_pubkey d key).bytes ≡ 20) × All (λ b. b < 256) (from_pubkey d key).bytes
unfolding from_pubkey
from_pubkey-length d key = (
  omega (arith, length-drop (length (d.sha256 key) - 20) (d.sha256 key), d.length-sha256 key),
  All-drop (λ b. b < 256) (length (d.sha256 key) - 20) (d.sha256 key) (d.sha256_range key),
)
