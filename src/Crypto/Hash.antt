-- ===== src/Crypto/Hash.antt =====
-- crypto/hash.rs: SHA-256 values as big-endian 256-bit numbers, and the trait `Hashable`.
pub mod Order
pub mod Difficulty
use ce334_bitcoin_client.Prelude.{
  ℕ, zero, suc, ◌+◌, ◌-◌, ◌*◌, ◌/◌, ◌^◌, ◌<◌, ◌≡◌, ◌↔◌, refl, ap, Bool, true, false, Ordering,
  compare, List, [], ◌∷◌, length, take, drop, replicate, set, get_elem?, none, some, Option, All,
  Eq, bytes_eq, bytes_eq_iff, if◌then◌else◌, leb,
}

-- `struct H256([u8; 32])`
pub record H256 : Type 0 where
  pub bytes : List ℕ

-- What the type `[u8; 32]` guarantees.
pub record IsH256 (h : H256) : Type 0 where
  pub len : length h.bytes ≡ 32
  pub range : All (λ b. b < 256) h.bytes

-- the derived `PartialEq`
unfoldable pub h256_eq : H256 → H256 → Bool
unfolding bytes_eq
h256_eq a b = bytes_eq a.bytes b.bytes

pub h256_eq_iff : (a b : H256) → (h256_eq a b ≡ true) ↔ (a ≡ b)
h256_eq_iff a b = (
  λ h.
      let e : a.bytes ≡ b.bytes = (bytes_eq_iff a.bytes b.bytes).0 (unfold h256_eq in h) in
      λ i. record { bytes = e i },
  λ e. unfold h256_eq in (bytes_eq_iff a.bytes b.bytes).1 (ap (λ (x : H256). x.bytes) e),
)

instance abbrev pub h256_key : Eq H256
h256_key = record { beq = h256_eq; beq_iff = h256_eq_iff }

-- The derived `Default`: all bytes are zero.
abbrev pub zero_hash : H256
zero_hash = record { bytes = replicate 32 0 }

-- ring's SHA-256. The laws are the size and the range of a digest.
pub record Digest : Type 0 where
  pub sha256 : List ℕ → List ℕ
  pub length-sha256 : (bs : List ℕ) → length (sha256 bs) ≡ 32
  pub sha256_range : (bs : List ℕ) → All (λ b. b < 256) (sha256 bs)

-- `impl From<ring::digest::Digest> for H256`, applied to the digest of a byte string.
unfoldable pub digest_of : Digest → List ℕ → H256
digest_of d bs = record { bytes = d.sha256 bs }

pub digest_of-IsH256 : (d : Digest) (bs : List ℕ) → IsH256 (digest_of d bs)
unfolding digest_of
digest_of-IsH256 d bs = record { len = d.length-sha256 bs; range = d.sha256_range bs }

-- `trait Hashable`
pub record Hashable {ℓ} (T : Type ℓ) : Type ℓ where
  pub hash : T → H256

-- `impl Hashable for H256`
unfoldable pub hash_h256 : Digest → H256 → H256
unfolding digest_of
hash_h256 d h = digest_of d h.bytes

-- `u128::from_be_bytes`, for any number of bytes.
unfoldable pub from_be_bytes_onto : ℕ → List ℕ → ℕ
from_be_bytes_onto acc [] = acc
from_be_bytes_onto acc (b ∷ bs) = from_be_bytes_onto (acc * 256 + b) bs

unfoldable pub from_be_bytes : List ℕ → ℕ
unfolding from_be_bytes_onto
from_be_bytes bs = from_be_bytes_onto 0 bs

-- `impl Ord for H256`: the upper halves are compared, then the lower ones.
unfoldable pub cmp : H256 → H256 → Ordering
cmp a b =
    let self_higher = from_be_bytes (take 16 a.bytes) in
    let self_lower = from_be_bytes (take 16 (drop 16 a.bytes)) in
    let other_higher = from_be_bytes (take 16 b.bytes) in
    let other_lower = from_be_bytes (take 16 (drop 16 b.bytes)) in
    elim (compare self_higher other_higher) [
      | Ordering.eq ↦ compare self_lower other_lower
      | higher ↦ higher
    ]

-- `a > b`
unfoldable pub gt : H256 → H256 → Bool
unfolding cmp
gt a b = elim (cmp a b) [ Ordering.gt ↦ true | _ ↦ false ]

-- The variables of the loop of `with_leading_zeros`.
pub record Zeroing : Type 0 where
  pub hash : List ℕ
  pub remaining_zeroes : ℕ
  pub current_byte_index : ℕ

-- `while remaining_zeroes >= 8`, on fuel: a byte needs at most 31 rounds.
unfoldable pub clear_bytes : ℕ → Zeroing → Zeroing
clear_bytes zero s = s
clear_bytes (suc fuel) s = elim (leb 8 s.remaining_zeroes) [
  | true ↦ clear_bytes fuel (record {
    hash = set s.hash s.current_byte_index 0;
    remaining_zeroes = s.remaining_zeroes - 8;
    current_byte_index = s.current_byte_index + 1;
  })
  | false ↦ s
]

-- `hash[i] >>= k`
unfoldable pub shift_byte : List ℕ → ℕ → ℕ → List ℕ
shift_byte hash i k = elim (get_elem? hash i) [ none ↦ hash | some b ↦ set hash i (b / 2 ^ k) ]

unfoldable pub zeroing_end : ℕ → Zeroing
unfolding clear_bytes
zeroing_end num_zeroes =
    clear_bytes 32
      (record { hash = replicate 32 0xff; remaining_zeroes = num_zeroes; current_byte_index = 0 })

unfoldable pub with_leading_zeros : ℕ → H256
unfolding zeroing_end shift_byte
with_leading_zeros num_zeroes =
    let s = zeroing_end num_zeroes in
    record { bytes = shift_byte s.hash s.current_byte_index s.remaining_zeroes }
