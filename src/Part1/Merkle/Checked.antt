-- ===== src/Part1/Merkle/Checked.antt =====
-- The template's check of a proof against that of the crate (part1/merkle.rs, crypto/merkle.rs).
use mathlib.Core.List.{reverse-reverse}
use ce334_bitcoin_client.Prelude.{
  ℕ, ◌/◌, ◌%◌, ◌≡◌, refl, ◌⊎◌, inl, inr, List, [], ◌∷◌, length, reverse, arith, ◌==◌, Bool-cases,
  done,
}
use ce334_bitcoin_client.Crypto.Hash.{H256, Digest}
use ce334_bitcoin_client.Crypto.Merkle
use ce334_bitcoin_client.Part1.Merkle.{follow, binary_index, verify}

digit_cases : (k : ℕ) → (k % 2 ≡ 0) ⊎ (k % 2 ≡ 1)
digit_cases k = elim (Bool-cases (k % 2 == 0)) [
  | inl even ↦ inl (ground arith)
  | inr odd ↦ inr (ground arith)
]

module _ (d : Digest) where
  follow-climb :
      (index : ℕ) (hash : H256) (proof : List H256)
      → follow (Merkle.hash_children d) hash (binary_index (length proof) index) proof
        ≡ done (Merkle.climb d index hash proof)
  unfolding follow binary_index Merkle.climb
  follow-climb index hash [] = refl
  follow-climb index hash (sibling ∷ proof) = elim (digit_cases index) [
    | inl left ↦
        rw (binary_index, left, follow)
          (follow-climb (index / 2) (Merkle.hash_children d hash sibling) proof)
    | inr right ↦
        rw (binary_index, right, follow)
          (follow-climb (index / 2) (Merkle.hash_children d sibling hash) proof)
  ]

  -- The template's check of a proof, whose hashes go from the leaf up, returns what that of the crate
  -- returns for the proof from the root down.
  pub verify-verify :
      (root datum : H256) (proof : List H256) (index leaf_size : ℕ)
      → verify (Merkle.hash_children d) root datum proof index leaf_size
        ≡ done (Merkle.verify d root datum (reverse proof) index leaf_size)
  unfolding verify Merkle.verify
  verify-verify root datum proof index leaf_size =
      rw (verify, follow-climb index datum proof, Merkle.verify, reverse-reverse proof) refl
