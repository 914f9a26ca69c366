-- ===== src/Tests/Hashes.antt =====
-- Instances of the theorems on hashes, addresses and signatures.
use ce334_bitcoin_client.Prelude.{
  replicate, some, refl, true, List, reverse, Outcome, done, panicked, out_of_fuel, Returns, ◌+◌,
  ◌^◌, ◌≡◌, compare, [], ◌∷◌, arith, ◌==k◌,
}
use ce334_bitcoin_client.Crypto.Merkle
use ce334_bitcoin_client.Crypto.Merkle.{MerkleTree, leaf, node_hash, directions, proof}
use ce334_bitcoin_client.Crypto.Merkle.Paths.{reached, verify-proof}
use ce334_bitcoin_client.Crypto.Hash.{
  IsH256, Hashable, hash_h256, zero_hash, H256, cmp, digest_of, digest_of-IsH256,
  with_leading_zeros,
}
use ce334_bitcoin_client.Crypto.Hash.Order.{value, cmp-value}
use ce334_bitcoin_client.Crypto.Hash.Difficulty.{value-with_leading_zeros}
use ce334_bitcoin_client.Crypto.Address.{h160_key}
use ce334_bitcoin_client.Transaction.{RawTransaction}
use ce334_bitcoin_client.Transaction.Signing.{
  from_raw, verify_signature, address_of, verify_signature-from_raw,
}
use ce334_bitcoin_client.Crypto.Hex.{hex, start_of, display_h160, debug_h160}
use ce334_bitcoin_client.Crypto.Address.{H160}
use ce334_bitcoin_client.Api.{codes}
use ce334_bitcoin_client.Tests.Toy.{toy_sha256_range, checksum, toy, toy_digest, toy-IsSigning}

abbrev one : H256
one = digest_of toy_digest (1 ∷ [])

abbrev two : H256
two = digest_of toy_digest (2 ∷ [])

cmp-value_example : cmp one two ≡ compare (value one) (value two)
cmp-value_example =
    cmp-value one two (digest_of-IsH256 toy_digest (1 ∷ [])) (digest_of-IsH256 toy_digest (2 ∷ []))

value-with_leading_zeros_example : value (with_leading_zeros 2) + 1 ≡ 2 ^ 254
value-with_leading_zeros_example = value-with_leading_zeros 2 (omega arith)

abbrev payment : RawTransaction
payment = record { from_addr = address_of toy 3; to_addr = address_of toy 4; value = 10; nonce = 0 }

-- Key pair 5 signs a payment from the address of key pair 3.
verify_signature-from_raw_example :
    verify_signature toy (from_raw toy payment 5) ≡ (address_of toy 5 ==k payment.from_addr)
verify_signature-from_raw_example = verify_signature-from_raw toy payment 5 toy-IsSigning

abbrev hashable : Hashable H256
hashable = record { hash = hash_h256 toy_digest }

abbrev four : List H256
four = zero_hash ∷ one ∷ two ∷ digest_of toy_digest (3 ∷ []) ∷ []

-- the tree over the four leaves
tree_of : Outcome MerkleTree → MerkleTree
unfolding Merkle.new checksum digest_of
tree_of (done t) = t
tree_of panicked = record { root_node = leaf zero_hash; num_aggregations = 0 }
tree_of out_of_fuel = record { root_node = leaf zero_hash; num_aggregations = 0 }

abbrev tree : MerkleTree
tree = tree_of (Merkle.new toy_digest hashable four)

tree_made : Merkle.new toy_digest hashable four ≡ done tree
unfolding tree_of
tree_made = refl

bits : directions tree.num_aggregations 2 ≡ reverse (directions tree.num_aggregations 1)
unfolding tree_of directions
bits = refl

-- the path that is given for leaf 1 is one of leaf 2
reached_2 :
    node_hash (reached (directions tree.num_aggregations 1) tree.root_node) ≡ hashable.hash two
unfolding tree_of directions reached
reached_2 = refl

verify-proof_example :
    Returns
      (λ path.
        Merkle.verify toy_digest
          (Merkle.root tree)
          (node_hash (reached (directions tree.num_aggregations 1) tree.root_node))
          path
          2
          4
        ≡ true)
      (proof tree 1)
verify-proof_example = verify-proof toy_digest hashable four tree 1 2 4 (omega arith) tree_made bits

abbrev shown_hash : H256
shown_hash = digest_of toy_digest (1 ∷ 2 ∷ [])

abbrev shown_address : H160
shown_address = record { bytes = replicate 20 171 }

last_digits : display_h160 (some 5) shown_address ≡ codes "abab"
unfolding display_h160 hex start_of
last_digits = refl

short_form : debug_h160 shown_address ≡ done (codes "abab..abab")
short_form = refl

shown_hash-IsH256 : IsH256 shown_hash
unfolding digest_of
shown_hash-IsH256 = record { len = refl; range = toy_sha256_range (1 ∷ 2 ∷ []) }
