-- ===== src/Tests/Templates.antt =====
-- Instances of the theorems on the template of the Merkle tree (part1/merkle.rs).
use ce334_bitcoin_client.Prelude.{◌≡◌, refl, ap, List, [], ◌∷◌, reverse, done, ◌>>=◌}
use ce334_bitcoin_client.Crypto.Hash.{H256, Hashable, hash_h256, digest_of, zero_hash}
use ce334_bitcoin_client.Crypto.Merkle
use ce334_bitcoin_client.Part1.Merkle.{Level, new, verify}
use ce334_bitcoin_client.Part1.Merkle.Same.{IsDuplication, with_level_count, new-new}
use ce334_bitcoin_client.Part1.Merkle.Checked.{verify-verify}
use ce334_bitcoin_client.Tests.Toy.{toy_digest}

unfoldable double_last : Level → Level
double_last [] = []
double_last (x ∷ []) = x ∷ x ∷ []
double_last (x ∷ y ∷ nodes) = x ∷ double_last (y ∷ nodes)

double_last-IsDuplication : IsDuplication double_last
unfolding double_last
double_last-IsDuplication [] last = refl
double_last-IsDuplication (x ∷ []) last = refl
double_last-IsDuplication (x ∷ y ∷ nodes) last =
    ap (◌∷◌ x) (double_last-IsDuplication (y ∷ nodes) last)

abbrev hashable : Hashable H256
hashable = record { hash = hash_h256 toy_digest }

-- three leaves, the last of which is doubled
abbrev three : List H256
three = zero_hash ∷ digest_of toy_digest (1 ∷ []) ∷ digest_of toy_digest (2 ∷ []) ∷ []

new-new_example :
    new (Merkle.hash_children toy_digest) double_last hashable three
    ≡ Merkle.new toy_digest hashable three >>= (λ t. done (with_level_count t))
new-new_example = new-new toy_digest double_last double_last-IsDuplication hashable three

verify-verify_example :
    verify (Merkle.hash_children toy_digest) zero_hash (digest_of toy_digest (1 ∷ [])) three 2 5
    ≡ done (Merkle.verify toy_digest zero_hash (digest_of toy_digest (1 ∷ [])) (reverse three) 2 5)
verify-verify_example = verify-verify toy_digest zero_hash (digest_of toy_digest (1 ∷ [])) three 2 5
