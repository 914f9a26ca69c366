-- ===== src/Part1/Merkle.antt =====
-- part1/merkle.rs: the template that the Merkle tree of the crate was written after. The two functions that
-- it leaves open are arguments, and its nodes, which have no child or two, are those of the crate.
pub mod Levels
pub mod Same
pub mod Checked
use ce334_bitcoin_client.Prelude.{
  ℕ, zero, suc, ◌+◌, ◌*◌, ◌/◌, ◌%◌, Bool, true, false, not, Option, none, some, List, [], ◌∷◌, ◌++◌,
  map, length, set, Outcome, done, panicked, out_of_fuel, ◌>>=◌, ◌==◌, ◌==k◌, if◌then◌else◌, ltb,
}
use ce334_bitcoin_client.Crypto.Hash.{H256, h256_key, Hashable}
use ce334_bitcoin_client.Crypto.Merkle.{MerkleTreeNode, leaf, branch, node_hash, get_node}

pub record MerkleTree : Type 0 where
  pub root : MerkleTreeNode
  -- how many levels the tree has
  pub level_count : ℕ

abbrev pub Level : Type 0
Level = List (Option MerkleTreeNode)

-- the digits of `index` that `verify` pushes
unfoldable pub binary_index : ℕ → ℕ → List ℕ
binary_index zero index = []
binary_index (suc rounds) index = index % 2 ∷ binary_index rounds (index / 2)

module _ (hash_children : H256 → H256 → H256) where
  -- `for i in 0..curr_level.len() / 2`, with the rounds left and the index `i`
  unfoldable pub make_next_level : ℕ → ℕ → Level → Level → Outcome Level
  make_next_level zero i curr_level next_level = done next_level
  make_next_level (suc rounds) i curr_level next_level = elim (get_node curr_level (i * 2)) [
    | none ↦ panicked
    | some left ↦
        let without_left = set curr_level (i * 2) none in
        elim (get_node without_left (i * 2 + 1)) [
          | none ↦ panicked
          | some right ↦
              let hash = hash_children (node_hash left) (node_hash right) in
              make_next_level rounds (i + 1) (set without_left (i * 2 + 1) none)
                (next_level ++ some (branch hash left right) ∷ [])
        ]
  ]

  -- The loop of `verify` over the proof.
  unfoldable pub follow : H256 → List ℕ → List H256 → Outcome H256
  follow curr_hash digits [] = done curr_hash
  follow curr_hash [] (sibling ∷ proof) = panicked
  follow curr_hash (zero ∷ digits) (sibling ∷ proof) =
      follow (hash_children curr_hash sibling) digits proof
  follow curr_hash (suc zero ∷ digits) (sibling ∷ proof) =
      follow (hash_children sibling curr_hash) digits proof
  follow curr_hash (suc (suc digit) ∷ digits) (sibling ∷ proof) = panicked

  -- `verify`
  unfoldable pub verify : H256 → H256 → List H256 → ℕ → ℕ → Outcome Bool
  unfolding follow binary_index
  verify root datum proof index leaf_size = do
    curr_hash ← follow datum (binary_index (length proof) index) proof
    done (root ==k curr_hash)

  module _ (duplicate_last_node : Level → Level) where
    -- `while curr_level.len() > 1`, and the return
    unfoldable pub build : ℕ → ℕ → Level → Outcome MerkleTree
    unfolding make_next_level
    build zero level_count curr_level = out_of_fuel
    build (suc fuel) level_count curr_level = elim (ltb 1 (length curr_level)) [
      | true ↦
          let even =
            if length curr_level % 2 == 1 then duplicate_last_node curr_level else curr_level in
          elim (length even % 2 == 0) [
            | false ↦ panicked
            | true ↦ do
              next_level ← make_next_level (length even / 2) 0 even []
              build fuel (level_count + 1) next_level
          ]
      | false ↦ elim (get_node curr_level 0) [
        | none ↦ panicked
        | some node ↦ done (record { root = node; level_count = level_count })
      ]
    ]

    -- `MerkleTree::new`
    unfoldable pub new {ℓ} : {T : Type ℓ} → Hashable T → List T → Outcome MerkleTree
    unfolding build
    new hashable [] = panicked
    new hashable (item ∷ items) =
        build (length (item ∷ items)) 1 (map (λ x. some (leaf (hashable.hash x))) (item ∷ items))
