-- ===== src/Crypto/Merkle.antt =====
-- crypto/merkle.rs: building a Merkle tree in an array of nodes, proofs, and their verification.
-- The construction only makes nodes with no child or with two, so these are the constructors.
pub mod Pass
pub mod Build
pub mod Paths
use ce334_bitcoin_client.Prelude.{
  ℕ, zero, suc, ◌+◌, ◌*◌, ◌/◌, ◌%◌, Bool, true, false, Option, none, some, List, [], ◌∷◌, ◌++◌, map,
  reverse, length, get_elem?, set, Outcome, done, panicked, out_of_fuel, ◌>>=◌, ◌==◌, ◌==k◌,
  if◌then◌else◌, ltb,
}
use ce334_bitcoin_client.Crypto.Hash.{H256, h256_key, Digest, digest_of, Hashable}

pub data MerkleTreeNode : Type 0 where
  leaf : H256 → MerkleTreeNode
  branch : H256 → MerkleTreeNode → MerkleTreeNode → MerkleTreeNode

abbrev pub node_hash : MerkleTreeNode → H256
node_hash (leaf h) = h
node_hash (branch h lhs rhs) = h

pub record MerkleTree : Type 0 where
  pub root_node : MerkleTreeNode
  pub num_aggregations : ℕ

-- `MerkleTree::root`
abbrev pub root : MerkleTree → H256
root t = node_hash t.root_node

-- What a slot of the array holds, `None` out of bounds: the value that `get_node` takes.
abbrev pub get_node : List (Option MerkleTreeNode) → ℕ → Option MerkleTreeNode
get_node nodes index = elim (get_elem? nodes index) [ none ↦ none | some slot ↦ slot ]

-- `bit_path & 1 == 1`
abbrev pub low_bit : ℕ → Bool
low_bit bit_path = bit_path % 2 == 1

-- The loop over `0..self.num_aggregations`, least significant bit first.
unfoldable pub directions : ℕ → ℕ → List Bool
directions zero bit_path = []
directions (suc rounds) bit_path = low_bit bit_path ∷ directions rounds (bit_path / 2)

-- The descent of `proof`: the hashes of the siblings, from the root down.
unfoldable pub descend : List Bool → MerkleTreeNode → Outcome (List H256)
descend [] node = done []
descend (direction ∷ rest) (leaf h) = panicked
descend (true ∷ rest) (branch h lhs rhs) = do below ← descend rest rhs; done (node_hash lhs ∷ below)
descend (false ∷ rest) (branch h lhs rhs) = do
  below ← descend rest lhs
  done (node_hash rhs ∷ below)

-- `MerkleTree::proof`
unfoldable pub proof : MerkleTree → ℕ → Outcome (List H256)
unfolding directions descend
proof t index = descend (directions t.num_aggregations index) t.root_node

module _ (d : Digest) where
  unfoldable pub hash_children : H256 → H256 → H256
  unfolding digest_of
  hash_children lhs rhs = digest_of d (lhs.bytes ++ rhs.bytes)

  -- A parent over two nodes.
  abbrev pub parent : MerkleTreeNode → MerkleTreeNode → MerkleTreeNode
  parent lhs rhs = branch (hash_children (node_hash lhs) (node_hash rhs)) lhs rhs

  -- `'single_pass: for i in 0..=(nodes.len() / 2)`, with the rounds left and the index `i`.
  unfoldable pub single_pass : ℕ → ℕ → List (Option MerkleTreeNode) → List (Option MerkleTreeNode)
  single_pass zero i nodes = nodes
  single_pass (suc rounds) i nodes = elim (get_node nodes (i * 2)) [
    | none ↦ nodes
    | some lhs ↦
        let without_lhs = set nodes (i * 2) none in
        let rhs : MerkleTreeNode = elim (get_node without_lhs (i * 2 + 1)) [
          | none ↦ lhs
          | some node ↦ node
        ] in
        let without_both = set without_lhs (i * 2 + 1) none in
        single_pass rounds (i + 1) (set without_both i (some (parent lhs rhs)))
  ]

  -- `while num_remaining_nodes > 1`, and the assertions after it.
  unfoldable pub aggregate : ℕ → ℕ → ℕ → List (Option MerkleTreeNode) → Outcome MerkleTree
  unfolding single_pass
  aggregate zero num_aggregations num_remaining_nodes nodes = out_of_fuel
  aggregate (suc fuel) num_aggregations num_remaining_nodes nodes =
      elim (ltb 1 num_remaining_nodes) [
        | true ↦
            aggregate fuel (num_aggregations + 1) ((num_remaining_nodes + 1) / 2)
              (single_pass (length nodes / 2 + 1) 0 nodes)
        | false ↦
            if num_remaining_nodes == 1
            then elim (get_node nodes 0) [
              | none ↦ panicked
              | some node ↦ done (record { root_node = node; num_aggregations = num_aggregations })
            ]
            else panicked
      ]

  -- `MerkleTree::new`: each pass halves the nodes, so their number is fuel enough.
  unfoldable pub new {ℓ} : {T : Type ℓ} → Hashable T → List T → Outcome MerkleTree
  unfolding aggregate
  new hashable [] = panicked
  new hashable (item ∷ items) =
      aggregate (length (item ∷ items)) 0 (length (item ∷ items))
        (map (λ x. some (leaf (hashable.hash x))) (item ∷ items))

  -- The loop of `verify` over the proof from its end.
  unfoldable pub climb : ℕ → H256 → List H256 → H256
  climb bit_path current_hash [] = current_hash
  climb bit_path current_hash (sibling_hash ∷ rest) =
      climb (bit_path / 2)
        (if low_bit bit_path
          then hash_children sibling_hash current_hash
          else hash_children current_hash sibling_hash)
        rest

  -- `verify`
  unfoldable pub verify : H256 → H256 → List H256 → ℕ → ℕ → Bool
  unfolding climb
  verify root_hash datum_hash proof index _num_leaves =
      root_hash ==k climb index datum_hash (reverse proof)
