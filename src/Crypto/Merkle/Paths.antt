-- ===== src/Crypto/Merkle/Paths.antt =====
-- The paths that `proof` gives, and what `verify` makes of them. `proof` reads the bits of the index from
-- the least significant one down from the root, `verify` from the least significant one up from the leaf.
use mathlib.Core.List.{reverse_aux}
use ce334_bitcoin_client.Prelude.{
  ℕ, zero, suc, ◌+◌, ◌/◌, ◌≤◌, ◌≡◌, Bool, true, false, List, [], ◌∷◌, reverse, length, All, refl,
  arith, ap, sym, ◌∙◌, subst, done, Returns, Returns-bind, Returns-result, Returns-mono,
  if◌then◌else◌, beq_refl,
}
use ce334_bitcoin_client.Crypto.Hash.{H256, h256_key, Digest, Hashable}
use ce334_bitcoin_client.Crypto.Merkle.{
  MerkleTreeNode, MerkleTree, leaf, branch, node_hash, root, directions, descend, proof,
  hash_children, new, climb, verify,
}
use ce334_bitcoin_client.Crypto.Merkle.Build.{leaves_of, new_builds_levels}
use ce334_bitcoin_client.Crypto.Merkle.Pass.{pair_up, levels_up}

-- The node that directions lead to.
unfoldable pub reached : List Bool → MerkleTreeNode → MerkleTreeNode
reached [] node = node
reached (direction ∷ rest) (leaf h) = leaf h
reached (true ∷ rest) (branch h lhs rhs) = reached rest rhs
reached (false ∷ rest) (branch h lhs rhs) = reached rest lhs

length-directions : (k i : ℕ) → length (directions k i) ≡ k
unfolding directions
length-directions zero i = refl
length-directions (suc k) i = ap suc (length-directions k (i / 2))

module _ (d : Digest) where
  -- A tree all of whose leaves are this many levels below its root, with the hashes of children above.
  abbrev pub IsFull : ℕ → MerkleTreeNode → Type 0
  IsFull zero (leaf h) = Unit
  IsFull zero (branch h lhs rhs) = ⊥
  IsFull (suc k) (leaf h) = ⊥
  IsFull (suc k) (branch h lhs rhs) =
      (h ≡ hash_children d (node_hash lhs) (node_hash rhs)) × IsFull k lhs × IsFull k rhs

  abbrev join : Bool → H256 → H256 → H256
  join direction sibling current =
      if direction then hash_children d sibling current else hash_children d current sibling

  -- the root's hash from the leaf's, the path given from the root down
  abbrev fold_down : List Bool → H256 → List H256 → H256
  fold_down [] x path = x
  fold_down (b ∷ bs) x [] = x
  fold_down (b ∷ bs) x (s ∷ path) = join b s (fold_down bs x path)

  -- and from the leaf up
  abbrev fold_up : List Bool → H256 → List H256 → H256
  fold_up [] x path = x
  fold_up (b ∷ bs) x [] = x
  fold_up (b ∷ bs) x (s ∷ path) = fold_up bs (join b s x) path

  climb-fold_up :
      (i : ℕ) (x : H256) (path : List H256)
      → climb d i x path ≡ fold_up (directions (length path) i) x path
  unfolding climb directions
  climb-fold_up i x [] = refl
  climb-fold_up i x (s ∷ path) = climb-fold_up (i / 2) _ path

  descend-fold_down :
      (ds : List Bool) (node : MerkleTreeNode)
      → IsFull (length ds) node
      → Returns
          (λ path.
            (fold_down ds (node_hash (reached ds node)) path ≡ node_hash node)
            × (length path ≡ length ds))
          (descend ds node)
  unfolding descend reached
  descend-fold_down [] node h = (refl, refl)
  descend-fold_down (b ∷ ds) (leaf x) h = absurd h
  descend-fold_down (true ∷ ds) (branch x lhs rhs) h =
      Returns-bind _ _ _ (descend ds rhs) (descend-fold_down ds rhs h.2)
        (λ path e. (ap (hash_children d (node_hash lhs)) e.0 ∙ sym h.0, ap suc e.1))
  descend-fold_down (false ∷ ds) (branch x lhs rhs) h =
      Returns-bind _ _ _ (descend ds lhs) (descend-fold_down ds lhs h.1)
        (λ path e. (ap (λ y. hash_children d y (node_hash rhs)) e.0 ∙ sym h.0, ap suc e.1))

  fold_up-reverse_aux :
      (bs cs : List Bool) (x : H256) (path rest : List H256)
      → length bs ≡ length path
      → fold_up (reverse_aux bs cs) x (reverse_aux path rest)
        ≡ fold_up cs (fold_down bs x path) rest
  fold_up-reverse_aux [] cs x [] rest h = refl
  fold_up-reverse_aux [] cs x (s ∷ path) rest h = absurd (omega arith)
  fold_up-reverse_aux (b ∷ bs) cs x [] rest h = absurd (omega arith)
  fold_up-reverse_aux (b ∷ bs) cs x (s ∷ path) rest h =
      fold_up-reverse_aux bs (b ∷ cs) x path (s ∷ rest) (omega arith)

  length-reverse_aux :
      (path rest : List H256) → length (reverse_aux path rest) ≡ length path + length rest
  length-reverse_aux [] rest = omega arith
  length-reverse_aux (s ∷ path) rest = omega (arith, length-reverse_aux path (s ∷ rest))

  -- A path from the root verifies at an index whose bits are the directions in reverse.
  verify-path :
      (k i j n : ℕ) (node : MerkleTreeNode) (x : H256) (path : List H256)
      → directions k j ≡ reverse (directions k i)
      → length path ≡ k
      → fold_down (directions k i) x path ≡ node_hash node
      → verify d (node_hash node) x path j n ≡ true
  unfolding verify
  verify-path k i j n node x path bits size e =
      let count : length (reverse path) ≡ k = omega (arith, length-reverse_aux path []) in
      let climbed : climb d j x (reverse path) ≡ node_hash node =
        climb-fold_up j x (reverse path)
        ∙ ap (λ m. fold_up (directions m j) x (reverse path)) count
        ∙ ap (λ bs. fold_up bs x (reverse path)) bits
        ∙ fold_up-reverse_aux (directions k i) [] x path [] (omega (arith, length-directions k i))
        ∙ e in
      rw climbed (beq_refl (node_hash node))

  pair_up-IsFull :
      (k : ℕ) (ns : List MerkleTreeNode) → All (IsFull k) ns → All (IsFull (suc k)) (pair_up d ns)
  unfolding pair_up
  pair_up-IsFull k [] h = tt
  pair_up-IsFull k (x ∷ []) h = ((refl, h.0, h.0), tt)
  pair_up-IsFull k (x ∷ y ∷ ns) h = ((refl, h.0, h.1.0), pair_up-IsFull k ns (h.1.1))

  levels_up-IsFull :
      (k j : ℕ) (ns : List MerkleTreeNode)
      → All (IsFull j) ns
      → All (IsFull (k + j)) (levels_up d k ns)
  unfolding levels_up
  levels_up-IsFull zero j ns h =
      let e : j ≡ 0 + j = omega arith in subst (λ m. All (IsFull m) ns) e h
  levels_up-IsFull (suc k) j ns h =
      let e : k + suc j ≡ suc k + j = omega arith in
      subst (λ m. All (IsFull m) (levels_up d k (pair_up d ns))) e
        (levels_up-IsFull k (suc j) (pair_up d ns) (pair_up-IsFull j ns h))

  leaves_of-IsFull {ℓ} :
      {T : Type ℓ} (hashable : Hashable T) (items : List T)
      → All (IsFull 0) (leaves_of d hashable items)
  leaves_of-IsFull hashable [] = tt
  leaves_of-IsFull hashable (item ∷ items) = (tt, leaves_of-IsFull hashable items)

  -- The tree that `new` makes is full: all leaves are `num_aggregations` levels below the root.
  new-IsFull {ℓ} :
      {T : Type ℓ} (hashable : Hashable T) (items : List T)
      → 1 ≤ length items
      → Returns (λ t. IsFull t.num_aggregations t.root_node) (new d hashable items)
  new-IsFull hashable items h =
      Returns-mono _ _ (new d hashable items)
        (λ t e.
          let all =
            levels_up-IsFull t.num_aggregations 0 (leaves_of d hashable items)
              (leaves_of-IsFull hashable items) in
          let zeroed : t.num_aggregations + 0 ≡ t.num_aggregations = omega arith in
          let whole : All (IsFull t.num_aggregations) (t.root_node ∷ []) =
            subst (λ m. All (IsFull m) (t.root_node ∷ [])) zeroed
              (subst (All (IsFull (t.num_aggregations + 0))) e all) in
          whole.0)
        (new_builds_levels d hashable items h)

  -- In a tree that `new` makes, `proof` does not panic at any index. The path that it gives verifies, at an
  -- index whose bits are those of its own in reverse, with the hash of the node reached from the root by
  -- its own bits, the least significant one first.
  pub verify-proof {ℓ} :
      {T : Type ℓ} (hashable : Hashable T) (items : List T) (t : MerkleTree) (i j n : ℕ)
      → 1 ≤ length items
      → new d hashable items ≡ done t
      → directions t.num_aggregations j ≡ reverse (directions t.num_aggregations i)
      → Returns
          (λ path.
            verify d
              (root t)
              (node_hash (reached (directions t.num_aggregations i) t.root_node))
              path
              j
              n
            ≡ true)
          (proof t i)
  unfolding proof
  verify-proof hashable items t i j n h made bits =
      let k = t.num_aggregations in
      let full : IsFull k t.root_node =
        Returns-result _ (new d hashable items) t made (new-IsFull hashable items h) in
      let full' : IsFull (length (directions k i)) t.root_node =
        subst (λ m. IsFull m t.root_node) (sym (length-directions k i)) full in
      Returns-mono _ _ (descend (directions k i) t.root_node)
        (λ path e.
          verify-path k i j n t.root_node (node_hash (reached (directions k i) t.root_node)) path
            bits (omega (arith, e.1, length-directions k i)) e.0)
        (descend-fold_down (directions k i) t.root_node full')
