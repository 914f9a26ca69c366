-- ===== src/Crypto/Merkle/Build.antt =====
-- The construction in one array against the construction level by level.
use ce334_bitcoin_client.Prelude.{
  Returns-mono, Returns, ◌-◌, ℕ, zero, suc, ◌+◌, ◌/◌, ◌≤◌, ◌≡◌, refl, some, List, [], ◌∷◌, map,
  length, arith, ap, ◌∙◌, sym,
}
use ce334_bitcoin_client.Crypto.Hash.{Digest, Hashable}
use ce334_bitcoin_client.Crypto.Merkle.{
  true, ltb, MerkleTreeNode, MerkleTree, leaf, single_pass, aggregate, new,
}
use ce334_bitcoin_client.Crypto.Merkle.Pass.{
  length-map, pair_up, levels_up, full, pass, length-pair_up, length-full,
}

module _ (d : Digest) where
  -- The tree of some levels: its root is what remains, and its leaves are the nodes.
  abbrev pub IsTreeOver : List MerkleTreeNode → ℕ → MerkleTree → Type 0
  IsTreeOver ns n t =
      (n ≤ t.num_aggregations) × (levels_up d (t.num_aggregations - n) ns ≡ t.root_node ∷ [])

  one_level_below :
      (n : ℕ) (ns : List MerkleTreeNode) (t : MerkleTree)
      → IsTreeOver (pair_up d ns) (n + 1) t
      → IsTreeOver ns n t
  unfolding levels_up
  one_level_below n ns t h =
      let at : t.num_aggregations - n ≡ suc (t.num_aggregations - (n + 1)) = omega (arith, h.0) in
      (omega (arith, h.0), ap (λ m. levels_up d m ns) at ∙ h.1)

  pub aggregate_step :
      (fuel n : ℕ) (x y : MerkleTreeNode) (r : List MerkleTreeNode) (k k' : ℕ)
      → single_pass d (length (full d (x ∷ y ∷ r) k) / 2 + 1) 0 (full d (x ∷ y ∷ r) k)
        ≡ full d (pair_up d (x ∷ y ∷ r)) k'
      → aggregate d (suc fuel) n (length (x ∷ y ∷ r)) (full d (x ∷ y ∷ r) k)
        ≡ aggregate d fuel
            (n + 1)
            (length (pair_up d (x ∷ y ∷ r)))
            (full d (pair_up d (x ∷ y ∷ r)) k')
  unfolding aggregate
  aggregate_step fuel n x y r k k' step =
      let more : ltb 1 (length (x ∷ y ∷ r)) ≡ true = ground arith in
      rw (aggregate, more, step, length-pair_up d (x ∷ y ∷ r))

  aggregate-IsTreeOver :
      (fuel n : ℕ) (ns : List MerkleTreeNode) (k : ℕ)
      → 1 ≤ length ns
      → length ns ≤ fuel
      → Returns (IsTreeOver ns n) (aggregate d fuel n (length ns) (full d ns k))
  unfolding aggregate levels_up
  aggregate-IsTreeOver zero n ns k h1 hf = absurd (omega arith)
  aggregate-IsTreeOver (suc fuel) n [] k h1 hf = absurd (omega arith)
  aggregate-IsTreeOver (suc fuel) n (x ∷ []) k h1 hf =
      let none_left : 0 ≡ n - n = omega arith in
      (omega arith, ap (λ m. levels_up d m (x ∷ [])) (sym none_left))
  aggregate-IsTreeOver (suc fuel) n (x ∷ y ∷ r) k h1 hf =
      let ns = x ∷ y ∷ r in
      let count = length-pair_up d ns in
      let (k', step) =
        pass d (length (full d ns k) / 2 + 1) [] 0 ns k refl (omega (arith, length-full d ns k)) in
      let above =
        aggregate-IsTreeOver fuel (n + 1) (pair_up d ns) k' (omega (arith, count))
          (omega (arith, count)) in
      rw (aggregate_step fuel n x y r k k' step) (
        Returns-mono (IsTreeOver (pair_up d ns) (n + 1)) (IsTreeOver ns n)
          (aggregate d fuel (n + 1) (length (pair_up d ns)) (full d (pair_up d ns) k'))
          (one_level_below n ns) above)

  abbrev pub leaves_of {ℓ} : {T : Type ℓ} → Hashable T → List T → List MerkleTreeNode
  leaves_of hashable items = map (λ x. leaf (hashable.hash x)) items

  pub leaf_slots {ℓ} :
      {T : Type ℓ} (hashable : Hashable T) (items : List T)
      → map (λ x. some (leaf (hashable.hash x))) items ≡ full d (leaves_of hashable items) 0
  leaf_slots hashable [] = refl
  leaf_slots hashable (item ∷ items) =
      ap (◌∷◌ (some (leaf (hashable.hash item)))) (leaf_slots hashable items)

  pub new_starts {ℓ} :
      {T : Type ℓ} (hashable : Hashable T) (items : List T)
      → 1 ≤ length items
      → new d hashable items
        ≡ aggregate d
            (length (leaves_of hashable items))
            0
            (length (leaves_of hashable items))
            (full d (leaves_of hashable items) 0)
  unfolding new
  new_starts hashable [] h = absurd (omega arith)
  new_starts hashable (item ∷ items) h =
      ap (aggregate d (length (item ∷ items)) 0 (length (item ∷ items)))
        (leaf_slots hashable (item ∷ items))
      ∙ ap (λ n. aggregate d n 0 n (full d (leaves_of hashable (item ∷ items)) 0))
          (sym (length-map (λ x. leaf (hashable.hash x)) (item ∷ items)))

  -- For items that are not none, the construction in the array returns, with fuel for as many
  -- aggregations as there are items. The tree it returns is that of the construction level by level:
  -- pairing the leaves up, `num_aggregations` times, leaves the root node alone.
  pub new_builds_levels {ℓ} :
      {T : Type ℓ} (hashable : Hashable T) (items : List T)
      → 1 ≤ length items
      → Returns
          (λ t. levels_up d t.num_aggregations (leaves_of hashable items) ≡ t.root_node ∷ [])
          (new d hashable items)
  new_builds_levels hashable items h =
      let ns = leaves_of hashable items in
      let count = length-map (λ x. leaf (hashable.hash x)) items in
      rw (new_starts hashable items h) (
        Returns-mono (IsTreeOver ns 0) (λ t. levels_up d t.num_aggregations ns ≡ t.root_node ∷ [])
          (aggregate d (length ns) 0 (length ns) (full d ns 0))
          (λ t over.
            let at : t.num_aggregations ≡ t.num_aggregations - 0 = omega arith in
            ap (λ m. levels_up d m ns) at ∙ over.1)
          (aggregate-IsTreeOver (length ns) 0 ns 0 (omega (arith, count)) (omega arith)))
