-- ===== src/Part1/Merkle/Same.antt =====
-- The tree of the template against that of the crate (part1/merkle.rs, crypto/merkle.rs).
use ce334_bitcoin_client.Prelude.{
  subst, ℕ, zero, suc, ◌+◌, ◌/◌, ◌%◌, ◌≤◌, ◌≡◌, refl, ap, ◌∙◌, sym, true, Option, some, List, [],
  ◌∷◌, ◌++◌, map, length, arith, length-append, append-nil, Bool-cases, inl, inr, if◌then◌else◌,
  ◌==◌, ltb, done, ◌>>=◌,
}
use ce334_bitcoin_client.Crypto.Hash.{Digest, Hashable}
use ce334_bitcoin_client.Crypto.Merkle.{MerkleTreeNode, get_node, parent, aggregate}
use ce334_bitcoin_client.Crypto.Merkle
use ce334_bitcoin_client.Crypto.Merkle.Pass.{
  length-map, pair_up, full, pass, length-pair_up, length-full,
}
use ce334_bitcoin_client.Crypto.Merkle.Build.{aggregate_step, leaves_of, leaf_slots, new_starts}
use ce334_bitcoin_client.Part1.Merkle.{MerkleTree, Level, build, new}
use ce334_bitcoin_client.Part1.Merkle.Levels.{
  make_next_level-pair_up, map-append, pair_up-duplicated, last_split,
}

-- What the comment of `duplicate_last_node` says.
abbrev pub IsDuplication : (Level → Level) → Type 0
IsDuplication duplicate_last_node =
    (nodes : Level) (last : Option MerkleTreeNode)
    → duplicate_last_node (nodes ++ last ∷ []) ≡ nodes ++ last ∷ last ∷ []

-- The tree of the crate in the form of the template.
abbrev pub with_level_count : Merkle.MerkleTree → MerkleTree
with_level_count t = record { root = t.root_node; level_count = t.num_aggregations + 1 }

module _ (d : Digest) (duplicate_last_node : Level → Level)
    (duplicates : IsDuplication duplicate_last_node) where
  -- the level with an even number of nodes
  abbrev even_level : Level → Level
  even_level level = if length level % 2 == 1 then duplicate_last_node level else level

  -- an even level that is not none, and that pairs up to the same
  abbrev Evened : List MerkleTreeNode → Type 0
  Evened nodes =
      (even : List MerkleTreeNode) × (even_level (map some nodes) ≡ map some even)
      × (length even % 2 ≡ 0)
      × (pair_up d even ≡ pair_up d nodes)

  Evened-last : (before : List MerkleTreeNode) (x : MerkleTreeNode) → Evened (before ++ x ∷ [])
  Evened-last before x = elim (Bool-cases (length (map some (before ++ x ∷ [])) % 2 == 1)) [
    | inr even ↦
        (before ++ x ∷ [], rw even refl, ground (arith, length-map some (before ++ x ∷ [])), refl)
    | inl odd ↦ (
      before ++ x ∷ x ∷ [],
      rw odd (
          rw
            (
              map-append d before (x ∷ []),
              duplicates (map some before) (some x),
              map-append d before (x ∷ x ∷ []),
            )
            refl),
      ground (
        arith,
        length-map some (before ++ x ∷ []),
        length-append before (x ∷ []),
        length-append before (x ∷ x ∷ []),
      ),
      pair_up-duplicated d before x
          (ground (arith, length-map some (before ++ x ∷ []), length-append before (x ∷ []))),
    )
  ]

  build_step :
      (fuel level_count : ℕ) (x y : MerkleTreeNode) (r : List MerkleTreeNode)
      → Evened (x ∷ y ∷ r)
      → build
          (Merkle.hash_children d)
          duplicate_last_node
          (suc fuel)
          level_count
          (map some (x ∷ y ∷ r))
        ≡ build
            (Merkle.hash_children d)
            duplicate_last_node
            fuel
            (level_count + 1)
            (map some (pair_up d (x ∷ y ∷ r)))
  unfolding build
  build_step fuel level_count x y r (even, at, halves, same) =
      let more : ltb 1 (length (map some (x ∷ y ∷ r))) ≡ true = ground arith in
      let is_even : (length (map some even) % 2 == 0) ≡ true =
        ground (arith, length-map some even) in
      rw
        (
          build,
          more,
          at,
          is_even,
          at,
          make_next_level-pair_up d (length (map some even) / 2) 0 even []
              (omega (arith, halves, length-map some even)),
          same,
        )
        refl

  all-Evened : (nodes : List MerkleTreeNode) → 1 ≤ length nodes → Evened nodes
  all-Evened nodes h =
      let (before, x, e) = last_split nodes h in subst Evened (sym e) (Evened-last before x)

  build-aggregate :
      (fuel n : ℕ) (nodes : List MerkleTreeNode) (k : ℕ)
      → 1 ≤ length nodes
      → build (Merkle.hash_children d) duplicate_last_node fuel (n + 1) (map some nodes)
        ≡ aggregate d fuel n (length nodes) (full d nodes k) >>= (λ t. done (with_level_count t))
  unfolding build aggregate
  build-aggregate zero n nodes k h = refl
  build-aggregate (suc fuel) n [] k h = absurd (omega (arith, h))
  build-aggregate (suc fuel) n (x ∷ []) k h = refl
  build-aggregate (suc fuel) n (x ∷ y ∷ r) k h =
      let nodes = x ∷ y ∷ r in
      let (k', step) =
        pass d (length (full d nodes k) / 2 + 1) [] 0 nodes k refl
          (omega (arith, length-full d nodes k)) in
      build_step fuel (n + 1) x y r (all-Evened nodes h)
      ∙ build-aggregate fuel (n + 1) (pair_up d nodes) k' (omega (arith, length-pair_up d nodes))
      ∙ ap (λ m. m >>= (λ t. done (with_level_count t)))
          (sym (aggregate_step d fuel n x y r k k' step))

  -- Where the helper duplicates the last node, as its comment says, and children are hashed as in the
  -- crate, the template's construction of a tree gives, of any items, just what that of the crate in a
  -- single array gives: the same root node, with one more level than there are aggregations, and for no
  -- items a panic.
  pub new-new {ℓ} :
      {T : Type ℓ} (hashable : Hashable T) (items : List T)
      → new (Merkle.hash_children d) duplicate_last_node hashable items
        ≡ Merkle.new d hashable items >>= (λ t. done (with_level_count t))
  unfolding new Merkle.new
  new-new hashable [] = refl
  new-new hashable (item ∷ items) =
      let leaves = leaves_of d hashable (item ∷ items) in
      let slots = map (λ x. some (Merkle.leaf (hashable.hash x))) (item ∷ items) in
      let count : length leaves ≡ length (item ∷ items) =
        length-map (λ x. Merkle.leaf (hashable.hash x)) (item ∷ items) in
      let filled : slots ≡ map some leaves =
        leaf_slots d hashable (item ∷ items) ∙ append-nil (map some leaves) in
      ap (λ n. build (Merkle.hash_children d) duplicate_last_node n 1 slots) (sym count)
      ∙ ap (build (Merkle.hash_children d) duplicate_last_node (length leaves) 1) filled
      ∙ build-aggregate (length leaves) 0 leaves 0 (omega arith)
      ∙ ap (λ m. m >>= (λ t. done (with_level_count t)))
          (sym (new_starts d hashable (item ∷ items) (omega arith)))
