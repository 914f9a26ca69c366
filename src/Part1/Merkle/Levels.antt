-- ===== src/Part1/Merkle/Levels.antt =====
-- One level of the template's tree (part1/merkle.rs).
use ce334_bitcoin_client.Prelude.{
  ℕ, zero, suc, ◌+◌, ◌*◌, ◌%◌, ◌≤◌, ◌≡◌, refl, ap, ◌∙◌, sym, Option, none, some, List, [], ◌∷◌,
  ◌++◌, map, length, get_elem?, set, replicate, arith, append_assoc, append-nil, done,
}
use ce334_bitcoin_client.Crypto.Hash.{Digest}
use ce334_bitcoin_client.Crypto.Merkle.{MerkleTreeNode, get_node, parent, aggregate}
use ce334_bitcoin_client.Crypto.Merkle
use ce334_bitcoin_client.Crypto.Merkle.Pass.{
  get_elem?-append, set-append, length-replicate, replicate-suc, pair_up,
}
use ce334_bitcoin_client.Part1.Merkle.{Level, make_next_level}

-- the level while the inner loop runs: the slots that are taken, and the rest
abbrev taken_then : ℕ → Level → Level
taken_then k rest = replicate k none ++ rest

taken-get :
    (k n : ℕ) (j : ℕ) (rest : Level) → n ≡ k + j → get_node (taken_then k rest) n ≡ get_node rest j
taken-get k n j rest e =
    let at : n ≡ length {A = Option MerkleTreeNode} (replicate k none) + j =
      omega (arith, e, length-replicate {A = Option MerkleTreeNode} k none) in
    ap (λ o. elim o [ none ↦ none | some slot ↦ slot ])
      (ap (get_elem? (taken_then k rest)) at ∙ get_elem?-append (replicate k none) rest j)

taken-set :
    (k n j : ℕ) (rest : Level)
    → n ≡ k + j
    → set (taken_then k rest) n none ≡ taken_then k (set rest j none)
taken-set k n j rest e =
    let at : n ≡ length {A = Option MerkleTreeNode} (replicate k none) + j =
      omega (arith, e, length-replicate {A = Option MerkleTreeNode} k none) in
    rw (at, set-append (replicate k none) rest j none) refl

pub last_split :
    (nodes : List MerkleTreeNode)
    → 1 ≤ length nodes
    → (before : List MerkleTreeNode) × (x : MerkleTreeNode) × (nodes ≡ before ++ x ∷ [])
last_split [] h = absurd (omega (arith, h))
last_split (x ∷ []) h = ([], x, refl)
last_split (x ∷ y ∷ nodes) h =
    let (before, z, e) = last_split (y ∷ nodes) (omega arith) in (x ∷ before, z, ap (◌∷◌ x) e)

module _ (d : Digest) where
  taken_two :
      (i : ℕ) (rest : Level)
      → taken_then (i * 2) (none ∷ none ∷ rest) ≡ taken_then ((i + 1) * 2) rest
  taken_two i rest =
      let at : suc (suc (i * 2)) ≡ (i + 1) * 2 = omega arith in
      replicate-suc (i * 2) none (none ∷ rest)
      ∙ ap (◌∷◌ none) (replicate-suc (i * 2) none rest)
      ∙ ap (λ k. taken_then k rest) at

  next_pair :
      (rounds i : ℕ) (x y : MerkleTreeNode) (rest next : Level)
      → make_next_level
          (Merkle.hash_children d)
          (suc rounds)
          i
          (taken_then (i * 2) (some x ∷ some y ∷ rest))
          next
        ≡ make_next_level
            (Merkle.hash_children d)
            rounds
            (i + 1)
            (taken_then ((i + 1) * 2) rest)
            (next ++ some (parent d x y) ∷ [])
  unfolding make_next_level
  next_pair rounds i x y rest next =
      let left : get_node (taken_then (i * 2) (some x ∷ some y ∷ rest)) (i * 2) ≡ some x =
        taken-get (i * 2) (i * 2) 0 (some x ∷ some y ∷ rest) (omega arith) in
      let without_left : set (taken_then (i * 2) (some x ∷ some y ∷ rest)) (i * 2) none
          ≡ taken_then (i * 2) (none ∷ some y ∷ rest) =
        taken-set (i * 2) (i * 2) 0 (some x ∷ some y ∷ rest) (omega arith) in
      let right : get_node (taken_then (i * 2) (none ∷ some y ∷ rest)) (i * 2 + 1) ≡ some y =
        taken-get (i * 2) (i * 2 + 1) 1 (none ∷ some y ∷ rest) (omega arith) in
      let both : set (set (taken_then (i * 2) (some x ∷ some y ∷ rest)) (i * 2) none) (i * 2 + 1)
            none
          ≡ taken_then ((i + 1) * 2) rest =
        ap (λ level. set level (i * 2 + 1) none) without_left
        ∙ taken-set (i * 2) (i * 2 + 1) 1 (none ∷ some y ∷ rest) (omega arith)
        ∙ taken_two i rest in
      rw (make_next_level, left, without_left, right, both) refl

  pub make_next_level-pair_up :
      (rounds i : ℕ) (nodes : List MerkleTreeNode) (next : Level)
      → length nodes ≡ 2 * rounds
      → make_next_level (Merkle.hash_children d) rounds i (taken_then (i * 2) (map some nodes)) next
        ≡ done (next ++ map some (pair_up d nodes))
  unfolding make_next_level pair_up
  make_next_level-pair_up zero i [] next h = ap done (sym (append-nil next))
  make_next_level-pair_up zero i (x ∷ nodes) next h = absurd (omega (arith, h))
  make_next_level-pair_up (suc rounds) i [] next h = absurd (omega (arith, h))
  make_next_level-pair_up (suc rounds) i (x ∷ []) next h = absurd (omega (arith, h))
  make_next_level-pair_up (suc rounds) i (x ∷ y ∷ nodes) next h =
      next_pair rounds i x y (map some nodes) next
      ∙ make_next_level-pair_up rounds (i + 1) nodes (next ++ some (parent d x y) ∷ [])
          (omega (arith, h))
      ∙ ap done (append_assoc next (some (parent d x y) ∷ []) (map some (pair_up d nodes)))

  pub map-append : (xs ys : List MerkleTreeNode) → map some (xs ++ ys) ≡ map some xs ++ map some ys
  map-append [] ys = refl
  map-append (x ∷ xs) ys = ap (◌∷◌ (some x)) (map-append xs ys)

  pub pair_up-duplicated :
      (nodes : List MerkleTreeNode) (x : MerkleTreeNode)
      → length nodes % 2 ≡ 0
      → pair_up d (nodes ++ x ∷ x ∷ []) ≡ pair_up d (nodes ++ x ∷ [])
  unfolding pair_up
  pair_up-duplicated [] x h = refl
  pair_up-duplicated (a ∷ []) x h = absurd (omega (arith, h))
  pair_up-duplicated (a ∷ b ∷ nodes) x h =
      ap (◌∷◌ (parent d a b)) (pair_up-duplicated nodes x (omega (arith, h)))
