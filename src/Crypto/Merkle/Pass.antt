-- ===== src/Crypto/Merkle/Pass.antt =====
-- A pass over the array of nodes, which makes the level above (crypto/merkle.rs).
use ce334_bitcoin_client.Prelude.{
  length-append, ℕ, zero, suc, ◌+◌, ◌*◌, ◌/◌, ◌≤◌, ◌≡◌, refl, Option, none, some, List, [], ◌∷◌,
  ◌++◌, map, length, get_elem?, set, replicate, arith, ap, ◌∙◌, sym, append_assoc,
}
use ce334_bitcoin_client.Crypto.Hash.{Digest}
use ce334_bitcoin_client.Crypto.Merkle.{MerkleTreeNode, get_node, parent, single_pass}

module _ {ℓ} {A : Type ℓ} where
  pub get_elem?-append :
      (xs ys : List A) (i : ℕ) → get_elem? (xs ++ ys) (length xs + i) ≡ get_elem? ys i
  get_elem?-append [] ys i = let at : 0 + i ≡ i = omega arith in ap (get_elem? ys) at
  get_elem?-append (x ∷ xs) ys i =
      let at : suc (length xs) + i ≡ suc (length xs + i) = omega arith in
      ap (get_elem? (x ∷ xs ++ ys)) at ∙ get_elem?-append xs ys i

  pub set-append :
      (xs ys : List A) (i : ℕ) (a : A) → set (xs ++ ys) (length xs + i) a ≡ xs ++ set ys i a
  set-append [] ys i a = let at : 0 + i ≡ i = omega arith in ap (λ n. set ys n a) at
  set-append (x ∷ xs) ys i a =
      let at : suc (length xs) + i ≡ suc (length xs + i) = omega arith in
      ap (λ n. set (x ∷ xs ++ ys) n a) at ∙ ap (◌∷◌ x) (set-append xs ys i a)

  pub length-replicate : (n : ℕ) (a : A) → length (replicate n a) ≡ n
  length-replicate zero a = refl
  length-replicate (suc n) a = ap suc (length-replicate n a)

  pub replicate-suc :
      (n : ℕ) (a : A) (ys : List A) → replicate n a ++ a ∷ ys ≡ a ∷ (replicate n a ++ ys)
  replicate-suc zero a ys = refl
  replicate-suc (suc n) a ys = ap (◌∷◌ a) (replicate-suc n a ys)

  replicate-append : (n m : ℕ) (a : A) → replicate n a ++ replicate m a ≡ replicate (n + m) a
  replicate-append zero m a = let at : m ≡ 0 + m = omega arith in ap (λ k. replicate k a) at
  replicate-append (suc n) m a =
      let at : suc (n + m) ≡ suc n + m = omega arith in
      ap (◌∷◌ a) (replicate-append n m a) ∙ ap (λ k. replicate k a) at

pub length-map {ℓ κ} :
    {A : Type ℓ} {B : Type κ} (f : A → B) (xs : List A) → length (map f xs) ≡ length xs
length-map f [] = refl
length-map f (x ∷ xs) = ap suc (length-map f xs)

module _ (d : Digest) where
  -- One level up: neighbours are paired, and a last node without one is paired with itself.
  unfoldable pub pair_up : List MerkleTreeNode → List MerkleTreeNode
  pair_up [] = []
  pair_up (x ∷ []) = parent d x x ∷ []
  pair_up (x ∷ y ∷ rest) = parent d x y ∷ pair_up rest

  unfoldable pub levels_up : ℕ → List MerkleTreeNode → List MerkleTreeNode
  levels_up zero nodes = nodes
  levels_up (suc k) nodes = levels_up k (pair_up nodes)

  abbrev pub Slots : Type 0
  Slots = List (Option MerkleTreeNode)

  abbrev empty : ℕ → Slots
  empty k = replicate k none

  -- the array: the nodes, then empty slots
  abbrev pub full : List MerkleTreeNode → ℕ → Slots
  full ns k = map some ns ++ empty k

  -- the array during a pass: parents, the gap that they leave, the rest
  abbrev during : Slots → ℕ → Slots → Slots
  during out gap rest = out ++ (empty gap ++ rest)

  length-empty : (k : ℕ) → length (empty k) ≡ k
  length-empty k = length-replicate k none

  -- the slots after the gap, whose length is that of the parents
  during-get :
      (out rest : Slots) (i j n : ℕ)
      → length out ≡ i
      → n ≡ i * 2 + j
      → get_elem? (during out i rest) n ≡ get_elem? rest j
  during-get out rest i j n hi hn =
      let at : n ≡ length out + (length (empty i) + j) = omega (arith, length-empty i) in
      rw (
        at,
        get_elem?-append out (empty i ++ rest) (length (empty i) + j),
        get_elem?-append (empty i) rest j,
      )

  during-set :
      (out rest : Slots) (i j n : ℕ) (v : Option MerkleTreeNode)
      → length out ≡ i
      → n ≡ i * 2 + j
      → set (during out i rest) n v ≡ during out i (set rest j v)
  during-set out rest i j n v hi hn =
      let at : n ≡ length out + (length (empty i) + j) = omega (arith, length-empty i) in
      rw (
        at,
        set-append out (empty i ++ rest) (length (empty i) + j) v,
        set-append (empty i) rest j v,
      )

  -- the parent goes to the first slot after the parents
  during-put :
      (out rest : Slots) (i : ℕ) (v : Option MerkleTreeNode)
      → length out ≡ i
      → set (during out i (none ∷ rest)) i v ≡ during (out ++ v ∷ []) i rest
  during-put out rest i v hi =
      let at : i ≡ length out + 0 = omega arith in
      ap (λ xs. set (out ++ xs) i v) (replicate-suc i none rest)
      ∙ ap (λ n. set (out ++ none ∷ (empty i ++ rest)) n v) at
      ∙ set-append out (none ∷ (empty i ++ rest)) 0 v
      ∙ sym (append_assoc out (v ∷ []) (empty i ++ rest))

  empty-get : (k n : ℕ) → get_node (empty k) n ≡ none
  empty-get zero n = refl
  empty-get (suc k) zero = refl
  empty-get (suc k) (suc n) = empty-get k n

  after-get : (out : Slots) (k n : ℕ) → length out ≤ n → get_node (out ++ empty k) n ≡ none
  after-get [] k n h = empty-get k n
  after-get (o ∷ out) k zero h = absurd (omega arith)
  after-get (o ∷ out) k (suc n) h = after-get out k n (omega arith)

  -- A pass ends where the nodes end.
  single_pass_end :
      (rounds : ℕ) (out : Slots) (k i : ℕ)
      → length out ≤ i * 2
      → single_pass d rounds i (out ++ empty k) ≡ out ++ empty k
  unfolding single_pass
  single_pass_end zero out k i h = refl
  single_pass_end (suc rounds) out k i h = rw (single_pass, after-get out k (i * 2) h)

  gap_grows : (out rest : Slots) (i : ℕ) → during out i (none ∷ rest) ≡ during out (i + 1) rest
  gap_grows out rest i =
      let at : suc i ≡ i + 1 = omega arith in
      ap (◌++◌ out) (replicate-suc i none rest ∙ ap (λ n. empty n ++ rest) at)

  -- A round of the pass over two nodes, and over one.
  single_pass_pair :
      (rounds : ℕ) (out rest : Slots) (x y : MerkleTreeNode) (i : ℕ)
      → length out ≡ i
      → single_pass d (suc rounds) i (during out i (some x ∷ some y ∷ rest))
        ≡ single_pass d rounds (i + 1) (during (out ++ some (parent d x y) ∷ []) (i + 1) rest)
  unfolding single_pass
  single_pass_pair rounds out rest x y i hi = rw (
    single_pass,
    during-get out (some x ∷ some y ∷ rest) i 0 (i * 2) hi (omega arith),
    during-set out (some x ∷ some y ∷ rest) i 0 (i * 2) none hi (omega arith),
    during-get out (none ∷ some y ∷ rest) i 1 (i * 2 + 1) hi (omega arith),
    during-set out (none ∷ some y ∷ rest) i 1 (i * 2 + 1) none hi (omega arith),
    during-put out (none ∷ rest) i (some (parent d x y)) hi,
    gap_grows (out ++ some (parent d x y) ∷ []) rest i,
  )

  single_pass_last :
      (rounds : ℕ) (out : Slots) (k : ℕ) (x : MerkleTreeNode) (i : ℕ)
      → length out ≡ i
      → single_pass d (suc rounds) i (during out i (some x ∷ empty k))
        ≡ single_pass d rounds
            (i + 1)
            (during (out ++ some (parent d x x) ∷ []) i (set (empty k) 0 none))
  unfolding single_pass
  single_pass_last rounds out k x i hi = rw (
    single_pass,
    during-get out (some x ∷ empty k) i 0 (i * 2) hi (omega arith),
    during-set out (some x ∷ empty k) i 0 (i * 2) none hi (omega arith),
    during-get out (none ∷ empty k) i 1 (i * 2 + 1) hi (omega arith),
    empty-get k 0,
    during-set out (none ∷ empty k) i 1 (i * 2 + 1) none hi (omega arith),
    during-put out (set (empty k) 0 none) i (some (parent d x x)) hi,
  )

  set-empty : (k : ℕ) → set (empty k) 0 none ≡ empty k
  set-empty zero = refl
  set-empty (suc k) = refl

  during_done : (out : Slots) (i k : ℕ) → during out i (empty k) ≡ out ++ empty (i + k)
  during_done out i k = ap (◌++◌ out) (replicate-append i k none)

  -- A pass with rounds for all pairs leaves the nodes of the next level, then empty slots.
  pub pass :
      (rounds : ℕ) (out : Slots) (i : ℕ) (ns : List MerkleTreeNode) (k : ℕ)
      → length out ≡ i
      → length ns ≤ 2 * rounds
      → (k' : ℕ) × (single_pass d rounds i (during out i (full ns k)) ≡ out ++ full (pair_up ns) k')
  unfolding pair_up
  pass rounds out i [] k hi h = (
    i + k,
    ap (single_pass d rounds i) (during_done out i k)
        ∙ single_pass_end rounds out (i + k) i (omega arith),
  )
  pass zero out i (x ∷ ns) k hi h = absurd (omega arith)
  pass (suc rounds) out i (x ∷ []) k hi h =
      let next = out ++ some (parent d x x) ∷ [] in
      let tail : during next i (set (empty k) 0 none) ≡ next ++ empty (i + k) =
        ap (λ e. during next i e) (set-empty k) ∙ during_done next i k in
      (
        i + k,
        single_pass_last rounds out k x i hi
            ∙ ap (single_pass d rounds (i + 1)) tail
            ∙ single_pass_end rounds next (i + k) (i + 1)
                (omega (arith, length-append out (some (parent d x x) ∷ [])))
            ∙ append_assoc out (some (parent d x x) ∷ []) (empty (i + k)),
      )
  pass (suc rounds) out i (x ∷ y ∷ ns) k hi h =
      let next = out ++ some (parent d x y) ∷ [] in
      let (k', rest) =
        pass rounds next (i + 1) ns k (omega (arith, length-append out (some (parent d x y) ∷ [])))
          (omega arith) in
      (
        k',
        single_pass_pair rounds out (full ns k) x y i hi
            ∙ rest
            ∙ append_assoc out (some (parent d x y) ∷ []) (full (pair_up ns) k'),
      )

  pub length-pair_up : (ns : List MerkleTreeNode) → length (pair_up ns) ≡ (length ns + 1) / 2
  unfolding pair_up
  length-pair_up [] = omega arith
  length-pair_up (x ∷ []) = omega arith
  length-pair_up (x ∷ y ∷ ns) = omega (arith, length-pair_up ns)

  pub length-full : (ns : List MerkleTreeNode) (k : ℕ) → length (full ns k) ≡ length ns + k
  length-full ns k =
      omega
        (arith, length-append (map some ns) (empty k), length-map (λ n. some n) ns, length-empty k)
