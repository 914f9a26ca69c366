-- ===== src/Blockchain/Total.antt =====
-- The outcome of `insert_block_with_validation` and the changes that it makes (blockchain.rs).
use ce334_bitcoin_client.Prelude.{
  subst, Returns-mono, Returns-done, ℕ, zero, suc, ◌+◌, ◌≤◌, ◌<◌, ◌≡◌, false, Option, none, some,
  List, [], refl, arith, if◌then◌else◌, Bool-cases, inl, inr, Outcome, done, Returns,
}
use ce334_bitcoin_client.Crypto.Hash.{H256, h256_key, gt}
use ce334_bitcoin_client.HashMap.{get, contains_key}
use ce334_bitcoin_client.HashMap.Laws.{contains_key-false}
use ce334_bitcoin_client.Block.{Block}
use ce334_bitcoin_client.State.{State, update_with_transactions}
use ce334_bitcoin_client.Platform.{Platform}
use ce334_bitcoin_client.Block.Hashing.{hash_block}
use ce334_bitcoin_client.Blockchain.{
  Stored, Blockchain, parent_of, raw_transactions, put_orphan, accept_block, insert_block_on_fuel,
  insert_block_with_validation, orphan_count,
}
use ce334_bitcoin_client.Blockchain.Steps.{shelve, Run, stop, step}
use ce334_bitcoin_client.Blockchain.Accept.{IsStored, IsRight, accept_block-Ran}
use ce334_bitcoin_client.Blockchain.Valid.{IsValid}

module _ (p : Platform) where
  -- As `Ran`, for a block whose parent may be missing: then the block itself joins the orphans.
  abbrev RanOrShelved : Block → Blockchain → List H256 × Blockchain → Type 0
  RanOrShelved b bc r =
      Run p bc r.0 r.1
      × (IsStored p bc (parent_of b) → orphan_count p r.1 ≤ orphan_count p bc)
      × (bc.dirty_mempool ≡ false → r.1.dirty_mempool ≡ false)

  unchanged : (b : Block) (bc : Blockchain) → RanOrShelved b bc ([], bc)
  unchanged b bc = (stop, λ s. omega arith, λ q. q)

  shelved :
      (b : Block) (bc : Blockchain)
      → get (parent_of b) bc.hash_to_block ≡ none
      → RanOrShelved b bc ([], put_orphan b bc)
  shelved b bc h = (step (shelve b h) stop, λ s. absurd (cc (h, s.1)), unfold put_orphan in λ q. q)

  module _ (n : ℕ) (right : IsRight p (insert_block_on_fuel p n) n) (b : Block) (bc : Blockchain)
      (v : IsValid p bc) (lt : orphan_count p bc < n + 1) where
    abbrev Good : Outcome (List H256 × Blockchain) → Type 0
    Good = Returns (RanOrShelved b bc)

    with_state :
        (parent : Stored)
        → get (hash_block p b) bc.hash_to_block ≡ none
        → get (parent_of b) bc.hash_to_block ≡ some parent
        → gt (hash_block p b) parent.block.header.difficulty ≡ false
        → (o : Option State) → update_with_transactions parent.state (raw_transactions b) ≡ o
        → Good (elim o [
          | none ↦ done ([], bc)
          | some new_state ↦ accept_block p (insert_block_on_fuel p n) b parent new_state bc
        ])
    with_state parent new found hard none e = unchanged b bc
    with_state parent new found hard (some new_state) e =
        Returns-mono _ _ (accept_block p (insert_block_on_fuel p n) b parent new_state bc)
          (λ r g. (g.0.0, λ s. g.0.1, g.0.2))
          (accept_block-Ran p bc b parent new_state v new (insert_block_on_fuel p n) n right lt
            found hard e)

    with_parent :
        get (hash_block p b) bc.hash_to_block ≡ none
        → (o : Option Stored) → get (parent_of b) bc.hash_to_block ≡ o
        → Good (elim o [
          | none ↦ done ([], put_orphan b bc)
          | some parent ↦
              if gt (hash_block p b) parent.block.header.difficulty
              then done ([], bc)
              else elim (update_with_transactions parent.state (raw_transactions b)) [
                | none ↦ done ([], bc)
                | some new_state ↦ accept_block p (insert_block_on_fuel p n) b parent new_state bc
              ]
        ])
    with_parent new none e = shelved b bc e
    with_parent new (some parent) e =
        elim (Bool-cases (gt (hash_block p b) parent.block.header.difficulty)) [
          | inl easy ↦ rw easy (unchanged b bc)
          | inr hard ↦ rw hard (
              with_state parent new e hard
                (update_with_transactions parent.state (raw_transactions b)) refl)
        ]

    insert_block_on_fuel-Good : Good (insert_block_on_fuel p (suc n) b bc)
    unfolding insert_block_on_fuel
    insert_block_on_fuel-Good = elim (Bool-cases (contains_key (hash_block p b) bc.hash_to_block)) [
      | inl known ↦ rw known (unchanged b bc)
      | inr unknown ↦ rw unknown (
          with_parent (contains_key-false (hash_block p b) bc.hash_to_block unknown)
            (get (parent_of b) bc.hash_to_block) refl)
    ]

  -- The recursive calls are right, on fuel for the orphans that wait.
  pub insert_block_on_fuel-IsRight : (n : ℕ) → IsRight p (insert_block_on_fuel p n) n
  insert_block_on_fuel-IsRight zero b bc v h found = absurd (omega arith)
  insert_block_on_fuel-IsRight (suc n) b bc v h found =
      Returns-mono _ _ (insert_block_on_fuel p (suc n) b bc) (λ r g. (g.0, g.1 found, g.2))
        (insert_block_on_fuel-Good n (insert_block_on_fuel-IsRight n) b bc v (omega arith))

  -- `insert_block_with_validation` returns on every well-formed chain, without a panic and within
  -- its fuel, and what it does is a run of atomic changes. A clean mempool is left clean.
  pub insert_block_with_validation-Run :
      (b : Block) (bc : Blockchain)
      → IsValid p bc
      → (r : List H256 × Blockchain) × (insert_block_with_validation p b bc ≡ done r)
        × Run p bc r.0 r.1
        × (bc.dirty_mempool ≡ false → r.1.dirty_mempool ≡ false)
  unfolding insert_block_with_validation
  insert_block_with_validation-Run b bc v =
      let n = orphan_count p bc in
      let count : n + 1 ≡ suc n = omega arith in
      let good =
        insert_block_on_fuel-Good n (insert_block_on_fuel-IsRight n) b bc v (omega arith) in
      let (r, e, g) = Returns-done (RanOrShelved b bc) (insert_block_on_fuel p (suc n) b bc) good in
      (r, rw count e, g.0, g.2)

  -- The same for a result that is given.
  pub insert_block_with_validation-ran :
      (b : Block) (bc : Blockchain) {added : List H256} {bc' : Blockchain}
      → IsValid p bc
      → insert_block_with_validation p b bc ≡ done (added, bc')
      → Run p bc added bc' × (bc.dirty_mempool ≡ false → bc'.dirty_mempool ≡ false)
  insert_block_with_validation-ran b bc {added} {bc'} v e =
      let (r, e', run, clean) = insert_block_with_validation-Run b bc v in
      let same : r ≡ (added, bc') = cc (e', e) in
      subst
        (λ (x : List H256 × Blockchain).
          Run p bc x.0 x.1 × (bc.dirty_mempool ≡ false → x.1.dirty_mempool ≡ false))
        same (run, clean)
