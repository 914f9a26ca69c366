-- ===== src/Blockchain/Accept.antt =====
-- The part of `insert_block_with_validation` after its checks (blockchain.rs).
use ce334_bitcoin_client.Prelude.{
  append-nil, ℕ, ◌+◌, ◌≤◌, ◌<◌, ◌≡◌, Bool, true, false, Option, none, some, List, [], ◌∷◌, All,
  length, refl, arith, ltb, if◌then◌else◌, ◌∙◌, ap, Outcome, done, Returns, Returns-bind, All-mono,
}
use ce334_bitcoin_client.Crypto.Hash.{H256, h256_key, gt}
use ce334_bitcoin_client.HashMap.{HashMap, get, remove, sum_values}
use ce334_bitcoin_client.HashMap.Laws.{get-insert_ne, get-insert_self, All-get}
use ce334_bitcoin_client.HashMap.Measure.{sum_values-remove, sum_values-remove-le}
use ce334_bitcoin_client.Block.{Block}
use ce334_bitcoin_client.State.{State, update_with_transactions}
use ce334_bitcoin_client.Platform.{Platform}
use ce334_bitcoin_client.Block.Hashing.{hash_block}
use ce334_bitcoin_client.Blockchain.{
  Stored, Blockchain, parent_of, raw_transactions, store_block, waiting_for, move_tip,
  insert_orphans, prune_if_dirty, accept_block, orphan_count,
}
use ce334_bitcoin_client.Blockchain.Steps.{
  pruned, child_height, attached, Step, attach, prune, Run, stop, step, Run-append,
}
use ce334_bitcoin_client.Blockchain.Valid.{IsValid}
use ce334_bitcoin_client.Blockchain.Preserved.{absent_ne, Step-IsValid, Run-IsValid}
use ce334_bitcoin_client.Blockchain.Kept.{Run-keeps, attached-table}

module _ (p : Platform) where
  abbrev pub IsStored : Blockchain → H256 → Type 0
  IsStored bc k = (e : Stored) × (get k bc.hash_to_block ≡ some e)

  -- A call that began at `bc` is a run from `bc`, left no more than `n` orphans, and did not leave
  -- a clean mempool dirty.
  abbrev pub Ran : Blockchain → ℕ → List H256 × Blockchain → Type 0
  Ran bc n r =
      Run p bc r.0 r.1
      × (orphan_count p r.1 ≤ n)
      × (bc.dirty_mempool ≡ false → r.1.dirty_mempool ≡ false)

  abbrev pub Insertion : Type 0
  Insertion = Block → Blockchain → Outcome (List H256 × Blockchain)

  -- `recur` is right on every block whose parent is stored, while fewer than `n` orphans wait.
  abbrev pub IsRight : Insertion → ℕ → Type 0
  IsRight recur n =
      (b : Block) (bc : Blockchain)
      → IsValid p bc
      → orphan_count p bc < n
      → IsStored bc (parent_of b)
      → Returns (Ran bc (orphan_count p bc)) (recur b bc)

  insert_orphans-Ran :
      (recur : Insertion) (n : ℕ)
      → IsRight recur n
      → (os : List Block) (bc : Blockchain) → IsValid p bc
      → orphan_count p bc + length os < n + 1
      → All (λ o. IsStored bc (parent_of o)) os
      → Returns (Ran bc (orphan_count p bc)) (insert_orphans p recur os bc)
  unfolding insert_orphans
  insert_orphans-Ran recur n right [] bc v h s = (stop, omega arith, λ q. q)
  insert_orphans-Ran recur n right (o ∷ os) bc v h s =
      Returns-bind (Ran bc (orphan_count p bc)) (Ran bc (orphan_count p bc)) _ (recur o bc)
        (right o bc v (omega arith) s.0)
        λ first ran.
          Returns-bind (Ran first.1 (orphan_count p first.1)) (Ran bc (orphan_count p bc)) _
            (insert_orphans p recur os first.1)
            (insert_orphans-Ran recur n right os first.1 (Run-IsValid p ran.0 v) (omega arith) (
              All-mono (λ c. IsStored bc (parent_of c)) (λ c. IsStored first.1 (parent_of c)) os
                (λ c found. (found.0, Run-keeps p (parent_of c) ran.0 found.1)) s.1))
            λ rest ran'. (Run-append p ran.0 ran'.0, omega arith, λ q. ran'.2 (ran.2 q))

  prune_if_dirty-eq :
      (bc : Blockchain) (v : IsValid p bc)
      → prune_if_dirty p bc ≡ done (if bc.dirty_mempool then pruned p v.top bc else bc)
  unfolding prune_if_dirty
  prune_if_dirty-eq bc v = ground (arith, v.top_stored)

  abbrev Pruned : Blockchain → Blockchain → Type 0
  Pruned bc bc' = Run p bc [] bc' × (bc'.orphanage ≡ bc.orphanage) × (bc'.dirty_mempool ≡ false)

  pruned_if :
      (bc : Blockchain) (v : IsValid p bc) (dirty : Bool)
      → bc.dirty_mempool ≡ dirty
      → Pruned bc (if dirty then pruned p v.top bc else bc)
  pruned_if bc v true e = (step (prune v.top v.top_stored) stop, refl, refl)
  pruned_if bc v false e = (stop, refl, e)

  -- `prune_if_dirty` finds the tip and leaves a clean mempool.
  prune_if_dirty-Ran : (bc : Blockchain) → IsValid p bc → Returns (Pruned bc) (prune_if_dirty p bc)
  prune_if_dirty-Ran bc v = rw (prune_if_dirty-eq bc v) (pruned_if bc v bc.dirty_mempool refl)

  move_tip_found :
      (hash : H256) (height : ℕ) (bc : Blockchain) {top : Stored}
      → get bc.tip bc.hash_to_block ≡ some top
      → move_tip p hash height bc
        ≡ done
            (if ltb top.height height then record bc { tip = hash; dirty_mempool = true } else bc)
  unfolding move_tip
  move_tip_found hash height bc h = ground (arith, h)

  -- Taking orphans out takes them off the count.
  released :
      (m : HashMap H256 (List Block)) (k : H256) (o : Option (List Block))
      → get k m ≡ o
      → sum_values length (remove k m)
          + length (let os : List Block = elim o [ none ↦ [] | some os ↦ os ] in os)
        ≤ sum_values length m
  released m k none e = omega (arith, sum_values-remove-le length k m)
  released m k (some os) e = sum_values-remove length k os m e

  module _ (bc : Blockchain) (b : Block) (parent : Stored) (new_state : State) (v : IsValid p bc)
      (new : get (hash_block p b) bc.hash_to_block ≡ none) where
    abbrev tip_moved : Blockchain
    tip_moved =
        let stored = store_block p b parent new_state bc in
        if ltb v.top.height (child_height p parent)
        then record stored { tip = hash_block p b; dirty_mempool = true }
        else stored

    stored_top :
        get
          (store_block p b parent new_state bc).tip
          (store_block p b parent new_state bc).hash_to_block
        ≡ some v.top
    unfolding store_block
    stored_top =
        get-insert_ne bc.tip (hash_block p b) _ bc.hash_to_block
          (absent_ne bc.hash_to_block new v.top_stored)
        ∙ v.top_stored

    move_tip-store_block :
        move_tip p (hash_block p b) (child_height p parent) (store_block p b parent new_state bc)
        ≡ done tip_moved
    move_tip-store_block =
        move_tip_found (hash_block p b) (child_height p parent)
          (store_block p b parent new_state bc) stored_top

    orphanage-tip_moved : tip_moved.orphanage ≡ bc.orphanage
    orphanage-tip_moved = go (ltb v.top.height (child_height p parent))
      where
        go :
            (higher : Bool)
            → (let stored = store_block p b parent new_state bc in
                if higher
                then record stored { tip = hash_block p b; dirty_mempool = true }
                else stored).orphanage
              ≡ bc.orphanage
        go true = unfold store_block in refl
        go false = unfold store_block in refl

    attached_count :
        orphan_count p (attached p b parent new_state v.top bc)
          + length (waiting_for p (hash_block p b) bc)
        ≤ orphan_count p bc
    attached_count =
        unfold orphan_count waiting_for in
        rw orphanage-tip_moved
          (released bc.orphanage (hash_block p b) (get (hash_block p b) bc.orphanage) refl)

    abbrev pub entry : Stored
    entry = record { block = b; height = child_height p parent; state = new_state }

    abbrev above : Blockchain
    above = attached p b parent new_state v.top bc

    waiting_above : waiting_for p (hash_block p b) tip_moved ≡ waiting_for p (hash_block p b) bc
    unfolding waiting_for
    waiting_above =
        ap
          (λ (m : HashMap H256 (List Block)).
            let os : List Block = elim (get (hash_block p b) m) [ none ↦ [] | some os ↦ os ] in os)
          orphanage-tip_moved

    waiting-IsStored : All (λ o. IsStored above (parent_of o)) (waiting_for p (hash_block p b) bc)
    unfolding waiting_for
    waiting-IsStored = go (get (hash_block p b) bc.orphanage) refl
      where
        at_hash : (c : Block) → parent_of c ≡ hash_block p b → IsStored above (parent_of c)
        at_hash c e = rw e (
          entry,
          rw (attached-table p b parent new_state v.top bc)
              (get-insert_self (hash_block p b) entry bc.hash_to_block),
        )

        go :
            (o : Option (List Block))
            → get (hash_block p b) bc.orphanage ≡ o
            → All (λ c. IsStored above (parent_of c)) (elim o [ none ↦ [] | some os ↦ os ])
        go none e = tt
        go (some os) e =
            All-mono (λ c. parent_of c ≡ hash_block p b) (λ c. IsStored above (parent_of c)) os
              at_hash
              (All-get (λ (x : H256 × List Block). All (λ c. parent_of c ≡ x.0) x.1)
                (hash_block p b) bc.orphanage v.homed e)

    above-stored : get (hash_block p b) above.hash_to_block ≡ some entry
    above-stored =
        rw (attached-table p b parent new_state v.top bc)
          (get-insert_self (hash_block p b) entry bc.hash_to_block)

    -- The block's hash comes first on the list, and the block is stored.
    abbrev pub Accepted : List H256 × Blockchain → Type 0
    Accepted r =
        Ran bc (orphan_count p bc) r
        × (r.1.dirty_mempool ≡ false)
        × ((rest : List H256) × (r.0 ≡ hash_block p b ∷ rest))
        × (get (hash_block p b) r.1.hash_to_block ≡ some entry)

    pub accept_block-Ran :
        (recur : Insertion) (n : ℕ)
        → IsRight recur n
        → orphan_count p bc < n + 1
        → get (parent_of b) bc.hash_to_block ≡ some parent
        → gt (hash_block p b) parent.block.header.difficulty ≡ false
        → update_with_transactions parent.state (raw_transactions b) ≡ some new_state
        → Returns Accepted (accept_block p recur b parent new_state bc)
    unfolding accept_block
    accept_block-Ran recur n right lt found hard moves =
        let attaching : Step p bc (hash_block p b ∷ []) above =
          attach b parent new_state v.top new found hard moves v.top_stored in
        let valid = Step-IsValid p attaching v in
        rw (move_tip-store_block, waiting_above)
          (Returns-bind (Ran above (orphan_count p above)) _ _
            (insert_orphans p recur (waiting_for p (hash_block p b) bc) above)
            (insert_orphans-Ran recur n right (waiting_for p (hash_block p b) bc) above valid
              (omega (arith, attached_count)) waiting-IsStored)
            λ children ran.
              Returns-bind (Pruned children.1) _ _ (prune_if_dirty p children.1)
                (prune_if_dirty-Ran children.1 (Run-IsValid p ran.0 valid))
                λ bc' last.
                  let whole = rw append-nil at (Run-append p ran.0 last.0) in
                  let count : orphan_count p bc' ≡ orphan_count p children.1 =
                    unfold orphan_count in
                    ap (λ (m : HashMap H256 (List Block)). sum_values length m) last.1 in
                  (
                    (step attaching whole, omega (arith, attached_count), λ q. last.2),
                    last.2,
                    (children.0, refl),
                    Run-keeps p (hash_block p b) (Run-append p ran.0 last.0) above-stored,
                  ))
