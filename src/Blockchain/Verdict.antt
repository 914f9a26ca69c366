-- ===== src/Blockchain/Verdict.antt =====
-- Which blocks `insert_block_with_validation` accepts, shelves and refuses, and what it does not ask.
use ce334_bitcoin_client.Prelude.{
  ◌∙◌, ℕ, suc, ◌+◌, ◌≡◌, false, Option, none, some, List, [], ◌∷◌, refl, arith, if◌then◌else◌, ap,
  Outcome, done, Returns-done, Bool-cases, inl, inr,
}
use ce334_bitcoin_client.Crypto.Hash.{H256, h256_key, gt}
use ce334_bitcoin_client.HashMap.{get, contains_key}
use ce334_bitcoin_client.HashMap.Laws.{contains_key-false}
use ce334_bitcoin_client.Block.{Block}
use ce334_bitcoin_client.State.{State, update_with_transactions}
use ce334_bitcoin_client.Platform.{Platform}
use ce334_bitcoin_client.Block.Hashing.{hash_block, hash_header}
use ce334_bitcoin_client.Transaction.{RawTransaction}
use ce334_bitcoin_client.Blockchain.{
  Stored, Blockchain, parent_of, raw_transactions, put_orphan, accept_block, insert_block_on_fuel,
  insert_block_with_validation, orphan_count,
}
use ce334_bitcoin_client.Blockchain.Steps.{child_height}
use ce334_bitcoin_client.Blockchain.Valid.{IsValid}
use ce334_bitcoin_client.Blockchain.Accept.{accept_block-Ran, Accepted}
use ce334_bitcoin_client.Blockchain.Total.{insert_block_on_fuel-IsRight}

-- The fate of a block.
pub data Verdict : Type 0 where
  known orphaned too_easy inapplicable : Verdict
  accepted : Stored → State → Verdict

module _ (p : Platform) where
  -- The fate of a block, read off the chain: nothing is asked but its hash, its parent, the parent's
  -- difficulty, and the raw transactions on the parent's state.
  abbrev pub judge : H256 → H256 → List RawTransaction → Blockchain → Verdict
  judge hash parent_hash transactions bc =
      if contains_key hash bc.hash_to_block
      then known
      else elim (get parent_hash bc.hash_to_block) [
        | none ↦ orphaned
        | some parent ↦
            if gt hash parent.block.header.difficulty
            then too_easy
            else elim (update_with_transactions parent.state transactions) [
              | none ↦ inapplicable
              | some new_state ↦ accepted parent new_state
            ]
      ]

  unfoldable pub verdict : Block → Blockchain → Verdict
  verdict b bc = judge (hash_block p b) (parent_of b) (raw_transactions b) bc

  -- What the insertion does to a block of each fate.
  abbrev pub Follows : Block → Blockchain → Verdict → Outcome (List H256 × Blockchain) → Type 0
  Follows b bc known r = r ≡ done ([], bc)
  Follows b bc orphaned r = r ≡ done ([], put_orphan b bc)
  Follows b bc too_easy r = r ≡ done ([], bc)
  Follows b bc inapplicable r = r ≡ done ([], bc)
  Follows b bc (accepted parent new_state) r =
      (rest : List H256) × (bc' : Blockchain) × (r ≡ done (hash_block p b ∷ rest, bc'))
      × (get (hash_block p b) bc'.hash_to_block
          ≡ some (record { block = b; height = child_height p parent; state = new_state }))

  module _ (b : Block) (bc : Blockchain) (v : IsValid p bc) where
    abbrev fuel : ℕ
    fuel = orphan_count p bc

    abbrev recur : Block → Blockchain → Outcome (List H256 × Blockchain)
    recur = insert_block_on_fuel p fuel

    apply_verdict :
        (parent : Stored)
        → get (hash_block p b) bc.hash_to_block ≡ none
        → get (parent_of b) bc.hash_to_block ≡ some parent
        → gt (hash_block p b) parent.block.header.difficulty ≡ false
        → (o : Option State) → update_with_transactions parent.state (raw_transactions b) ≡ o
        → Follows b bc
            (elim o [ none ↦ inapplicable | some new_state ↦ accepted parent new_state ])
            (elim o [
              | none ↦ done ([], bc)
              | some new_state ↦ accept_block p recur b parent new_state bc
            ])
    apply_verdict parent new found hard none e = refl
    apply_verdict parent new found hard (some new_state) e =
        let good =
          accept_block-Ran p bc b parent new_state v new recur fuel
            (insert_block_on_fuel-IsRight p fuel) (omega arith) found hard e in
        let (r, eq, a) =
          Returns-done (Accepted p bc b parent new_state v new)
            (accept_block p recur b parent new_state bc) good in
        (a.2.0, r.1, eq ∙ ap done (pair r.0 r.1 (a.2.1)), a.3)
      where
        pair :
            (xs : List H256) (c : Blockchain) {ys : List H256}
            → xs ≡ ys
            → ◌≡◌ {A = List H256 × Blockchain} (xs, c) (ys, c)
        pair xs c q = λ i. (q i, c)

    parent_verdict :
        get (hash_block p b) bc.hash_to_block ≡ none
        → (o : Option Stored) → get (parent_of b) bc.hash_to_block ≡ o
        → Follows b bc
            (elim o [
              | none ↦ orphaned
              | some parent ↦
                  if gt (hash_block p b) parent.block.header.difficulty
                  then too_easy
                  else elim (update_with_transactions parent.state (raw_transactions b)) [
                    | none ↦ inapplicable
                    | some new_state ↦ accepted parent new_state
                  ]
            ])
            (elim o [
              | none ↦ done ([], put_orphan b bc)
              | some parent ↦
                  if gt (hash_block p b) parent.block.header.difficulty
                  then done ([], bc)
                  else elim (update_with_transactions parent.state (raw_transactions b)) [
                    | none ↦ done ([], bc)
                    | some new_state ↦ accept_block p recur b parent new_state bc
                  ]
            ])
    parent_verdict new none e = refl
    parent_verdict new (some parent) e =
        elim (Bool-cases (gt (hash_block p b) parent.block.header.difficulty)) [
          | inl easy ↦ rw easy refl
          | inr hard ↦ rw hard (
              apply_verdict parent new e hard
                (update_with_transactions parent.state (raw_transactions b)) refl)
        ]

    Follows-on_fuel : Follows b bc (verdict b bc) (insert_block_on_fuel p (suc fuel) b bc)
    unfolding verdict insert_block_on_fuel
    Follows-on_fuel = elim (Bool-cases (contains_key (hash_block p b) bc.hash_to_block)) [
      | inl old ↦ rw old refl
      | inr unknown ↦ rw unknown (
          parent_verdict (contains_key-false (hash_block p b) bc.hash_to_block unknown)
            (get (parent_of b) bc.hash_to_block) refl)
    ]

    -- On a well-formed chain the insertion does what the block's verdict says, on all five branches:
    -- a known block, one below the parent's difficulty and one with inapplicable transactions change
    -- nothing; an orphan is shelved; any other block is stored and its hash heads the list.
    pub insert_block_with_validation-Follows :
        Follows b bc (verdict b bc) (insert_block_with_validation p b bc)
    unfolding insert_block_with_validation
    insert_block_with_validation-Follows =
        let count : fuel + 1 ≡ suc fuel = omega arith in rw count Follows-on_fuel

  verdict_ignores_signatures :
      (b b' : Block) (bc : Blockchain)
      → b'.header ≡ b.header
      → raw_transactions b' ≡ raw_transactions b
      → verdict b' bc ≡ verdict b bc
  unfolding verdict hash_block
  verdict_ignores_signatures b b' bc h r = λ i. judge (hash_header p (h i)) (h i).parent (r i) bc

  -- Signatures are not checked: if a block is stored with a state, then a block with the same header and
  -- raw transactions, and any public keys and signatures, would be stored with the same state.
  pub insert_block_ignores_signatures :
      (b b' : Block) (bc : Blockchain) (parent : Stored) (new_state : State)
      → IsValid p bc
      → b'.header ≡ b.header
      → raw_transactions b' ≡ raw_transactions b
      → verdict b bc ≡ accepted parent new_state
      → (rest : List H256) × (bc' : Blockchain) × (insert_block_with_validation p b' bc
          ≡ done (hash_block p b ∷ rest, bc'))
        × (get (hash_block p b) bc'.hash_to_block
            ≡ some (record { block = b'; height = child_height p parent; state = new_state }))
  insert_block_ignores_signatures b b' bc parent new_state v h r e =
      let same : hash_block p b' ≡ hash_block p b = unfold hash_block in rw h refl in
      let fate : verdict b' bc ≡ accepted parent new_state =
        verdict_ignores_signatures b b' bc h r ∙ e in
      rw same at (rw fate at (insert_block_with_validation-Follows b' bc v))
