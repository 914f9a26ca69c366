-- ===== src/Blockchain/Insert.antt =====
-- What `insert_block_with_validation` does, on every branch.
use ce334_bitcoin_client.Prelude.{
  subst, ◌<◌, ◌≡◌, ◌⊎◌, Bool, true, false, ◌||◌, some, List, [], ◌∷◌, ◌++◌, All, All-append,
  All-mono, refl, arith, if◌then◌else◌, ◌∙◌, ◌==k◌, inl, inr, done, ltb,
}
use ce334_bitcoin_client.Crypto.Hash.{H256, h256_key}
use ce334_bitcoin_client.HashMap.{get, contains_key}
use ce334_bitcoin_client.HashMap.Laws.{get-insert_self, get-insert, contains_key-none}
use ce334_bitcoin_client.Transaction.{SignedTransaction}
use ce334_bitcoin_client.Block.{Block}
use ce334_bitcoin_client.State.{State, check_transaction_validity}
use ce334_bitcoin_client.Platform.{Platform}
use ce334_bitcoin_client.Block.Hashing.{hash_block}
use ce334_bitcoin_client.Blockchain.{
  store_block, Stored, Blockchain, put_orphan, insert_block_with_validation,
}
use ce334_bitcoin_client.Blockchain.Steps.{
  child_height, Step, shelve, attach, prune, Run, stop, step,
}
use ce334_bitcoin_client.Blockchain.Valid.{IsValid}
use ce334_bitcoin_client.Blockchain.Preserved.{Step-IsValid, Run-IsValid}
use ce334_bitcoin_client.Blockchain.Kept.{Step-keeps, Run-keeps, attached-table}
use ce334_bitcoin_client.Blockchain.Total.{
  insert_block_with_validation-ran, insert_block_with_validation-Run,
}

-- `hashes.contains(k)`
unfoldable pub elem : H256 → List H256 → Bool
elem k [] = false
elem k (h ∷ hs) = (h ==k k) || elem k hs

pub elem-append : (k : H256) (xs ys : List H256) → elem k (xs ++ ys) ≡ (elem k xs || elem k ys)
unfolding elem
elem-append k [] ys = refl
elem-append k (x ∷ xs) ys = ground (arith, elem-append k xs ys)

module _ (p : Platform) where
  -- From a well-formed chain the insertion of any block returns, without a panic, a well-formed chain.
  pub insert_block_with_validation-IsValid :
      (b : Block) (bc : Blockchain)
      → IsValid p bc
      → (r : List H256 × Blockchain) × (insert_block_with_validation p b bc ≡ done r)
        × IsValid p r.1
  insert_block_with_validation-IsValid b bc v =
      let (r, e, run, _) = insert_block_with_validation-Run p b bc v in (r, e, Run-IsValid p run v)

  Step-contains :
      {bc : Blockchain} {added : List H256} {bc' : Blockchain} (k : H256)
      → Step p bc added bc'
      → contains_key k bc'.hash_to_block ≡ (contains_key k bc.hash_to_block || elem k added)
  unfolding put_orphan elem
  Step-contains k (shelve b h) = ground arith
  Step-contains k (prune top h) = ground arith
  Step-contains {bc} k (attach b parent new_state top new found hard moves h) =
      rw (attached-table p b parent new_state top bc) (
        unfold contains_key in
        ground (
          arith,
          h256_key.beq_iff (hash_block p b) k,
          get-insert k (hash_block p b)
              (record { block = b; height = child_height p parent; state = new_state })
              bc.hash_to_block,
        ))

  Run-contains :
      {bc : Blockchain} {added : List H256} {bc' : Blockchain} (k : H256)
      → Run p bc added bc'
      → contains_key k bc'.hash_to_block ≡ (contains_key k bc.hash_to_block || elem k added)
  Run-contains k stop = unfold elem in ground arith
  Run-contains k (step {a} {rest} s r) =
      ground (arith, Run-contains k r, Step-contains k s, elem-append k a rest)

  Step-new :
      {bc : Blockchain} {added : List H256} {bc' : Blockchain}
      → Step p bc added bc'
      → All (λ k. contains_key k bc.hash_to_block ≡ false) added
  Step-new (shelve b h) = tt
  Step-new (prune top h) = tt
  Step-new {bc} (attach b parent new_state top new found hard moves h) =
      (contains_key-none (hash_block p b) bc.hash_to_block new, tt)

  Run-new :
      {bc : Blockchain} {added : List H256} {bc' : Blockchain}
      → Run p bc added bc'
      → All (λ k. contains_key k bc.hash_to_block ≡ false) added
  Run-new stop = tt
  Run-new {bc} (step {mid} {a} {rest} s r) = All-append _ a rest (Step-new s) (
      All-mono (λ k. contains_key k mid.hash_to_block ≡ false)
        (λ k. contains_key k bc.hash_to_block ≡ false) rest
        (λ k h. ground (arith, Step-contains k s)) (Run-new r))

  -- The list returned is exactly what the insertion added: a block is stored afterwards if it was
  -- stored before or its hash is on the list, no listed block was stored before, and blocks stored
  -- before are kept with their height and state.
  pub insert_block_with_validation-added :
      (b : Block) (bc : Blockchain) {added : List H256} {bc' : Blockchain}
      → IsValid p bc
      → insert_block_with_validation p b bc ≡ done (added, bc')
      → ((k : H256)
          → contains_key k bc'.hash_to_block ≡ (contains_key k bc.hash_to_block || elem k added))
        × All (λ k. contains_key k bc.hash_to_block ≡ false) added
        × ((k : H256) (e : Stored)
            → get k bc.hash_to_block ≡ some e
            → get k bc'.hash_to_block ≡ some e)
  insert_block_with_validation-added b bc v e =
      let run = (insert_block_with_validation-ran p b bc v e).0 in
      (λ k. Run-contains k run, Run-new run, λ k e. Run-keeps p k run)

  -- After an insertion that began with a clean mempool, every transaction of the mempool is valid in
  -- the state of the tip, whichever block that is now.
  pub insert_block_with_validation-mempool :
      (b : Block) (bc : Blockchain) {added : List H256} {bc' : Blockchain} {top : Stored}
      → IsValid p bc
      → bc.dirty_mempool ≡ false
      → insert_block_with_validation p b bc ≡ done (added, bc')
      → get bc'.tip bc'.hash_to_block ≡ some top
      → All (λ e. check_transaction_validity top.state e.1.raw_transaction ≡ true) bc'.mempool
  insert_block_with_validation-mempool b bc {bc'} {top} v clean e found =
      let (run, kept) = insert_block_with_validation-ran p b bc v e in
      let v' = Run-IsValid p run v in
      let same : v'.top ≡ top = cc (v'.top_stored, found) in
      subst
        (λ (t : Stored).
          All
            (λ (x : H256 × SignedTransaction).
              check_transaction_validity t.state x.1.raw_transaction ≡ true)
            bc'.mempool)
        same (v'.fresh (kept clean))

  -- the tip of a later chain, against that of an earlier one
  abbrev Overtakes : Blockchain → Blockchain → Type 0
  Overtakes bc bc' =
      (top top' : Stored)
      → get bc.tip bc.hash_to_block ≡ some top
      → get bc'.tip bc'.hash_to_block ≡ some top'
      → (bc'.tip ≡ bc.tip) ⊎ (top.height < top'.height)

  tip-attached :
      (b : Block) (parent : Stored) (new_state : State) (top : Stored) (bc : Blockchain)
      (higher : Bool)
      → ltb top.height (child_height p parent) ≡ higher
      → ((let stored = store_block p b parent new_state bc in
            if higher
            then record stored { tip = hash_block p b; dirty_mempool = true }
            else stored).tip
          ≡ bc.tip)
        ⊎ (((let stored = store_block p b parent new_state bc in
                if higher
                then record stored { tip = hash_block p b; dirty_mempool = true }
                else stored).tip
              ≡ hash_block p b)
            × (top.height < child_height p parent))
  unfolding store_block
  tip-attached b parent new_state top bc true e = inr (refl, ground arith)
  tip-attached b parent new_state top bc false e = inl refl

  Step-Overtakes :
      {bc : Blockchain} {added : List H256} {bc' : Blockchain}
      → Step p bc added bc'
      → Overtakes bc bc'
  Step-Overtakes (shelve b h) t t' f f' = inl (unfold put_orphan in refl)
  Step-Overtakes (prune top h) t t' f f' = inl refl
  Step-Overtakes {bc} (attach b parent new_state top new found hard moves h) t t' f f' =
      elim (tip-attached b parent new_state top bc (ltb top.height (child_height p parent)) refl) [
        | inl same ↦ inl same
        | inr (at_new, higher) ↦
            let entry : Stored = record {
              block = b;
              height = child_height p parent;
              state = new_state;
            } in
            let here : entry ≡ t' = cc (
              at_new,
              attached-table p b parent new_state top bc,
              f',
              get-insert_self (hash_block p b) entry bc.hash_to_block,
            ) in
            let old : top ≡ t = cc (h, f) in inr (rw (← here, ← old) higher)
      ]

  Run-Overtakes :
      {bc : Blockchain} {added : List H256} {bc' : Blockchain}
      → IsValid p bc
      → Run p bc added bc'
      → Overtakes bc bc'
  Run-Overtakes v stop t t' f f' = inl refl
  Run-Overtakes {bc} {bc' = last} v (step {mid} s r) t t' f f' =
      let v' = Step-IsValid p s v in
      elim (Step-Overtakes s t v'.top f v'.top_stored) [
        | inl same ↦ elim (Run-Overtakes v' r v'.top t' v'.top_stored f') [
          | inl same' ↦ inl (same' ∙ same)
          | inr higher ↦
              let old : t ≡ v'.top = cc (Step-keeps p bc.tip s f, v'.top_stored, same) in
              inr (rw old higher)
        ]
        | inr higher ↦ elim (Run-Overtakes v' r v'.top t' v'.top_stored f') [
          | inl same' ↦
              let now : v'.top ≡ t' = cc (Run-keeps p mid.tip r v'.top_stored, f', same') in
              inr (rw (← now) higher)
          | inr higher' ↦ inr (omega arith)
        ]
      ]

  -- Longest chain, first seen: an insertion leaves the tip, or moves it to a strictly higher block.
  pub insert_block_with_validation-tip :
      (b : Block) (bc : Blockchain) {added : List H256} {bc' : Blockchain} (top top' : Stored)
      → IsValid p bc
      → insert_block_with_validation p b bc ≡ done (added, bc')
      → get bc.tip bc.hash_to_block ≡ some top
      → get bc'.tip bc'.hash_to_block ≡ some top'
      → (bc'.tip ≡ bc.tip) ⊎ (top.height < top'.height)
  insert_block_with_validation-tip b bc top top' v e =
      Run-Overtakes v (insert_block_with_validation-ran p b bc v e).0 top top'
