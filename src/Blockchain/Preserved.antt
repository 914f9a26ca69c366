-- ===== src/Blockchain/Preserved.antt =====
-- The well-formedness of a chain under the atomic changes (blockchain.rs).
use ce334_bitcoin_client.Prelude.{
  ℕ, ◌≤◌, ◌<◌, ◌≡◌, ◌≢◌, Bool, true, false, Option, none, some, List, [], ◌∷◌, ◌++◌, All,
  All-append, All-mono, length, refl, arith, ltb, if◌then◌else◌, ◌∙◌, sym, inl, inr, beq-cases,
}
use ce334_bitcoin_client.Crypto.Hash.{H256, h256_key, gt}
use ce334_bitcoin_client.HashMap.{HashMap, get, insert, remove}
use ce334_bitcoin_client.HashMap.Laws.{
  get-insert_self, get-insert_ne, get-remove, All-get, All-insert, All-remove, All-retain,
  retain_passes,
}
use ce334_bitcoin_client.HashMap.Measure.{length-insert_new}
use ce334_bitcoin_client.Block.{Block}
use ce334_bitcoin_client.State.{State, update_with_transactions, check_transaction_validity}
use ce334_bitcoin_client.Platform.{Platform}
use ce334_bitcoin_client.Transaction.{SignedTransaction}
use ce334_bitcoin_client.Transaction.Signing.{hash_signed}
use ce334_bitcoin_client.Block.Hashing.{hash_block}
use ce334_bitcoin_client.Blockchain.{
  Stored, Blockchain, parent_of, raw_transactions, put_orphan, store_block, drop_orphans,
  remove_transactions,
}
use ce334_bitcoin_client.Blockchain.Steps.{
  child_height, pruned, Step, shelve, attach, prune, Run, stop, step,
}
use ce334_bitcoin_client.Blockchain.Valid.{IsLinked, child, IsPooled, IsValid, IsLinked-insert}

-- A key that is absent is none of those that are present.
pub absent_ne :
    {V : Type 0} (m : HashMap H256 V) {k j : H256} {v : V}
    → get k m ≡ none
    → get j m ≡ some v
    → k ≢ j
absent_ne m a b e = cc (a, b, e)

module _ (p : Platform) where
  All-remove_transactions :
      (P : H256 × SignedTransaction → Type 0) (ts : List SignedTransaction)
      (m : HashMap H256 SignedTransaction)
      → All P m
      → All P (remove_transactions p ts m)
  unfolding remove_transactions
  All-remove_transactions P [] m h = h
  All-remove_transactions P (t ∷ ts) m h =
      All-remove_transactions P ts (remove (hash_signed p t) m) (All-remove P (hash_signed p t) m h)

  shelve-IsValid :
      (bc : Blockchain) (b : Block)
      → get (parent_of b) bc.hash_to_block ≡ none
      → IsValid p bc
      → IsValid p (put_orphan b bc)
  unfolding put_orphan
  shelve-IsValid bc b h v = record {
    top = v.top;
    top_stored = v.top_stored;
    highest = v.highest;
    linked = v.linked;
    sized = v.sized;
    homed = siblings (get (parent_of b) bc.orphanage) refl;
    awaited = λ k e.
        get-insert_ne k (parent_of b) _ bc.orphanage (absent_ne bc.hash_to_block h e)
        ∙ v.awaited k e;
    pooled = v.pooled;
    fresh = v.fresh;
  }
    where
      siblings :
          (o : Option (List Block))
          → get (parent_of b) bc.orphanage ≡ o
          → All
              (λ (e : H256 × List Block). All (λ c. parent_of c ≡ e.0) e.1)
              (insert
                (parent_of b)
                (let waiting : List Block = elim o [ none ↦ [] | some os ↦ os ] in
                  waiting ++ b ∷ [])
                bc.orphanage)
      siblings none e = All-insert _ (parent_of b) (b ∷ []) bc.orphanage (refl, tt) v.homed
      siblings (some os) e =
          All-insert (λ (e : H256 × List Block). All (λ c. parent_of c ≡ e.0) e.1) (parent_of b)
            (os ++ b ∷ []) bc.orphanage
            (All-append (λ c. parent_of c ≡ parent_of b) os (b ∷ [])
              (All-get (λ (e : H256 × List Block). All (λ c. parent_of c ≡ e.0) e.1) (parent_of b)
                bc.orphanage v.homed e)
              (refl, tt))
            v.homed

  prune-IsValid :
      (bc : Blockchain) (top : Stored)
      → get bc.tip bc.hash_to_block ≡ some top
      → IsValid p bc
      → IsValid p (pruned p top bc)
  prune-IsValid bc top h v = record {
    top = v.top;
    top_stored = v.top_stored;
    highest = v.highest;
    linked = v.linked;
    sized = v.sized;
    homed = v.homed;
    awaited = v.awaited;
    pooled = All-retain (IsPooled p) _ bc.mempool v.pooled;
    fresh = λ _.
        let same : v.top ≡ top = cc (h, v.top_stored) in
        rw same
          (retain_passes (λ t. check_transaction_validity top.state t.raw_transaction) bc.mempool);
  }

  module _ (bc : Blockchain) (b : Block) (parent : Stored) (new_state : State) (v : IsValid p bc)
      (new : get (hash_block p b) bc.hash_to_block ≡ none)
      (found : get (parent_of b) bc.hash_to_block ≡ some parent)
      (hard : gt (hash_block p b) parent.block.header.difficulty ≡ false)
      (moves : update_with_transactions parent.state (raw_transactions b) ≡ some new_state) where
    abbrev entry : Stored
    entry = record { block = b; height = child_height p parent; state = new_state }

    abbrev table : HashMap H256 Stored
    table = insert (hash_block p b) entry bc.hash_to_block

    table-IsLinked : All (IsLinked p table) table
    table-IsLinked =
        All-insert (IsLinked p table) (hash_block p b) entry bc.hash_to_block
          (child parent
            (get-insert_ne (parent_of b) (hash_block p b) entry bc.hash_to_block
                (absent_ne bc.hash_to_block new found)
              ∙ found)
            refl refl hard moves)
          (All-mono (IsLinked p bc.hash_to_block) (IsLinked p table) bc.hash_to_block
            (λ x l. IsLinked-insert p (hash_block p b) entry bc.hash_to_block x new l) v.linked)

    table-sized : All (λ e. e.1.height < length table) table
    table-sized =
        let longer = length-insert_new (hash_block p b) entry bc.hash_to_block new in
        let below =
          All-get (λ (e : H256 × Stored). e.1.height < length bc.hash_to_block) (parent_of b)
            bc.hash_to_block v.sized found in
        All-insert (λ (e : H256 × Stored). e.1.height < length table) (hash_block p b) entry
          bc.hash_to_block (omega arith)
          (All-mono (λ (e : H256 × Stored). e.1.height < length bc.hash_to_block)
            (λ (e : H256 × Stored). e.1.height < length table) bc.hash_to_block (λ x l. omega arith)
            v.sized)

    table-highest :
        (h : ℕ) → v.top.height ≤ h → child_height p parent ≤ h → All (λ e. e.1.height ≤ h) table
    table-highest h old at_new =
        All-insert (λ (e : H256 × Stored). e.1.height ≤ h) (hash_block p b) entry bc.hash_to_block
          at_new
          (All-mono (λ (e : H256 × Stored). e.1.height ≤ v.top.height)
            (λ (e : H256 × Stored). e.1.height ≤ h) bc.hash_to_block (λ x l. omega arith) v.highest)

    table-awaited :
        (k : H256) {e : Stored}
        → get k table ≡ some e
        → get k (remove (hash_block p b) bc.orphanage) ≡ none
    table-awaited k {e} s = elim (beq-cases (hash_block p b) k) [
      | inl same ↦
          ground
            (arith, h256_key.beq_iff (hash_block p b) k, get-remove k (hash_block p b) bc.orphanage)
      | inr other ↦ ground (
        arith,
        h256_key.beq_iff (hash_block p b) k,
        get-remove k (hash_block p b) bc.orphanage,
        v.awaited k {e = e}
            (sym (get-insert_ne k (hash_block p b) entry bc.hash_to_block other) ∙ s),
      )
    ]

    attach-IsValid_at :
        (higher : Bool)
        → ltb v.top.height (child_height p parent) ≡ higher
        → IsValid p (
            drop_orphans p (hash_block p b) (
              if higher
              then record (store_block p b parent new_state bc) {
                tip = hash_block p b;
                dirty_mempool = true;
              }
              else store_block p b parent new_state bc))
    unfolding store_block
    attach-IsValid_at true e = record {
      top = entry;
      top_stored = get-insert_self (hash_block p b) entry bc.hash_to_block;
      highest = table-highest (child_height p parent) (ground arith) (ground arith);
      linked = table-IsLinked;
      sized = table-sized;
      homed = All-remove _ (hash_block p b) bc.orphanage v.homed;
      awaited = table-awaited;
      pooled = All-remove_transactions (IsPooled p) b.content.transactions bc.mempool v.pooled;
      fresh = λ q. cc;
    }
    attach-IsValid_at false e = record {
      top = v.top;
      top_stored =
          get-insert_ne bc.tip (hash_block p b) entry bc.hash_to_block
            (absent_ne bc.hash_to_block new v.top_stored)
          ∙ v.top_stored;
      highest = table-highest v.top.height (ground arith) (ground arith);
      linked = table-IsLinked;
      sized = table-sized;
      homed = All-remove _ (hash_block p b) bc.orphanage v.homed;
      awaited = table-awaited;
      pooled = All-remove_transactions (IsPooled p) b.content.transactions bc.mempool v.pooled;
      fresh = λ q. All-remove_transactions _ b.content.transactions bc.mempool (v.fresh q);
    }

  -- One change keeps a chain well formed.
  pub Step-IsValid :
      {bc : Blockchain} {added : List H256} {bc' : Blockchain}
      → Step p bc added bc'
      → IsValid p bc
      → IsValid p bc'
  Step-IsValid {bc} (shelve b h) v = shelve-IsValid bc b h v
  Step-IsValid {bc} (prune top h) v = prune-IsValid bc top h v
  Step-IsValid {bc} (attach b parent new_state top new found hard moves h) v =
      let same : top ≡ v.top = cc (h, v.top_stored) in
      rw same (attach-IsValid_at bc b parent new_state v new found hard moves _ refl)

  pub Run-IsValid :
      {bc : Blockchain} {added : List H256} {bc' : Blockchain}
      → Run p bc added bc'
      → IsValid p bc
      → IsValid p bc'
  Run-IsValid stop v = v
  Run-IsValid (step s r) v = Run-IsValid r (Step-IsValid s v)
