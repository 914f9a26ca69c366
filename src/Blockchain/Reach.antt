-- ===== src/Blockchain/Reach.antt =====
-- The chains that the program can reach from `Blockchain::new`, and what holds of all of them.
use ce334_bitcoin_client.Prelude.{
  ap, ◌∙◌, sym, ◌≡◌, Bool, false, List, [], All, refl, arith, done, subst,
}
use ce334_bitcoin_client.Crypto.Hash.{H256, h256_key}
use ce334_bitcoin_client.HashMap.{HashMap, get, insert}
use ce334_bitcoin_client.HashMap.Laws.{get-insert_self, All-get, All-insert}
use ce334_bitcoin_client.Transaction.{SignedTransaction}
use ce334_bitcoin_client.Block.{Block, genesis}
use ce334_bitcoin_client.State.{ico}
use ce334_bitcoin_client.State.Supply.{total_supply, update_with_transactions-total_supply}
use ce334_bitcoin_client.State.Ico.{total_supply-ico-le}
use ce334_bitcoin_client.Platform.{Platform}
use ce334_bitcoin_client.Block.Hashing.{hash_block}
use ce334_bitcoin_client.Blockchain.{
  raw_transactions, some, update_with_transactions, RawTransaction, State, Stored, Blockchain, new,
  put_orphan, parent_of, insert_block_with_validation, insert_transaction_with_validation,
}
use ce334_bitcoin_client.Blockchain.Steps.{
  Step, shelve, attach, prune, Run, stop, step, child_height,
}
use ce334_bitcoin_client.Blockchain.Valid.{IsValid, genesis_stored, root}
use ce334_bitcoin_client.Blockchain.Preserved.{Run-IsValid}
use ce334_bitcoin_client.Blockchain.Kept.{attached-table}
use ce334_bitcoin_client.Blockchain.Total.{insert_block_with_validation-ran}
use ce334_bitcoin_client.Blockchain.Submit.{insert_transaction_with_validation-IsValid}

module _ (p : Platform) where
  -- `Blockchain::new` makes a well-formed chain.
  pub new-IsValid : IsValid p (new p)
  unfolding new get insert
  new-IsValid = record {
    top = genesis_stored p;
    top_stored = unfold new in get-insert_self (hash_block p genesis) (genesis_stored p) [];
    highest = (omega arith, tt);
    linked = (root refl refl, tt);
    sized = (omega arith, tt);
    homed = tt;
    awaited = λ k e. refl;
    pooled = tt;
    fresh = λ _. tt;
  }

  -- The chains reached by any sequence of blocks and transactions from anyone.
  pub data Reach : Blockchain → Type 0 where
    start : Reach (new p)
    block :
        {bc bc' : Blockchain} (b : Block) (added : List H256)
        → Reach bc
        → insert_block_with_validation p b bc ≡ done (added, bc')
        → Reach bc'
    transaction :
        {bc bc' : Blockchain} (t : SignedTransaction) (pooled : Bool)
        → Reach bc
        → insert_transaction_with_validation p t bc ≡ done (pooled, bc')
        → Reach bc'

  -- A property of states that accepted batches keep, for all stored states.
  module _ (Q : State → Type 0)
      (keeps : (s s' : State) (ts : List RawTransaction)
        → update_with_transactions s ts ≡ some s'
        → Q s
        → Q s') where
    abbrev pub OfStates : Blockchain → Type 0
    OfStates bc = All (λ (e : H256 × Stored). Q e.1.state) bc.hash_to_block

    Step-OfStates :
        {bc : Blockchain} {added : List H256} {bc' : Blockchain}
        → Step p bc added bc'
        → OfStates bc
        → OfStates bc'
    unfolding put_orphan
    Step-OfStates (shelve b h) s = s
    Step-OfStates (prune top h) s = s
    Step-OfStates {bc} (attach b parent new_state top new found hard moves h) s =
        let before =
          All-get (λ (e : H256 × Stored). Q e.1.state) (parent_of b) bc.hash_to_block s found in
        rw (attached-table p b parent new_state top bc) (
          All-insert (λ (e : H256 × Stored). Q e.1.state) (hash_block p b)
            (record { block = b; height = child_height p parent; state = new_state })
            bc.hash_to_block (keeps parent.state new_state (raw_transactions b) moves before) s)

    Run-OfStates :
        {bc : Blockchain} {added : List H256} {bc' : Blockchain}
        → Run p bc added bc'
        → OfStates bc
        → OfStates bc'
    Run-OfStates stop s = s
    Run-OfStates (step st r) s = Run-OfStates r (Step-OfStates st s)

  abbrev pub HasSupply : State → Type 0
  HasSupply s = total_supply s ≡ total_supply (ico p)

  pub HasSupply-kept :
      (s s' : State) (ts : List RawTransaction)
      → update_with_transactions s ts ≡ some s'
      → HasSupply s
      → HasSupply s'
  HasSupply-kept s s' ts moves before =
      let bound = total_supply-ico-le p in
      let same = update_with_transactions-total_supply s ts (omega arith) moves in omega arith

  -- Every stored state holds the coins of the initial offering.
  abbrev pub IsSupplied : Blockchain → Type 0
  IsSupplied bc = All (λ (e : H256 × Stored). HasSupply e.1.state) bc.hash_to_block

  pub record IsSound (bc : Blockchain) : Type 0 where
    pub valid : IsValid p bc
    pub supplied : IsSupplied bc
    pub clean : bc.dirty_mempool ≡ false

  -- Every reachable chain is well formed, has a clean mempool, and every state that it stores holds
  -- exactly the coins of the initial offering.
  pub Reach-IsSound : {bc : Blockchain} → Reach bc → IsSound bc
  Reach-IsSound start = record {
    valid = new-IsValid;
    supplied = unfold new insert in (refl, tt);
    clean = unfold new in refl;
  }
  Reach-IsSound (block {bc} b added r e) =
      let s = Reach-IsSound r in
      let (run, kept) = insert_block_with_validation-ran p b bc s.valid e in
      record {
        valid = Run-IsValid p run s.valid;
        supplied = Run-OfStates HasSupply HasSupply-kept run s.supplied;
        clean = kept s.clean;
      }
  Reach-IsSound (transaction {bc} {bc'} t pooled r e) =
      let s = Reach-IsSound r in
      let (q, e', v, dirty, table) = insert_transaction_with_validation-IsValid p t bc s.valid in
      let same : q ≡ (pooled, bc') = cc (e', e) in
      subst (λ (x : Bool × Blockchain). IsSound x.1) same
        (record {
          valid = v;
          supplied =
              subst
                (λ (m : HashMap H256 Stored).
                  All (λ (x : H256 × Stored). total_supply x.1.state ≡ total_supply (ico p)) m)
                (sym table) s.supplied;
          clean = dirty ∙ s.clean;
        })

  -- What holds of the state of the initial offering and is kept by accepted batches holds of every state
  -- that a reachable chain stores.
  pub Reach-OfStates :
      (Q : State → Type 0)
      → ((s s' : State) (ts : List RawTransaction)
          → update_with_transactions s ts ≡ some s'
          → Q s
          → Q s')
      → Q (ico p)
      → {bc : Blockchain} → Reach bc
      → All (λ (e : H256 × Stored). Q e.1.state) bc.hash_to_block
  Reach-OfStates Q keeps first start = unfold new insert in (first, tt)
  Reach-OfStates Q keeps first (block {bc} b added r e) =
      let (run, kept) = insert_block_with_validation-ran p b bc (Reach-IsSound r).valid e in
      Run-OfStates Q keeps run (Reach-OfStates Q keeps first r)
  Reach-OfStates Q keeps first (transaction {bc} {bc'} t pooled r e) =
      let (q, e', v, dirty, table) =
        insert_transaction_with_validation-IsValid p t bc (Reach-IsSound r).valid in
      let same : q ≡ (pooled, bc') = cc (e', e) in
      let whole : bc'.hash_to_block ≡ bc.hash_to_block =
        ap (λ (x : Bool × Blockchain). x.1.hash_to_block) (sym same) ∙ table in
      subst (λ (m : HashMap H256 Stored). All (λ (x : H256 × Stored). Q x.1.state) m) (sym whole)
        (Reach-OfStates Q keeps first r)
