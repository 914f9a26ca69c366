-- ===== src/Miner/Template.antt =====
-- `create_next_block`: the block that the miner works on.
use ce334_bitcoin_client.Prelude.{
  All, All-append, All-mono, ◌<◌, Returns-done, sym, ap, ℕ, ◌≤◌, ◌≡◌, true, Option, none, some,
  List, [], ◌∷◌, ◌++◌, map, length, length-append, refl, arith, ◌∙◌, done, Returns, Bool-cases, inl,
  inr, leb, ltb,
}
use ce334_bitcoin_client.Crypto.Hash.{H256, h256_key}
use ce334_bitcoin_client.Crypto.Merkle.{MerkleTree}
use ce334_bitcoin_client.Crypto.Merkle
use ce334_bitcoin_client.Crypto.Merkle.Build.{new_builds_levels}
use ce334_bitcoin_client.HashMap.{HashMap}
use ce334_bitcoin_client.Block.{Block}
use ce334_bitcoin_client.Transaction.Signing.{verify_signature}
use ce334_bitcoin_client.Transaction.{RawTransaction, SignedTransaction}
use ce334_bitcoin_client.State.{
  check_transaction_validity, State, update_in_place, update_with_transactions,
}
use ce334_bitcoin_client.State.Update.{
  update_with_transactions-nil, update_with_transactions-cons, update_in_place-check,
  update_in_place_refused, update_with_transactions-append,
}
use ce334_bitcoin_client.Platform.{Platform}
use ce334_bitcoin_client.Blockchain.{parent_of, Blockchain, Stored, tip_data, raw_transactions}
use ce334_bitcoin_client.Blockchain.Valid.{IsPooled, IsValid}
use ce334_bitcoin_client.Miner.{select_transactions, create_next_block, signed_hashable}

abbrev raws : List SignedTransaction → List RawTransaction
raws = map (λ t. t.raw_transaction)

-- The transactions apply to the first state one after another, and there are at most seven.
abbrev Applies : State → List SignedTransaction → Type 0
Applies s ts = ((s' : State) × (update_with_transactions s (raws ts) ≡ some s')) × (length ts ≤ 7)

map-append {ℓ κ} :
    {A : Type ℓ} {B : Type κ} (f : A → B) (xs ys : List A) → map f (xs ++ ys) ≡ map f xs ++ map f ys
map-append f [] ys = refl
map-append f (x ∷ xs) ys = ap (◌∷◌ (f x)) (map-append f xs ys)

-- A batch goes on with a transaction that the state takes.
applies_one_more :
    (s state : State) (ts : List SignedTransaction) (t : SignedTransaction)
    → update_with_transactions s (raws ts) ≡ some state
    → (update_in_place state t.raw_transaction).0 ≡ true
    → update_with_transactions s (raws (ts ++ t ∷ []))
      ≡ some (update_in_place state t.raw_transaction).1
applies_one_more s state ts t e h =
    let valid : check_transaction_validity state t.raw_transaction ≡ true =
      sym (update_in_place-check state t.raw_transaction) ∙ h in
    rw
      (
        map-append (λ x. x.raw_transaction) ts (t ∷ []),
        update_with_transactions-append s (raws ts) (t.raw_transaction ∷ []),
        e,
        update_with_transactions-cons state t.raw_transaction [],
        valid,
      )
      (update_with_transactions-nil (update_in_place state t.raw_transaction).1)

select_transactions-Applies :
    (pool : HashMap H256 SignedTransaction) (ts : List SignedTransaction) (s state : State)
    → update_with_transactions s (raws ts) ≡ some state
    → length ts ≤ 7
    → Applies s (select_transactions pool ts state)
unfolding select_transactions
select_transactions-Applies [] ts s state e h = ((state, e), h)
select_transactions-Applies ((_, t) ∷ pool) ts s state e h = elim (Bool-cases (leb 7 (length ts))) [
  | inl enough ↦ rw (select_transactions, enough) ((state, e), h)
  | inr room ↦
      rw (select_transactions, room)
        (elim (Bool-cases (update_in_place state t.raw_transaction).0) [
          | inl joins ↦ rw joins (
              select_transactions-Applies pool (ts ++ t ∷ []) s
                (update_in_place state t.raw_transaction).1 (applies_one_more s state ts t e joins)
                (ground (arith, length-append ts (t ∷ []))))
          | inr refused ↦ rw refused (
              rw
                (update_in_place_refused state t.raw_transaction
                  (sym (update_in_place-check state t.raw_transaction) ∙ refused))
                (select_transactions-Applies pool ts s state e h))
        ])
]

module _ {κ} (P : SignedTransaction → Type κ) where
  -- What holds of all transactions of the mempool holds of those selected.
  select_transactions-All :
      (pool : HashMap H256 SignedTransaction) (ts : List SignedTransaction) (state : State)
      → All (λ e. P e.1) pool
      → All P ts
      → All P (select_transactions pool ts state)
  unfolding select_transactions
  select_transactions-All [] ts state h g = g
  select_transactions-All ((_, t) ∷ pool) ts state h g = elim (Bool-cases (leb 7 (length ts))) [
    | inl enough ↦ rw (select_transactions, enough) g
    | inr room ↦
        rw (select_transactions, room)
          (elim (Bool-cases (update_in_place state t.raw_transaction).0) [
            | inl joins ↦ rw joins (
                select_transactions-All pool (ts ++ t ∷ [])
                  (update_in_place state t.raw_transaction).1 h.1
                  (All-append P ts (t ∷ []) g (h.0, tt)))
            | inr refused ↦
                rw refused (
                  select_transactions-All pool ts (update_in_place state t.raw_transaction).1 h.1 g)
          ])
  ]

module _ (p : Platform) where
  -- A block that extends the tip: five to seven transactions that apply to the tip's state in order.
  pub record IsTemplate (bc : Blockchain) (top : Stored) (b : Block) : Type 0 where
    pub on_tip : parent_of b ≡ bc.tip
    pub same_difficulty : b.header.difficulty ≡ top.block.header.difficulty
    pub next_state : State
    pub applies : update_with_transactions top.state (raw_transactions b) ≡ some next_state
    pub at_least_five : 5 ≤ length b.content.transactions
    pub at_most_seven : length b.content.transactions ≤ 7
    -- each is signed by its sender
    pub signed : All (λ t. verify_signature p t ≡ true) b.content.transactions
    -- the Merkle root is that of the tree over its transactions
    pub tree : MerkleTree
    pub tree_new : Merkle.new p.digest (signed_hashable p) b.content.transactions ≡ done tree
    pub merkle_root : b.header.merkle_root ≡ Merkle.root tree

  abbrev pub IsTemplateIfAny : Blockchain → Stored → Option Block → Type 0
  IsTemplateIfAny bc top none = length (select_transactions bc.mempool [] top.state) < 5
  IsTemplateIfAny bc top (some b) = IsTemplate bc top b

  tip_data-top : (bc : Blockchain) (v : IsValid p bc) → tip_data bc ≡ done v.top
  unfolding tip_data
  tip_data-top bc v = rw (tip_data, v.top_stored)

  merkle_tree_of :
      (ts : List SignedTransaction)
      → 1 ≤ length ts
      → (t : MerkleTree) × (Merkle.new p.digest (signed_hashable p) ts ≡ done t)
  merkle_tree_of ts h =
      let (t, e, _) =
        Returns-done _ (Merkle.new p.digest (signed_hashable p) ts)
          (new_builds_levels p.digest (signed_hashable p) ts h) in
      (t, e)

  -- On a well-formed chain `create_next_block` returns. It makes no block only if fewer than five
  -- transactions are selected. The block that it makes extends the tip: it has the tip's difficulty, five
  -- to seven transactions, signed by their senders, that apply to the tip's state one after another, and
  -- the root of the Merkle tree over them.
  pub create_next_block-IsTemplate :
      (starting_nonce timestamp : ℕ) (bc : Blockchain) (v : IsValid p bc)
      → Returns (IsTemplateIfAny bc v.top) (create_next_block p starting_nonce timestamp bc)
  unfolding create_next_block
  create_next_block-IsTemplate starting_nonce timestamp bc v =
      let ts = select_transactions bc.mempool [] v.top.state in
      let good =
        select_transactions-Applies bc.mempool [] v.top.state v.top.state
          (update_with_transactions-nil v.top.state) (omega arith) in
      elim (Bool-cases (ltb (length ts) 5)) [
        | inl few ↦ rw (create_next_block, tip_data-top bc v, few) (ground arith)
        | inr many ↦
            let size : 5 ≤ length ts = ground arith in
            let (t, e) = merkle_tree_of ts (omega arith) in
            rw (create_next_block, tip_data-top bc v, many, e)
              (record {
                on_tip = refl;
                same_difficulty = refl;
                next_state = good.0.0;
                applies = good.0.1;
                at_least_five = size;
                at_most_seven = good.1;
                signed =
                    select_transactions-All (λ x. verify_signature p x ≡ true) bc.mempool []
                      v.top.state
                      (All-mono (IsPooled p) (λ e. verify_signature p e.1 ≡ true) bc.mempool
                        (λ e h. h.1) v.pooled)
                      tt;
                tree = t;
                tree_new = e;
                merkle_root = refl;
              })
      ]
