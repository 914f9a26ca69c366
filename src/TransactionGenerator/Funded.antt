-- ===== src/TransactionGenerator/Funded.antt =====
-- The accounts of the coin offering in the states of a chain (state.rs, transaction_generator.rs).
use ce334_bitcoin_client.Prelude.{
  subst, ℕ, zero, suc, ◌+◌, ◌≤◌, ◌<◌, ◌≡◌, ◌∙◌, some, List, [], ◌∷◌, All, arith, Bool-cases, inl,
  inr, ℕ_discrete, beq-cases,
}
use ce334_bitcoin_client.Crypto.Address.{H160, h160_key}
use ce334_bitcoin_client.Crypto.Hash.{H256}
use ce334_bitcoin_client.HashMap.{HashMap, get, insert}
use ce334_bitcoin_client.HashMap.Laws.{get-insert_self, get-insert_ne}
use ce334_bitcoin_client.Transaction.{RawTransaction}
use ce334_bitcoin_client.State.{
  AccountInfo, State, ico, ico_from, get_acc_info, transfer, update_in_place,
  update_with_transactions, check_transaction_validity,
}
use ce334_bitcoin_client.State.Update.{
  check_valid, update_in_place_refused, update_with_transactions-nil,
  update_with_transactions-cons_some,
}
use ce334_bitcoin_client.State.Ico.{ico_address}
use ce334_bitcoin_client.Platform.{Platform}
use ce334_bitcoin_client.Blockchain.{Blockchain, Stored}
use ce334_bitcoin_client.Blockchain.Reach.{Reach, Reach-OfStates}

abbrev HasEntry : H160 → HashMap H160 AccountInfo → Type 0
HasEntry a m = (i : AccountInfo) × (get a m ≡ some i)

insert-HasEntry :
    (a k : H160) (v : AccountInfo) (m : HashMap H160 AccountInfo)
    → HasEntry a m
    → HasEntry a (insert k v m)
insert-HasEntry a k v m h = elim (beq-cases k a) [
  | inl same ↦ (v, rw same (get-insert_self a v m))
  | inr other ↦ (h.0, get-insert_ne a k v m other ∙ h.1)
]

-- The state has an account at the address.
abbrev pub HasAccount : H160 → State → Type 0
HasAccount a s = (i : AccountInfo) × (get_acc_info s a ≡ some i)

transfer-HasAccount :
    (a : H160) (s : State) (t : RawTransaction) (i : AccountInfo)
    → HasAccount a s
    → HasAccount a (transfer s t i)
unfolding transfer get_acc_info
transfer-HasAccount a s t i h =
    insert-HasEntry a t.to_addr _ _ (insert-HasEntry a t.from_addr _ s.pub_key_to_acc_info h)

update_in_place-HasAccount :
    (a : H160) (s : State) (t : RawTransaction)
    → HasAccount a s
    → HasAccount a (update_in_place s t).1
update_in_place-HasAccount a s t h = elim (Bool-cases (check_transaction_validity s t)) [
  | inl valid ↦
      let (i, e, nonce, le, ran) = check_valid s t valid in rw ran (transfer-HasAccount a s t i h)
  | inr refused ↦ rw (update_in_place_refused s t refused) h
]

-- Accounts are never closed.
pub update_with_transactions-HasAccount :
    (a : H160) (s s' : State) (ts : List RawTransaction)
    → update_with_transactions s ts ≡ some s'
    → HasAccount a s
    → HasAccount a s'
update_with_transactions-HasAccount a s s' [] e h =
    let same : s ≡ s' = cc (e, update_with_transactions-nil s) in subst (HasAccount a) same h
update_with_transactions-HasAccount a s s' (t ∷ ts) e h =
    let (valid, rest) = update_with_transactions-cons_some s t ts e in
    update_with_transactions-HasAccount a (update_in_place s t).1 s' ts rest
      (update_in_place-HasAccount a s t h)

module _ (p : Platform) where
  ico_from-HasEntry :
      (rounds i : ℕ) (a : H160) (m : HashMap H160 AccountInfo)
      → HasEntry a m
      → HasEntry a (ico_from p rounds i m)
  unfolding ico_from
  ico_from-HasEntry zero i a m h = h
  ico_from-HasEntry (suc rounds) i a m h =
      ico_from-HasEntry rounds (i + 1) a _ (insert-HasEntry a _ _ m h)

  ico_from-HasOwn :
      (rounds i k : ℕ) (m : HashMap H160 AccountInfo)
      → i ≤ k
      → k < i + rounds
      → HasEntry (ico_address p k) (ico_from p rounds i m)
  unfolding ico_from
  ico_from-HasOwn zero i k m le lt = absurd (omega arith)
  ico_from-HasOwn (suc rounds) i k m le lt = elim (ℕ_discrete i k) [
    | yes e ↦ rw (← e) (
        ico_from-HasEntry rounds (i + 1) (ico_address p i) _
          (_, get-insert_self (ico_address p i) _ m))
    | no ne ↦ ico_from-HasOwn rounds (i + 1) k _ (omega arith) (omega arith)
  ]

  -- The state of every block of a reachable chain has the ten accounts of the coin offering.
  pub Reach-HasAccount :
      (k : ℕ) {bc : Blockchain}
      → k < 10
      → Reach p bc
      → All (λ (e : H256 × Stored). HasAccount (ico_address p k) e.1.state) bc.hash_to_block
  unfolding ico get_acc_info
  Reach-HasAccount k {bc} h r =
      Reach-OfStates p (HasAccount (ico_address p k))
        (λ s s' ts. update_with_transactions-HasAccount (ico_address p k) s s' ts)
        (ico_from-HasOwn 10 0 k [] (omega arith) (omega arith)) r
