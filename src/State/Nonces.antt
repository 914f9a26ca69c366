-- ===== src/State/Nonces.antt =====
-- The nonces of accounts under transactions, and replay (state.rs).
use ce334_bitcoin_client.Prelude.{
  ℕ, ◌+◌, ◌%◌, ◌^◌, ◌<◌, ◌≡◌, true, false, some, List, [], ◌∷◌, if◌then◌else◌, arith, ap,
  Bool-cases, inl, inr, ◌==k◌, beq_refl,
}
use ce334_bitcoin_client.Crypto.Address.{H160, h160_key}
use ce334_bitcoin_client.Transaction.{RawTransaction}
use ce334_bitcoin_client.State.{
  AccountInfo, State, get_acc_info, check_transaction_validity, update_in_place,
  update_with_transactions,
}
use ce334_bitcoin_client.State.Update.{
  account, check_valid, update_in_place-account, update_with_transactions-nil,
  update_with_transactions-cons_some,
}

-- The nonce of a valid transaction is the one that its sender's account is waiting for.
pub check-nonce :
    (s : State) (t : RawTransaction)
    → check_transaction_validity s t ≡ true
    → t.nonce ≡ (account s t.from_addr).nonce
unfolding account get_acc_info
check-nonce s t h = let (i, e, nonce, le, run) = check_valid s t h in ground arith

-- The number of transactions that an address sends.
unfoldable pub sent : H160 → List RawTransaction → ℕ
sent a [] = 0
sent a (t ∷ ts) = (if t.from_addr ==k a then 1 else 0) + sent a ts

-- The transactions of `a` carry the nonces n, n + 1, … in this order.
unfoldable pub InOrder : H160 → ℕ → List RawTransaction → Type 0
InOrder a n [] = Unit
InOrder a n (t ∷ ts) =
    (t.from_addr ≡ a → t.nonce ≡ n)
    × InOrder a (if t.from_addr ==k a then (n + 1) % 2 ^ 32 else n) ts

nonce-after :
    (s : State) (t : RawTransaction) (a : H160)
    → check_transaction_validity s t ≡ true
    → (account (update_in_place s t).1 a).nonce
      ≡ (if t.from_addr ==k a then ((account s a).nonce + 1) % 2 ^ 32 else (account s a).nonce)
nonce-after s t a h = ap (λ (i : AccountInfo). i.nonce) (update_in_place-account s t a h)

-- In an accepted batch the transactions of an address whose account's nonce is below 2 ^ 32 carry
-- consecutive nonces from the account's own on, and the account's nonce moves on by their number, modulo
-- 2 ^ 32.
pub update_with_transactions-nonces :
    (s : State) (ts : List RawTransaction) (a : H160) {s' : State}
    → (account s a).nonce < 2 ^ 32
    → update_with_transactions s ts ≡ some s'
    → InOrder a (account s a).nonce ts
      × ((account s' a).nonce ≡ ((account s a).nonce + sent a ts) % 2 ^ 32)
unfolding InOrder sent
update_with_transactions-nonces s [] a h e = (tt, ground (arith, update_with_transactions-nil s))
update_with_transactions-nonces s (t ∷ ts) a h e =
    let (valid, rest) = update_with_transactions-cons_some s t ts e in
    let step = nonce-after s t a valid in
    let ih = update_with_transactions-nonces (update_in_place s t).1 ts a (ground arith) rest in
    ((λ own. rw own at (check-nonce s t valid), rw step at ih.0), ground arith)

-- A valid transaction of an account whose nonce is below 2 ^ 32 is refused once it has been executed, right
-- after it and after any further accepted batch with fewer than 2 ^ 32 - 1 transactions of its sender.
pub update_in_place_no_replay :
    (s : State) (t : RawTransaction) (ts : List RawTransaction) {s' : State}
    → check_transaction_validity s t ≡ true
    → update_with_transactions (update_in_place s t).1 ts ≡ some s'
    → (account s t.from_addr).nonce < 2 ^ 32
    → sent t.from_addr ts + 1 < 2 ^ 32
    → check_transaction_validity s' t ≡ false
update_in_place_no_replay s t ts {s'} h e small few =
    elim (Bool-cases (check_transaction_validity s' t)) [
      | inr refused ↦ refused
      | inl again ↦
          let first = check-nonce s t h in
          let last = check-nonce s' t again in
          let step = nonce-after s t t.from_addr h in
          let own = beq_refl t.from_addr in
          let moved : (account (update_in_place s t).1 t.from_addr).nonce
              ≡ ((account s t.from_addr).nonce + 1) % 2 ^ 32 =
            rw own at step in
          let later =
            update_with_transactions-nonces (update_in_place s t).1 ts t.from_addr (omega arith)
              e in
          absurd (omega (arith, first, last, moved, later.1))
    ]
