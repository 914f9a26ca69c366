-- ===== src/State/Typed.antt =====
-- The accounts stay within the types of their fields (state.rs).
use ce334_bitcoin_client.Prelude.{
  ℕ, zero, suc, ◌+◌, ◌-◌, ◌%◌, ◌^◌, ◌<◌, ◌≡◌, some, List, [], ◌∷◌, All, arith, subst, Option-cases,
  inl, inr,
}
use ce334_bitcoin_client.Crypto.Address.{H160, h160_key}
use ce334_bitcoin_client.HashMap.{HashMap, get, insert}
use ce334_bitcoin_client.HashMap.Laws.{All-get, All-insert}
use ce334_bitcoin_client.HashMap.Distinct.{IsDistinct, insert-IsDistinct}
use ce334_bitcoin_client.Transaction.{RawTransaction}
use ce334_bitcoin_client.Transaction.Signing.{get_deterministic_keypair, address_of}
use ce334_bitcoin_client.Platform.{Platform}
use ce334_bitcoin_client.State.{
  AccountInfo, State, or_new, ico, ico_from, transfer, update_with_transactions,
}
use ce334_bitcoin_client.State.Update.{
  check_valid, update_with_transactions-nil, update_with_transactions-cons_some,
}

-- a u32 and a u64
abbrev pub IsTyped : AccountInfo → Type 0
IsTyped info = (info.nonce < 2 ^ 32) × (info.balance < 2 ^ 64)

abbrev Fits : H160 × AccountInfo → Type 0
Fits e = IsTyped e.1

-- Each address has one account, whose fields fit.
abbrev pub AreTyped : HashMap H160 AccountInfo → Type 0
AreTyped m = IsDistinct m × All Fits m

insert-AreTyped :
    (a : H160) (info : AccountInfo) (m : HashMap H160 AccountInfo)
    → IsTyped info
    → AreTyped m
    → AreTyped (insert a info m)
insert-AreTyped a info m h t = (insert-IsDistinct a info m t.0, All-insert Fits a info m h t.1)

or_new-IsTyped : (a : H160) (m : HashMap H160 AccountInfo) → AreTyped m → IsTyped (or_new (get a m))
or_new-IsTyped a m t = elim (Option-cases (get a m)) [
  | inl absent ↦ rw absent (omega arith, omega arith)
  | inr (info, found) ↦ rw found (All-get Fits a m t.1 found)
]

transfer-AreTyped :
    (s : State) (t : RawTransaction) (spender : AccountInfo)
    → IsTyped spender
    → AreTyped s.pub_key_to_acc_info
    → AreTyped (transfer s t spender).pub_key_to_acc_info
unfolding transfer
transfer-AreTyped s t spender h typed =
    let paid : AccountInfo = record {
      nonce = (spender.nonce + 1) % 2 ^ 32;
      balance = spender.balance - t.value;
    } in
    let charged =
      insert-AreTyped t.from_addr paid s.pub_key_to_acc_info (omega arith, omega (arith, h.1))
        typed in
    insert-AreTyped t.to_addr _ (insert t.from_addr paid s.pub_key_to_acc_info)
      ((or_new-IsTyped t.to_addr _ charged).0, omega arith) charged

pub update_with_transactions-AreTyped :
    (s s' : State) (ts : List RawTransaction)
    → update_with_transactions s ts ≡ some s'
    → AreTyped s.pub_key_to_acc_info
    → AreTyped s'.pub_key_to_acc_info
update_with_transactions-AreTyped s s' [] e typed =
    let same : s ≡ s' = cc (e, update_with_transactions-nil s) in
    subst (λ (x : State). AreTyped x.pub_key_to_acc_info) same typed
update_with_transactions-AreTyped s s' (t ∷ ts) e typed =
    let (valid, rest) = update_with_transactions-cons_some s t ts e in
    let (i, found, nonce, le, run) = check_valid s t valid in
    update_with_transactions-AreTyped (transfer s t i) s' ts (rw run at rest)
      (transfer-AreTyped s t i (All-get Fits t.from_addr s.pub_key_to_acc_info typed.1 found) typed)

ico_from-AreTyped :
    (p : Platform) (rounds i : ℕ) (m : HashMap H160 AccountInfo)
    → AreTyped m
    → AreTyped (ico_from p rounds i m)
unfolding ico_from
ico_from-AreTyped p zero i m typed = typed
ico_from-AreTyped p (suc rounds) i m typed = ico_from-AreTyped p rounds (i + 1) _ (
    insert-AreTyped (address_of p (get_deterministic_keypair p i)) _ m (omega arith, omega arith)
      typed)

pub ico-AreTyped : (p : Platform) → AreTyped (ico p).pub_key_to_acc_info
unfolding ico
ico-AreTyped p = ico_from-AreTyped p 10 0 [] (tt, tt)
