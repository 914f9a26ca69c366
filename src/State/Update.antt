-- ===== src/State/Update.antt =====
-- What `update_in_place` does to every account.
use ce334_bitcoin_client.Prelude.{
  ◌+◌, ◌-◌, ◌%◌, ◌^◌, ◌≤◌, ◌≡◌, ◌⊎◌, refl, true, false, Option, none, some, List, [], ◌∷◌, ◌++◌,
  if◌then◌else◌, arith, ◌==k◌, Option-cases, Bool-cases, inl, inr,
}
use ce334_bitcoin_client.Crypto.Address.{H160, h160_key}
use ce334_bitcoin_client.HashMap.{HashMap, get, insert}
use ce334_bitcoin_client.HashMap.Laws.{get-insert}
use ce334_bitcoin_client.Transaction.{RawTransaction}
use ce334_bitcoin_client.State.{
  update_with_transactions, AccountInfo, State, or_new, get_acc_info, check_transaction_validity,
  transfer, update_in_place,
}

-- The account at an address, an empty one where the state has none.
unfoldable pub account : State → H160 → AccountInfo
account s a = or_new (get_acc_info s a)

-- The flag that `update_in_place` returns is what `check_transaction_validity` says.
pub update_in_place-check :
    (s : State) (t : RawTransaction) → (update_in_place s t).0 ≡ check_transaction_validity s t
unfolding update_in_place check_transaction_validity
update_in_place-check s t = ground arith

-- A transaction that is refused changes nothing.
pub update_in_place_refused :
    (s : State) (t : RawTransaction)
    → check_transaction_validity s t ≡ false
    → update_in_place s t ≡ (false, s)
unfolding update_in_place check_transaction_validity
update_in_place_refused s t h = ground arith

-- The code path of a valid transaction.
pub check_valid :
    (s : State) (t : RawTransaction)
    → check_transaction_validity s t ≡ true
    → (i : AccountInfo) × (get t.from_addr s.pub_key_to_acc_info ≡ some i)
      × (i.nonce ≡ t.nonce)
      × (t.value ≤ i.balance)
      × (update_in_place s t ≡ (true, transfer s t i))
unfolding check_transaction_validity update_in_place
check_valid s t h = go (Option-cases (get t.from_addr s.pub_key_to_acc_info))
  where
    go :
        (get t.from_addr s.pub_key_to_acc_info ≡ none)
          ⊎ ((i : AccountInfo) × (get t.from_addr s.pub_key_to_acc_info ≡ some i))
        → (i : AccountInfo) × (get t.from_addr s.pub_key_to_acc_info ≡ some i)
          × (i.nonce ≡ t.nonce)
          × (t.value ≤ i.balance)
          × (update_in_place s t ≡ (true, transfer s t i))
    go (inl e) = absurd (ground arith)
    go (inr (i, e)) = (i, e, ground arith, ground arith, ground arith)

abbrev charged_info : RawTransaction → AccountInfo → AccountInfo
charged_info t i = record { nonce = (i.nonce + 1) % 2 ^ 32; balance = i.balance - t.value }

abbrev charge : State → RawTransaction → AccountInfo → HashMap H160 AccountInfo
charge s t i = insert t.from_addr (charged_info t i) s.pub_key_to_acc_info

-- What an account holds after a valid transaction, as one formula for the sender, the receiver, one
-- who is both, and everybody else.
abbrev pub after : State → RawTransaction → H160 → AccountInfo
after s t a = record {
  nonce = if t.from_addr ==k a then ((account s a).nonce + 1) % 2 ^ 32 else (account s a).nonce;
  balance =
      let kept =
        if t.from_addr ==k a then (account s a).balance - t.value else (account s a).balance in
      if t.to_addr ==k a then (kept + t.value) % 2 ^ 64 else kept;
}

-- A valid transaction leaves every account, known before or not, as the formula says.
pub update_in_place-account :
    (s : State) (t : RawTransaction) (a : H160)
    → check_transaction_validity s t ≡ true
    → account (update_in_place s t).1 a ≡ after s t a
unfolding account get_acc_info transfer
update_in_place-account s t a h =
    let (i, e, nonce, le, run) = check_valid s t h in
    rw run (
      ground (
        arith,
        h160_key.beq_iff t.from_addr a,
        h160_key.beq_iff t.to_addr a,
        h160_key.beq_iff t.from_addr t.to_addr,
        get-insert a t.to_addr
            (let charged = charge s t i in
              record (or_new (get t.to_addr charged)) {
                balance = ((or_new (get t.to_addr charged)).balance + t.value) % 2 ^ 64;
              })
            (charge s t i),
        get-insert a t.from_addr (charged_info t i) s.pub_key_to_acc_info,
        get-insert t.to_addr t.from_addr (charged_info t i) s.pub_key_to_acc_info,
      ))

-- The batch stops at the first transaction that is refused.
pub update_with_transactions-cons :
    (s : State) (t : RawTransaction) (ts : List RawTransaction)
    → update_with_transactions s (t ∷ ts) ≡ (
        if check_transaction_validity s t
        then update_with_transactions (update_in_place s t).1 ts
        else none)
update_with_transactions-cons s t ts =
    rw (← update_in_place-check s t) (unfold update_with_transactions in ground arith)

pub update_with_transactions-nil : (s : State) → update_with_transactions s [] ≡ some s
unfolding update_with_transactions
update_with_transactions-nil s = refl

-- What a successful batch says of its first transaction and of the rest.
pub update_with_transactions-cons_some :
    (s : State) (t : RawTransaction) (ts : List RawTransaction) {s' : State}
    → update_with_transactions s (t ∷ ts) ≡ some s'
    → (check_transaction_validity s t ≡ true)
      × (update_with_transactions (update_in_place s t).1 ts ≡ some s')
update_with_transactions-cons_some s t ts h = elim (Bool-cases (check_transaction_validity s t)) [
  | inl valid ↦ (valid, ground (arith, update_with_transactions-cons s t ts))
  | inr refused ↦ absurd (ground (arith, update_with_transactions-cons s t ts))
]

abbrev pub then_update : Option State → List RawTransaction → Option State
then_update none ts = none
then_update (some s) ts = update_with_transactions s ts

-- Running two batches in turn is running their concatenation, failures included.
pub update_with_transactions-append :
    (s : State) (xs ys : List RawTransaction)
    → update_with_transactions s (xs ++ ys) ≡ then_update (update_with_transactions s xs) ys
update_with_transactions-append s [] ys = rw update_with_transactions-nil
update_with_transactions-append s (t ∷ xs) ys = ground (
  arith,
  update_with_transactions-cons s t (xs ++ ys),
  update_with_transactions-cons s t xs,
  update_with_transactions-append (update_in_place s t).1 xs ys,
)
