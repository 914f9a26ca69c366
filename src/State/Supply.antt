-- ===== src/State/Supply.antt =====
-- The sum of all balances under transactions (state.rs).
use ce334_bitcoin_client.Prelude.{
  ℕ, ◌+◌, ◌-◌, ◌%◌, ◌^◌, ◌≤◌, ◌<◌, ◌≡◌, refl, Option, none, some, List, [], ◌∷◌, arith, Bool-cases,
  inl, inr,
}
use ce334_bitcoin_client.Crypto.Address.{H160, h160_key}
use ce334_bitcoin_client.HashMap.{HashMap, get, insert, sum_values}
use ce334_bitcoin_client.HashMap.Measure.{
  sum_values-insert, sum_values-insert_new, get-le-sum_values,
}
use ce334_bitcoin_client.Transaction.{RawTransaction}
use ce334_bitcoin_client.State.{
  AccountInfo, State, or_new, check_transaction_validity, transfer, update_in_place,
  update_with_transactions,
}
use ce334_bitcoin_client.State.Update.{
  check_valid, update_in_place_refused, update_with_transactions-nil,
  update_with_transactions-cons_some,
}

-- The sum of all balances.
unfoldable pub total_supply : State → ℕ
total_supply s = sum_values (λ i. i.balance) s.pub_key_to_acc_info

abbrev balances : HashMap H160 AccountInfo → ℕ
balances m = sum_values (λ i. i.balance) m

-- crediting an account, present or new
credit :
    (m : HashMap H160 AccountInfo) (a : H160) (v : ℕ) (o : Option AccountInfo)
    → get a m ≡ o
    → balances m + v < 2 ^ 64
    → balances (
        insert a
          (record { nonce = (or_new o).nonce; balance = ((or_new o).balance + v) % 2 ^ 64 })
          m)
      ≡ balances m + v
credit m a v none e h = ground (
  arith,
  sum_values-insert_new (λ i. i.balance) a (record { nonce = 0; balance = (0 + v) % 2 ^ 64 }) m e,
)
credit m a v (some r) e h = ground (
  arith,
  sum_values-insert (λ i. i.balance) a
      (record { nonce = r.nonce; balance = (r.balance + v) % 2 ^ 64 }) r m e,
  get-le-sum_values (λ i. i.balance) a r m e,
)

transfer-total_supply :
    (s : State) (t : RawTransaction) (i : AccountInfo)
    → get t.from_addr s.pub_key_to_acc_info ≡ some i
    → t.value ≤ i.balance
    → total_supply s < 2 ^ 64
    → total_supply (transfer s t i) ≡ total_supply s
unfolding total_supply transfer
transfer-total_supply s t i e le h =
    let m = s.pub_key_to_acc_info in
    let paid : AccountInfo = record {
      nonce = (i.nonce + 1) % 2 ^ 32;
      balance = i.balance - t.value;
    } in
    let charged = insert t.from_addr paid m in
    let spent = sum_values-insert (λ i. i.balance) t.from_addr paid i m e in
    let covered = get-le-sum_values (λ i. i.balance) t.from_addr i m e in
    let credited = credit charged t.to_addr t.value (get t.to_addr charged) refl (omega arith) in
    omega (arith, credited)

-- A call of `update_in_place`, whether it succeeds or not, leaves the sum of the balances.
pub update_in_place-total_supply :
    (s : State) (t : RawTransaction)
    → total_supply s < 2 ^ 64
    → total_supply (update_in_place s t).1 ≡ total_supply s
update_in_place-total_supply s t h = elim (Bool-cases (check_transaction_validity s t)) [
  | inl valid ↦
      let (i, e, nonce, le, run) = check_valid s t valid in
      rw run (transfer-total_supply s t i e le h)
  | inr refused ↦ rw (update_in_place_refused s t refused)
]

-- Where the sum of all balances is below 2 ^ 64, an accepted list of transactions leaves the sum.
pub update_with_transactions-total_supply :
    (s : State) (ts : List RawTransaction) {s' : State}
    → total_supply s < 2 ^ 64
    → update_with_transactions s ts ≡ some s'
    → total_supply s' ≡ total_supply s
update_with_transactions-total_supply s [] h e = ground (arith, update_with_transactions-nil s)
update_with_transactions-total_supply s (t ∷ ts) h e =
    let (valid, rest) = update_with_transactions-cons_some s t ts e in
    let same = update_in_place-total_supply s t h in
    omega (
      arith,
      same,
      update_with_transactions-total_supply (update_in_place s t).1 ts (omega arith) rest,
    )
