-- ===== src/Blockchain/Balances.antt =====
-- The balances of the accounts on reachable chains (state.rs, blockchain.rs).
use ce334_bitcoin_client.Prelude.{
  ◌+◌, ◌-◌, ◌%◌, ◌^◌, ◌≤◌, ◌≡◌, refl, ap, ◌∙◌, true, some, All, All-mono, arith, Option-cases, inl,
  inr,
}
use ce334_bitcoin_client.Crypto.Address.{H160, h160_key}
use ce334_bitcoin_client.Crypto.Hash.{H256}
use ce334_bitcoin_client.HashMap.{HashMap, get, insert}
use ce334_bitcoin_client.HashMap.Measure.{sum_values-insert, get-le-sum_values}
use ce334_bitcoin_client.Transaction.{RawTransaction}
use ce334_bitcoin_client.State.{
  AccountInfo, State, get_acc_info, or_new, check_transaction_validity, transfer, update_in_place,
}
use ce334_bitcoin_client.State.Update.{check_valid}
use ce334_bitcoin_client.State.Supply.{total_supply}
use ce334_bitcoin_client.State.Ico.{total_supply-ico-le}
use ce334_bitcoin_client.Platform.{Platform}
use ce334_bitcoin_client.Blockchain.{Blockchain, Stored}
use ce334_bitcoin_client.Blockchain.Reach.{HasSupply, Reach, Reach-OfStates, HasSupply-kept}
use ce334_bitcoin_client.State.Typed.{AreTyped, update_with_transactions-AreTyped, ico-AreTyped}

abbrev charge : RawTransaction → AccountInfo → HashMap H160 AccountInfo → HashMap H160 AccountInfo
charge t spender m =
    insert t.from_addr
      (record { nonce = (spender.nonce + 1) % 2 ^ 32; balance = spender.balance - t.value }) m

-- The transfer with an exact sum for the receiver.
abbrev exact_transfer : State → RawTransaction → AccountInfo → State
exact_transfer s t spender =
    let charged = charge t spender s.pub_key_to_acc_info in
    let receiver = or_new (get t.to_addr charged) in
    record {
      pub_key_to_acc_info =
          insert t.to_addr (record receiver { balance = receiver.balance + t.value }) charged;
    }

-- the account that is credited stays within the coins there are
receiver-le :
    (s : State) (t : RawTransaction) (i : AccountInfo)
    → get t.from_addr s.pub_key_to_acc_info ≡ some i
    → t.value ≤ i.balance
    → (or_new (get t.to_addr (charge t i s.pub_key_to_acc_info))).balance + t.value ≤ total_supply s
unfolding total_supply
receiver-le s t i found le =
    let m = s.pub_key_to_acc_info in
    let paid : AccountInfo = record {
      nonce = (i.nonce + 1) % 2 ^ 32;
      balance = i.balance - t.value;
    } in
    let spent = sum_values-insert (λ (x : AccountInfo). x.balance) t.from_addr paid i m found in
    let covered = get-le-sum_values (λ (x : AccountInfo). x.balance) t.from_addr i m found in
    elim (Option-cases (get t.to_addr (charge t i m))) [
      | inl absent ↦ rw absent (omega (arith, covered))
      | inr (r, present) ↦ rw present (
          omega (
            arith,
            spent,
            get-le-sum_values (λ (x : AccountInfo). x.balance) t.to_addr r (charge t i m) present,
          ))
    ]

transfer-exact :
    (s : State) (t : RawTransaction) (i : AccountInfo)
    → get t.from_addr s.pub_key_to_acc_info ≡ some i
    → t.value ≤ i.balance
    → total_supply s ≤ 55000
    → transfer s t i ≡ exact_transfer s t i
unfolding transfer
transfer-exact s t i found le bound =
    let small : ((or_new (get t.to_addr (charge t i s.pub_key_to_acc_info))).balance + t.value)
          % 2 ^ 64
        ≡ (or_new (get t.to_addr (charge t i s.pub_key_to_acc_info))).balance + t.value =
      omega (arith, receiver-le s t i found le) in
    rw (transfer, small) refl

-- Each address has one account, nonces fit in 32 bits, balances are within the offering, and a transaction
-- that is valid moves coins without a sum that wraps around.
abbrev pub IsWithin : State → Type 0
IsWithin s =
    AreTyped s.pub_key_to_acc_info
    × ((a : H160) (info : AccountInfo) → get_acc_info s a ≡ some info → info.balance ≤ 55000)
    × ((t : RawTransaction)
        → check_transaction_validity s t ≡ true
        → (info : AccountInfo) × (get_acc_info s t.from_addr ≡ some info)
          × (update_in_place s t ≡ (true, exact_transfer s t info)))

supplied-IsWithin :
    (s : State) → total_supply s ≤ 55000 → AreTyped s.pub_key_to_acc_info → IsWithin s
unfolding get_acc_info total_supply
supplied-IsWithin s bound typed = (
  typed,
  λ a info found. omega (
    arith,
    get-le-sum_values (λ (x : AccountInfo). x.balance) a info s.pub_key_to_acc_info found,
  ),
  λ t valid.
      let (i, found, nonce, le, run) = check_valid s t valid in
      (i, found, run ∙ ap (λ s'. (true, s')) (transfer-exact s t i found le bound)),
)

-- In every state that a reachable chain stores, each address has one account, nonces are below 2 ^ 32, no
-- balance is above 55000, and a valid transaction moves its coins exactly: the sum for the receiver does
-- not wrap around at 2 ^ 64.
pub Reach-IsWithin :
    (p : Platform) {bc : Blockchain}
    → Reach p bc
    → All (λ (e : H256 × Stored). IsWithin e.1.state) bc.hash_to_block
Reach-IsWithin p {bc} r =
    All-mono (λ (e : H256 × Stored). HasSupply p e.1.state × AreTyped e.1.state.pub_key_to_acc_info)
      (λ (e : H256 × Stored). IsWithin e.1.state) bc.hash_to_block
      (λ e h. supplied-IsWithin e.1.state (omega (arith, h.0, total_supply-ico-le p)) h.1)
      (Reach-OfStates p (λ s. HasSupply p s × AreTyped s.pub_key_to_acc_info)
        (λ s s' ts moves h.
          (HasSupply-kept p s s' ts moves h.0, update_with_transactions-AreTyped s s' ts moves h.1))
        (refl, ico-AreTyped p) r)
