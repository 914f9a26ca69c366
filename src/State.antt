-- ===== src/State.antt =====
-- state.rs: the accounts, and how transactions act on them. Sums wrap around as in a release build:
-- nonces at 2 ^ 32 and balances at 2 ^ 64.
pub mod Update
pub mod Supply
pub mod Nonces
pub mod Ico
pub mod Typed
use ce334_bitcoin_client.Prelude.{
  ℕ, zero, suc, ◌+◌, ◌-◌, ◌*◌, ◌%◌, ◌^◌, Bool, true, false, not, ◌||◌, Option, none, some, List, [],
  ◌∷◌, ltb, ◌==◌, if◌then◌else◌,
}
use ce334_bitcoin_client.Crypto.Address.{H160, h160_key}
use ce334_bitcoin_client.HashMap.{HashMap, get, insert}
use ce334_bitcoin_client.Transaction.{RawTransaction}
use ce334_bitcoin_client.Platform.{Platform}
use ce334_bitcoin_client.Transaction.Signing.{get_deterministic_keypair, address_of}

pub record AccountInfo : Type 0 where
  pub nonce : ℕ
  pub balance : ℕ

-- `AccountInfo::new`
abbrev pub new_account : AccountInfo
new_account = record { nonce = 0; balance = 0 }

pub record State : Type 0 where
  pub pub_key_to_acc_info : HashMap H160 AccountInfo

-- The body of the loop of `State::ico`, for the account numbers from `i` on.
unfoldable pub ico_from :
    (p : Platform) → ℕ → ℕ → HashMap H160 AccountInfo → HashMap H160 AccountInfo
ico_from p zero i m = m
ico_from p (suc rounds) i m =
    let address = address_of p (get_deterministic_keypair p i) in
    ico_from p rounds (i + 1) (insert address (record { nonce = 0; balance = 1000 * (10 - i) }) m)

-- `State::ico`
unfoldable pub ico : Platform → State
unfolding ico_from
ico p = record { pub_key_to_acc_info = ico_from p 10 0 [] }

unfoldable pub get_acc_info : State → H160 → Option AccountInfo
get_acc_info s addr = get addr s.pub_key_to_acc_info

unfoldable pub check_transaction_validity : State → RawTransaction → Bool
check_transaction_validity s t = elim (get t.from_addr s.pub_key_to_acc_info) [
  | none ↦ false
  | some spender_info ↦
      if not (spender_info.nonce == t.nonce)
      then false
      else if ltb spender_info.balance t.value
      then false
      else true
]

-- `entry(addr).or_insert_with(AccountInfo::new)`
abbrev pub or_new : Option AccountInfo → AccountInfo
or_new none = new_account
or_new (some info) = info

-- The last lines of `update_in_place`: the spender is charged, then the receiver is credited.
unfoldable pub transfer : State → RawTransaction → AccountInfo → State
transfer s t spender_info =
    let charged =
      insert t.from_addr
        (record {
          nonce = (spender_info.nonce + 1) % 2 ^ 32;
          balance = spender_info.balance - t.value;
        })
        s.pub_key_to_acc_info in
    let receiver_info = or_new (get t.to_addr charged) in
    record {
      pub_key_to_acc_info =
          insert t.to_addr
            (record receiver_info { balance = (receiver_info.balance + t.value) % 2 ^ 64 }) charged;
    }

-- The flag that it returns, and the state it leaves.
unfoldable pub update_in_place : State → RawTransaction → Bool × State
unfolding transfer
update_in_place s t = elim (get t.from_addr s.pub_key_to_acc_info) [
  | none ↦ (false, s)
  | some spender_info ↦
      if not (spender_info.nonce == t.nonce)
      then (false, s)
      else if ltb spender_info.balance t.value
      then (false, s)
      else (true, transfer s t spender_info)
]

-- `transactions.all(|transaction| updated.update_in_place(transaction))`: it stops at a failure.
unfoldable pub update_all : State → List RawTransaction → Bool × State
unfolding update_in_place
update_all updated [] = (true, updated)
update_all updated (t ∷ ts) =
    let (valid, next) = update_in_place updated t in
    if valid then update_all next ts else (false, next)

unfoldable pub update_with_transactions : State → List RawTransaction → Option State
unfolding update_all
update_with_transactions s transactions =
    let (valid, updated) = update_all s transactions in if valid then some updated else none
