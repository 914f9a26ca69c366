-- ===== src/Tests/Accounts.antt =====
-- Instances of the theorems on the accounts.
use ce334_bitcoin_client.Prelude.{
  ◌-◌, ◌*◌, get_elem?, ap, ℕ, ◌+◌, ◌%◌, ◌^◌, ◌<◌, ◌≡◌, refl, true, false, none, some, [], ◌∷◌,
  arith,
}
use ce334_bitcoin_client.Crypto.Address.{H160, h160_eq, from_pubkey}
use ce334_bitcoin_client.HashMap.{get, insert, sum_values}
use ce334_bitcoin_client.Transaction.{RawTransaction}
use ce334_bitcoin_client.Transaction.Signing.{address_of, get_deterministic_keypair}
use ce334_bitcoin_client.State.{
  ico, State, get_acc_info, check_transaction_validity, update_in_place, update_with_transactions,
}
use ce334_bitcoin_client.State.Update.{
  update_with_transactions-cons_some, account, after, update_in_place-account,
}
use ce334_bitcoin_client.State.Supply.{total_supply, update_with_transactions-total_supply}
use ce334_bitcoin_client.State.Nonces.{
  sent, InOrder, update_in_place_no_replay, update_with_transactions-nonces,
}
use ce334_bitcoin_client.State.Ico.{ico_grants, HasDistinctKeys, ico_address}
use ce334_bitcoin_client.Tests.Toy.{toy, checksum}

abbrev alice : H160
alice = record { bytes = 1 ∷ [] }

abbrev bob : H160
bob = record { bytes = 2 ∷ [] }

abbrev bank : State
bank = record { pub_key_to_acc_info = (alice, record { nonce = 4; balance = 30 }) ∷ [] }

abbrev pay : ℕ → ℕ → RawTransaction
pay n v = record { from_addr = alice; to_addr = bob; value = v; nonce = n }

abbrev rest_bank : State
rest_bank = record {
  pub_key_to_acc_info =
      (alice, record { nonce = 6; balance = 5 }) ∷ (bob, record { nonce = 0; balance = 25 }) ∷ [];
}

two_payments : update_with_transactions bank (pay 4 10 ∷ pay 5 15 ∷ []) ≡ some rest_bank
unfolding update_with_transactions get insert h160_eq
two_payments = refl

valid_payment : check_transaction_validity bank (pay 4 10) ≡ true
unfolding check_transaction_validity get h160_eq
valid_payment = refl

bank_supply : total_supply bank ≡ 30
unfolding total_supply sum_values
bank_supply = refl

update_in_place-account_example :
    account (update_in_place bank (pay 4 10)).1 bob ≡ after bank (pay 4 10) bob
update_in_place-account_example = update_in_place-account bank (pay 4 10) bob valid_payment

update_with_transactions-total_supply_example : total_supply rest_bank ≡ total_supply bank
update_with_transactions-total_supply_example =
    update_with_transactions-total_supply bank (pay 4 10 ∷ pay 5 15 ∷ [])
      (omega (arith, bank_supply)) two_payments

alice_nonce : (account bank alice).nonce ≡ 4
unfolding account get_acc_info get h160_eq
alice_nonce = refl

update_with_transactions-nonces_example :
    InOrder alice (account bank alice).nonce (pay 4 10 ∷ pay 5 15 ∷ [])
    × ((account rest_bank alice).nonce
        ≡ ((account bank alice).nonce + sent alice (pay 4 10 ∷ pay 5 15 ∷ [])) % 2 ^ 32)
update_with_transactions-nonces_example =
    update_with_transactions-nonces bank (pay 4 10 ∷ pay 5 15 ∷ []) alice
      (omega (arith, alice_nonce)) two_payments

few_payments : sent alice (pay 5 15 ∷ []) ≡ 1
unfolding sent h160_eq
few_payments = refl

update_in_place_no_replay_example : check_transaction_validity rest_bank (pay 4 10) ≡ false
update_in_place_no_replay_example =
    update_in_place_no_replay bank (pay 4 10) (pay 5 15 ∷ []) valid_payment
      (update_with_transactions-cons_some bank (pay 4 10) (pay 5 15 ∷ []) two_payments).1
      (omega (arith, alice_nonce)) (omega (arith, few_payments))

-- The ten toy addresses differ in their last two bytes.
abbrev last_byte : H160 → ℕ
last_byte a = elim (get_elem? a.bytes 19) [ none ↦ 0 | some b ↦ b ]

toy-last_byte : (i : ℕ) → i < 10 → last_byte (ico_address toy i) ≡ i + 7
unfolding address_of get_deterministic_keypair from_pubkey checksum
toy-last_byte i h = omega arith

pub toy-HasDistinctKeys : HasDistinctKeys toy
toy-HasDistinctKeys = record {
  distinct = λ i j hi hj e. omega (arith, toy-last_byte i hi, toy-last_byte j hj, ap last_byte e);
}

ico_grants_example :
    ((i : ℕ)
      → i < 10
      → get_acc_info (ico toy) (ico_address toy i)
        ≡ some (record { nonce = 0; balance = 1000 * (10 - i) }))
    × (total_supply (ico toy) ≡ 55000)
ico_grants_example = ico_grants toy toy-HasDistinctKeys
