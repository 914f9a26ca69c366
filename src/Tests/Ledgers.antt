-- ===== src/Tests/Ledgers.antt =====
-- The text of a small ledger (the Display of state.rs).
use ce334_bitcoin_client.Prelude.{◌++◌, ◌≡◌, refl, false, [], ◌∷◌, replicate, Bool-cases, inl, inr}
use ce334_bitcoin_client.Crypto.Address.{H160, h160_key, h160_eq}
use ce334_bitcoin_client.Crypto.Hex.{display_h160, hex, start_of}
use ce334_bitcoin_client.HashMap.{get}
use ce334_bitcoin_client.State.{AccountInfo, State, get_acc_info}
use ce334_bitcoin_client.Api.{codes}
use ce334_bitcoin_client.Api.Ledger.{sort_ledger, decimal, account_line, display_state}
use ce334_bitcoin_client.Api.Ledger.Sorted.{IsAscending, display_state-same}

abbrev low : H160
low = record { bytes = replicate 19 171 ++ 1 ∷ [] }

abbrev high : H160
high = record { bytes = replicate 19 171 ++ 2 ∷ [] }

abbrev rich : AccountInfo
rich = record { nonce = 12; balance = 55000 }

abbrev poor : AccountInfo
poor = record { nonce = 0; balance = 7 }

abbrev low_first : State
low_first = record { pub_key_to_acc_info = (low, rich) ∷ (high, poor) ∷ [] }

abbrev high_first : State
high_first = record { pub_key_to_acc_info = (high, poor) ∷ (low, rich) ∷ [] }

printed :
    account_line (high, rich)
    ≡ codes "ababababababababababababababababababab02: balance 55000, nonce 12"
unfolding account_line decimal display_h160 hex start_of
printed = refl

apart : h160_eq high low ≡ false
unfolding h160_eq
apart = refl

same_accounts : (a : H160) → get_acc_info low_first a ≡ get_acc_info high_first a
unfolding get_acc_info get
same_accounts a = elim (Bool-cases (h160_eq low a)) [
  | inl hit ↦
      let here : low ≡ a = (h160_key.beq_iff low a).0 hit in
      let other : h160_eq high a ≡ false = rw (← here) apart in rw (hit, other) refl
  | inr miss ↦ rw miss refl
]

display_state-same_example :
    (display_state low_first ≡ display_state high_first)
    × IsAscending (sort_ledger low_first.pub_key_to_acc_info)
    × ((a : H160) → get a (sort_ledger low_first.pub_key_to_acc_info) ≡ get_acc_info low_first a)
unfolding get h160_eq
display_state-same_example =
    display_state-same low_first high_first (refl, (refl, tt)) (refl, (refl, tt)) same_accounts
