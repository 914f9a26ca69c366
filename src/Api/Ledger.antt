-- ===== src/Api/Ledger.antt =====
-- The text of the accounts, which a status has (the Display of state.rs).
pub mod Order
pub mod Sorted
pub mod Digits
use ce334_bitcoin_client.Prelude.{
  ℕ, zero, suc, ◌+◌, ◌/◌, ◌%◌, Bool, true, false, not, none, List, [], ◌∷◌, ◌++◌, ltb, ◌==◌,
  if◌then◌else◌,
}
use ce334_bitcoin_client.HashMap.{HashMap}
use ce334_bitcoin_client.Crypto.Address.{H160}
use ce334_bitcoin_client.Crypto.Hex.{display_h160}
use ce334_bitcoin_client.State.{AccountInfo, State}
use ce334_bitcoin_client.Api.{Text, codes}

-- `<` of byte arrays, the derived order of H160
unfoldable pub bytes_lt : List ℕ → List ℕ → Bool
bytes_lt xs [] = false
bytes_lt [] (y ∷ ys) = true
bytes_lt (x ∷ xs) (y ∷ ys) =
    let rest = bytes_lt xs ys in if ltb x y then true else if x == y then rest else false

abbrev pub address_lt : H160 → H160 → Bool
address_lt a b = bytes_lt a.bytes b.bytes

-- A stable sort by the address: an entry goes before the first that is not below it.
unfoldable pub sort_in : H160 × AccountInfo → HashMap H160 AccountInfo → HashMap H160 AccountInfo
sort_in e [] = e ∷ []
sort_in e (f ∷ ledger) =
    let rest = sort_in e ledger in if address_lt f.0 e.0 then f ∷ rest else e ∷ f ∷ ledger

unfoldable pub sort_ledger : HashMap H160 AccountInfo → HashMap H160 AccountInfo
unfolding sort_in
sort_ledger [] = []
sort_ledger (e ∷ ledger) = sort_in e (sort_ledger ledger)

-- The decimal digits of a number below 10 ^ fuel.
unfoldable pub decimal : ℕ → ℕ → Text
decimal zero n = []
decimal (suc fuel) n =
    let before = decimal fuel (n / 10) in
    if ltb n 10 then (48 + n) ∷ [] else before ++ (48 + n % 10) ∷ []

-- `format!("{hash}: balance {}, nonce {}", ..)`; a number of 64 bits has at most 20 digits
unfoldable pub account_line : H160 × AccountInfo → Text
unfolding decimal display_h160
account_line (address, acc_info) =
    display_h160 none address
    ++ codes ": balance "
    ++ decimal 20 acc_info.balance
    ++ codes ", nonce "
    ++ decimal 20 acc_info.nonce

-- The items of `{:#?}`, of strings that have no character to escape.
unfoldable pub debug_items : HashMap H160 AccountInfo → Text
unfolding account_line
debug_items [] = []
debug_items (e ∷ ledger) = codes "    \"" ++ account_line e ++ codes "\",\n" ++ debug_items ledger

-- the `Display` of `State`
unfoldable pub display_state : State → Text
unfolding sort_ledger debug_items
display_state s = elim (sort_ledger s.pub_key_to_acc_info) [
  | [] ↦ codes "[]"
  | e ∷ ledger ↦ codes "[\n" ++ debug_items (e ∷ ledger) ++ codes "]"
]
