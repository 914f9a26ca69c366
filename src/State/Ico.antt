-- ===== src/State/Ico.antt =====
-- The initial coin offering (state.rs).
use ce334_bitcoin_client.Prelude.{
  sym, ◌∙◌, ℕ, zero, suc, ◌+◌, ◌-◌, ◌*◌, ◌≤◌, ◌<◌, ◌≡◌, ◌≢◌, refl, none, some, [], arith,
  ℕ_discrete, Option-cases, inl, inr,
}
use ce334_bitcoin_client.Crypto.Address.{H160, h160_key}
use ce334_bitcoin_client.HashMap.{HashMap, get, insert, sum_values}
use ce334_bitcoin_client.HashMap.Laws.{get-insert_self, get-insert_ne}
use ce334_bitcoin_client.HashMap.Measure.{sum_values-insert, sum_values-insert_new}
use ce334_bitcoin_client.Platform.{Platform}
use ce334_bitcoin_client.Transaction.Signing.{get_deterministic_keypair, address_of}
use ce334_bitcoin_client.State.{AccountInfo, ico, ico_from, get_acc_info}
use ce334_bitcoin_client.State.Supply.{total_supply}

-- The coins that the rounds from `i` on hand out.
offered : ℕ → ℕ → ℕ
offered zero i = 0
offered (suc rounds) i = 1000 * (10 - i) + offered rounds (i + 1)

offered_all : offered 10 0 ≡ 55000
unfolding offered
offered_all = refl

abbrev balances : HashMap H160 AccountInfo → ℕ
balances m = sum_values (λ i. i.balance) m

balances-insert-le :
    (a : H160) (v : AccountInfo) (m : HashMap H160 AccountInfo)
    → balances (insert a v m) ≤ balances m + v.balance
balances-insert-le a v m = elim (Option-cases (get a m)) [
  | inl e ↦ omega (arith, sum_values-insert_new (λ i. i.balance) a v m e)
  | inr (old, e) ↦ omega (arith, sum_values-insert (λ i. i.balance) a v old m e)
]

module _ (p : Platform) where
  abbrev pub ico_address : ℕ → H160
  ico_address i = address_of p (get_deterministic_keypair p i)

  abbrev granted : ℕ → AccountInfo
  granted i = record { nonce = 0; balance = 1000 * (10 - i) }

  ico_from-le :
      (rounds i : ℕ) (m : HashMap H160 AccountInfo)
      → balances (ico_from p rounds i m) ≤ balances m + offered rounds i
  unfolding ico_from offered
  ico_from-le zero i m = omega arith
  ico_from-le (suc rounds) i m = omega (
    arith,
    ico_from-le rounds (i + 1) (insert (ico_address i) (granted i) m),
    balances-insert-le (ico_address i) (granted i) m,
  )

  -- Whatever the ten keys are, the offering never hands out more than 55000 coins.
  pub total_supply-ico-le : total_supply (ico p) ≤ 55000
  unfolding total_supply ico sum_values
  total_supply-ico-le = let whole = ico_from-le 10 0 [] in omega (arith, whole, offered_all)

  -- The ten keys have ten addresses.
  pub record HasDistinctKeys : Type 0 where
    pub distinct : (i j : ℕ) → i < 10 → j < 10 → ico_address i ≡ ico_address j → i ≡ j

  module _ (d : HasDistinctKeys) where
    apart : (i j : ℕ) → i < j → j < 10 → ico_address i ≢ ico_address j
    apart i j lt h e = let same : i ≡ j = d.distinct i j (omega arith) h e in absurd (omega arith)

    ico_from_keeps :
        (rounds i k : ℕ) (m : HashMap H160 AccountInfo)
        → k < i
        → i + rounds ≤ 10
        → get (ico_address k) (ico_from p rounds i m) ≡ get (ico_address k) m
    unfolding ico_from
    ico_from_keeps zero i k m lt h = refl
    ico_from_keeps (suc rounds) i k m lt h =
        ico_from_keeps rounds (i + 1) k (insert (ico_address i) (granted i) m) (omega arith)
          (omega arith)
        ∙ get-insert_ne (ico_address k) (ico_address i) (granted i) m
            (λ e. apart k i lt (omega arith) (sym e))

    ico_from_grants :
        (rounds i k : ℕ) (m : HashMap H160 AccountInfo)
        → i ≤ k
        → k < i + rounds
        → i + rounds ≤ 10
        → get (ico_address k) (ico_from p rounds i m) ≡ some (granted k)
    unfolding ico_from
    ico_from_grants zero i k m le lt h = absurd (omega arith)
    ico_from_grants (suc rounds) i k m le lt h = elim (ℕ_discrete i k) [
      | yes e ↦ rw (← e) (
          ico_from_keeps rounds (i + 1) i (insert (ico_address i) (granted i) m) (omega arith)
            (omega arith)
          ∙ get-insert_self (ico_address i) (granted i) m)
      | no ne ↦
          ico_from_grants rounds (i + 1) k (insert (ico_address i) (granted i) m) (omega arith)
            (omega arith) (omega arith)
    ]

    ico_from_total :
        (rounds i : ℕ) (m : HashMap H160 AccountInfo)
        → i + rounds ≤ 10
        → ((k : ℕ) → i ≤ k → k < 10 → get (ico_address k) m ≡ none)
        → balances (ico_from p rounds i m) ≡ balances m + offered rounds i
    unfolding ico_from offered
    ico_from_total zero i m h fresh = omega arith
    ico_from_total (suc rounds) i m h fresh =
        let m' = insert (ico_address i) (granted i) m in
        let rest = ico_from_total rounds (i + 1) m' (omega arith) (λ k le lt.
          get-insert_ne (ico_address k) (ico_address i) (granted i) m (apart i k (omega arith) lt)
          ∙ fresh k (omega arith) lt) in
        let new =
          sum_values-insert_new (λ (x : AccountInfo). x.balance) (ico_address i) (granted i) m
            (fresh i (omega arith) (omega arith)) in
        omega (arith, rest, new)

    -- With ten distinct addresses, account i starts with 1000 * (10 - i) coins and nonce 0, and all
    -- accounts together with 55000 coins.
    pub ico_grants :
        ((i : ℕ)
          → i < 10
          → get_acc_info (ico p) (ico_address i)
            ≡ some (record { nonce = 0; balance = 1000 * (10 - i) }))
        × (total_supply (ico p) ≡ 55000)
    unfolding ico get_acc_info total_supply sum_values
    ico_grants = (
      λ i h. ico_from_grants 10 0 i [] (omega arith) h (omega arith),
      omega (
        arith,
        ico_from_total 10 0 [] (omega arith) (λ k le lt. unfold get in refl),
        offered_all,
      ),
    )
