-- ===== src/HashMap/Defs.antt =====
-- The operations of std::collections::HashMap that the program calls.
use ce334_bitcoin_client.Prelude.{
  ℕ, ◌+◌, Bool, true, false, Option, none, some, List, [], ◌∷◌, if◌then◌else◌, Eq, ◌==k◌,
}

abbrev pub HashMap {ℓ κ} : Type ℓ → Type κ → Type (ℓ ⊔ κ)
HashMap K V = List (K × V)

module _ {ℓ κ} {K : Type ℓ} {V : Type κ} ⦃e : Eq K⦄ where
  unfoldable pub get : K → HashMap K V → Option V
  get k [] = none
  get k ((j, v) ∷ m) = if j ==k k then some v else get k m

  unfoldable pub contains_key : K → HashMap K V → Bool
  unfolding get
  contains_key k m = elim (get k m) [ none ↦ false | some _ ↦ true ]

  unfoldable pub insert : K → V → HashMap K V → HashMap K V
  insert k v [] = (k, v) ∷ []
  insert k v ((j, w) ∷ m) = if j ==k k then (j, v) ∷ m else (j, w) ∷ insert k v m

  unfoldable pub remove : K → HashMap K V → HashMap K V
  remove k [] = []
  remove k ((j, w) ∷ m) = let rest = remove k m in if j ==k k then rest else (j, w) ∷ rest

module _ {ℓ κ} {K : Type ℓ} {V : Type κ} where
  -- `retain` keeps the entries whose value passes the test.
  unfoldable pub retain : (V → Bool) → HashMap K V → HashMap K V
  retain test [] = []
  retain test ((j, w) ∷ m) = let rest = retain test m in if test w then (j, w) ∷ rest else rest

  -- The sum of a number read off each value.
  unfoldable pub sum_values : (V → ℕ) → HashMap K V → ℕ
  sum_values f [] = 0
  sum_values f ((j, w) ∷ m) = f w + sum_values f m
