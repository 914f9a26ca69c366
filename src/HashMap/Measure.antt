-- ===== src/HashMap/Measure.antt =====
-- The number of entries, and sums over the values.
use ce334_bitcoin_client.Prelude.{ℕ, ◌+◌, ◌≤◌, ◌≡◌, refl, none, some, [], ◌∷◌, Eq, length, arith}
use ce334_bitcoin_client.HashMap.Defs.{HashMap, get, insert, remove, sum_values}

module _ {ℓ κ} {K : Type ℓ} {V : Type κ} ⦃e : Eq K⦄ where
  pub length-insert_new :
      (k : K) (v : V) (m : HashMap K V) → get k m ≡ none → length (insert k v m) ≡ length m + 1
  unfolding get insert
  length-insert_new k v [] h = refl
  length-insert_new k v ((i, w) ∷ m) h = ground (arith, length-insert_new k v m)

  pub sum_values-insert :
      (f : V → ℕ) (k : K) (v old : V) (m : HashMap K V)
      → get k m ≡ some old
      → sum_values f (insert k v m) + f old ≡ sum_values f m + f v
  unfolding get insert sum_values
  sum_values-insert f k v old [] h = absurd (ground arith)
  sum_values-insert f k v old ((i, w) ∷ m) h = ground (arith, sum_values-insert f k v old m)

  pub sum_values-insert_new :
      (f : V → ℕ) (k : K) (v : V) (m : HashMap K V)
      → get k m ≡ none
      → sum_values f (insert k v m) ≡ sum_values f m + f v
  unfolding get insert sum_values
  sum_values-insert_new f k v [] h = ground arith
  sum_values-insert_new f k v ((i, w) ∷ m) h = ground (arith, sum_values-insert_new f k v m)

  -- No value exceeds the sum.
  pub get-le-sum_values :
      (f : V → ℕ) (k : K) (v : V) (m : HashMap K V) → get k m ≡ some v → f v ≤ sum_values f m
  unfolding get sum_values
  get-le-sum_values f k v [] h = absurd (ground arith)
  get-le-sum_values f k v ((i, w) ∷ m) h = ground (arith, get-le-sum_values f k v m)

  pub sum_values-remove-le :
      (f : V → ℕ) (k : K) (m : HashMap K V) → sum_values f (remove k m) ≤ sum_values f m
  unfolding remove sum_values
  sum_values-remove-le f k [] = ground arith
  sum_values-remove-le f k ((i, w) ∷ m) = ground (arith, sum_values-remove-le f k m)

  -- What is removed no longer counts.
  pub sum_values-remove :
      (f : V → ℕ) (k : K) (v : V) (m : HashMap K V)
      → get k m ≡ some v
      → sum_values f (remove k m) + f v ≤ sum_values f m
  unfolding get remove sum_values
  sum_values-remove f k v [] h = absurd (ground arith)
  sum_values-remove f k v ((i, w) ∷ m) h =
      ground (arith, sum_values-remove f k v m, sum_values-remove-le f k m)

  pub remove_absent : (k : K) (m : HashMap K V) → get k m ≡ none → remove k m ≡ m
  unfolding get remove
  remove_absent k [] h = refl
  remove_absent k ((i, w) ∷ m) h = ground (arith, remove_absent k m)
