-- ===== src/Tests/Tables.antt =====
-- A table of connections kept as a list, as an instance of the interface to the crate slab.
use ce334_bitcoin_client.Prelude.{
  ℕ, suc, ◌≤◌, ◌≡◌, refl, sym, ◌∙◌, false, Option, none, some, List, [], ◌∷◌, arith, ltb, ◌==◌,
  if◌then◌else◌, Bool-cases, inl, inr,
}
use ce334_bitcoin_client.Network.Slab.{Slabs, IsSlabs}

module _ {T : Type 0} where
  -- the value of a key, the last written first
  unfoldable pub lookup : ℕ → List (ℕ × T) → Option T
  lookup j [] = none
  lookup j ((k, v) ∷ t) = let rest = lookup j t in if k == j then some v else rest

  -- a key above every key
  unfoldable pub above : List (ℕ × T) → ℕ
  above [] = 0
  above ((k, v) ∷ t) = let rest = above t in if ltb k rest then rest else suc k

  unfoldable pub without : ℕ → List (ℕ × T) → List (ℕ × T)
  without j [] = []
  without j ((k, v) ∷ t) = let rest = without j t in if k == j then rest else (k, v) ∷ rest

  lookup-above : (j : ℕ) (t : List (ℕ × T)) → above t ≤ j → lookup j t ≡ none
  unfolding lookup above
  lookup-above j [] h = refl
  lookup-above j ((k, v) ∷ t) h =
      let below : above t ≤ j = ground arith in
      let other : (k == j) ≡ false = ground arith in rw other (lookup-above j t below)

  lookup-without :
      (j k : ℕ) (t : List (ℕ × T)) → lookup j (without k t) ≡ (if k == j then none else lookup j t)
  unfolding lookup without
  lookup-without j k [] = ground arith
  lookup-without j k ((i, v) ∷ t) = elim (Bool-cases (i == k)) [
    | inl removed ↦
        let both : (if k == j then none else if i == j then some v else lookup j t)
            ≡ (if k == j then none else lookup j t) =
          ground arith in
        rw removed (lookup-without j k t ∙ sym both)
    | inr kept ↦ elim (Bool-cases (i == j)) [
      | inl here ↦
          let other : (k == j) ≡ false = ground arith in rw (kept, lookup, here, other) refl
      | inr elsewhere ↦ rw (kept, lookup, elsewhere) (lookup-without j k t)
    ]
  ]

abbrev pub lists : (T : Type 0) → Slabs T
lists T = record {
  Slab = List (ℕ × T);
  empty = [];
  get = lookup;
  vacant_key = above;
  insert = λ v t. (above t, v) ∷ t;
  update = λ k v t. (k, v) ∷ t;
  remove = without;
}

pub lists-IsSlabs : (T : Type 0) → IsSlabs (lists T)
unfolding lookup
lists-IsSlabs T = record {
  get-empty = λ j. refl;
  get-vacant_key = λ t. lookup-above (above t) t (omega arith);
  get-insert = λ j v t. refl;
  get-update = λ j k v w t h. refl;
  get-remove = λ j k w t h. lookup-without j k t;
}
