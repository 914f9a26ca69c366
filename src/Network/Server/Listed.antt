-- ===== src/Network/Server/Listed.antt =====
-- The list of peers as a multiset of keys (network/server.rs).
use ce334_bitcoin_client.Prelude.{
  ltb, ◌<◌, ℕ, zero, suc, ◌+◌, ◌≤◌, ◌≡◌, refl, some, List, [], ◌∷◌, ◌++◌, arith, ◌==◌,
  if◌then◌else◌, Bool-cases, inl, inr,
}
use ce334_bitcoin_client.Network.Server.{length, position, last_or, drop_last, swap_remove}

unfoldable pub count : ℕ → List ℕ → ℕ
count k [] = 0
count k (x ∷ xs) = (if x == k then 1 else 0) + count k xs

pub count-append : (k : ℕ) (xs ys : List ℕ) → count k (xs ++ ys) ≡ count k xs + count k ys
unfolding count
count-append k [] ys = omega arith
count-append k (x ∷ xs) ys = omega (arith, count-append k xs ys)

count-last :
    (k y : ℕ) (ys : List ℕ) → count k (last_or y ys ∷ drop_last (y ∷ ys)) ≡ count k (y ∷ ys)
unfolding count last_or drop_last
count-last k y [] = refl
count-last k y (z ∷ zs) = omega (arith, count-last k z zs)

-- Removing at the position of a key takes one occurrence of the key.
abbrev pub Removes : ℕ → List ℕ → Type 0
Removes k xs =
    (i : ℕ) × (position k xs ≡ some i)
    × ((j : ℕ) → count j (swap_remove i xs) + (if k == j then 1 else 0) ≡ count j xs)

swap_remove_first :
    (j x : ℕ) (xs : List ℕ)
    → count j (swap_remove 0 (x ∷ xs)) + (if x == j then 1 else 0) ≡ count j (x ∷ xs)
unfolding swap_remove count
swap_remove_first j x [] = omega arith
swap_remove_first j x (y ∷ ys) = omega (arith, count-last j y ys)

pub swap_remove-position : (k : ℕ) (xs : List ℕ) → 1 ≤ count k xs → Removes k xs
unfolding position swap_remove count
swap_remove-position k [] h = absurd (omega arith)
swap_remove-position k (x ∷ xs) h = elim (Bool-cases (x == k)) [
  | inl here ↦
      let same : x ≡ k = ground arith in
      (0, rw (position, here) refl, λ j. rw (← same) (swap_remove_first j x xs))
  | inr further ↦
      let (i, found, rest) = swap_remove-position k xs (ground arith) in
      (suc i, rw (position, further, found) refl, λ j. omega (arith, rest j))
]

-- the occurrences of the keys below a bound
total : ℕ → List ℕ → ℕ
total zero xs = 0
total (suc n) xs = count n xs + total n xs

total-cons : (n x : ℕ) (xs : List ℕ) → total n (x ∷ xs) ≡ (if ltb x n then 1 else 0) + total n xs
unfolding total count
total-cons zero x xs = ground arith
total-cons (suc n) x xs = ground (arith, total-cons n x xs)

length-total : (n : ℕ) (xs : List ℕ) → ((k : ℕ) → 1 ≤ count k xs → k < n) → length xs ≤ total n xs
unfolding count
length-total n [] h = omega arith
length-total n (x ∷ xs) h =
    let below : x < n = h x (ground arith) in
    let rest = length-total n xs (λ k q. h k (omega (arith, q))) in
    ground (arith, total-cons n x xs)

total-bounded : (n : ℕ) (xs : List ℕ) → ((k : ℕ) → count k xs ≤ 1) → total n xs ≤ n
unfolding total
total-bounded zero xs h = omega arith
total-bounded (suc n) xs h = omega (arith, h n, total-bounded n xs h)

-- A list of different keys below a bound is not longer than the bound.
pub length-distinct :
    (n : ℕ) (xs : List ℕ)
    → ((k : ℕ) → count k xs ≤ 1)
    → ((k : ℕ) → 1 ≤ count k xs → k < n)
    → length xs ≤ n
length-distinct n xs once below = omega (arith, length-total n xs below, total-bounded n xs once)
