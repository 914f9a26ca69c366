-- ===== src/Network/Peer/Slices.antt =====
-- Parts of a buffer that are sent in turns (network/peer.rs).
use ce334_bitcoin_client.Prelude.{
  length-drop, ℕ, zero, suc, ◌+◌, ◌-◌, ◌≤◌, ◌≡◌, List, [], ◌∷◌, ◌++◌, length, take, drop,
  append_assoc, take-append-drop, length-take, refl, arith, sym, ap, ◌∙◌,
}
use ce334_bitcoin_client.Network.Peer.{slice}

module _ {ℓ} {A : Type ℓ} where
  pub drop_all : (xs : List A) → drop (length xs) xs ≡ []
  drop_all [] = refl
  drop_all (x ∷ xs) = drop_all xs

  pub drop_more : (n m : ℕ) (xs : List A) → drop n (drop m xs) ≡ drop (m + n) xs
  drop_more n zero xs = let e : n ≡ 0 + n = omega arith in ap (λ k. drop k xs) e
  drop_more zero (suc m) [] = let e : suc m ≡ suc m + 0 = omega arith in ap (λ k. drop k []) e
  drop_more (suc n) (suc m) [] =
      let e : suc (m + suc n) ≡ suc m + suc n = omega arith in ap (λ k. drop k []) e
  drop_more n (suc m) (x ∷ xs) =
      let e : suc (m + n) ≡ suc m + n = omega arith in
      drop_more n m xs ∙ ap (λ k. drop k (x ∷ xs)) e

  pub take_all : (n : ℕ) (xs : List A) → length xs ≤ n → take n xs ≡ xs
  take_all zero [] h = refl
  take_all zero (x ∷ xs) h = absurd (omega arith)
  take_all (suc n) [] h = refl
  take_all (suc n) (x ∷ xs) h = ap (◌∷◌ x) (take_all n xs (omega arith))

  pub drop-length-take : (n : ℕ) (xs : List A) → drop (length (take n xs)) xs ≡ drop n xs
  drop-length-take zero xs = refl
  drop-length-take (suc n) [] = refl
  drop-length-take (suc n) (x ∷ xs) = drop-length-take n xs

  pub length-drop_le : (n : ℕ) (xs : List A) → length (drop n xs) ≤ length xs - n
  length-drop_le n xs = omega (arith, length-drop n xs)

  -- What is taken of a slice up to the end, then the rest, is what was left.
  pub slice_sent :
      (n from to : ℕ) (xs : List A)
      → to ≡ length xs
      → take n (take (to - from) (drop from xs))
          ++ drop (from + length (take n (take (to - from) (drop from xs)))) xs
        ≡ drop from xs
  slice_sent n from to xs e =
      let whole = take_all (to - from) (drop from xs) (omega (arith, length-drop from xs)) in
      rw
        (
          whole,
          ← drop_more (length (take n (drop from xs))) from xs,
          drop-length-take n (drop from xs),
        )
        (take-append-drop n (drop from xs))

pub drop_end {ℓ} : {A : Type ℓ} (n : ℕ) (xs : List A) → length xs ≤ n → drop n xs ≡ []
drop_end zero [] h = refl
drop_end zero (x ∷ xs) h = absurd (omega arith)
drop_end (suc n) [] h = refl
drop_end (suc n) (x ∷ xs) h = drop_end n xs (omega arith)

pub slice_fits : (n from to : ℕ) (xs : List ℕ) → length (take n (slice from to xs)) ≤ to - from
slice_fits n from to xs =
    omega (arith, length-take n (slice from to xs), length-take (to - from) (drop from xs))

-- Bytes sent off the front of the first of three parts.
pub glue {ℓ} :
    {A : Type ℓ} (sent rest ys zs : List A) {xs : List A}
    → sent ++ rest ≡ xs
    → sent ++ ((rest ++ ys) ++ zs) ≡ (xs ++ ys) ++ zs
glue sent rest ys zs e =
    rw (append_assoc rest ys zs, ← append_assoc sent rest (ys ++ zs), e)
      (sym (append_assoc _ ys zs))
