-- ===== src/Crypto/Hash/Difficulty.antt =====
-- `with_leading_zeros`: its index into the bytes, and the number that it makes (crypto/hash.rs). An
-- argument is a byte, so statements on it are checked at every value.
use ce334_bitcoin_client.Prelude.{
  ℕ, zero, suc, ◌+◌, ◌-◌, ◌^◌, ◌<◌, ◌≡◌, refl, Bool, true, ◌&&◌, List, [], ◌∷◌, length, All, arith,
  ltb, ◌==◌, ==_iff, ltb→lt,
}
use ce334_bitcoin_client.Crypto.Hash.{IsH256, zeroing_end, with_leading_zeros, from_be_bytes}
use ce334_bitcoin_client.Crypto.Hash.Order.{value}

all_below : ℕ → (ℕ → Bool) → Bool
all_below zero test = true
all_below (suc n) test = test n && all_below n test

all_below_sound :
    (n : ℕ) (test : ℕ → Bool) (x : ℕ) → all_below n test ≡ true → x < n → test x ≡ true
unfolding all_below
all_below_sound zero test x h lt = absurd (omega arith)
all_below_sound (suc n) test x h lt = ground (arith, all_below_sound n test x)

bytes_in_range : List ℕ → Bool
bytes_in_range [] = true
bytes_in_range (b ∷ bs) = ltb b 256 && bytes_in_range bs

bytes_in_range_sound : (bs : List ℕ) → bytes_in_range bs ≡ true → All (λ b. b < 256) bs
unfolding bytes_in_range
bytes_in_range_sound [] h = tt
bytes_in_range_sound (b ∷ bs) h = (ground arith, bytes_in_range_sound bs (ground arith))

-- the three claims about one argument, as a test
is_exact : ℕ → Bool
is_exact n =
    let h = with_leading_zeros n in
    (ltb (zeroing_end n).current_byte_index 32 && ltb (zeroing_end n).remaining_zeroes 8)
    && ((length h.bytes == 32) && bytes_in_range h.bytes)
    && (value h + 1 == 2 ^ (256 - n))

exact_table : all_below 256 is_exact ≡ true
unfolding all_below is_exact bytes_in_range zeroing_end with_leading_zeros value from_be_bytes
exact_table = refl

and-true : (a b : Bool) → (a && b) ≡ true → (a ≡ true) × (b ≡ true)
and-true a b h = ground arith

exact_at :
    (n : ℕ)
    → n < 256
    → (ltb (zeroing_end n).current_byte_index 32 ≡ true)
      × (ltb (zeroing_end n).remaining_zeroes 8 ≡ true)
      × ((length (with_leading_zeros n).bytes == 32) ≡ true)
      × (bytes_in_range (with_leading_zeros n).bytes ≡ true)
      × ((value (with_leading_zeros n) + 1 == 2 ^ (256 - n)) ≡ true)
unfolding is_exact
exact_at n h =
    let t = all_below_sound 256 is_exact n exact_table h in
    let (l, num) = and-true _ _ t in
    let (stop, shape) = and-true _ _ l in
    let (index, rest) = and-true _ _ stop in
    let (len, range) = and-true _ _ shape in (index, rest, len, range, num)

-- For every byte the loop stops at a byte inside the array with less than a byte left to clear.
pub zeroing_end_bounds :
    (n : ℕ)
    → n < 256
    → ((zeroing_end n).current_byte_index < 32) × ((zeroing_end n).remaining_zeroes < 8)
zeroing_end_bounds n h = let t = exact_at n h in (ltb→lt _ _ t.0, ltb→lt _ _ t.1)

pub with_leading_zeros-IsH256 : (n : ℕ) → n < 256 → IsH256 (with_leading_zeros n)
with_leading_zeros-IsH256 n h =
    let t = exact_at n h in record { len = (==_iff _ 32).0 t.2; range = bytes_in_range_sound _ t.3 }

-- For every byte n the result is 2 ^ (256 - n) - 1 as a big-endian number.
pub value-with_leading_zeros : (n : ℕ) → n < 256 → value (with_leading_zeros n) + 1 ≡ 2 ^ (256 - n)
value-with_leading_zeros n h = (==_iff _ _).0 (exact_at n h).4
