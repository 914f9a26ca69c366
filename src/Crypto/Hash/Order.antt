-- ===== src/Crypto/Hash/Order.antt =====
-- `H256::cmp` and the 256-bit numbers that the bytes spell (crypto/hash.rs).
use ce334_bitcoin_client.Prelude.{
  ℕ, zero, suc, ◌+◌, ◌*◌, ◌≤◌, ◌<◌, ◌≡◌, refl, compare, List, [], ◌∷◌, ◌++◌, length, take, drop,
  take-append-drop, length-drop, All, All-drop, arith, ap, ◌∙◌, sym,
}
use ce334_bitcoin_client.Crypto.Hash.{H256, IsH256, from_be_bytes, from_be_bytes_onto, cmp}

-- 256 to the power of n.
pub pow256 : ℕ → ℕ
pow256 zero = 1
pow256 (suc n) = 256 * pow256 n

from_be_bytes_onto-eq :
    (acc : ℕ) (bs : List ℕ)
    → from_be_bytes_onto acc bs ≡ acc * pow256 (length bs) + from_be_bytes_onto 0 bs
unfolding from_be_bytes_onto pow256
from_be_bytes_onto-eq acc [] = omega arith
from_be_bytes_onto-eq acc (b ∷ bs) =
    omega (arith, from_be_bytes_onto-eq (acc * 256 + b) bs, from_be_bytes_onto-eq (0 * 256 + b) bs)

from_be_bytes_onto-lt :
    (bs : List ℕ) → All (λ b. b < 256) bs → from_be_bytes_onto 0 bs < pow256 (length bs)
unfolding from_be_bytes_onto pow256
from_be_bytes_onto-lt [] h = omega arith
from_be_bytes_onto-lt (b ∷ bs) h =
    grind (arith, from_be_bytes_onto-eq (0 * 256 + b) bs, from_be_bytes_onto-lt bs h.1)

from_be_bytes_onto-append :
    (acc : ℕ) (xs ys : List ℕ)
    → from_be_bytes_onto acc (xs ++ ys) ≡ from_be_bytes_onto (from_be_bytes_onto acc xs) ys
unfolding from_be_bytes_onto
from_be_bytes_onto-append acc [] ys = refl
from_be_bytes_onto-append acc (x ∷ xs) ys = from_be_bytes_onto-append (acc * 256 + x) xs ys

take_all : (n : ℕ) (xs : List ℕ) → length xs ≤ n → take n xs ≡ xs
take_all zero [] h = refl
take_all zero (x ∷ xs) h = absurd (omega arith)
take_all (suc n) [] h = refl
take_all (suc n) (x ∷ xs) h = ap (◌∷◌ x) (take_all n xs (omega arith))

-- The number that a hash spells, most significant byte first.
unfoldable pub value : H256 → ℕ
value h = from_be_bytes h.bytes

abbrev half : ℕ
half = 0x100000000000000000000000000000000

pow256_16 : pow256 16 ≡ half
unfolding pow256
pow256_16 = refl

-- A hash is its upper and its lower half.
value-halves :
    (h : H256)
    → IsH256 h
    → (value h ≡ from_be_bytes (take 16 h.bytes) * half + from_be_bytes (take 16 (drop 16 h.bytes)))
      × (from_be_bytes (take 16 (drop 16 h.bytes)) < half)
unfolding value from_be_bytes
value-halves h v =
    let xs = take 16 h.bytes in
    let ys = drop 16 h.bytes in
    let len_ys : length ys ≡ 16 = omega (arith, length-drop 16 h.bytes, v.len) in
    let whole : take 16 ys ≡ ys = take_all 16 ys (omega arith) in
    let bound = from_be_bytes_onto-lt ys (All-drop (λ b. b < 256) 16 h.bytes v.range) in
    let width : pow256 (length ys) ≡ half = ap pow256 len_ys ∙ pow256_16 in
    let split : from_be_bytes_onto 0 h.bytes
        ≡ from_be_bytes_onto 0 xs * pow256 (length ys) + from_be_bytes_onto 0 ys =
      ap (from_be_bytes_onto 0) (sym (take-append-drop 16 h.bytes))
      ∙ from_be_bytes_onto-append 0 xs ys
      ∙ from_be_bytes_onto-eq (from_be_bytes_onto 0 xs) ys in
    rw whole (rw width at split, rw width at bound)

-- The order that the code computes half by half is the order of the 256-bit numbers.
pub cmp-value : (a b : H256) → IsH256 a → IsH256 b → cmp a b ≡ compare (value a) (value b)
unfolding cmp
cmp-value a b va vb = ground (arith, value-halves a va, value-halves b vb)
