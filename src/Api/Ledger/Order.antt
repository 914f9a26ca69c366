-- ===== src/Api/Ledger/Order.antt =====
-- The order of addresses is a strict total order (crypto/address.rs).
use ce334_bitcoin_client.Prelude.{◌≡◌, refl, ap, true, false, List, [], ◌∷◌, ℕ, arith}
use ce334_bitcoin_client.Crypto.Address.{H160}
use ce334_bitcoin_client.Api.Ledger.{bytes_lt, address_lt}

pub bytes_lt_irreflexive : (xs : List ℕ) → bytes_lt xs xs ≡ false
unfolding bytes_lt
bytes_lt_irreflexive [] = refl
bytes_lt_irreflexive (x ∷ xs) = ground (arith, bytes_lt_irreflexive xs)

pub bytes_lt_trans :
    (xs ys zs : List ℕ) → bytes_lt xs ys ≡ true → bytes_lt ys zs ≡ true → bytes_lt xs zs ≡ true
unfolding bytes_lt
bytes_lt_trans xs ys [] h g = g
bytes_lt_trans xs [] (z ∷ zs) h g = ground (arith, h)
bytes_lt_trans [] (y ∷ ys) (z ∷ zs) h g = refl
bytes_lt_trans (x ∷ xs) (y ∷ ys) (z ∷ zs) h g = ground (arith, bytes_lt_trans xs ys zs)

pub bytes_lt_connected :
    (xs ys : List ℕ) → bytes_lt xs ys ≡ false → bytes_lt ys xs ≡ false → xs ≡ ys
unfolding bytes_lt
bytes_lt_connected [] [] h g = refl
bytes_lt_connected (x ∷ xs) [] h g = ground (arith, g)
bytes_lt_connected [] (y ∷ ys) h g = ground (arith, h)
bytes_lt_connected (x ∷ xs) (y ∷ ys) h g =
    let same : x ≡ y = ground arith in
    let rest : bytes_lt xs ys ≡ false = ground arith in
    let rest' : bytes_lt ys xs ≡ false = ground arith in
    let tails = bytes_lt_connected xs ys rest rest' in cc (same, tails)

pub address_lt_connected : (a b : H160) → address_lt a b ≡ false → address_lt b a ≡ false → a ≡ b
address_lt_connected a b h g =
    ap (λ bytes. record { bytes = bytes }) (bytes_lt_connected a.bytes b.bytes h g)
