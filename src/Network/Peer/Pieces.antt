-- ===== src/Network/Peer/Pieces.antt =====
-- Reads that get what they wait for in pieces (network/peer.rs).
use ce334_bitcoin_client.Prelude.{
  ℕ, zero, suc, ◌+◌, ◌-◌, ◌<◌, ◌≤◌, ◌≡◌, true, false, ◌&&◌, List, [], ◌∷◌, ◌++◌, length, take, drop,
  length-append, length-take, append_assoc, append-nil, leb, ◌==◌, refl, arith, ap, sym, ◌∙◌,
  Outcome, done, if◌then◌else◌,
}
use ce334_bitcoin_client.Network.Peer.{
  ReadContext, ReadResult, DecodeState, continue, read, filled, overwrite,
}
use ce334_bitcoin_client.Network.Peer.Framed.{length-overwrite}
use ce334_bitcoin_client.Network.Peer.Slices.{drop_end, take_all, drop_more}

module _ {ℓ} {A : Type ℓ} where
  take-append_more :
      (n k : ℕ) (xs ys : List A) → n ≡ length xs + k → take n (xs ++ ys) ≡ xs ++ take k ys
  take-append_more n k [] ys h = let e : n ≡ k = omega arith in ap (λ m. take m ys) e
  take-append_more zero k (x ∷ xs) ys h = absurd (omega arith)
  take-append_more (suc n) k (x ∷ xs) ys h = ap (◌∷◌ x) (take-append_more n k xs ys (omega arith))

  drop-append_more : (n k : ℕ) (xs ys : List A) → n ≡ length xs + k → drop n (xs ++ ys) ≡ drop k ys
  drop-append_more n k [] ys h = let e : n ≡ k = omega arith in ap (λ m. drop m ys) e
  drop-append_more zero k (x ∷ xs) ys h = absurd (omega arith)
  drop-append_more (suc n) k (x ∷ xs) ys h = drop-append_more n k xs ys (omega arith)

abbrev reader : List ℕ → ℕ → ℕ → DecodeState → ReadContext
reader buffer n m st = record { buffer = buffer; msg_length = n; read_length = m; state = st }

-- Writing two pieces one after the other is writing both.
overwrite-overwrite :
    (m : ℕ) (xs ys buffer : List ℕ)
    → m + length xs + length ys ≤ length buffer
    → overwrite (m + length xs) ys (overwrite m xs buffer) ≡ overwrite m (xs ++ ys) buffer
unfolding overwrite
overwrite-overwrite m xs ys buffer h =
    let front = take m buffer in
    let size : length front ≡ m = omega (arith, length-take m buffer) in
    let written : length (front ++ xs) ≡ m + length xs =
      omega (arith, length-append front xs, size) in
    let tail = drop (m + length xs) buffer in
    let head : take (m + length xs) (front ++ (xs ++ tail)) ≡ front ++ xs =
      ap (take (m + length xs)) (sym (append_assoc front xs tail))
      ∙ take-append_more (m + length xs) 0 (front ++ xs) tail (omega (arith, written))
      ∙ append-nil (front ++ xs) in
    let rest : drop (m + length xs + length ys) (front ++ (xs ++ tail))
        ≡ drop (m + length (xs ++ ys)) buffer =
      ap (drop (m + length xs + length ys)) (sym (append_assoc front xs tail))
      ∙ drop-append_more (m + length xs + length ys) (length ys) (front ++ xs) tail
          (omega (arith, written))
      ∙ drop_more (length ys) (m + length xs) buffer
      ∙ ap (λ k. drop k buffer) (omega_add m (length xs) (length ys) (length-append xs ys)) in
    ap (λ z. z ++ (ys ++ drop (m + length xs + length ys) (front ++ (xs ++ tail)))) head
    ∙ ap (λ z. (front ++ xs) ++ (ys ++ z)) rest
    ∙ append_assoc front xs (ys ++ drop (m + length (xs ++ ys)) buffer)
    ∙ ap (◌++◌ front) (sym (append_assoc xs ys (drop (m + length (xs ++ ys)) buffer)))
  where
    omega_add : (a b c : ℕ) {d : ℕ} → d ≡ b + c → a + b + c ≡ a + d
    omega_add a b c e = omega arith

-- The end of a read that has put some bytes in the buffer.
abbrev finish : List ℕ → ℕ → ℕ → DecodeState → List ℕ → Outcome (ReadResult × ReadContext × List ℕ)
finish buffer n m st rest = done (
    if m == n
    then ((filled (reader buffer n m st)).0, (filled (reader buffer n m st)).1, rest)
    else (continue, reader buffer n m st, rest))

read-finish :
    (available bytes rest buffer : List ℕ) (n m : ℕ) (st : DecodeState)
    → m ≤ n
    → n ≤ length buffer
    → take (n - m) available ≡ bytes
    → drop (n - m) available ≡ rest
    → 1 ≤ length bytes
    → read available (reader buffer n m st)
      ≡ finish (overwrite m bytes buffer) n (m + length bytes) st rest
unfolding read
read-finish available bytes rest buffer n m st before within taken dropped some =
    let in_range : (leb m n && leb n (length buffer)) ≡ true = ground arith in
    let nonempty : (length (take (n - m) available) == 0) ≡ false = rw taken (ground arith) in
    rw (read, in_range, nonempty)
      (λ i. finish (overwrite m (taken i) buffer) n (m + length (taken i)) st (dropped i))

-- Some bytes, too few to fill what is to be filled, are kept; a read of further bytes then gives what one
-- read of all bytes would have given.
pub read-pieces :
    (first second : List ℕ) (r : ReadContext)
    → 1 ≤ length first
    → r.read_length + length first < r.msg_length
    → r.msg_length ≤ length r.buffer
    → 1 ≤ length second
    → (r' : ReadContext) × (read first r ≡ done (continue, r', []))
      × (read second r' ≡ read (first ++ second) r)
read-pieces first second r h1 few fits h2 =
    let m = r.read_length in
    let n = r.msg_length in
    let st = r.state in
    let m1 = m + length first in
    let buffer1 = overwrite m first r.buffer in
    let tail = take (n - m1) second in
    let rest = drop (n - m1) second in
    let short : (m1 == n) ≡ false = ground arith in
    let all_first : take (n - m) first ≡ first = take_all (n - m) first (omega arith) in
    let none_left : drop (n - m) first ≡ [] = drop_end (n - m) first (omega arith) in
    let width : n - m ≡ length first + (n - m1) = omega arith in
    let tail_size = length-take (n - m1) second in
    let joint = length-append first tail in
    let same_size : length buffer1 ≡ length r.buffer =
      length-overwrite m first r.buffer (omega arith) in
    let counted : m1 + length tail ≡ m + length (first ++ tail) = omega (arith, joint) in
    (
      reader buffer1 n m1 st,
      read-finish first first [] r.buffer n m st (omega arith) fits all_first none_left h1
          ∙ rw short refl,
      read-finish second tail rest buffer1 n m1 st (omega arith) (omega (arith, same_size)) refl
            refl (omega (arith, tail_size))
          ∙ (λ i.
              finish (overwrite-overwrite m first tail r.buffer (omega (arith, tail_size)) i) n
                (counted i) st rest)
          ∙ sym (
              read-finish (first ++ second) (first ++ tail) rest r.buffer n m st (omega arith) fits
                (take-append_more (n - m) (n - m1) first second width)
                (drop-append_more (n - m) (n - m1) first second width) (omega (arith, joint))),
    )
