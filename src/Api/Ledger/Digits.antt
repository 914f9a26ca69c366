-- ===== src/Api/Ledger/Digits.antt =====
-- The digits that are printed read back as the number (format! and parse::<u64> of the standard library).
use ce334_bitcoin_client.Prelude.{
  ℕ, zero, suc, ◌+◌, ◌*◌, ◌-◌, ◌/◌, ◌%◌, ◌^◌, ◌≤◌, ◌<◌, ◌≡◌, refl, ap, ◌∙◌, true, [], ◌∷◌, ◌++◌,
  All, All-append, length, length-append, arith, ltb, Bool-cases, inl, inr,
}
use ce334_bitcoin_client.Api.{Text, parse_u64}
use ce334_bitcoin_client.Api.Number.{IsDigit, value, shifted, parse_u64-IsNumeral}
use ce334_bitcoin_client.Api.Ledger.{decimal}

shifted_one : (n k : ℕ) → shifted n (k + 1) ≡ shifted n k * 10
unfolding shifted
shifted_one n zero = refl
shifted_one n (suc k) =
    let at : suc k + 1 ≡ suc (k + 1) = omega arith in ap (shifted n) at ∙ shifted_one (n * 10) k

-- a digit after others
value-snoc : (s : Text) (c : ℕ) → value (s ++ c ∷ []) ≡ value s * 10 + (c - 48)
unfolding value shifted
value-snoc [] c = omega arith
value-snoc (d ∷ s) c =
    let longer : length (s ++ c ∷ []) ≡ length s + 1 = length-append s (c ∷ []) in
    rw longer (omega (arith, shifted_one (d - 48) (length s), value-snoc s c))

-- the power of ten
abbrev power : ℕ → ℕ
power zero = 1
power (suc k) = power k * 10

-- The digits make a number, which is the one given.
abbrev Prints : Text → ℕ → Type 0
Prints digits n = (1 ≤ length digits) × All IsDigit digits × (value digits ≡ n)

shown-IsDigit : (c : ℕ) → c < 10 → IsDigit (48 + c)
shown-IsDigit c h = ground (arith, h)

one_more :
    (before : Text) (n : ℕ) → Prints before (n / 10) → Prints (before ++ (48 + n % 10) ∷ []) n
one_more before n (size, digits, reads) = (
  omega (arith, length-append before ((48 + n % 10) ∷ [])),
  All-append IsDigit before ((48 + n % 10) ∷ []) digits (shown-IsDigit (n % 10) (omega arith), tt),
  value-snoc before (48 + n % 10) ∙ omega (arith, reads),
)

decimal_short : (fuel n : ℕ) → ltb n 10 ≡ true → Prints (decimal (suc fuel) n) n
unfolding decimal value shifted
decimal_short fuel n short =
    rw (decimal, short) (omega arith, (shown-IsDigit n (ground (arith, short)), tt), omega arith)

decimal-Prints : (fuel n : ℕ) → n < power (suc fuel) → Prints (decimal (suc fuel) n) n
unfolding decimal
decimal-Prints zero n h = decimal_short zero n (ground (arith, h))
decimal-Prints (suc fuel) n h = elim (Bool-cases (ltb n 10)) [
  | inl short ↦ decimal_short (suc fuel) n short
  | inr long ↦
      rw (decimal, long)
        (one_more (decimal (suc fuel) (n / 10)) n (decimal-Prints fuel (n / 10) (omega (arith, h))))
]

-- A number of 64 bits is printed in full, and is read back by the parser of a request.
pub parse_u64-decimal : (n : ℕ) → n < 2 ^ 64 → parse_u64 (decimal 20 n) ≡ inr n
parse_u64-decimal n h =
    let (size, digits, reads) = decimal-Prints 19 n (omega (arith, h)) in
    (parse_u64-IsNumeral (decimal 20 n) n).1 (decimal 20 n, inl refl, (size, digits, reads, h))
