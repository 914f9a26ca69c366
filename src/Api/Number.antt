-- ===== src/Api/Number.antt =====
-- The numbers that a request can give (api/mod.rs, with `parse::<u64>` of the standard library).
use ce334_bitcoin_client.Prelude.{
  ℕ, zero, suc, ◌+◌, ◌*◌, ◌-◌, ◌^◌, ◌≤◌, ◌<◌, ◌≡◌, ◌↔◌, refl, sym, ap, ◌∙◌, true, false, [], ◌∷◌,
  All, arith, length, ltb, leb, ◌==◌, if◌then◌else◌, Bool-cases, ◌⊎◌, inl, inr,
}
use ce334_bitcoin_client.Api.{
  Text, IntErrorKind, invalid_digit, pos_overflow, is_digit, parse_digits, parse_u64,
}

abbrev pub IsDigit : ℕ → Type 0
IsDigit c = is_digit c ≡ true

-- a number with so many zeros after it, in decimal
unfoldable pub shifted : ℕ → ℕ → ℕ
shifted n zero = n
shifted n (suc k) = shifted (n * 10) k

-- the number that digits stand for, each by its place
unfoldable pub value : Text → ℕ
unfolding shifted
value [] = 0
value (c ∷ cs) = shifted (c - 48) (length cs) + value cs

shifted-add : (n m k : ℕ) → shifted (n + m) k ≡ shifted n k + shifted m k
unfolding shifted
shifted-add n m zero = refl
shifted-add n m (suc k) =
    let spread : (n + m) * 10 ≡ n * 10 + m * 10 = omega arith in
    rw spread (shifted-add (n * 10) (m * 10) k)

shifted-le : (n k : ℕ) → n ≤ shifted n k
unfolding shifted
shifted-le n zero = omega arith
shifted-le n (suc k) = omega (arith, shifted-le (n * 10) k)

-- what digits read, after digits that read a number
abbrev read_on : ℕ → Text → ℕ
read_on n s = shifted n (length s) + value s

abbrev bounded : ℕ → IntErrorKind ⊎ ℕ
bounded n = if ltb n (2 ^ 64) then inr n else inl pos_overflow

too_large : (n : ℕ) → 2 ^ 64 ≤ n → inl pos_overflow ≡ bounded n
too_large n h = ground arith

parse_digits-value :
    (s : Text) (n : ℕ) → All IsDigit s → n < 2 ^ 64 → parse_digits s n ≡ bounded (read_on n s)
unfolding parse_digits value shifted
parse_digits-value [] n digits h = ground arith
parse_digits-value (c ∷ cs) n digits h =
    let next = n * 10 + (c - 48) in
    let total : read_on n (c ∷ cs) ≡ read_on next cs =
      omega (arith, shifted-add (n * 10) (c - 48) (length cs)) in
    let least = shifted-le next (length cs) in
    elim (Bool-cases (leb (2 ^ 64) (n * 10))) [
      | inl over ↦ rw (parse_digits, digits.0, over) (too_large (read_on n (c ∷ cs)) (ground arith))
      | inr fits ↦ elim (Bool-cases (leb (2 ^ 64) next)) [
        | inl over ↦
            rw (parse_digits, digits.0, fits, over) (too_large (read_on n (c ∷ cs)) (ground arith))
        | inr fits' ↦
            rw (parse_digits, digits.0, fits, fits')
              (parse_digits-value cs next digits.1 (ground arith) ∙ ap bounded (sym total))
      ]
    ]

parse_digits-digits : (s : Text) (n m : ℕ) → parse_digits s n ≡ inr m → All IsDigit s
unfolding parse_digits
parse_digits-digits [] n m e = tt
parse_digits-digits (c ∷ cs) n m e = elim (Bool-cases (is_digit c)) [
  | inr other ↦
      let refused : parse_digits (c ∷ cs) n ≡ inl invalid_digit = rw (parse_digits, other) refl in
      absurd (cc (refused, e))
  | inl digit ↦ (
    digit,
    elim (Bool-cases (leb (2 ^ 64) (n * 10))) [
      | inl over ↦
          let refused : parse_digits (c ∷ cs) n ≡ inl pos_overflow =
            rw (parse_digits, digit, over) refl in
          absurd (cc (refused, e))
      | inr fits ↦ elim (Bool-cases (leb (2 ^ 64) (n * 10 + (c - 48)))) [
        | inl over ↦
            let refused : parse_digits (c ∷ cs) n ≡ inl pos_overflow =
              rw (parse_digits, digit, fits, over) refl in
            absurd (cc (refused, e))
        | inr fits' ↦
            let read : parse_digits (c ∷ cs) n ≡ parse_digits cs (n * 10 + (c - 48)) =
              rw (parse_digits, digit, fits, fits') refl in
            parse_digits-digits cs (n * 10 + (c - 48)) m (sym read ∙ e)
      ]
    ],
  )
]

-- The digits read a number that fits in 64 bits.
abbrev pub Reads : Text → ℕ → Type 0
Reads digits n = (1 ≤ length digits) × All IsDigit digits × (value digits ≡ n) × (n < 2 ^ 64)

-- Decimal digits, perhaps after a plus sign.
abbrev pub IsNumeral : Text → ℕ → Type 0
IsNumeral s n = (digits : Text) × ((s ≡ digits) ⊎ (s ≡ 43 ∷ digits)) × Reads digits n

shifted_zero : (k : ℕ) → shifted 0 k ≡ 0
unfolding shifted
shifted_zero zero = refl
shifted_zero (suc k) = shifted_zero k

bounded-inr : (m n : ℕ) → bounded m ≡ inr n → (m ≡ n) × (n < 2 ^ 64)
bounded-inr m n e = elim (Bool-cases (ltb m (2 ^ 64))) [
  | inl small ↦
      let is : bounded m ≡ inr m = rw small refl in
      let same : m ≡ n = cc (is, e) in (same, ground arith)
  | inr large ↦
      let refused : bounded m ≡ inl pos_overflow = rw large refl in absurd (cc (refused, e))
]

bounded-small : (n : ℕ) → n < 2 ^ 64 → bounded n ≡ inr n
bounded-small n h = ground arith

parse_digits-Reads : (s : Text) (n : ℕ) → 1 ≤ length s → (parse_digits s 0 ≡ inr n) ↔ Reads s n
parse_digits-Reads s n some =
    let all : shifted 0 (length s) + value s ≡ value s = omega (arith, shifted_zero (length s)) in
    (
      λ e.
          let digits = parse_digits-digits s 0 n e in
          let read = parse_digits-value s 0 digits (omega arith) in
          let q = bounded-inr (read_on 0 s) n (sym read ∙ e) in (some, digits, sym all ∙ q.0, q.1),
      λ r. parse_digits-value s 0 r.1 (omega arith) ∙ ap bounded (all ∙ r.2) ∙ bounded-small n r.3,
    )

parse_u64-digits : (digits : Text) (n : ℕ) → Reads digits n → parse_u64 digits ≡ inr n
unfolding parse_u64
parse_u64-digits [] n r = absurd (omega (arith, r.0))
parse_u64-digits (c ∷ []) n r =
    let not_plus : (c == 43) ≡ false = ground (arith, r.1.0) in
    rw (parse_u64, not_plus) ((parse_digits-Reads (c ∷ []) n r.0).1 r)
parse_u64-digits (c ∷ d ∷ cs) n r =
    let not_plus : (c == 43) ≡ false = ground (arith, r.1.0) in
    rw (parse_u64, not_plus) ((parse_digits-Reads (c ∷ d ∷ cs) n r.0).1 r)

parse_u64-plus : (digits : Text) (n : ℕ) → Reads digits n → parse_u64 (43 ∷ digits) ≡ inr n
unfolding parse_u64
parse_u64-plus [] n r = absurd (omega (arith, r.0))
parse_u64-plus (d ∷ cs) n r = (parse_digits-Reads (d ∷ cs) n r.0).1 r

parse_u64-reads : (s : Text) (n : ℕ) → parse_u64 s ≡ inr n → IsNumeral s n
unfolding parse_u64
parse_u64-reads [] n e = absurd (cc e)
parse_u64-reads (c ∷ []) n e = elim (Bool-cases (c == 43)) [
  | inl plus ↦
      let refused : parse_u64 (c ∷ []) ≡ inl invalid_digit = rw (parse_u64, plus) refl in
      absurd (cc (refused, e))
  | inr other ↦
      let read : parse_u64 (c ∷ []) ≡ parse_digits (c ∷ []) 0 = rw (parse_u64, other) refl in
      (c ∷ [], inl refl, (parse_digits-Reads (c ∷ []) n (omega arith)).0 (sym read ∙ e))
]
parse_u64-reads (c ∷ d ∷ cs) n e = elim (Bool-cases (c == 43)) [
  | inl plus ↦
      let is_plus : c ≡ 43 = ground arith in
      let read : parse_u64 (c ∷ d ∷ cs) ≡ parse_digits (d ∷ cs) 0 = rw (parse_u64, plus) refl in
      (
        d ∷ cs,
        inr (ap (λ x. x ∷ d ∷ cs) is_plus),
        (parse_digits-Reads (d ∷ cs) n (omega arith)).0 (sym read ∙ e),
      )
  | inr other ↦
      let read : parse_u64 (c ∷ d ∷ cs) ≡ parse_digits (c ∷ d ∷ cs) 0 =
        rw (parse_u64, other) refl in
      (c ∷ d ∷ cs, inl refl, (parse_digits-Reads (c ∷ d ∷ cs) n (omega arith)).0 (sym read ∙ e))
]

-- A text is read as a number exactly if it is one or more decimal digits, perhaps after a plus sign,
-- that stand for the number by their places, and the number is below 2 ^ 64.
pub parse_u64-IsNumeral : (s : Text) (n : ℕ) → (parse_u64 s ≡ inr n) ↔ IsNumeral s n
parse_u64-IsNumeral s n = (
  parse_u64-reads s n,
  λ (digits, form, r). elim form [
    | inl plain ↦ ap parse_u64 plain ∙ parse_u64-digits digits n r
    | inr signed ↦ ap parse_u64 signed ∙ parse_u64-plus digits n r
  ],
)
