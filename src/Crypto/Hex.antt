-- ===== src/Crypto/Hex.antt =====
-- The text of hashes and addresses: `Display` and `Debug` of crypto/hash.rs and crypto/address.rs.
use ce334_bitcoin_client.Prelude.{
  take-append-drop, take, length-drop, length, suc, ℕ, zero, suc, ◌+◌, ◌-◌, ◌*◌, ◌/◌, ◌%◌, ◌≤◌, ◌<◌,
  ◌≡◌, refl, ap, ◌∙◌, Option, none, some, List, [], ◌∷◌, ◌++◌, All, arith, drop, get_elem?, ltb,
  leb, if◌then◌else◌, Bool-cases, inl, inr, Outcome, done, panicked, ◌>>=◌,
}
use ce334_bitcoin_client.Crypto.Hash.{H256, IsH256}
use ce334_bitcoin_client.Crypto.Address.{H160}

abbrev pub hex_digit : ℕ → ℕ
hex_digit n = if ltb n 10 then 48 + n else 87 + n

-- `{:>02x}`
abbrev pub hex_byte : ℕ → List ℕ
hex_byte b = hex_digit (b / 16) ∷ hex_digit (b % 16) ∷ []

unfoldable pub hex : List ℕ → List ℕ
hex [] = []
hex (b ∷ bs) = hex_byte b ++ hex bs

-- `start` of `Display::fmt`, of so many bytes
unfoldable pub start_of : ℕ → Option ℕ → ℕ
start_of size none = 0
start_of size (some precision) = if leb (size * 2) precision then 0 else size - precision / 2

-- `for byte_idx in start..32` and its write; a hash has 32 bytes and an address has 20
unfoldable pub display_h256 : Option ℕ → H256 → List ℕ
unfolding hex start_of
display_h256 precision h = hex (drop (start_of 32 precision) h.bytes)

unfoldable pub display_h160 : Option ℕ → H160 → List ℕ
unfolding hex start_of
display_h160 precision h = hex (drop (start_of 20 precision) h.bytes)

-- an index into the array
abbrev pub byte_at : List ℕ → ℕ → Outcome ℕ
byte_at bytes i = elim (get_elem? bytes i) [ none ↦ panicked | some b ↦ done b ]

abbrev pub debug_bytes : ℕ → ℕ → List ℕ → Outcome (List ℕ)
debug_bytes second_last last bytes = do
  a ← byte_at bytes 0
  b ← byte_at bytes 1
  c ← byte_at bytes second_last
  d ← byte_at bytes last
  done (hex_byte a ++ (hex_byte b ++ (46 ∷ 46 ∷ (hex_byte c ++ hex_byte d))))

abbrev pub debug_h256 : H256 → Outcome (List ℕ)
debug_h256 h = debug_bytes 30 31 h.bytes

abbrev pub debug_h160 : H160 → Outcome (List ℕ)
debug_h160 h = debug_bytes 18 19 h.bytes

-- the value of a lower-case digit, and the bytes of pairs of digits
abbrev pub digit_value : ℕ → ℕ
digit_value c = if ltb c 58 then c - 48 else c - 87

unfoldable pub bytes_of : List ℕ → List ℕ
bytes_of [] = []
bytes_of (c ∷ []) = []
bytes_of (c ∷ d ∷ cs) = (digit_value c * 16 + digit_value d) ∷ bytes_of cs

digit_value-hex_digit : (n : ℕ) → n < 16 → digit_value (hex_digit n) ≡ n
digit_value-hex_digit n h = ground arith

hex_byte-value :
    (b : ℕ) → b < 256 → digit_value (hex_digit (b / 16)) * 16 + digit_value (hex_digit (b % 16)) ≡ b
hex_byte-value b h =
    let high = digit_value-hex_digit (b / 16) (omega arith) in
    let low = digit_value-hex_digit (b % 16) (omega arith) in rw (high, low) (omega arith)

bytes_of-hex : (bs : List ℕ) → All (λ b. b < 256) bs → bytes_of (hex bs) ≡ bs
unfolding bytes_of hex
bytes_of-hex [] h = refl
bytes_of-hex (b ∷ bs) h = rw (hex_byte-value b h.0) (ap (◌∷◌ b) (bytes_of-hex bs h.1))

All-drop : (n : ℕ) (bs : List ℕ) → All (λ b. b < 256) bs → All (λ b. b < 256) (drop n bs)
All-drop zero bs h = h
All-drop (suc n) [] h = tt
All-drop (suc n) (b ∷ bs) h = All-drop n bs h.1

length-hex : (bs : List ℕ) → length (hex bs) ≡ length bs * 2
unfolding hex
length-hex [] = omega arith
length-hex (b ∷ bs) = omega (arith, length-hex bs)

-- the digits that a precision asks for, of so many at most
unfoldable pub digits_shown : ℕ → Option ℕ → ℕ
digits_shown most none = most
digits_shown most (some precision) = if leb most precision then most else precision / 2 * 2

start-shown :
    (size : ℕ) (precision : Option ℕ)
    → (start_of size precision ≤ size)
      × ((size - start_of size precision) * 2 ≡ digits_shown (size * 2) precision)
unfolding start_of digits_shown
start-shown size none = (omega arith, omega arith)
start-shown size (some precision) = elim (Bool-cases (leb (size * 2) precision)) [
  | inl all ↦ rw all (omega arith, omega arith)
  | inr part ↦ let less : precision < size * 2 = ground arith in rw part (omega arith, omega arith)
]

-- The text shows the last bytes, so many digits of them, and they can be read back from it.
abbrev pub Shows : ℕ → Option ℕ → List ℕ → List ℕ → Type 0
Shows size precision bytes text =
    (length text ≡ digits_shown (size * 2) precision)
    × ((earlier : List ℕ) × (earlier ++ bytes_of text ≡ bytes))

hex-Shows :
    (size : ℕ) (precision : Option ℕ) (bytes : List ℕ)
    → All (λ b. b < 256) bytes
    → length bytes ≡ size
    → Shows size precision bytes (hex (drop (start_of size precision) bytes))
hex-Shows size precision bytes bounded full =
    let n = start_of size precision in
    let shown = start-shown size precision in
    let digits = length-hex (drop n bytes) in
    let left = length-drop n bytes in
    (
      omega (arith, shown.0, shown.1, digits, left, full),
      (
        take n bytes,
        ap (λ bs. take n bytes ++ bs) (bytes_of-hex (drop n bytes) (All-drop n bytes bounded))
            ∙ take-append-drop n bytes,
      ),
    )

-- The text of a hash and that of an address have a digit for each four bits, or where a precision below
-- that is asked for, the greatest even number of digits within it; the last bytes can be read back from it.
pub display-Shows :
    (precision : Option ℕ) (h : H256) (a : H160)
    → IsH256 h
    → All (λ b. b < 256) a.bytes
    → length a.bytes ≡ 20
    → Shows 32 precision h.bytes (display_h256 precision h)
      × Shows 20 precision a.bytes (display_h160 precision a)
unfolding display_h256 display_h160
display-Shows precision h a v a_bounded a_full =
    (hex-Shows 32 precision h.bytes v.range v.len, hex-Shows 20 precision a.bytes a_bounded a_full)
