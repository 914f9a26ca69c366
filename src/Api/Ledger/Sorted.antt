-- ===== src/Api/Ledger/Sorted.antt =====
-- The sorted accounts do not depend on the order in which the map gives them (state.rs).
use ce334_bitcoin_client.Prelude.{
  ◌≡◌, refl, ap, sym, ◌∙◌, true, false, none, some, [], ◌∷◌, All, All-mono, arith, Bool-cases, inl,
  inr, if◌then◌else◌, ◌==k◌,
}
use ce334_bitcoin_client.Crypto.Address.{H160, h160_key}
use ce334_bitcoin_client.HashMap.{HashMap, get}
use ce334_bitcoin_client.HashMap.Distinct.{IsDistinct}
use ce334_bitcoin_client.State.{AccountInfo, State, get_acc_info}
use ce334_bitcoin_client.Api.Ledger.{address_lt, sort_in, sort_ledger, display_state}
use ce334_bitcoin_client.Api.Ledger.Order.{
  bytes_lt_irreflexive, bytes_lt_trans, address_lt_connected,
}

abbrev Accounts : Type 0
Accounts = HashMap H160 AccountInfo

abbrev Above : H160 → Accounts → Type 0
Above a l = All (λ (e : H160 × AccountInfo). address_lt a e.0 ≡ true) l

abbrev pub IsAscending : Accounts → Type 0
IsAscending [] = Unit
IsAscending ((a, i) ∷ l) = Above a l × IsAscending l

below-ne : (a b : H160) → address_lt a b ≡ true → (b ==k a) ≡ false
below-ne a b h = elim (Bool-cases (b ==k a)) [
  | inl e ↦
      let same : b ≡ a = (h160_key.beq_iff b a).0 e in
      let itself : address_lt a a ≡ true = rw same at h in
      absurd (ground (arith, itself, bytes_lt_irreflexive a.bytes))
  | inr ne ↦ ne
]

itself_key : (a : H160) → (a ==k a) ≡ true
itself_key a = (h160_key.beq_iff a a).1 refl

some_equal : {A : Type 0} {a b : A} → some a ≡ some b → a ≡ b
some_equal {A} {a} {b} e = ap (λ o. elim o [ none ↦ a | some x ↦ x ]) e

some-none : {A : Type 0} {a : A} → some a ≡ none → ⊥
some-none e = grind (arith, e)

-- of two different addresses that do not descend, the first is below
upward : (a b : H160) → (b ==k a) ≡ false → address_lt b a ≡ false → address_lt a b ≡ true
upward a b other here = elim (Bool-cases (address_lt a b)) [
  | inl up ↦ up
  | inr down ↦
      let same : b ≡ a = address_lt_connected b a here down in
      let hit : (b ==k a) ≡ true = (h160_key.beq_iff b a).1 same in
      absurd (ground (arith, hit, other))
]

get-sort_in :
    (k a : H160) (i : AccountInfo) (l : Accounts)
    → get k (sort_in (a, i) l) ≡ (if a ==k k then some i else get k l)
unfolding get sort_in
get-sort_in k a i [] = refl
get-sort_in k a i ((b, j) ∷ l) = elim (Bool-cases (address_lt b a)) [
  | inl lower ↦ elim (Bool-cases (b ==k k)) [
    | inl hit ↦
        let same : b ≡ k = (h160_key.beq_iff b k).0 hit in
        let apart : (a ==k k) ≡ false = rw (← same) (below-ne b a lower) in
        rw (sort_in, lower, get, hit, apart) refl
    | inr miss ↦ rw (sort_in, lower, get, miss) (get-sort_in k a i l)
  ]
  | inr here ↦ rw (sort_in, here) refl
]

get-sort_ledger : (k : H160) (m : Accounts) → get k (sort_ledger m) ≡ get k m
unfolding get sort_ledger
get-sort_ledger k [] = refl
get-sort_ledger k ((a, i) ∷ m) =
    get-sort_in k a i (sort_ledger m)
    ∙ ap (λ o. if a ==k k then some i else o) (get-sort_ledger k m)

sort_in-Above :
    (k a : H160) (i : AccountInfo) (l : Accounts)
    → address_lt k a ≡ true
    → Above k l
    → Above k (sort_in (a, i) l)
unfolding sort_in
sort_in-Above k a i [] h g = (h, tt)
sort_in-Above k a i ((b, j) ∷ l) h g = elim (Bool-cases (address_lt b a)) [
  | inl lower ↦ rw (sort_in, lower) (g.0, sort_in-Above k a i l h g.1)
  | inr here ↦ rw (sort_in, here) (h, g)
]

sort_in-IsAscending :
    (a : H160) (i : AccountInfo) (l : Accounts)
    → get a l ≡ none
    → IsAscending l
    → IsAscending (sort_in (a, i) l)
unfolding get sort_in
sort_in-IsAscending a i [] new g = (tt, tt)
sort_in-IsAscending a i ((b, j) ∷ l) new g = elim (Bool-cases (b ==k a)) [
  | inl hit ↦ absurd (some-none (rw (get, hit) at new))
  | inr other ↦
      let new_below : get a l ≡ none = rw (get, other) at new in
      elim (Bool-cases (address_lt b a)) [
        | inl lower ↦
            rw (sort_in, lower)
              (sort_in-Above b a i l lower g.0, sort_in-IsAscending a i l new_below g.1)
        | inr here ↦
            let first = upward a b other here in
            rw (sort_in, here)
              (
                (
                  first,
                  All-mono (λ (e : H160 × AccountInfo). address_lt b e.0 ≡ true)
                      (λ (e : H160 × AccountInfo). address_lt a e.0 ≡ true) l
                      (λ e up. bytes_lt_trans a.bytes b.bytes e.0.bytes first up) g.0,
                ),
                g,
              )
      ]
]

sort_ledger-IsAscending : (m : Accounts) → IsDistinct m → IsAscending (sort_ledger m)
unfolding sort_ledger
sort_ledger-IsAscending [] d = tt
sort_ledger-IsAscending ((a, i) ∷ m) d =
    sort_in-IsAscending a i (sort_ledger m) (get-sort_ledger a m ∙ d.0)
      (sort_ledger-IsAscending m d.1)

-- An address that is not above the others is not among them.
Above-get : (k : H160) (l : Accounts) → Above k l → get k l ≡ none
unfolding get
Above-get k [] g = refl
Above-get k ((a, i) ∷ l) g = rw (get, below-ne k a g.0) (Above-get k l g.1)

-- An address that is below all others is not among them.
lower-get :
    (b a : H160) (i : AccountInfo) (l : Accounts)
    → address_lt b a ≡ true
    → Above a l
    → get b ((a, i) ∷ l) ≡ none
lower-get b a i l lower g = Above-get b ((a, i) ∷ l) (
  lower,
  All-mono (λ (e : H160 × AccountInfo). address_lt a e.0 ≡ true)
      (λ (e : H160 × AccountInfo). address_lt b e.0 ≡ true) l
      (λ e up. bytes_lt_trans b.bytes a.bytes e.0.bytes lower up) g,
)

get-head : (a : H160) (i : AccountInfo) (l : Accounts) → get a ((a, i) ∷ l) ≡ some i
unfolding get
get-head a i l = rw (get, itself_key a) refl

tail_same :
    (a : H160) (i j : AccountInfo) (l l' : Accounts)
    → Above a l
    → Above a l'
    → ((k : H160) → get k ((a, i) ∷ l) ≡ get k ((a, j) ∷ l'))
    → (k : H160) → get k l ≡ get k l'
unfolding get
tail_same a i j l l' g g' same k = elim (Bool-cases (a ==k k)) [
  | inl hit ↦
      let here : a ≡ k = (h160_key.beq_iff a k).0 hit in
      rw (← here) (Above-get a l g ∙ sym (Above-get a l' g'))
  | inr miss ↦ rw (get, miss) at (same k)
]

-- Ascending lists that have the same accounts are the same.
IsAscending-unique :
    (l l' : Accounts) → IsAscending l → IsAscending l' → ((k : H160) → get k l ≡ get k l') → l ≡ l'
unfolding get
IsAscending-unique [] [] g g' same = refl
IsAscending-unique [] ((b, j) ∷ l') g g' same =
    absurd (some-none (sym (get-head b j l') ∙ sym (same b)))
IsAscending-unique ((a, i) ∷ l) [] g g' same = absurd (some-none (sym (get-head a i l) ∙ same a))
IsAscending-unique ((a, i) ∷ l) ((b, j) ∷ l') g g' same = elim (Bool-cases (b ==k a)) [
  | inl hit ↦
      let here : b ≡ a = (h160_key.beq_iff b a).0 hit in
      let above : Above a l' = rw here at (g'.0) in
      let same' : (k : H160) → get k ((a, i) ∷ l) ≡ get k ((a, j) ∷ l') =
        λ k. rw here at (same k) in
      let equal : i ≡ j = some_equal (sym (get-head a i l) ∙ same' a ∙ get-head a j l') in
      let rest = IsAscending-unique l l' g.1 g'.1 (tail_same a i j l l' g.0 above same') in
      cc (here, equal, rest)
  | inr other ↦ elim (Bool-cases (address_lt b a)) [
    | inl lower ↦
        absurd (some-none (sym (get-head b j l') ∙ sym (same b) ∙ lower-get b a i l lower g.0))
    | inr here ↦ absurd (
        some-none (sym (get-head a i l) ∙ same a ∙ lower-get a b j l' (upward a b other here) g'.0))
  ]
]

-- The text of the ledger depends on what the accounts hold alone: two maps that have each address once and
-- the same accounts are printed alike, in whatever order they give their entries. The printed accounts
-- are those of the map, in ascending order of their addresses.
pub display_state-same :
    (s s' : State)
    → IsDistinct s.pub_key_to_acc_info
    → IsDistinct s'.pub_key_to_acc_info
    → ((a : H160) → get_acc_info s a ≡ get_acc_info s' a)
    → (display_state s ≡ display_state s')
      × IsAscending (sort_ledger s.pub_key_to_acc_info)
      × ((a : H160) → get a (sort_ledger s.pub_key_to_acc_info) ≡ get_acc_info s a)
unfolding display_state get_acc_info
display_state-same s s' d d' same =
    let sorted : sort_ledger s.pub_key_to_acc_info ≡ sort_ledger s'.pub_key_to_acc_info =
      IsAscending-unique _ _ (sort_ledger-IsAscending s.pub_key_to_acc_info d)
        (sort_ledger-IsAscending s'.pub_key_to_acc_info d')
        (λ a.
          get-sort_ledger a s.pub_key_to_acc_info
          ∙ same a
          ∙ sym (get-sort_ledger a s'.pub_key_to_acc_info)) in
    (
      rw (display_state, sorted) refl,
      sort_ledger-IsAscending s.pub_key_to_acc_info d,
      λ a. get-sort_ledger a s.pub_key_to_acc_info,
    )
