-- ===== src/HashMap/Laws.antt =====
-- What a lookup returns after each operation, and which predicates on the entries they keep.
use ce334_bitcoin_client.Prelude.{
  ◌≡◌, ◌≢◌, refl, Bool, true, false, Option, none, some, [], ◌∷◌, if◌then◌else◌, Eq, beq_refl,
  ◌==k◌, All, arith, inl, inr, beq_ne, Bool-cases,
}
use ce334_bitcoin_client.HashMap.Defs.{HashMap, get, contains_key, insert, remove, retain}

module _ {ℓ κ} {K : Type ℓ} {V : Type κ} ⦃e : Eq K⦄ where
  pub get-insert :
      (j k : K) (v : V) (m : HashMap K V)
      → get j (insert k v m) ≡ (if k ==k j then some v else get j m)
  unfolding get insert
  get-insert j k v [] = refl
  get-insert j k v ((i, w) ∷ m) =
      ground (arith, e.beq_iff i k, e.beq_iff i j, e.beq_iff k j, get-insert j k v m)

  pub get-insert_self : (k : K) (v : V) (m : HashMap K V) → get k (insert k v m) ≡ some v
  get-insert_self k v m = ground (arith, get-insert k k v m, beq_refl k)

  pub get-insert_ne : (j k : K) (v : V) (m : HashMap K V) → k ≢ j → get j (insert k v m) ≡ get j m
  get-insert_ne j k v m h = ground (arith, get-insert j k v m, beq_ne k j h)

  pub get-remove :
      (j k : K) (m : HashMap K V) → get j (remove k m) ≡ (if k ==k j then none else get j m)
  unfolding get remove
  get-remove j k [] = ground arith
  get-remove j k ((i, w) ∷ m) =
      ground (arith, e.beq_iff i k, e.beq_iff i j, e.beq_iff k j, get-remove j k m)

  pub contains_key-true :
      (k : K) (m : HashMap K V) → contains_key k m ≡ true → (v : V) × (get k m ≡ some v)
  unfolding contains_key
  contains_key-true k m h = go (get k m) h
    where
      go :
          (o : Option V) → (elim o [ none ↦ false | some _ ↦ true ]) ≡ true → (v : V) × (o ≡ some v)
      go none q = absurd (ground arith)
      go (some v) q = (v, refl)

  pub contains_key-false : (k : K) (m : HashMap K V) → contains_key k m ≡ false → get k m ≡ none
  unfolding contains_key
  contains_key-false k m h = ground arith

  pub contains_key-some :
      (k : K) (v : V) (m : HashMap K V) → get k m ≡ some v → contains_key k m ≡ true
  unfolding contains_key
  contains_key-some k v m h = ground arith

  pub contains_key-none : (k : K) (m : HashMap K V) → get k m ≡ none → contains_key k m ≡ false
  unfolding contains_key
  contains_key-none k m h = ground arith

module _ {ℓ κ μ} {K : Type ℓ} {V : Type κ} ⦃e : Eq K⦄ (P : K × V → Type μ) where
  -- An entry that a lookup finds has what all entries have.
  pub All-get : (k : K) {v : V} (m : HashMap K V) → All P m → get k m ≡ some v → P (k, v)
  unfolding get
  All-get k [] h q = absurd (ground arith)
  All-get k {v} ((i, w) ∷ m) h q = elim (Bool-cases (e.beq i k)) [
    | inl same ↦
        let iw : i ≡ k = (e.beq_iff i k).0 same in
        let wv : w ≡ v = ground arith in subst₂' iw wv h.0
    | inr other ↦ All-get k m h.1 (ground arith)
  ]
    where
      subst₂' : {i k : K} {w v : V} → i ≡ k → w ≡ v → P (i, w) → P (k, v)
      subst₂' p q x = rw (← p, ← q) x

  pub All-insert : (k : K) (v : V) (m : HashMap K V) → P (k, v) → All P m → All P (insert k v m)
  unfolding insert
  All-insert k v [] new h = (new, tt)
  All-insert k v ((i, w) ∷ m) new h = elim (Bool-cases (e.beq i k)) [
    | inl same ↦ let ik : i ≡ k = (e.beq_iff i k).0 same in rw same (rw ik new, h.1)
    | inr other ↦ rw other (h.0, All-insert k v m new h.1)
  ]

  pub All-remove : (k : K) (m : HashMap K V) → All P m → All P (remove k m)
  unfolding remove
  All-remove k [] h = tt
  All-remove k ((i, w) ∷ m) h = elim (Bool-cases (e.beq i k)) [
    | inl same ↦ rw same (All-remove k m h.1)
    | inr other ↦ rw other (h.0, All-remove k m h.1)
  ]

module _ {ℓ κ μ} {K : Type ℓ} {V : Type κ} (P : K × V → Type μ) where
  pub All-retain : (test : V → Bool) (m : HashMap K V) → All P m → All P (retain test m)
  unfolding retain
  All-retain test [] h = tt
  All-retain test ((i, w) ∷ m) h = elim (Bool-cases (test w)) [
    | inl kept ↦ rw kept (h.0, All-retain test m h.1)
    | inr gone ↦ rw gone (All-retain test m h.1)
  ]

module _ {ℓ κ} {K : Type ℓ} {V : Type κ} where
  -- What is retained passes the test.
  pub retain_passes :
      (test : V → Bool) (m : HashMap K V) → All (λ x. test x.1 ≡ true) (retain test m)
  unfolding retain
  retain_passes test [] = tt
  retain_passes test ((i, w) ∷ m) = elim (Bool-cases (test w)) [
    | inl kept ↦ rw kept (kept, retain_passes test m)
    | inr gone ↦ rw gone (retain_passes test m)
  ]
