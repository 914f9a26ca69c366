-- ===== src/HashMap/Distinct.antt =====
-- A map has each of its keys once, which insertion keeps.
use ce334_bitcoin_client.Prelude.{
  false, ◌≡◌, false, refl, none, [], ◌∷◌, Eq, ◌==k◌, arith, Bool-cases, inl, inr,
}
use ce334_bitcoin_client.HashMap.Defs.{HashMap, get, insert}
use ce334_bitcoin_client.HashMap.Laws.{get-insert}

module _ {ℓ κ} {K : Type ℓ} {V : Type κ} ⦃e : Eq K⦄ where
  abbrev pub IsDistinct : HashMap K V → Type κ
  IsDistinct [] = Unit
  IsDistinct ((k, v) ∷ m) = (get k m ≡ none) × IsDistinct m

  pub insert-IsDistinct :
      (k : K) (v : V) (m : HashMap K V) → IsDistinct m → IsDistinct (insert k v m)
  unfolding insert get
  insert-IsDistinct k v [] d = (refl, tt)
  insert-IsDistinct k v ((j, w) ∷ m) d = elim (Bool-cases (j ==k k)) [
    | inl same ↦ rw (insert, same) d
    | inr other ↦
        let apart : e.beq k j ≡ false = ground (arith, e.beq_iff j k, e.beq_iff k j) in
        let absent : get j (insert k v m) ≡ none = ground (arith, get-insert j k v m, d.0) in
        rw (insert, other) (absent, insert-IsDistinct k v m d.1)
  ]
