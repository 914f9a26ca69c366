-- ===== src/Network/Slab.antt =====
-- The crate slab, as an interface: a table that chooses its keys, and what its documentation says of it.
use ce334_bitcoin_client.Prelude.{ℕ, ◌≡◌, ◌==◌, Option, none, some, if◌then◌else◌}

pub record Slabs (T : Type 0) : Type 1 where
  pub Slab : Type 0
  pub empty : Slab
  -- `contains`, and indexing, which panics where this is none
  pub get : ℕ → Slab → Option T
  -- `vacant_entry().key()` and `vacant_entry().insert(value)`
  pub vacant_key : Slab → ℕ
  pub insert : T → Slab → Slab
  -- a write to the value of a key, as through `&mut slab[key]`
  pub update : ℕ → T → Slab → Slab
  pub remove : ℕ → Slab → Slab

pub record IsSlabs {T : Type 0} (S : Slabs T) : Type 0 where
  pub get-empty : (j : ℕ) → S.get j S.empty ≡ none
  pub get-vacant_key : (s : S.Slab) → S.get (S.vacant_key s) s ≡ none
  pub get-insert :
      (j : ℕ) (v : T) (s : S.Slab)
      → S.get j (S.insert v s) ≡ (if S.vacant_key s == j then some v else S.get j s)
  -- of a key that is there
  pub get-update :
      (j k : ℕ) (v w : T) (s : S.Slab)
      → S.get k s ≡ some w
      → S.get j (S.update k v s) ≡ (if k == j then some v else S.get j s)
  pub get-remove :
      (j k : ℕ) (w : T) (s : S.Slab)
      → S.get k s ≡ some w
      → S.get j (S.remove k s) ≡ (if k == j then none else S.get j s)
