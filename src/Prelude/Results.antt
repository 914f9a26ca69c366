-- ===== src/Prelude/Results.antt =====
-- The result of code that may panic, and of loops on fuel.
use mathlib.Core.Path.{◌≡◌, refl}

pub data Outcome {ℓ} (A : Type ℓ) : Type ℓ where
  done : A → Outcome A
  panicked : Outcome A
  out_of_fuel : Outcome A

infixl 5 ◌>>=◌
abbrev pub ◌>>=◌ {ℓ κ} : {A : Type ℓ} {B : Type κ} → Outcome A → (A → Outcome B) → Outcome B
done a >>= f = f a
panicked >>= f = panicked
out_of_fuel >>= f = out_of_fuel

-- The code returns, and its result has the property.
abbrev pub Returns {ℓ} : {A : Type ℓ} → (A → Type 0) → Outcome A → Type 0
Returns P (done a) = P a
Returns P panicked = ⊥
Returns P out_of_fuel = ⊥

module _ {ℓ κ} {A : Type ℓ} {B : Type κ} (P : A → Type 0) (Q : B → Type 0) (f : A → Outcome B) where
  -- Each part returns, so the whole does.
  pub Returns-bind :
      (m : Outcome A) → Returns P m → ((a : A) → P a → Returns Q (f a)) → Returns Q (m >>= f)
  Returns-bind (done a) h k = k a h
  Returns-bind panicked h k = absurd h
  Returns-bind out_of_fuel h k = absurd h

module _ {ℓ} {A : Type ℓ} (P : A → Type 0) where
  pub Returns-done : (m : Outcome A) → Returns P m → (a : A) × (m ≡ done a) × P a
  Returns-done (done a) h = (a, refl, h)
  Returns-done panicked h = absurd h
  Returns-done out_of_fuel h = absurd h

  pub Returns-result : (m : Outcome A) (a : A) → m ≡ done a → Returns P m → P a
  Returns-result m a e h = rw e at h

module _ {ℓ} {A : Type ℓ} (P Q : A → Type 0) where
  pub Returns-mono : (m : Outcome A) → ((a : A) → P a → Q a) → Returns P m → Returns Q m
  Returns-mono (done a) f h = f a h
  Returns-mono panicked f h = h
  Returns-mono out_of_fuel f h = h

  pub Returns-both : (m : Outcome A) → Returns P m → Returns Q m → Returns (λ a. P a × Q a) m
  Returns-both (done a) h g = (h, g)
  Returns-both panicked h g = h
  Returns-both out_of_fuel h g = h
