-- ===== src/Node/Known.antt =====
-- The loop of main.rs that connects to the known peers and tries again. The parsing of an address and
-- what each attempt gives are arguments; the wait between attempts is left out.
use ce334_bitcoin_client.Prelude.{
  ℕ, zero, suc, ◌≡◌, refl, ap, Bool, true, false, Option, none, some, List, [], ◌∷◌, ◌++◌, length,
  sym, arith, Option-cases, inl, inr, take, leb,
}
use ce334_bitcoin_client.Api.{Text}

-- The attempts of a run, each with its result, and whether the thread has come to its end.
pub record Attempts (A : Type 0) : Type 0 where
  pub made : List (A × Bool)
  pub is_over : Bool

-- The inner loop, with the results of `server.connect` to come: what it tries, and the results that it
-- leaves, or none where it waits for one.
unfoldable pub retry : {A : Type 0} → A → List Bool → List (A × Bool) × Option (List Bool)
retry addr [] = ([], none)
retry addr (true ∷ results) = ((addr, true) ∷ [], some results)
retry addr (false ∷ results) = let (made, left) = retry addr results in ((addr, false) ∷ made, left)

module _ {A : Type 0} (parse : Text → Option A) where
  unfoldable pub connect_known_peers : List Text → List Bool → Attempts A
  unfolding retry
  connect_known_peers [] results = record { made = []; is_over = true }
  connect_known_peers (peer ∷ peers) results = elim (parse peer) [
    | none ↦ connect_known_peers peers results
    | some addr ↦
        let (made, left) = retry addr results in
        elim left [
          | none ↦ record { made = made; is_over = false }
          | some rest ↦
              let run = connect_known_peers peers rest in
              record { made = made ++ run.made; is_over = run.is_over }
        ]
  ]

  unfoldable pub addresses : List Text → List A
  addresses [] = []
  addresses (peer ∷ peers) = elim (parse peer) [
    | none ↦ addresses peers
    | some addr ↦ addr ∷ addresses peers
  ]

abbrev pub successes : List Bool → ℕ
successes [] = 0
successes (true ∷ results) = suc (successes results)
successes (false ∷ results) = successes results

abbrev pub connected : {A : Type 0} → List (A × Bool) → List A
connected [] = []
connected ((addr, true) ∷ made) = addr ∷ connected made
connected ((addr, false) ∷ made) = connected made

take-nil : {A : Type 0} (n : ℕ) → take {A = A} n [] ≡ []
take-nil zero = refl
take-nil (suc n) = refl

-- What the inner loop makes of one address.
abbrev Tried : {A : Type 0} → A → List Bool → List (A × Bool) × Option (List Bool) → Type 0
Tried addr results (made, none) = (successes results ≡ 0) × (connected made ≡ [])
Tried addr results (made, some rest) =
    (successes results ≡ suc (successes rest)) × (connected made ≡ addr ∷ [])

also-Tried :
    {A : Type 0} (addr : A) (results : List Bool) (r : List (A × Bool) × Option (List Bool))
    → Tried addr results r
    → Tried addr (false ∷ results) ((addr, false) ∷ r.0, r.1)
also-Tried addr results (made, none) t = t
also-Tried addr results (made, some rest) t = t

retry-Tried :
    {A : Type 0} (addr : A) (results : List Bool) → Tried addr results (retry addr results)
unfolding retry
retry-Tried addr [] = (refl, refl)
retry-Tried addr (true ∷ results) = (refl, refl)
retry-Tried addr (false ∷ results) =
    also-Tried addr results (retry addr results) (retry-Tried addr results)

connected-append :
    {A : Type 0} (made more : List (A × Bool))
    → connected (made ++ more) ≡ connected made ++ connected more
connected-append [] more = refl
connected-append ((addr, true) ∷ made) more = ap (◌∷◌ addr) (connected-append made more)
connected-append ((addr, false) ∷ made) more = connected-append made more

module _ {A : Type 0} (parse : Text → Option A) where
  abbrev Reaches : List A → List Bool → Attempts A → Type 0
  Reaches addrs results run =
      (connected run.made ≡ take (successes results) addrs)
      × (run.is_over ≡ leb (length addrs) (successes results))

  after_retry :
      (addr : A) (peers : List Text) (results : List Bool)
      (r : List (A × Bool) × Option (List Bool))
      → Tried addr results r
      → ((rest : List Bool)
          → Reaches (addresses parse peers) rest (connect_known_peers parse peers rest))
      → Reaches (addr ∷ addresses parse peers) results (elim r.1 [
        | none ↦ record { made = r.0; is_over = false }
        | some rest ↦
            let run = connect_known_peers parse peers rest in
            record { made = r.0 ++ run.made; is_over = run.is_over }
      ])
  after_retry addr peers results (made, none) t further = (rw (t.0, t.1) refl, ground (arith, t.0))
  after_retry addr peers results (made, some rest) t further =
      let (reached, over) = further rest in
      (rw (connected-append, t.0, t.1, reached) refl, rw (over, t.0) (ground arith))

  -- The thread connects to the known peers whose addresses can be parsed, in their order and each once, one
  -- for each attempt that succeeds, and it ends exactly if as many attempts succeed as there are such peers.
  pub connect_known_peers-Reaches :
      (peers : List Text) (results : List Bool)
      → Reaches (addresses parse peers) results (connect_known_peers parse peers results)
  unfolding connect_known_peers addresses
  connect_known_peers-Reaches [] results = (sym (take-nil (successes results)), ground arith)
  connect_known_peers-Reaches (peer ∷ peers) results = elim (Option-cases (parse peer)) [
    | inl unparsed ↦
        rw (connect_known_peers, addresses, unparsed) (connect_known_peers-Reaches peers results)
    | inr (addr, parsed) ↦
        rw (connect_known_peers, addresses, parsed)
          (after_retry addr peers results (retry addr results) (retry-Tried addr results)
            (connect_known_peers-Reaches peers))
  ]
