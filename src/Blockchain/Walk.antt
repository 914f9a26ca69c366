-- ===== src/Blockchain/Walk.antt =====
-- The walk from the tip to the genesis block.
use ce334_bitcoin_client.Prelude.{
  ◌∙◌, ap, ℕ, zero, suc, ◌+◌, ◌^◌, ◌<◌, ◌≡◌, none, some, List, [], ◌∷◌, arith, done, length, ◌>>=◌,
  ◌∙◌, ap, Returns, Returns-bind, Returns-done,
}
use ce334_bitcoin_client.Crypto.Hash.{H256, h256_key, zero_hash}
use ce334_bitcoin_client.HashMap.{get}
use ce334_bitcoin_client.HashMap.Laws.{All-get}
use ce334_bitcoin_client.Block.{genesis}
use ce334_bitcoin_client.Platform.{Platform}
use ce334_bitcoin_client.Blockchain.{
  Stored, Blockchain, parent_of, ancestors, all_blocks_in_longest_chain,
}
use ce334_bitcoin_client.Blockchain.Valid.{IsLinked, root, child, IsValid, genesis_stored}

module _ (p : Platform) where
  -- The hashes lead from the first through stored blocks, each to its parent, to the genesis block.
  pub data Leads (bc : Blockchain) : H256 → List H256 → Type 0 where
    at_genesis : (k : H256) → get k bc.hash_to_block ≡ some (genesis_stored p) → Leads bc k (k ∷ [])
    above :
        (k : H256) (e : Stored) {ks : List H256}
        → get k bc.hash_to_block ≡ some e
        → Leads bc (parent_of e.block) ks
        → Leads bc k (k ∷ ks)

  module _ (bc : Blockchain) (v : IsValid p bc) (small : length bc.hash_to_block < 2 ^ 64)
      (unused : get zero_hash bc.hash_to_block ≡ none) where
    abbrev Walked : H256 → ℕ → List H256 → Type 0
    Walked k height ks = Leads bc k ks × (length ks ≡ height + 1)

    ancestors_found :
        (fuel : ℕ) (k : H256) (e : Stored)
        → get k bc.hash_to_block ≡ some e
        → ancestors p (suc fuel) k bc
          ≡ (ancestors p fuel (parent_of e.block) bc >>= λ rest. done (k ∷ rest))
    unfolding ancestors
    ancestors_found fuel k e found = ground (arith, found)

    ancestors_missing : (fuel : ℕ) → ancestors p (suc fuel) zero_hash bc ≡ done []
    unfolding ancestors
    ancestors_missing fuel = ground (arith, unused)

    genesis-parent : (e : Stored) → e ≡ genesis_stored p → parent_of e.block ≡ zero_hash
    unfolding genesis
    genesis-parent e g = ap (λ (x : Stored). parent_of x.block) g

    ancestors-genesis :
        (fuel : ℕ) (k : H256) (e : Stored)
        → e ≡ genesis_stored p
        → get k bc.hash_to_block ≡ some e
        → Returns (Walked k e.height) (ancestors p (suc (suc fuel)) k bc)
    ancestors-genesis fuel k e g found =
        let low : e.height ≡ 0 = ap (λ (x : Stored). x.height) g in
        rw (ancestors_found (suc fuel) k e found, genesis-parent e g, ancestors_missing fuel)
          (at_genesis k (found ∙ ap some g), omega arith)

    ancestors-Walked :
        (fuel : ℕ) (k : H256) (e : Stored)
        → get k bc.hash_to_block ≡ some e
        → e.height + 1 < fuel
        → Returns (Walked k e.height) (ancestors p fuel k bc)
    ancestors-Walked zero k e found h = absurd (omega arith)
    ancestors-Walked (suc zero) k e found h = absurd (omega arith)
    ancestors-Walked (suc (suc fuel)) k e found h =
        go (All-get (IsLinked p bc.hash_to_block) k bc.hash_to_block v.linked found)
          (λ parent. ancestors-Walked (suc fuel) (parent_of e.block) parent)
      where
        go :
            IsLinked p bc.hash_to_block (k, e)
            → ((parent : Stored)
                → get (parent_of e.block) bc.hash_to_block ≡ some parent
                → parent.height + 1 < suc fuel
                → Returns
                    (Walked (parent_of e.block) parent.height)
                    (ancestors p (suc fuel) (parent_of e.block) bc))
            → Returns (Walked k e.height) (ancestors p (suc (suc fuel)) k bc)
        go (root a b) walk = ancestors-genesis fuel k e b found
        go (child parent q a b c d) walk =
            let below =
              All-get (λ (x : H256 × Stored). x.1.height < length bc.hash_to_block)
                (parent_of e.block) bc.hash_to_block v.sized q in
            let up : e.height ≡ parent.height + 1 = omega arith in
            rw (ancestors_found (suc fuel) k e found) (
              Returns-bind (Walked (parent_of e.block) parent.height) (Walked k e.height) _
                (ancestors p (suc fuel) (parent_of e.block) bc) (walk parent q (omega arith))
                λ rest w. (above k e found w.0, omega arith))

    -- On a well-formed chain of fewer than 2 ^ 64 blocks, none of which has the hash 0, the walk from
    -- the tip returns: its length passes the assertion, and it leads from the tip to genesis.
    pub all_blocks_in_longest_chain-Leads :
        (ks : List H256) × (all_blocks_in_longest_chain p bc ≡ done ks)
        × Leads bc bc.tip ks
        × (length ks ≡ v.top.height + 1)
    unfolding all_blocks_in_longest_chain
    all_blocks_in_longest_chain-Leads =
        let below =
          All-get (λ (x : H256 × Stored). x.1.height < length bc.hash_to_block) bc.tip
            bc.hash_to_block v.sized v.top_stored in
        let walk : Returns (Walked bc.tip v.top.height)
            (ancestors p (length bc.hash_to_block + 1) bc.tip bc) =
          ancestors-Walked (length bc.hash_to_block + 1) bc.tip v.top v.top_stored (omega arith) in
        let (ks, e, w) =
          Returns-done (Walked bc.tip v.top.height)
            (ancestors p (length bc.hash_to_block + 1) bc.tip bc) walk in
        (ks, ground (arith, e, v.top_stored), w.0, w.1)
