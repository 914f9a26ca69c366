-- ===== src/Miner/Announced.antt =====
-- What the miner announces is stored, however far the chain has come since the block was made (miner.rs).
use ce334_bitcoin_client.Prelude.{
  ℕ, ◌+◌, ◌%◌, ◌^◌, ◌≡◌, ◌≢◌, refl, subst, false, Option, none, some, List, [], All, Bool-cases,
  inl, inr, done, Returns, Returns-bind, Returns-both,
}
use ce334_bitcoin_client.Crypto.Hash.{h256_key, gt}
use ce334_bitcoin_client.HashMap.{get, contains_key}
use ce334_bitcoin_client.HashMap.Laws.{contains_key-true}
use ce334_bitcoin_client.Block.{Block}
use ce334_bitcoin_client.Block.Hashing.{hash_block}
use ce334_bitcoin_client.State.{State, update_with_transactions}
use ce334_bitcoin_client.Platform.{Platform}
use ce334_bitcoin_client.Blockchain.{
  Blockchain, Stored, parent_of, raw_transactions, insert_block_with_validation,
}
use ce334_bitcoin_client.Blockchain.Steps.{child_height}
use ce334_bitcoin_client.Blockchain.Valid.{IsValid}
use ce334_bitcoin_client.Blockchain.Reach.{Reach, Reach-IsSound}
use ce334_bitcoin_client.Blockchain.Growth.{
  ComesAfter, ComesAfter-IsKept, ComesAfter-self, IsStored, insert_block-kept,
}
use ce334_bitcoin_client.Blockchain.Verdict.{
  known, accepted, verdict, Follows, insert_block_with_validation-Follows,
}
use ce334_bitcoin_client.Network.Message.{Message}
use ce334_bitcoin_client.Network.Worker.Announced.{block_hashes}
use ce334_bitcoin_client.Miner.{
  OperatingState, Miner, Received, signal, empty, disconnected, paused, run, shut_down, start, exit,
  create_next_block, try_nonce, mine, miner_iteration,
}
use ce334_bitcoin_client.Miner.Template.{IsTemplateIfAny, create_next_block-IsTemplate}
use ce334_bitcoin_client.Miner.Mined.{stamp}

module _ (p : Platform) where
  -- A block to work on: its parent is stored, and its transactions apply to the parent's state.
  pub record IsWork (bc : Blockchain) (b : Block) : Type 0 where
    pub parent : Stored
    pub found : get (parent_of b) bc.hash_to_block ≡ some parent
    pub same_difficulty : b.header.difficulty ≡ parent.block.header.difficulty
    pub next_state : State
    pub applies : update_with_transactions parent.state (raw_transactions b) ≡ some next_state

  abbrev pub IsWorkIfAny : Blockchain → Option Block → Type 0
  IsWorkIfAny bc none = Unit
  IsWorkIfAny bc (some b) = IsWork bc b

  pub IsWork-ComesAfter :
      (bc bc' : Blockchain) (o : Option Block)
      → ComesAfter p bc bc'
      → IsWorkIfAny bc o
      → IsWorkIfAny bc' o
  IsWork-ComesAfter bc bc' none later w = tt
  IsWork-ComesAfter bc bc' (some b) later w = record {
    parent = w.parent;
    found = later.1 (parent_of b) w.parent w.found;
    same_difficulty = w.same_difficulty;
    next_state = w.next_state;
    applies = w.applies;
  }

  abbrev pub AreStored : Blockchain → List Message → Type 0
  AreStored bc ms = All (λ m. All (IsStored bc) (block_hashes m)) ms

  -- What a part of an iteration leaves: the block to work on, what is broadcast, the chain.
  abbrev pub Progress : Blockchain → Option Block × List Message × Blockchain → Type 0
  Progress bc r = ComesAfter p bc r.2 × IsWorkIfAny r.2 r.0 × AreStored r.2 r.1

  -- with another nonce and time
  renewed :
      (nonce now : ℕ) (bc : Blockchain) (b : Block)
      → IsWork bc b
      → IsWork bc (record b { header = record b.header { nonce = nonce; timestamp = now } })
  renewed nonce now bc b w = record {
    parent = w.parent;
    found = w.found;
    same_difficulty = w.same_difficulty;
    next_state = w.next_state;
    applies = w.applies;
  }

  IsWork-IsStored :
      (b : Block) (bc : Blockchain)
      → IsValid p bc
      → IsWork bc b
      → gt (hash_block p b) b.header.difficulty ≡ false
      → Returns (λ r. IsStored r.1 (hash_block p b)) (insert_block_with_validation p b bc)
  unfolding verdict
  IsWork-IsStored b bc v w hard =
      elim (Bool-cases (contains_key (hash_block p b) bc.hash_to_block)) [
        | inl old ↦
            let fate : verdict p b bc ≡ known = unfold verdict in rw old refl in
            let e : insert_block_with_validation p b bc ≡ done ([], bc) =
              subst (λ f. Follows p b bc f (insert_block_with_validation p b bc)) fate
                (insert_block_with_validation-Follows p b bc v) in
            rw e (contains_key-true (hash_block p b) bc.hash_to_block old)
        | inr new ↦
            let above : gt (hash_block p b) w.parent.block.header.difficulty ≡ false =
              rw (← w.same_difficulty) hard in
            let fate : verdict p b bc ≡ accepted w.parent w.next_state =
              unfold verdict in rw (new, w.found, above, w.applies) refl in
            let (rest, bc', e, stored) : Follows p b bc (accepted w.parent w.next_state)
                (insert_block_with_validation p b bc) =
              subst (λ f. Follows p b bc f (insert_block_with_validation p b bc)) fate
                (insert_block_with_validation-Follows p b bc v) in
            rw e
              (record { block = b; height = child_height p w.parent; state = w.next_state }, stored)
      ]

  try_nonce-Progress :
      (now : ℕ) (o : Option Block) (bc : Blockchain)
      → Reach p bc
      → IsWorkIfAny bc o
      → Returns (Progress bc) (try_nonce p now o bc)
  unfolding try_nonce
  try_nonce-Progress now none bc r w = (ComesAfter-self p r, tt, tt)
  try_nonce-Progress now (some b) bc r w =
      elim (Bool-cases (gt (hash_block p (stamp p now b)) b.header.difficulty)) [
        | inl easy ↦
            rw (try_nonce, easy)
              (ComesAfter-self p r, renewed ((b.header.nonce + 1) % 2 ^ 32) now bc b w, tt)
        | inr hard ↦
            rw (try_nonce, hard)
              (Returns-bind _ (Progress bc) _ (insert_block_with_validation p (stamp p now b) bc)
                (Returns-both (λ q. ComesAfter p bc q.1)
                  (λ q. IsStored q.1 (hash_block p (stamp p now b))) _
                  (insert_block-kept p (ComesAfter p bc) (ComesAfter-IsKept p bc) (stamp p now b) bc
                    (ComesAfter-self p r))
                  (IsWork-IsStored (stamp p now b) bc (Reach-IsSound p r).valid
                    (renewed b.header.nonce now bc b w) hard))
                (λ q h. (h.0, tt, ((h.1, tt), tt))))
      ]

  IsTemplateIfAny-IsWorkIfAny :
      (bc : Blockchain) (v : IsValid p bc) (o : Option Block)
      → IsTemplateIfAny p bc v.top o
      → IsWorkIfAny bc o
  IsTemplateIfAny-IsWorkIfAny bc v none t = tt
  IsTemplateIfAny-IsWorkIfAny bc v (some b) t = record {
    parent = v.top;
    found = rw t.on_tip v.top_stored;
    same_difficulty = t.same_difficulty;
    next_state = t.next_state;
    applies = t.applies;
  }

  mine-Progress :
      (random created now : ℕ) (o : Option Block) (bc : Blockchain)
      → Reach p bc
      → IsWorkIfAny bc o
      → Returns (Progress bc) (mine p random created now o bc)
  unfolding mine
  mine-Progress random created now (some b) bc r w = try_nonce-Progress now (some b) bc r w
  mine-Progress random created now none bc r w =
      let v = (Reach-IsSound p r).valid in
      Returns-bind _ (Progress bc) _ (create_next_block p random created bc)
        (create_next_block-IsTemplate p random created bc v)
        (λ o t. try_nonce-Progress now o bc r (IsTemplateIfAny-IsWorkIfAny bc v o t))

  abbrev pub MinerProgress : Blockchain → Miner × List Message × Blockchain → Type 0
  MinerProgress bc r = Progress bc (r.0.current_block, r.1, r.2)

  iteration-Progress :
      (received : Received) (random created now : ℕ) (os : OperatingState) (o : Option Block)
      (bc : Blockchain)
      → received ≢ disconnected
      → Reach p bc
      → IsWorkIfAny bc o
      → Returns (MinerProgress bc) (
          miner_iteration p received random created now
            (record { operating_state = os; current_block = o })
            bc)
  unfolding miner_iteration
  iteration-Progress received random created now shut_down o bc h r w = (ComesAfter-self p r, w, tt)
  iteration-Progress (signal exit) random created now paused o bc h r w =
      (ComesAfter-self p r, w, tt)
  iteration-Progress (signal (start j)) random created now paused o bc h r w =
      (ComesAfter-self p r, w, tt)
  iteration-Progress empty random created now paused o bc h r w = (ComesAfter-self p r, w, tt)
  iteration-Progress disconnected random created now paused o bc h r w = absurd (h refl)
  iteration-Progress disconnected random created now (run i) o bc h r w = absurd (h refl)
  iteration-Progress empty random created now (run i) o bc h r w =
      Returns-bind (Progress bc) (MinerProgress bc) _ (mine p random created now o bc)
        (mine-Progress random created now o bc r w) (λ q g. g)
  iteration-Progress (signal exit) random created now (run i) o bc h r w =
      (ComesAfter-self p r, w, tt)
  iteration-Progress (signal (start j)) random created now (run i) o bc h r w =
      Returns-bind (Progress bc) (MinerProgress bc) _ (mine p random created now o bc)
        (mine-Progress random created now o bc r w) (λ q g. g)

  -- While its control channel is connected, the miner's iteration on a reachable chain, with a block to work
  -- on or none, returns. What was stored stays, what it announces is stored, and the block that it has
  -- then can be worked on.
  pub miner_iteration-MinerProgress :
      (received : Received) (random created now : ℕ) (m : Miner) (bc : Blockchain)
      → received ≢ disconnected
      → Reach p bc
      → IsWorkIfAny bc m.current_block
      → Returns (MinerProgress bc) (miner_iteration p received random created now m bc)
  miner_iteration-MinerProgress received random created now m bc h r w =
      iteration-Progress received random created now m.operating_state m.current_block bc h r w
