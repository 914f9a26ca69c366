-- ===== src/Miner/Mined.antt =====
-- What mining does to the chain.
use ce334_bitcoin_client.Prelude.{
  subst, ℕ, ◌≡◌, ◌≢◌, false, Option, none, some, [], ◌∷◌, refl, done, Returns, Returns-bind,
  Bool-cases, inl, inr,
}
use ce334_bitcoin_client.Crypto.Hash.{h256_key, gt}
use ce334_bitcoin_client.HashMap.{get, contains_key}
use ce334_bitcoin_client.Block.{Block}
use ce334_bitcoin_client.Block.Hashing.{hash_block}
use ce334_bitcoin_client.Platform.{Platform}
use ce334_bitcoin_client.Blockchain.{Blockchain, insert_block_with_validation}
use ce334_bitcoin_client.Blockchain.Steps.{child_height}
use ce334_bitcoin_client.Blockchain.Valid.{IsValid}
use ce334_bitcoin_client.Blockchain.Reach.{Reach, Reach-IsSound}
use ce334_bitcoin_client.Blockchain.Growth.{Reach-IsKept, insert_block-kept}
use ce334_bitcoin_client.Blockchain.Verdict.{
  accepted, verdict, Follows, insert_block_with_validation-Follows,
}
use ce334_bitcoin_client.Network.Message.{new_block_hashes}
use ce334_bitcoin_client.Miner.{
  OperatingState, Miner, Received, signal, empty, disconnected, paused, run, shut_down, start, exit,
  create_next_block, try_nonce, mine, miner_iteration,
}
use ce334_bitcoin_client.Miner.Template.{IsTemplate, create_next_block-IsTemplate}

module _ (p : Platform) where
  abbrev pub stamp : ℕ → Block → Block
  stamp now b = record b { header = record b.header { timestamp = now } }

  Template-verdict :
      (bc : Blockchain) (v : IsValid p bc) (b : Block)
      → (t : IsTemplate p bc v.top b) → contains_key (hash_block p b) bc.hash_to_block ≡ false
      → gt (hash_block p b) b.header.difficulty ≡ false
      → verdict p b bc ≡ accepted v.top t.next_state
  unfolding verdict
  Template-verdict bc v b t new hard =
      let found : get b.header.parent bc.hash_to_block ≡ some v.top = rw t.on_tip v.top_stored in
      let above : gt (hash_block p b) v.top.block.header.difficulty ≡ false =
        rw (← t.same_difficulty) hard in
      rw (verdict, new, found, above, t.applies)

  -- A block that extends the tip of a well-formed chain, stamped with the time, whose hash then is new and
  -- at most the difficulty, is stored above the tip with the state that its transactions make, and its
  -- hash alone is broadcast; the miner has no block left to work on.
  pub try_nonce-stored :
      (now : ℕ) (b : Block) (bc : Blockchain) (v : IsValid p bc)
      → (t : IsTemplate p bc v.top (stamp now b))
      → contains_key (hash_block p (stamp now b)) bc.hash_to_block ≡ false
      → gt (hash_block p (stamp now b)) b.header.difficulty ≡ false
      → (bc' : Blockchain) × (try_nonce p now (some b) bc
          ≡ done (none, new_block_hashes (hash_block p (stamp now b) ∷ []) ∷ [], bc'))
        × (get (hash_block p (stamp now b)) bc'.hash_to_block
            ≡ some (record {
              block = stamp now b;
              height = child_height p v.top;
              state = t.next_state;
            }))
  unfolding try_nonce
  try_nonce-stored now b bc v t new hard =
      let fate = Template-verdict bc v (stamp now b) t new hard in
      let (rest, bc', e, stored) : Follows p (stamp now b) bc (accepted v.top t.next_state)
          (insert_block_with_validation p (stamp now b) bc) =
        subst (λ f. Follows p (stamp now b) bc f (insert_block_with_validation p (stamp now b) bc))
          fate (insert_block_with_validation-Follows p (stamp now b) bc v) in
      (bc', rw (try_nonce, hard, e), stored)

  try_nonce-Reach :
      (now : ℕ) (o : Option Block) (bc : Blockchain)
      → Reach p bc
      → Returns (λ r. Reach p r.2) (try_nonce p now o bc)
  unfolding try_nonce
  try_nonce-Reach now none bc r = r
  try_nonce-Reach now (some b) bc r =
      elim (Bool-cases (gt (hash_block p (stamp now b)) b.header.difficulty)) [
        | inl easy ↦ rw (try_nonce, easy) r
        | inr hard ↦
            rw (try_nonce, hard)
              (Returns-bind (λ q. Reach p q.1) (λ q. Reach p q.2) _
                (insert_block_with_validation p (stamp now b) bc)
                (insert_block-kept p (Reach p) (Reach-IsKept p) (stamp now b) bc r) (λ q rq. rq))
      ]

  mine-Reach :
      (random created now : ℕ) (o : Option Block) (bc : Blockchain)
      → Reach p bc
      → Returns (λ r. Reach p r.2) (mine p random created now o bc)
  unfolding mine
  mine-Reach random created now (some b) bc r = try_nonce-Reach now (some b) bc r
  mine-Reach random created now none bc r =
      let v = (Reach-IsSound p r).valid in
      Returns-bind _ (λ q. Reach p q.2) _ (create_next_block p random created bc)
        (create_next_block-IsTemplate p random created bc v) (λ o _. try_nonce-Reach now o bc r)

  iteration-Reach :
      (received : Received) (random created now : ℕ) (os : OperatingState) (o : Option Block)
      (bc : Blockchain)
      → received ≢ disconnected
      → Reach p bc
      → Returns
          (λ r. Reach p r.2)
          (miner_iteration p received random created now
            (record { operating_state = os; current_block = o })
            bc)
  unfolding miner_iteration
  iteration-Reach received random created now shut_down o bc h r = r
  iteration-Reach (signal s) random created now paused o bc h r = r
  iteration-Reach empty random created now paused o bc h r = r
  iteration-Reach disconnected random created now paused o bc h r = absurd (h refl)
  iteration-Reach disconnected random created now (run i) o bc h r = absurd (h refl)
  iteration-Reach empty random created now (run i) o bc h r =
      Returns-bind (λ q. Reach p q.2) (λ q. Reach p q.2) _ (mine p random created now o bc)
        (mine-Reach random created now o bc r) (λ q rq. rq)
  iteration-Reach (signal exit) random created now (run i) o bc h r = r
  iteration-Reach (signal (start j)) random created now (run i) o bc h r =
      Returns-bind (λ q. Reach p q.2) (λ q. Reach p q.2) _ (mine p random created now o bc)
        (mine-Reach random created now o bc r) (λ q rq. rq)

  -- While its control channel is connected, the miner's iteration on a reachable chain returns, whatever
  -- the signal, and leaves a reachable chain.
  pub miner_iteration-Reach :
      (received : Received) (random created now : ℕ) (m : Miner) (bc : Blockchain)
      → received ≢ disconnected
      → Reach p bc
      → Returns (λ r. Reach p r.2) (miner_iteration p received random created now m bc)
  miner_iteration-Reach received random created now m bc h r =
      iteration-Reach received random created now m.operating_state m.current_block bc h r
