-- ===== src/Network/Worker/Synced.antt =====
-- A block that one node announces, at another node (network/worker.rs).
use ce334_bitcoin_client.Prelude.{
  ◌≡◌, ◌≢◌, refl, sym, ap, ◌∙◌, false, none, some, List, [], ◌∷◌, append-nil, Outcome, done,
}
use ce334_bitcoin_client.Crypto.Hash.{H256, gt, h256_key}
use ce334_bitcoin_client.HashMap.{get, contains_key}
use ce334_bitcoin_client.HashMap.Laws.{All-get}
use ce334_bitcoin_client.Platform.{Platform}
use ce334_bitcoin_client.Block.{genesis}
use ce334_bitcoin_client.Block.Hashing.{hash_block}
use ce334_bitcoin_client.Blockchain.{
  Blockchain, Stored, parent_of, insert_block_with_validation, look_up_block,
}
use ce334_bitcoin_client.Blockchain.Steps.{child_height}
use ce334_bitcoin_client.Blockchain.Valid.{IsValid, IsLinked, root, child}
use ce334_bitcoin_client.Blockchain.Verdict.{
  verdict, accepted, Follows, insert_block_with_validation-Follows,
}
use ce334_bitcoin_client.Network.Message.{new_block_hashes, get_blocks, blocks}
use ce334_bitcoin_client.Network.Worker.{
  write, broadcast, handle_message, insert_blocks, unknown_block_hashes, requested_blocks,
}

module _ (p : Platform) where
  -- The block of a linked entry is accepted where the parent is stored alike.
  linked-accepted :
      (k : H256) (x : Stored) (here there : Blockchain)
      → IsLinked p here.hash_to_block (k, x)
      → k ≢ hash_block p genesis
      → get k there.hash_to_block ≡ none
      → get (parent_of x.block) there.hash_to_block ≡ get (parent_of x.block) here.hash_to_block
      → (parent : Stored) × (verdict p x.block there ≡ accepted parent x.state)
        × (k ≡ hash_block p x.block)
        × (x.height ≡ child_height p parent)
  unfolding verdict contains_key
  linked-accepted k x here there (root is_genesis _) other new same = absurd (other is_genesis)
  linked-accepted k x here there (child parent found own height hard applies) other new same =
      let found' : get (parent_of x.block) there.hash_to_block ≡ some parent = same ∙ found in
      let lacks : get (hash_block p x.block) there.hash_to_block ≡ none = rw (← own) new in
      let absent : contains_key (hash_block p x.block) there.hash_to_block ≡ false =
        rw (contains_key, lacks) refl in
      let meets : gt (hash_block p x.block) parent.block.header.difficulty ≡ false =
        rw (← own) hard in
      (parent, rw (verdict, absent, found', meets, applies) refl, own, height)

  insert_blocks-one :
      (k : H256) (x : Stored) (there there' : Blockchain) (rest : List H256)
      → insert_block_with_validation p x.block there ≡ done (k ∷ rest, there')
      → handle_message p (blocks (x.block ∷ [])) there
        ≡ done (broadcast (new_block_hashes (k ∷ rest)) ∷ [], there')
  unfolding handle_message insert_blocks
  insert_blocks-one k x there there' rest e =
      rw (handle_message, insert_blocks, e, append-nil rest) refl

  -- A node announces a block that it stores, other than the genesis block, to a node that lacks it and
  -- stores the same under the parent's hash. The second asks the first for the block and is sent it; it
  -- then stores just what the first stores, the height and the state included, and announces the block.
  pub handle_message-synced :
      (k : H256) (x : Stored) (here there : Blockchain)
      → IsValid p here
      → IsValid p there
      → get k here.hash_to_block ≡ some x
      → k ≢ hash_block p genesis
      → get k there.hash_to_block ≡ none
      → get (parent_of x.block) there.hash_to_block ≡ get (parent_of x.block) here.hash_to_block
      → (handle_message p (new_block_hashes (k ∷ [])) there
          ≡ done (write (get_blocks (k ∷ [])) ∷ [], there))
        × (handle_message p (get_blocks (k ∷ [])) here
            ≡ done (write (blocks (x.block ∷ [])) ∷ [], here))
        × ((rest : List H256) × (there' : Blockchain) × (handle_message p
                (blocks (x.block ∷ []))
                there
              ≡ done (broadcast (new_block_hashes (k ∷ rest)) ∷ [], there'))
            × (get k there'.hash_to_block ≡ some x))
  unfolding handle_message unknown_block_hashes requested_blocks look_up_block
  handle_message-synced k x here there v w found other new same =
      let linked : IsLinked p here.hash_to_block (k, x) =
        All-get (IsLinked p here.hash_to_block) k here.hash_to_block v.linked found in
      let (parent, fate, own, height) = linked-accepted k x here there linked other new same in
      let follows : Follows p x.block there (accepted parent x.state)
          (insert_block_with_validation p x.block there) =
        rw fate at (insert_block_with_validation-Follows p x.block there w) in
      let (rest, there', ran, stored) = follows in
      (
        rw (handle_message, unknown_block_hashes, look_up_block, new) refl,
        rw (handle_message, requested_blocks, look_up_block, found) refl,
        (
          rest,
          there',
          insert_blocks-one k x there there' rest (
              ran
              ∙ ap {B = Outcome (List H256 × Blockchain)} (λ h. done (h ∷ rest, there')) (sym own)),
          ap (λ h. get h there'.hash_to_block) own
              ∙ stored
              ∙ ap (λ n. some (record { block = x.block; height = n; state = x.state }))
                  (sym height),
        ),
      )
