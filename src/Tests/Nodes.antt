-- ===== src/Tests/Nodes.antt =====
-- The worker, the miner and the connections on the toy platform.
use ce334_bitcoin_client.Prelude.{
  ℕ, ◌≡◌, refl, false, ◌||◌, Option, none, some, List, [], ◌∷◌, length, arith, Outcome, done,
  panicked, out_of_fuel, Returns,
}
use ce334_bitcoin_client.Crypto.Hash.{
  from_be_bytes, h256_eq, H256, h256_key, zero_hash, Hashable, hash_h256, digest_of, gt,
}
use ce334_bitcoin_client.Crypto.Address.{h160_eq, from_pubkey}
use ce334_bitcoin_client.State.{ico, check_transaction_validity, update_in_place}
use ce334_bitcoin_client.Network.Peer.Pieces.{read-pieces}
use ce334_bitcoin_client.Crypto.Merkle
use ce334_bitcoin_client.Crypto.Merkle.{leaf, MerkleTreeNode}
use ce334_bitcoin_client.Crypto.Merkle.Build.{leaves_of, new_builds_levels}
use ce334_bitcoin_client.Crypto.Merkle.Pass.{levels_up}
use ce334_bitcoin_client.HashMap.{remove, insert, get, contains_key}
use ce334_bitcoin_client.Transaction.{SignedTransaction}
use ce334_bitcoin_client.Transaction.Signing.{
  verify_signature, hash_signed, from_raw, address_of, get_deterministic_keypair,
}
use ce334_bitcoin_client.Block.{Block, genesis, default_difficulty}
use ce334_bitcoin_client.Block.Hashing.{hash_block}
use ce334_bitcoin_client.Blockchain.{insert_transaction_with_validation, Blockchain, new}
use ce334_bitcoin_client.Blockchain.Insert.{elem}
use ce334_bitcoin_client.Blockchain.Steps.{child_height}
use ce334_bitcoin_client.Blockchain.Valid.{IsValid}
use ce334_bitcoin_client.Blockchain.Reach.{new-IsValid, start, Reach, Reach-IsSound}
use ce334_bitcoin_client.Network.Message.{blocks, new_block_hashes}
use ce334_bitcoin_client.Network.Worker.{handle_message, insert_transactions}
use ce334_bitcoin_client.Network.Worker.Reached.{insert_transactions-kept}
use ce334_bitcoin_client.Blockchain.Growth.{Reach-IsKept}
use ce334_bitcoin_client.Network.Worker.Announced.{announced, handle_message-announced}
use ce334_bitcoin_client.Network.Peer.{ReadContext, continue, new_reader, read}
use ce334_bitcoin_client.Miner.{Miner, run, create_next_block, try_nonce}
use ce334_bitcoin_client.Miner.Template.{IsTemplate, IsTemplateIfAny, create_next_block-IsTemplate}
use ce334_bitcoin_client.Miner.Mined.{stamp, try_nonce-stored}
use ce334_bitcoin_client.Network.Worker.{Effect, broadcast}
use ce334_bitcoin_client.Network.Message.{new_transaction_hashes, get_transactions, transactions}
use ce334_bitcoin_client.Network.Worker.Relayed.{handle_message-relayed}
use ce334_bitcoin_client.Tests.Toy.{toy, toy_digest, checksum}
use ce334_bitcoin_client.Tests.Chains.{block_1}

abbrev hashable : Hashable H256
hashable = record { hash = hash_h256 toy_digest }

-- an odd number of leaves
abbrev three : List H256
three = zero_hash ∷ digest_of toy_digest (1 ∷ []) ∷ digest_of toy_digest (2 ∷ []) ∷ []

new_builds_levels_example :
    Returns
      (λ t.
        levels_up toy_digest t.num_aggregations (leaves_of toy_digest hashable three)
        ≡ t.root_node ∷ [])
      (Merkle.new toy_digest hashable three)
new_builds_levels_example = new_builds_levels toy_digest hashable three (omega arith)

handle_message-announced_example :
    Returns
      (λ r.
        (k : H256)
        → contains_key k r.1.hash_to_block
          ≡ (contains_key k (new toy).hash_to_block || elem k (announced r.0)))
      (handle_message toy (blocks (block_1 ∷ [])) (new toy))
handle_message-announced_example =
    handle_message-announced toy (blocks (block_1 ∷ [])) (new toy) (new-IsValid toy)

abbrev miner : Miner
miner = record { operating_state = run 0; current_block = some block_1 }

-- the account of a number pays account 9
abbrev pay_from : ℕ → SignedTransaction
pay_from k =
    from_raw toy
      (record {
        from_addr = address_of toy (get_deterministic_keypair toy k);
        to_addr = address_of toy (get_deterministic_keypair toy 9);
        value = 1;
        nonce = 0;
      })
      (get_deterministic_keypair toy k)

abbrev payments : List SignedTransaction
payments = pay_from 0 ∷ pay_from 1 ∷ pay_from 2 ∷ pay_from 3 ∷ pay_from 4 ∷ []

pooled_chain : Outcome (List H256 × Blockchain) → Blockchain
unfolding insert_transactions insert_transaction_with_validation hash_signed get contains_key insert
    remove h256_eq h160_eq new ico from_raw address_of get_deterministic_keypair from_pubkey
    checksum check_transaction_validity verify_signature genesis hash_block default_difficulty gt
    from_be_bytes create_next_block update_in_place Merkle.new
pooled_chain (done r) = r.1
pooled_chain panicked = new toy
pooled_chain out_of_fuel = new toy

-- five transactions are in the mempool
abbrev pool : Blockchain
pool = pooled_chain (insert_transactions toy payments (new toy))

pool-Reach : Reach toy pool
unfolding pooled_chain
pool-Reach = insert_transactions-kept toy (Reach toy) (Reach-IsKept toy) payments (new toy) start

abbrev pool_valid : IsValid toy pool
pool_valid = (Reach-IsSound toy pool-Reach).valid

create_next_block-IsTemplate_example :
    Returns (IsTemplateIfAny toy pool pool_valid.top) (create_next_block toy 17 1000 pool)
create_next_block-IsTemplate_example = create_next_block-IsTemplate toy 17 1000 pool pool_valid

-- the block that the miner makes of them
template : Outcome (Option Block) → Block
unfolding pooled_chain
template (done (some b)) = b
template _ = block_1

abbrev mined : Block
mined = template (create_next_block toy 17 2000 pool)

five : length mined.content.transactions ≡ 5
unfolding template
five = refl

mined-IsTemplate : IsTemplate toy pool pool_valid.top (stamp toy 2000 mined)
unfolding template
mined-IsTemplate = create_next_block-IsTemplate toy 17 2000 pool pool_valid

mined_is_new : contains_key (hash_block toy (stamp toy 2000 mined)) pool.hash_to_block ≡ false
unfolding template Merkle.hash_children
mined_is_new = refl

mined_is_hard : gt (hash_block toy (stamp toy 2000 mined)) mined.header.difficulty ≡ false
unfolding template Merkle.hash_children
mined_is_hard = refl

try_nonce-stored_example :
    (bc' : Blockchain) × (try_nonce toy 2000 (some mined) pool
      ≡ done (none, new_block_hashes (hash_block toy (stamp toy 2000 mined) ∷ []) ∷ [], bc'))
    × (get (hash_block toy (stamp toy 2000 mined)) bc'.hash_to_block
        ≡ some (record {
          block = stamp toy 2000 mined;
          height = child_height toy pool_valid.top;
          state = mined-IsTemplate.next_state;
        }))
try_nonce-stored_example =
    try_nonce-stored toy 2000 mined pool pool_valid mined-IsTemplate mined_is_new mined_is_hard

read-pieces_example :
    (r' : ReadContext) × (read (0 ∷ []) new_reader ≡ done (continue, r', []))
    × (read (0 ∷ 0 ∷ 2 ∷ 7 ∷ []) r' ≡ read (0 ∷ 0 ∷ 0 ∷ 2 ∷ 7 ∷ []) new_reader)
read-pieces_example =
    read-pieces (0 ∷ []) (0 ∷ 0 ∷ 2 ∷ 7 ∷ []) new_reader (omega arith) (omega arith) (omega arith)
      (omega arith)

pool_has : get (hash_signed toy (pay_from 0)) pool.mempool ≡ some (pay_from 0)
unfolding pooled_chain
pool_has = refl

new_lacks : get (hash_signed toy (pay_from 0)) (new toy).mempool ≡ none
unfolding pooled_chain
new_lacks = refl

same_tip : get (new toy).tip (new toy).hash_to_block ≡ get pool.tip pool.hash_to_block
unfolding pooled_chain
same_tip = refl

handle_message-relayed_example :
    (handle_message toy (new_transaction_hashes (hash_signed toy (pay_from 0) ∷ [])) (new toy)
      ≡ done (Effect.write (get_transactions (hash_signed toy (pay_from 0) ∷ [])) ∷ [], new toy))
    × (handle_message toy (get_transactions (hash_signed toy (pay_from 0) ∷ [])) pool
        ≡ done (Effect.write (transactions (pay_from 0 ∷ [])) ∷ [], pool))
    × ((there' : Blockchain) × (handle_message toy (transactions (pay_from 0 ∷ [])) (new toy)
          ≡ done
              (broadcast (new_transaction_hashes (hash_signed toy (pay_from 0) ∷ [])) ∷ [], there'))
        × (get (hash_signed toy (pay_from 0)) there'.mempool ≡ some (pay_from 0)))
handle_message-relayed_example =
    handle_message-relayed toy (hash_signed toy (pay_from 0)) (pay_from 0) pool (new toy) pool-Reach
      start same_tip pool_has new_lacks
