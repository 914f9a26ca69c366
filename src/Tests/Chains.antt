-- ===== src/Tests/Chains.antt =====
-- A chain of the toy platform: runs of the insertion, and instances of the theorems on it.
use ce334_bitcoin_client.Prelude.{
  ◌≢◌, ℕ, ◌+◌, ◌<◌, ◌≡◌, ◌⊎◌, refl, true, false, ◌||◌, none, some, List, [], ◌∷◌, length, All,
  arith, Outcome, done, panicked, out_of_fuel, if◌then◌else◌,
}
use ce334_bitcoin_client.Crypto.Hash.{H256, h256_key, h256_eq, zero_hash, gt, from_be_bytes}
use ce334_bitcoin_client.Crypto.Address.{h160_eq, from_pubkey}
use ce334_bitcoin_client.HashMap.{get, contains_key, insert, remove, retain, sum_values}
use ce334_bitcoin_client.Transaction.{SignedTransaction}
use ce334_bitcoin_client.Transaction.Signing.{
  address_of, get_deterministic_keypair, from_raw, hash_signed,
}
use ce334_bitcoin_client.Block.{Block, genesis, default_difficulty}
use ce334_bitcoin_client.Block.Hashing.{hash_block}
use ce334_bitcoin_client.State.{State, ico, update_with_transactions, check_transaction_validity}
use ce334_bitcoin_client.Blockchain.{
  parent_of, Stored, Blockchain, new, insert_block_with_validation,
  insert_transaction_with_validation, insert_block_on_fuel, accept_block, put_orphan, store_block,
  move_tip, waiting_for, insert_orphans, prune_if_dirty, orphan_count, all_blocks_in_longest_chain,
}
use ce334_bitcoin_client.Blockchain.{raw_transactions}
use ce334_bitcoin_client.Blockchain.Steps.{child_height}
use ce334_bitcoin_client.Blockchain.Valid.{IsValid, genesis_stored}
use ce334_bitcoin_client.Blockchain.Insert.{
  elem, insert_block_with_validation-IsValid, insert_block_with_validation-added,
  insert_block_with_validation-mempool, insert_block_with_validation-tip,
}
use ce334_bitcoin_client.Blockchain.Verdict.{
  accepted, verdict, Follows, insert_block_with_validation-Follows, insert_block_ignores_signatures,
}
use ce334_bitcoin_client.Blockchain.Submit.{
  admits, pooled_with, insert_transaction_with_validation-eq,
}
use ce334_bitcoin_client.Blockchain.Balances.{IsWithin, Reach-IsWithin}
use ce334_bitcoin_client.Blockchain.Reach.{new-IsValid, start, block, IsSound, Reach-IsSound}
use ce334_bitcoin_client.Blockchain.Walk.{Leads, all_blocks_in_longest_chain-Leads}
use ce334_bitcoin_client.Network.Message.{new_block_hashes, get_blocks, blocks}
use ce334_bitcoin_client.Network.Worker.{handle_message, write, broadcast}
use ce334_bitcoin_client.Network.Worker.Synced.{handle_message-synced}
use ce334_bitcoin_client.Crypto.Hash.{h256_eq_iff}
use ce334_bitcoin_client.Tests.Toy.{toy, checksum}

-- Opening this opens all that an insertion runs through.
unfoldable pub chain_of : Outcome (List H256 × Blockchain) → Blockchain
unfolding insert_block_with_validation insert_block_on_fuel accept_block hash_signed put_orphan
    store_block move_tip waiting_for insert_orphans prune_if_dirty orphan_count new get contains_key
    insert remove retain sum_values h256_eq h160_eq gt hash_block ico from_raw address_of
    get_deterministic_keypair from_pubkey checksum update_with_transactions
    check_transaction_validity genesis default_difficulty from_be_bytes
chain_of (done r) = r.1
chain_of panicked = new toy
chain_of out_of_fuel = new toy

-- account 0 pays account 1
abbrev pub pay : ℕ → ℕ → SignedTransaction
pay nonce value =
    from_raw toy
      (record {
        from_addr = address_of toy (get_deterministic_keypair toy 0);
        to_addr = address_of toy (get_deterministic_keypair toy 1);
        value = value;
        nonce = nonce;
      })
      (get_deterministic_keypair toy 0)

abbrev block_on : H256 → ℕ → List SignedTransaction → Block
block_on parent nonce ts = record {
  header = record {
    parent = parent;
    nonce = nonce;
    difficulty = default_difficulty;
    timestamp = 0;
    merkle_root = zero_hash;
  };
  content = record { transactions = ts };
}

abbrev pub block_1 : Block
block_1 = block_on (hash_block toy genesis) 1 (pay 0 5 ∷ [])

abbrev block_2 : Block
block_2 = block_on (hash_block toy block_1) 2 (pay 1 7 ∷ [])

-- the child arrives first and waits as an orphan
abbrev chain_a : Blockchain
chain_a = chain_of (insert_block_with_validation toy block_2 (new toy))

abbrev run_b : Outcome (List H256 × Blockchain)
run_b = insert_block_with_validation toy block_1 chain_a

abbrev chain_b : Blockchain
chain_b = chain_of run_b

abbrev both : List H256
both = hash_block toy block_1 ∷ hash_block toy block_2 ∷ []

shelved_2 : insert_block_with_validation toy block_2 (new toy) ≡ done ([], chain_a)
unfolding chain_of
shelved_2 = refl

-- the parent arrives, and takes its child in
adopted_2 : run_b ≡ done (both, chain_b)
unfolding chain_of
adopted_2 = refl

tip_b : chain_b.tip ≡ hash_block toy block_2
unfolding chain_of
tip_b = refl

valid_a : IsValid toy chain_a
valid_a = (Reach-IsSound toy (block block_2 [] start shelved_2)).valid

valid_b : IsValid toy chain_b
valid_b =
    (Reach-IsSound toy (block block_1 both (block block_2 [] start shelved_2) adopted_2)).valid

clean_a : chain_a.dirty_mempool ≡ false
clean_a = (Reach-IsSound toy (block block_2 [] start shelved_2)).clean

insert_block_with_validation-IsValid_example :
    (r : List H256 × Blockchain) × (insert_block_with_validation toy block_1 chain_a ≡ done r)
    × IsValid toy r.1
insert_block_with_validation-IsValid_example =
    insert_block_with_validation-IsValid toy block_1 chain_a valid_a

insert_block_with_validation-added_example :
    ((k : H256)
      → contains_key k chain_b.hash_to_block
        ≡ (contains_key k chain_a.hash_to_block || elem k both))
    × All (λ k. contains_key k chain_a.hash_to_block ≡ false) both
    × ((k : H256) (e : Stored)
        → get k chain_a.hash_to_block ≡ some e
        → get k chain_b.hash_to_block ≡ some e)
insert_block_with_validation-added_example =
    insert_block_with_validation-added toy block_1 chain_a valid_a adopted_2

insert_block_with_validation-mempool_example :
    All
      (λ e. check_transaction_validity valid_b.top.state e.1.raw_transaction ≡ true)
      chain_b.mempool
insert_block_with_validation-mempool_example =
    insert_block_with_validation-mempool toy block_1 chain_a valid_a clean_a adopted_2
      valid_b.top_stored

insert_block_with_validation-tip_example :
    (chain_b.tip ≡ chain_a.tip) ⊎ (valid_a.top.height < valid_b.top.height)
insert_block_with_validation-tip_example =
    insert_block_with_validation-tip toy block_1 chain_a valid_a.top valid_b.top valid_a adopted_2
      valid_a.top_stored valid_b.top_stored

insert_block_with_validation-Follows_example :
    Follows toy block_1 chain_a
      (verdict toy block_1 chain_a)
      (insert_block_with_validation toy block_1 chain_a)
insert_block_with_validation-Follows_example =
    insert_block_with_validation-Follows toy block_1 chain_a valid_a

-- The same payment, signed by nobody.
abbrev forged : SignedTransaction
forged = record { raw_transaction = (pay 0 5).raw_transaction; pub_key = []; signature = [] }

abbrev forged_block : Block
forged_block = record { header = block_1.header; content = record { transactions = forged ∷ [] } }

abbrev paid : State
paid = elim (update_with_transactions (ico toy) (raw_transactions block_1)) [
  | none ↦ ico toy
  | some s ↦ s
]

accepted_1 : verdict toy block_1 (new toy) ≡ accepted (genesis_stored toy) paid
unfolding verdict chain_of
accepted_1 = refl

-- The block with the unsigned payment is stored.
insert_block_ignores_signatures_example :
    (rest : List H256) × (bc' : Blockchain) × (insert_block_with_validation toy forged_block
        (new toy)
      ≡ done (hash_block toy block_1 ∷ rest, bc'))
    × (get (hash_block toy block_1) bc'.hash_to_block
        ≡ some (record {
          block = forged_block;
          height = child_height toy (genesis_stored toy);
          state = paid;
        }))
insert_block_ignores_signatures_example =
    insert_block_ignores_signatures toy block_1 forged_block (new toy) (genesis_stored toy) paid
      (new-IsValid toy) refl refl accepted_1

insert_transaction_with_validation-eq_example :
    insert_transaction_with_validation toy (pay 2 1) chain_b
    ≡ done (
        if admits toy valid_b.top.state (pay 2 1) chain_b
        then (true, pooled_with toy (pay 2 1) chain_b)
        else (false, chain_b))
insert_transaction_with_validation-eq_example =
    insert_transaction_with_validation-eq toy (pay 2 1) chain_b valid_b

Reach-IsSound_example : IsSound toy chain_b
Reach-IsSound_example =
    Reach-IsSound toy (block block_1 both (block block_2 [] start shelved_2) adopted_2)

Reach-IsWithin_example : All (λ (e : H256 × Stored). IsWithin e.1.state) chain_b.hash_to_block
Reach-IsWithin_example =
    Reach-IsWithin toy (block block_1 both (block block_2 [] start shelved_2) adopted_2)

few_blocks : length chain_b.hash_to_block ≡ 3
unfolding chain_of
few_blocks = refl

no_zero : get zero_hash chain_b.hash_to_block ≡ none
unfolding chain_of
no_zero = refl

all_blocks_in_longest_chain-Leads_example :
    (ks : List H256) × (all_blocks_in_longest_chain toy chain_b ≡ done ks)
    × Leads toy chain_b chain_b.tip ks
    × (length ks ≡ valid_b.top.height + 1)
all_blocks_in_longest_chain-Leads_example =
    all_blocks_in_longest_chain-Leads toy chain_b valid_b (omega (arith, few_blocks)) no_zero

-- what the chain stores for the first block
abbrev stored_1 : Stored
stored_1 = record { block = block_1; height = child_height toy (genesis_stored toy); state = paid }

has_1 : get (hash_block toy block_1) chain_b.hash_to_block ≡ some stored_1
unfolding chain_of
has_1 = refl

lacks_1 : get (hash_block toy block_1) chain_a.hash_to_block ≡ none
unfolding chain_of
lacks_1 = refl

same_parent :
    get (parent_of block_1) chain_a.hash_to_block ≡ get (parent_of block_1) chain_b.hash_to_block
unfolding chain_of
same_parent = refl

differs_1 : h256_eq (hash_block toy block_1) (hash_block toy genesis) ≡ false
unfolding chain_of
differs_1 = refl

not_genesis : hash_block toy block_1 ≢ hash_block toy genesis
not_genesis e =
    let same = (h256_eq_iff (hash_block toy block_1) (hash_block toy genesis)).1 e in
    absurd (cc (same, differs_1))

handle_message-synced_example :
    (handle_message toy (new_block_hashes (hash_block toy block_1 ∷ [])) chain_a
      ≡ done (write (get_blocks (hash_block toy block_1 ∷ [])) ∷ [], chain_a))
    × (handle_message toy (get_blocks (hash_block toy block_1 ∷ [])) chain_b
        ≡ done (write (blocks (block_1 ∷ [])) ∷ [], chain_b))
    × ((rest : List H256) × (there' : Blockchain) × (handle_message toy
            (blocks (block_1 ∷ []))
            chain_a
          ≡ done (broadcast (new_block_hashes (hash_block toy block_1 ∷ rest)) ∷ [], there'))
        × (get (hash_block toy block_1) there'.hash_to_block ≡ some stored_1))
handle_message-synced_example =
    handle_message-synced toy (hash_block toy block_1) stored_1 chain_b chain_a valid_b valid_a
      has_1 not_genesis lacks_1 same_parent
