-- ===== src/TransactionGenerator.antt =====
-- transaction_generator.rs: the transactions that the node makes between the accounts of the coin offering.
-- The random bytes are arguments. The wait on the channel, whose result is ignored, is left out.
pub mod Funded
pub mod Generated
use ce334_bitcoin_client.Prelude.{
  ℕ, ◌+◌, ◌%◌, Bool, true, false, not, none, some, List, [], ◌∷◌, map, ◌==◌, if◌then◌else◌, Outcome,
  done, panicked, out_of_fuel, ◌>>=◌,
}
use ce334_bitcoin_client.Crypto.Hash.{H256}
use ce334_bitcoin_client.Transaction.{SignedTransaction}
use ce334_bitcoin_client.Transaction.Signing.{
  get_deterministic_keypair, address_of, from_raw, hash_signed,
}
use ce334_bitcoin_client.State.{AccountInfo, State, get_acc_info}
use ce334_bitcoin_client.Platform.{Platform}
use ce334_bitcoin_client.Blockchain.{
  Blockchain, Stored, tip_data, insert_transaction_with_validation,
}
use ce334_bitcoin_client.Network.Message.{Message, new_transaction_hashes}

-- A byte is divisible by 8 for one signature in eight that is made with the wrong key.
abbrev pub signs_validly : ℕ → Bool
signs_validly random = not (random % 8 == 0)

module _ (p : Platform) where
  -- The closure that makes a transaction from account `next_sender_acc`.
  unfoldable pub generate : ℕ → ℕ → ℕ → Blockchain → Outcome SignedTransaction
  unfolding tip_data get_acc_info from_raw
  generate next_sender_acc random_receiver random_validity bc = do
    let receiver_acc_num = random_receiver % 10
    let sender_key_pair = get_deterministic_keypair p next_sender_acc
    let receiver_key_pair = get_deterministic_keypair p receiver_acc_num
    let from_addr = address_of p sender_key_pair
    latest ← tip_data bc
    info ← elim (get_acc_info latest.state from_addr) [ none ↦ panicked | some i ↦ done i ]
    done (
        from_raw p
          (record {
            from_addr = from_addr;
            to_addr = address_of p receiver_key_pair;
            value = 1;
            nonce = info.nonce;
          })
          (if signs_validly random_validity then sender_key_pair else receiver_key_pair))

  -- `for transaction in &transactions`: what the insertion returns is ignored.
  unfoldable pub add_to_mempool : List SignedTransaction → Blockchain → Outcome Blockchain
  add_to_mempool [] bc = done bc
  add_to_mempool (t ∷ ts) bc = do
    (_, bc') ← insert_transaction_with_validation p t bc
    add_to_mempool ts bc'

  -- The body of `generation_loop`: the next sender, what is broadcast, and the chain.
  unfoldable pub generation_iteration : ℕ → ℕ → ℕ → Blockchain → Outcome (ℕ × Message × Blockchain)
  unfolding generate add_to_mempool
  generation_iteration next_sender_acc random_receiver random_validity bc = do
    transaction ← generate next_sender_acc random_receiver random_validity bc
    let transactions = transaction ∷ []
    bc' ← add_to_mempool transactions bc
    done
        ((next_sender_acc + 1) % 10, new_transaction_hashes (map (hash_signed p) transactions), bc')
