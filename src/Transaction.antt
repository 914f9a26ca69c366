-- ===== src/Transaction.antt =====
-- transaction.rs: the data of a transfer and of its signed form. The operations that sign, verify
-- and hash are in the child `Signing`, after the external primitives of Platform.antt.
use ce334_bitcoin_client.Prelude.{ℕ, List}
pub mod Signing
use ce334_bitcoin_client.Crypto.Address.{H160}

pub record RawTransaction : Type 0 where
  pub from_addr : H160
  pub to_addr : H160
  pub value : ℕ
  pub nonce : ℕ

pub record SignedTransaction : Type 0 where
  pub raw_transaction : RawTransaction
  pub pub_key : List ℕ
  pub signature : List ℕ
