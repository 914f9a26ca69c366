-- ===== src/Crypto.antt =====
-- The parts of crypto/: hashes, addresses, Merkle trees, and the primitives that ring provides.
pub mod Hash
pub mod Address
pub mod Hex
pub mod Merkle
