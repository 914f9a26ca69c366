-- ===== src/Part1.antt =====
-- part1/: the course's template of the Merkle tree.
pub mod Merkle
