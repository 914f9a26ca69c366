-- ===== src/Tests.antt =====
-- A concrete platform and chain, runs of the model on them, and instances of the theorems.
mod Toy
mod Hashes
mod Accounts
mod Chains
mod Nodes
mod Tables
mod Servers
mod Requests
mod Threads
mod Templates
mod Ledgers
