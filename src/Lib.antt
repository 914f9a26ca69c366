-- ===== src/Lib.antt =====
-- A verification library for the bitcoin client of this repository, the crate in src/. It
-- covers the data of blocks and transactions, the accounts, the chain of blocks with its
-- mempool and orphans, the Merkle tree, the miner, the workers that handle the messages of
-- other nodes, the framing of messages, the connections, the requests to the node, the
-- transactions that it generates, and the node as the system of its threads.
--
-- How the parts act together: the event loop of the server (src/network/server.rs) keeps the
-- connections; peers send byte strings, cut into messages by the connection's reader
-- (src/network/peer.rs); a worker thread (src/network/worker.rs) decodes each and reads or
-- changes the chain (src/blockchain.rs) under its lock; the miner (src/miner.rs) makes a block
-- of the mempool's transactions, tries nonces and inserts the block; the chain keeps an
-- account state (src/state.rs) with every block. The hashes (src/crypto/hash.rs) identify
-- blocks and transactions. Requests (src/api/mod.rs) send signals to the miner, the server and
-- the generator of transactions (src/transaction_generator.rs). src/main.rs makes the shared
-- chain and the channels, and starts these threads.
--
-- Files, and the code that they model:
-- - Prelude, HashMap: shared names; std::collections::HashMap as an association list. Its
-- order of iteration is that of the list.
-- - Platform: what the program takes from ring and bincode, as a record of functions.
-- - Crypto.Hash, Crypto.Address, Crypto.Merkle: src/crypto/hash.rs, address.rs and merkle.rs.
-- Crypto.Hex has the text of hashes and addresses.
-- - Transaction, Block: src/transaction.rs with src/crypto/key_pair.rs, and src/block.rs.
-- - State: src/state.rs. State.Update says what a transaction does to each account,
-- State.Supply and State.Nonces follow sums and nonces, State.Ico the initial offering,
-- State.Typed the types of the fields.
-- - Blockchain: src/blockchain.rs. Blockchain.Steps has the steps of an insertion as a
-- relation, Blockchain.Valid the well-formedness of a chain; Blockchain.Preserved, Kept,
-- Accept and Total relate the insertion to the steps; Insert, Verdict, Submit, Reach,
-- Balances, Growth and Walk are about the operations.
-- - Network.Message, Network.Worker, Network.Peer: src/network/message.rs, worker.rs and
-- peer.rs. Synced and Relayed are about the exchange of messages of two nodes; Peer.Frames
-- has the framed messages and what a writer has left to send; Sent, Complete and Whole are
-- about the calls of a write.
-- - Network.Slab, Network.Server: the crate slab as a record of operations and one of their
-- laws, and src/network/server.rs. Peers has a connection and the reads of its socket.
-- Listed is about the list of peers, Kept has the invariant of the connections, Sockets,
-- Broadcast, Drain and Received are about the operations, Conveyed about two nodes, Events,
-- Running and Lost about the loop.
-- - TransactionGenerator: src/transaction_generator.rs.
-- - Api: src/api/mod.rs, with the handles of src/miner.rs and src/network/server.rs and the
-- values that the Display of src/blockchain.rs prints. Answers says what each request is
-- answered with, Requests that it is. Api.Ledger is the text of the accounts, from the
-- Display of src/state.rs; Order and Sorted are about the order of its lines, Digits about
-- its numbers.
-- - Miner: src/miner.rs.
-- - Node: src/main.rs, as the system of the threads that it starts: what they share, the
-- channels between them, and a turn of each. Outgoing is about the signals that wait for the
-- server, Sound has what the turns keep, Step is about one turn and Turns about any sequence
-- of them; Known is the loop over the known peers.
-- - Part1.Merkle: part1/merkle.rs, the course's template of the tree, against Crypto.Merkle.
-- Levels has the passes, Same the construction, Checked the check of a proof.
-- - Tests: a platform that can be evaluated, runs on it, and instances of the theorems.
--
-- Conventions. A thread's step is a function from the state to the new state; a failed
-- `expect`, `unwrap` or index is the outcome `panicked`. Arithmetic wraps around where a
-- release build does. A channel whose receiver can be gone says so, and the connections are
-- told for how many more messages a worker is left, since the send of a message without one is
-- a panic. Loops on fuel give `out_of_fuel` when it runs out: `insert_block_with_validation`
-- takes one more than the number of orphans, since each recursive call takes a list of orphans
-- away; `aggregate` takes the number of leaves, which each pass halves;
-- `all_blocks_in_longest_chain` takes one more than the number of blocks, since heights fall
-- along the walk; `write` takes fuel as an argument, and `process_writable` gives it a turn
-- for each chunk that the socket takes and each message that waits; `drain` takes one more
-- than the number of bytes, since each read but the last takes a byte; the `build` of
-- Part1.Merkle takes the number of leaves like `aggregate`; and `decimal` takes 20, the digits
-- that 64 bits can have.
--
-- Not modelled: the sockets and the poll themselves, of which the model has what they give and
-- take; the layout of HTTP responses and of the status text except the ledger, the command
-- line, logging, the conversions of types. The wait of lambda microseconds between two
-- iterations of the miner is left out, so that nothing is said of a rate. The threads take
-- turns: each message, each iteration of the miner or the generator, each request and each
-- event of the poll acts at once. In the code a thread holds the lock of the chain for a part
-- of its turn only: the miner, say, takes it once for a new block's transactions and once to
-- insert the block. Most files of part2/ and part5/ have bodies that are left open, or are
-- earlier copies of files of src/.
pub mod Prelude
pub mod HashMap
pub mod Crypto
pub mod Transaction
pub mod Block
pub mod Platform
pub mod State
pub mod Blockchain
pub mod Network
pub mod Miner
pub mod TransactionGenerator
pub mod Api
pub mod Node
pub mod Part1
pub mod Tests
