-- ===== src/Lib.antt =====
-- A model of the ACCUM node, a proof-of-work node in Rust, and theorems on it.
--
-- The node (accum-node/src/main.rs is the one file that is compiled) takes transactions into a
-- mempool, blocks from its peers into a chain with a set of unspent outputs, and shares, hashes
-- that meet an easier target than blocks, into pools that decide who is paid for an epoch. Each
-- module takes the state of its part as a record and each operation as a function of it; the clock
-- is an argument `now`; an error is a value of `Result`, a panic the value `none` of `Option`.
--
-- Base is the shared vocabulary: tests, lists, results and maps. Bytes has the little-endian and
-- big-endian numbers. Target is `Target` of main.rs, Types its second version in
-- accum-node/src/types.rs. Header is `BlockHeader` with its 120 bytes (`to_bytes` of main.rs,
-- `deserialize` of accum-node/src/block.rs), Packet the share packet of accum-node/src/share.rs.
-- Merkle has the three Merkle roots of main.rs, Crypto the key and signature functions of `Wallet`
-- and `TxIn`. Tx has `TxOut`, `TxIn` and `Transaction`: scripts in Tx/Script, `txid` and `sighash`
-- in Tx/Encode, `TxIn::verify` in Tx/Input, `validate` and `fee` in Tx/Validate. Utxo is
-- `update_utxo_set` of `SyncManager`. Tx/Spend has the two ways to make a payment, `create_p2pkh`
-- and `create_simple_tx`. Pow is `Argon2Cache`. Sync is `SyncManager`, with
-- `verify_and_accept_blocks` and the handler of `P2PMessage::Blocks` in Sync/Accept, which sets the
-- height of the node as well, the choice of a peer and the requests for blocks in Sync/Request, and
-- the two steps of `run_with_graceful_shutdown` that drive it in Sync/Rounds. Peer is
-- `PeerConnection`. Ddos, Slashing, Bond, Mempool and Share are `DDoSProtection`,
-- `EquivocationProof` and `SlashingPool`, `Bond`, `Node::add_transaction_to_mempool`, and `Share`,
-- `SharePool` and `AggregatedShare`. Miner is `LoyaltyData` and `MinerData`.
--
-- Node is the chain of `Node`: its genesis, the handler of `P2PMessage::Block`, `update_utxo_set`,
-- `mine_block` in Node/Mine and `median_timestamp` in Node/Median. Node/Shares is `Node::add_share`
-- and Node/Epoch `process_epoch_end`, which change the miners, the bonds, the loyalty and the pool
-- of shares (`ShareBook`). The chain (`Node`) and these fields are two records, since the
-- operations on one take what they read of the other as arguments: the share and the end of an
-- epoch that `mine_block` leads to are the operations of Node/Shares and Node/Epoch, and Node/Mine
-- ends before them. Of accum-node/src/share.rs, Packet/Accept is `SharePacket::validate`,
-- EpochShares the struct of that name, and Guards `PeerRateLimiter` and `InvalidShareMonitor`.
-- Registry is `MinerRegistry` of accum-node/src/miner.rs. Examples applies the theorems to concrete
-- data.
--
-- Code outside the repository is a parameter. Crypto stands for sha2, ripemd, argon2 and secp256k1:
-- no law is assumed of it but, where a theorem says so, the 32 bytes of a SHA-256 digest. UtxoDb
-- and ChainDb stand for RocksDB, with the law that a read sees the last write of its key; SlashDb
-- has no laws. `decode_base58` is bs58, `sign` of a wallet is secp256k1, `size` the length of a
-- bincode encoding, `delivered` and `callback` say which messages the transport takes. Floats is
-- f64, without laws; where an operation only compares a number in f64 or hands it on, the
-- comparison or the number is an argument.
--
-- Integers are natural numbers; where the code adds, subtracts or multiplies in u32 or u64 and may
-- leave the range, the wrap-around of a release build is written out. The Merkle loop runs on as
-- much fuel as the list has hashes, which Merkle/Total shows to be enough; the mining loop on the
-- number of its nonces, as in the code; all other loops are recursions on a list. A hash map is an
-- association list, whose order stands for the order of iteration, a hash set a list. A write to
-- the database that fails changes nothing, but those before it stay: what a failing
-- `verify_and_accept_blocks` leaves half done is `left_behind` of Sync/Accept.
--
-- Not modelled: computations in f64 (difficulty adjustment, PoCI scores, attack detection),
-- sockets, threads, files, RPC, checkpoints and the state root, the start of a node, and the
-- modules beside main.rs that repeat its parts, but for share.rs and miner.rs.
-- `SyncManager::request_blocks` has no caller.
pub mod Base
pub mod Bytes
pub mod Target
pub mod Types
pub mod Header
pub mod Packet
pub mod Merkle
pub mod Crypto
pub mod Tx
pub mod Utxo
pub mod Pow
pub mod Sync
pub mod Peer
pub mod Ddos
pub mod Slashing
pub mod Bond
pub mod Mempool
pub mod Share
pub mod Miner
pub mod Node
pub mod EpochShares
pub mod Registry
pub mod Guards
pub mod Examples
