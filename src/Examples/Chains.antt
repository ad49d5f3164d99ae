-- ===== src/Examples/Chains.antt =====
-- The theorems on synchronisation and on the cache of hashes at one block and one session.
use accum_core.Base.{
  ℕ, ◌+◌, ◌*◌, ◌<◌, ◌≡◌, refl, inl, inr, Bool, true, false, Option, none, some, List, [], ◌∷◌, ◌++◌,
  Result, ok, length, map, replicate, eq_bytes, ◌==◌, if◌then◌else◌, arith,
}
use accum_core.Examples.{zeros_crypto, MemStore, mem_chain, empty_store}
use accum_core.Header.{BlockHeader, validate_timestamp}
use accum_core.Node.{init_genesis}
use accum_core.Pow.{Argon2Cache, pow_hash, hash_cached}
use accum_core.Pow.Cache.{AllHashed, hash_cached-pow_hash}
use accum_core.Sync.{
  Block, SyncPeer, SyncSession, SyncManager, requesting, new_manager, start_sync, current_height,
}
use accum_core.Sync.Coherent.{IsCoherent}
use accum_core.Sync.Session.{Step, Reachable, Reachable-IsCoherent}
use accum_core.Sync.Accept.{verify_and_accept_blocks}
use accum_core.Sync.Accept.Chain.{IsSynced, verify_and_accept_blocks-IsSynced}
use accum_core.Sync.Accept.Handler.{Handled, handle_blocks, handle_blocks_twice}
use accum_core.Target.{Hash32, genesis}

abbrev first_header : BlockHeader
first_header = record {
  version = 1;
  prev_hash = replicate 32 0;
  merkle_root = replicate 32 0;
  timestamp = 100;
  difficulty = genesis;
  nonce = 0;
  epoch_index = 1;
}

abbrev first_block : Block
first_block = record { header = first_header; transactions = []; signature = none; pubkey = none }

abbrev stray_block : Block
stray_block = record first_block { header = record first_header { prev_hash = replicate 32 1 } }

abbrev peer : SyncPeer
peer = record {
  peer_id = 5 ∷ [];
  height = 9;
  best_hash = replicate 32 0;
  latency_ms = 3;
  last_sync_time = 50;
  retries = 0;
  banned = false;
}

abbrev session : SyncSession
session = record {
  peer_id = 5 ∷ [];
  from_height = 0;
  target_height = 9;
  current_height = 0;
  started_at = 60;
  last_activity = 60;
  blocks_received = 0;
  status = requesting;
}

abbrev syncing : SyncManager
syncing = record new_manager {
  active_session = some session;
  sync_in_progress = true;
  last_sync_attempt = 60;
}

abbrev accepted : SyncManager
accepted = record syncing {
  local_chain = first_header ∷ [];
  local_hashes = (replicate 32 0, 1) ∷ [];
}

abbrev one_store : MemStore
one_store = (empty_store.0, λ k. if 1 == k then some first_block else none)

accepts :
    verify_and_accept_blocks zeros_crypto mem_chain 100 (syncing, empty_store) (first_block ∷ [])
    ≡ ((accepted, one_store), ok 1)
unfolding verify_and_accept_blocks eq_bytes accum_core.Target.is_met_by pow_hash validate_timestamp
    accum_core.Merkle.compute_merkle_root accum_core.Utxo.update_utxo_set
    accum_core.Base.Dict.insert
accepts = refl

verify_and_accept_blocks-IsSynced_example :
    IsSynced zeros_crypto mem_chain 100 0 syncing accepted empty_store one_store none
      (first_block ∷ [])
      1
verify_and_accept_blocks-IsSynced_example =
    verify_and_accept_blocks-IsSynced zeros_crypto mem_chain 100 syncing accepted empty_store
      one_store none (first_block ∷ []) 1 (inl (refl, refl)) (tt, tt) accepts

same_peer : eq_bytes session.peer_id (5 ∷ []) ≡ true
unfolding eq_bytes
same_peer = refl

abbrev before : Handled zeros_crypto mem_chain 100
before = record {
  sync_manager = syncing;
  node = init_genesis zeros_crypto;
  store = empty_store;
  local_height = 0;
  local_best_hash = replicate 32 0;
}

handle_blocks_twice_example :
    current_height
      (handle_blocks zeros_crypto mem_chain 100 before (first_block ∷ []) (5 ∷ [])).sync_manager
    ≡ current_height syncing + 2 * length (first_block ∷ [])
handle_blocks_twice_example =
    handle_blocks_twice zeros_crypto mem_chain 100 before accepted one_store session first_block []
      (5 ∷ []) 1 refl same_peer accepts

started : Reachable zeros_crypto (start_sync 60 new_manager peer).0
started = Reachable.next Reachable.begin (Step.start 60 new_manager peer)

Reachable-IsCoherent_example : IsCoherent (start_sync 60 new_manager peer).0
Reachable-IsCoherent_example = Reachable-IsCoherent zeros_crypto started

abbrev one_hash : Argon2Cache
one_hash = record {
  cache = (1 ∷ [], (replicate 32 0, 40)) ∷ [];
  max_size = 10;
  hits = 0;
  misses = 1;
  total_hashes = 1;
}

one-AllHashed : AllHashed zeros_crypto one_hash.cache
unfolding AllHashed pow_hash
one-AllHashed = (refl, tt)

hash_cached-pow_hash_example :
    ((hash_cached zeros_crypto 50 (1 ∷ []) one_hash).1 ≡ pow_hash zeros_crypto (1 ∷ []))
    × AllHashed zeros_crypto (hash_cached zeros_crypto 50 (1 ∷ []) one_hash).0.cache
hash_cached-pow_hash_example = hash_cached-pow_hash zeros_crypto 50 (1 ∷ []) one_hash one-AllHashed
