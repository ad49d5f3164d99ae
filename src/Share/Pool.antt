-- ===== src/Share/Pool.antt =====
-- `SharePool` of accum-node/src/main.rs: the shares of the current epoch, by miner. The order of the
-- association list stands for the order in which the hash map is iterated; `share_size` is
-- `size_of::<Share>()`.
pub mod Counted
pub mod Invalid
use accum_core.Base.{
  ℕ, ◌+◌, ◌*◌, ◌%◌, ◌^◌, Bool, true, false, not, Option, none, some, List, [], ◌∷◌, ◌++◌, Result,
  ok, err, ltb, leb, ◌==◌, max, if◌then◌else◌, length,
}
use accum_core.Base.Dict.{Dict, lookup, insert, unwrap_or, mem, include, exclude}
use accum_core.Crypto.{Crypto}
use accum_core.Pow.{wrapping_sub}
use accum_core.Share.{Share, share_hash}
use accum_core.Target.{Hash32}

-- `const MAX_SHARES_PER_MINER_PER_EPOCH`
abbrev pub max_shares_per_miner_per_epoch : ℕ
max_shares_per_miner_per_epoch = 5000

pub record SharePool : Type 0 where
  pub shares : Dict (List Share)
  pub share_count : Dict ℕ
  pub share_hashes : List Hash32
  invalid_shares : Dict ℕ
  pub total_shares : Dict ℕ
  pub current_epoch : ℕ
  pub max_memory_bytes : ℕ
  pub memory_used : ℕ
  pub created_at : ℕ

pub data PoolError : Type 0 where
  wrong_epoch : PoolError
  max_shares_exceeded : PoolError

-- `SharePool::new` at the time `now`
abbrev pub new_pool : ℕ → ℕ → SharePool
new_pool max_memory_mb now = record {
  shares = [];
  share_count = [];
  share_hashes = [];
  invalid_shares = [];
  total_shares = [];
  current_epoch = 1;
  max_memory_bytes = max_memory_mb * 1024 * 1024;
  memory_used = 0;
  created_at = now;
}

-- `*map.entry(k).or_insert(0) += 1`
abbrev pub bump : List ℕ → Dict ℕ → Dict ℕ
bump k d = insert k ((unwrap_or 0 (lookup k d) + 1) % 2 ^ 64) d

-- The vector of a miner, empty for a miner who has none.
abbrev pub shares_of : SharePool → List ℕ → List Share
shares_of p k = unwrap_or [] (lookup k p.shares)

-- The loop of `evict_oldest`: the first miner with the most shares.
pub most_shares : ℕ → Option (List ℕ) → Dict (List Share) → Option (List ℕ)
most_shares best target [] = target
most_shares best target ((k, ss) ∷ d) =
    most_shares (max best (length ss)) (if ltb best (length ss) then some k else target) d

-- `SharePool::get_shares`
pub get_shares : SharePool → List ℕ → ℕ
get_shares p k = unwrap_or 0 (lookup k p.share_count)

-- `SharePool::new_epoch` at the time `now`
unfoldable pub new_epoch : ℕ → SharePool → SharePool
new_epoch now p = record p {
  shares = [];
  share_count = [];
  share_hashes = [];
  invalid_shares = [];
  total_shares = [];
  memory_used = 0;
  current_epoch = (p.current_epoch + 1) % 2 ^ 32;
  created_at = now;
}

module _ (c : Crypto) (share_size : ℕ) where
  -- The body of `if let Some(miner_id) = target_miner`, on the miner's shares.
  pub evict_from : SharePool → List ℕ → List Share → SharePool
  evict_from p k [] = p
  evict_from p k (oldest ∷ rest) = record p {
    share_hashes = exclude (share_hash c oldest) p.share_hashes;
    memory_used = wrapping_sub p.memory_used share_size;
    shares = insert k rest p.shares;
    share_count = insert k (wrapping_sub (unwrap_or 0 (lookup k p.share_count)) 1) p.share_count;
  }

  pub evict_target : SharePool → Option (List ℕ) → SharePool
  unfolding evict_from
  evict_target p none = p
  evict_target p (some k) = evict_from p k (shares_of p k)

  -- `SharePool::evict_oldest`
  pub evict_oldest : SharePool → SharePool
  unfolding evict_target most_shares
  evict_oldest p = evict_target p (most_shares 0 none p.shares)

  -- The part of `add_share` behind the eviction.
  pub store_share : SharePool → Share → SharePool × Result PoolError Bool
  store_share p share =
      let k = share.miner_id in
      let count = unwrap_or 0 (lookup k p.share_count) in
      if leb max_shares_per_miner_per_epoch count
      then (record p { share_count = insert k count p.share_count }, err max_shares_exceeded)
      else (
        record p {
          shares = insert k (shares_of p k ++ (share ∷ [])) p.shares;
          share_hashes = include (share_hash c share) p.share_hashes;
          memory_used = (p.memory_used + share_size) % 2 ^ 64;
          share_count = insert k ((count + 1) % 2 ^ 64) p.share_count;
        },
        ok true,
      )

  -- The part of `add_share` behind the check for a duplicate.
  pub count_share : SharePool → Share → Bool → SharePool × Result PoolError Bool
  unfolding store_share evict_oldest
  count_share p share is_valid =
      let k = share.miner_id in
      let p1 = record p { total_shares = bump k p.total_shares } in
      if not is_valid
      then (record p1 { invalid_shares = bump k p1.invalid_shares }, ok false)
      else if ltb p1.max_memory_bytes ((p1.memory_used + share_size) % 2 ^ 64)
      then store_share (evict_oldest p1) share
      else store_share p1 share

  -- `SharePool::add_share`
  unfoldable pub add_share : SharePool → Share → Bool → SharePool × Result PoolError Bool
  unfolding count_share
  add_share p share is_valid =
      if not (share.header.epoch_index == p.current_epoch)
      then (p, err wrong_epoch)
      else if mem (share_hash c share) p.share_hashes
      then (p, ok false)
      else count_share p share is_valid
