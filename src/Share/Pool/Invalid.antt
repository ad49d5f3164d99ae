-- ===== src/Share/Pool/Invalid.antt =====
-- What `SharePool::add_share` of accum-node/src/main.rs returns for an invalid share.
use accum_core.Base.{ℕ, ◌≡◌, refl, Bool, true, false, not, Result, ok, err, if◌then◌else◌, ◌==◌}
use accum_core.Base.Dict.{mem}
use accum_core.Crypto.{Crypto}
use accum_core.Share.{Share, share_hash}
use accum_core.Share.Pool.{SharePool, PoolError, wrong_epoch, count_share, add_share}

module _ (c : Crypto) (share_size : ℕ) where
  -- What the pool returns for an invalid share, by its two tests.
  guarded_invalid :
      (p : SharePool) (s : Share) (in_epoch known : Bool)
      → let r : SharePool × Result PoolError Bool =
          if not in_epoch
          then (p, err wrong_epoch)
          else if known
          then (p, ok false)
          else count_share c share_size p s false in
        r.1 ≡ (if in_epoch then ok false else err wrong_epoch)
  unfolding count_share
  guarded_invalid p s false known = refl
  guarded_invalid p s true true = refl
  guarded_invalid p s true false = refl

  pub add_invalid :
      (p : SharePool) (s : Share)
      → (add_share c share_size p s false).1
        ≡ (if s.header.epoch_index == p.current_epoch then ok false else err wrong_epoch)
  unfolding add_share
  add_invalid p s =
      guarded_invalid p s (s.header.epoch_index == p.current_epoch)
        (mem (share_hash c s) p.share_hashes)

  -- The epoch of the pool stays.
  guarded_epoch :
      (p : SharePool) (s : Share) (in_epoch known : Bool)
      → let r : SharePool × Result PoolError Bool =
          if not in_epoch
          then (p, err wrong_epoch)
          else if known
          then (p, ok false)
          else count_share c share_size p s false in
        r.0.current_epoch ≡ p.current_epoch
  unfolding count_share
  guarded_epoch p s false known = refl
  guarded_epoch p s true true = refl
  guarded_epoch p s true false = refl

  pub add_invalid_epoch :
      (p : SharePool) (s : Share)
      → (add_share c share_size p s false).0.current_epoch ≡ p.current_epoch
  unfolding add_share
  add_invalid_epoch p s =
      guarded_epoch p s (s.header.epoch_index == p.current_epoch)
        (mem (share_hash c s) p.share_hashes)
