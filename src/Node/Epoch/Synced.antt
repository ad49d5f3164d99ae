-- ===== src/Node/Epoch/Synced.antt =====
-- What the end of an epoch leaves behind.
use accum_core.Base.{ℕ, ◌+◌, ◌^◌, ◌<◌, ◌≡◌, refl, List, [], ◌∷◌, arith}
use accum_core.Base.Dict.{Dict}
use accum_core.Miner.{Floats, MinerData}
use accum_core.Node.Shares.{ShareBook}
use accum_core.Node.Epoch.{PociResult, reset_shares, add_rewards, process_epoch_end}
use accum_core.Share.Pool.{new_epoch, get_shares}
use accum_core.Share.Pool.Counted.{new_epoch-AllCounted}

-- No miner has a share in the epoch.
abbrev pub AllReset : Dict MinerData → Type 0
AllReset [] = Unit
AllReset ((k, m) ∷ rest) = (m.shares ≡ 0) × AllReset rest

reset_shares-AllReset : (miners : Dict MinerData) → AllReset (reset_shares miners)
unfolding reset_shares
reset_shares-AllReset [] = tt
reset_shares-AllReset ((k, m) ∷ rest) = (refl, reset_shares-AllReset rest)

module _ (f : Floats) where
  -- The node and its pool of shares are in one epoch.
  abbrev pub InOneEpoch : ShareBook f → Type 0
  InOneEpoch b = b.epoch ≡ b.share_pool.current_epoch

  -- Where the node and its pool are in one epoch below 2^32 - 1, they are in the next one, and in
  -- the same, after `process_epoch_end`, whatever the rewards are; then the pool counts no share of
  -- any miner, and no miner has one.
  pub process_epoch_end_synced :
      (now : ℕ) (results : List PociResult) (b : ShareBook f)
      → InOneEpoch b
      → b.epoch + 1 < 2 ^ 32
      → let after = process_epoch_end f now results b in
        InOneEpoch after
        × (after.epoch ≡ b.epoch + 1)
        × AllReset after.miners
        × ((k : List ℕ) → get_shares after.share_pool k ≡ 0)
  unfolding process_epoch_end new_epoch
  process_epoch_end_synced now results b same low = (
    omega (arith, same),
    omega arith,
    reset_shares-AllReset (add_rewards results b.miners),
    (new_epoch-AllCounted now b.share_pool).1,
  )
