-- ===== src/Node/Epoch.antt =====
-- `Node::process_epoch_end` of accum-node/src/main.rs. The results of `calculate_poci`, which
-- computes with f64, are an argument.
pub mod Synced
use accum_core.Base.{
  ℕ, ◌+◌, ◌%◌, ◌^◌, Bool, true, false, not, ◌&&◌, ◌||◌, Option, none, some, List, [], ◌∷◌, ◌++◌,
  Result, ok, err, ltb, leb, ◌==◌, if◌then◌else◌, min, ◌-◌, eq_bytes,
}
use accum_core.Base.Dict.{Dict, lookup, insert, unwrap_or}
use accum_core.Bond.{Bond, new_bond, is_active}
use accum_core.Bytes.{to_le_bytes}
use accum_core.Crypto.{Crypto}
use accum_core.Miner.{
  Floats, LoyaltyData, new_loyalty, update, MinerData, new_miner, is_banned, update_invalid_ratio,
  count_share,
}
use accum_core.Share.{Share, ShareRefusal, validate}
use accum_core.Share.Pool as Pool
use accum_core.Share.Pool.{SharePool, PoolError}
use accum_core.Target.{Target, Hash32}
use accum_core.Tx.{TxOut, minimum_bond_lyt}
use accum_core.Tx.Spend.{SpendError, pay_to}
use accum_core.Utxo.{UtxoDb, DbError}
use accum_core.Node.Shares.{ShareBook}

-- `struct PoCIResult` without the two scores in f64.
pub record PociResult : Type 0 where
  pub miner_id : List ℕ
  pub shares : ℕ
  pub reward : ℕ

-- `b"ACCUM-EPOCH-REWARD"`
abbrev epoch_reward_tag : List ℕ
epoch_reward_tag =
    0x41 ∷ 0x43 ∷ 0x43 ∷ 0x55 ∷ 0x4d ∷ 0x2d ∷ 0x45 ∷ 0x50 ∷ 0x4f ∷ 0x43 ∷ 0x48 ∷ 0x2d ∷ 0x52 ∷ 0x45
    ∷ 0x57 ∷ 0x41 ∷ 0x52 ∷ 0x44 ∷ []

-- `saturating_add` of a type whose greatest value is given.
abbrev pub saturating_add : ℕ → ℕ → ℕ → ℕ
saturating_add top a b = min (a + b) top

-- `miner.total_rewards.saturating_add(result.reward)` for every result with a reward.
pub add_rewards : List PociResult → Dict MinerData → Dict MinerData
add_rewards [] miners = miners
add_rewards (r ∷ rest) miners = add_rewards rest (
    if r.reward == 0 then miners else elim (lookup r.miner_id miners) [
      | none ↦ miners
      | some m ↦
          insert r.miner_id
            (record m { total_rewards = saturating_add (2 ^ 64 - 1) m.total_rewards r.reward })
            miners
    ])

-- Whether a result names the miner with a share.
pub participated : List ℕ → List PociResult → Bool
participated k [] = false
participated k (r ∷ rest) = (eq_bytes r.miner_id k && ltb 0 r.shares) || participated k rest

-- `for miner in self.miners.values_mut() { miner.shares = 0; … }`
pub reset_shares : Dict MinerData → Dict MinerData
reset_shares [] = []
reset_shares ((k, m) ∷ rest) = (k, record m { shares = 0 }) ∷ reset_shares rest

module _ (f : Floats) where
  -- The loop over `miners_to_update`.
  update_loyalty :
      ℕ → List PociResult → Dict MinerData → Dict (LoyaltyData f) → Dict (LoyaltyData f)
  unfolding participated
  update_loyalty completed results [] loyalty = loyalty
  update_loyalty completed results ((k, m) ∷ rest) loyalty = update_loyalty completed results rest (
      insert k
        (update f (unwrap_or (new_loyalty f) (lookup k loyalty)) completed (participated k results))
        loyalty)

  -- `Node::process_epoch_end` at the time `now`, as far as it does not write the database.
  pub process_epoch_end : ℕ → List PociResult → ShareBook f → ShareBook f
  unfolding add_rewards update_loyalty reset_shares
  process_epoch_end now results b = record b {
    share_pool = Pool.new_epoch now b.share_pool;
    epoch = saturating_add (2 ^ 32 - 1) b.epoch 1;
    loyalty = update_loyalty b.epoch results (add_rewards results b.miners) b.loyalty;
    miners = reset_shares (add_rewards results b.miners);
  }

-- Its payments: the address that a result is paid to, and the outputs.
module _ (c : Crypto) (db : UtxoDb) (decode_base58 : List ℕ → Option (List ℕ)) where
  open db use {Store, save_utxo}

  payout_of : Option MinerData → Option (List ℕ)
  payout_of none = none
  payout_of (some m) = m.payout_address

  write_reward : Store → Hash32 → Result SpendError TxOut → Store
  write_reward s id (err e) = s
  write_reward s id (ok o) = elim (save_utxo s (id, 0) o) [ ok s' ↦ s' | err e ↦ s ]

  pay_reward : Store → Hash32 → ℕ → Option (List ℕ) → Store
  unfolding write_reward
  pay_reward s id reward none = s
  pay_reward s id reward (some address) = write_reward s id (pay_to decode_base58 address reward)

  -- `own` is the node's miner id, `wallet` the address of its wallet.
  pay_rewards : List ℕ → Option (List ℕ) → ℕ → ℕ → Dict MinerData → List PociResult → Store → Store
  unfolding pay_reward payout_of
  pay_rewards own wallet height epoch miners [] s = s
  pay_rewards own wallet height epoch miners (r ∷ rest) s =
      let id =
        c.sha256 (epoch_reward_tag ++ to_le_bytes 8 height ++ to_le_bytes 4 epoch ++ r.miner_id) in
      let address =
        if eq_bytes r.miner_id own then wallet else payout_of (lookup r.miner_id miners) in
      pay_rewards own wallet height epoch miners rest
        (if r.reward == 0 then s else pay_reward s id r.reward address)
