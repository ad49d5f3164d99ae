-- ===== src/Node/Shares.antt =====
-- `Node::add_share` and `Node::add_bond` of accum-node/src/main.rs. What is
-- computed with f64 is a parameter: the share target, and the tests of the ratio of invalid shares.
pub mod Counted
use accum_core.Base.{
  ℕ, ◌+◌, ◌%◌, ◌^◌, Bool, true, false, not, ◌&&◌, ◌||◌, Option, none, some, List, [], ◌∷◌, ◌++◌,
  Result, ok, err, ltb, leb, ◌==◌, if◌then◌else◌, min, eq_bytes,
}
use accum_core.Base.Dict.{Dict, lookup, insert, unwrap_or}
use accum_core.Bond.{Bond, new_bond, is_active}
use accum_core.Bytes.{to_le_bytes}
use accum_core.Crypto.{Crypto}
use accum_core.Miner.{
  Floats, LoyaltyData, new_loyalty, update, MinerData, new_miner, is_banned, update_invalid_ratio,
  count_share,
}
use accum_core.Share.{Share, ShareRefusal, validate}
use accum_core.Share.Pool as Pool
use accum_core.Share.Pool.{SharePool, PoolError}
use accum_core.Target.{Target, Hash32}
use accum_core.Tx.{TxOut, minimum_bond_lyt}
use accum_core.Tx.Spend.{SpendError, pay_to}
use accum_core.Utxo.{UtxoDb, DbError}

-- The fields of `Node` that these operations change, beside the database.
pub record ShareBook (f : Floats) : Type 0 where
  pub epoch : ℕ
  pub height : ℕ
  pub miners : Dict MinerData
  pub bonds : Dict Bond
  pub loyalty : Dict (LoyaltyData f)
  pub share_pool : SharePool
  pub shares_found : ℕ

-- `Node::add_bond`, as far as it does not write the database.
abbrev add_bond : {f : Floats} → ShareBook f → List ℕ → ℕ → ShareBook f
add_bond b k amount = if ltb amount minimum_bond_lyt then b else record b {
  bonds = insert k (new_bond amount b.height k) b.bonds;
  miners = elim (lookup k b.miners) [
    | none ↦ b.miners
    | some m ↦ insert k (record m { bond = amount }) b.miners
  ];
}

-- `.map(|b| …).unwrap_or(…)` and the same for the miner.
pub bond_active : ℕ → Option Bond → Bool
bond_active height none = false
bond_active height (some b) = is_active b height

pub miner_banned : ℕ → Option MinerData → Bool
miner_banned now none = false
miner_banned now (some m) = is_banned m now

abbrev pub bond_amount : Option Bond → ℕ
bond_amount none = 0
bond_amount (some b) = b.amount

pub is_ok {ℓ κ} : {E : Type ℓ} {A : Type κ} → Result E A → Bool
is_ok (ok a) = true
is_ok (err e) = false

module _ (f : Floats) where
  -- The branch `Ok(true)`: the miner's counters and its loyalty.
  pub credit : ShareBook f → Share → SharePool → ShareBook f
  credit b share pool =
      let k = share.miner_id in
      let fresh = new_miner k (bond_amount (lookup k b.bonds)) b.epoch share.timestamp in
      record b {
        share_pool = pool;
        miners =
            insert k (count_share share.timestamp (unwrap_or fresh (lookup k b.miners))) b.miners;
        loyalty =
            insert k (update f (unwrap_or (new_loyalty f) (lookup k b.loyalty)) b.epoch true)
              b.loyalty;
        shares_found = (b.shares_found + 1) % 2 ^ 64;
      }

  -- The branch `Err(_)`, with the outcomes of the tests of the miner's ratio.
  warn : (SharePool → List ℕ → Bool × Bool) → ShareBook f → Share → SharePool → ShareBook f
  warn ratio b share pool =
      let k = share.miner_id in
      let tests = ratio pool k in
      record b {
        share_pool = pool;
        miners = elim (lookup k b.miners) [
          | none ↦ b.miners
          | some m ↦ insert k (update_invalid_ratio tests.0 tests.1 share.timestamp m) b.miners
        ];
      }

  -- The match on what `SharePool::add_share` returns.
  pub settle_share :
      (SharePool → List ℕ → Bool × Bool)
      → ShareBook f
      → Share
      → SharePool × Result PoolError Bool
      → ShareBook f × Bool
  unfolding credit warn
  settle_share ratio b share (pool, ok true) = (credit b share pool, true)
  settle_share ratio b share (pool, ok false) = (record b { share_pool = pool }, false)
  settle_share ratio b share (pool, err e) = (warn ratio b share pool, false)

  -- `Node::add_share`. The time at which a share is validated is the share's own timestamp.
  unfoldable pub add_share :
      Crypto
      → ℕ
      → Target
      → Hash32
      → (SharePool → List ℕ → Bool × Bool)
      → ShareBook f
      → Share
      → ShareBook f × Bool
  unfolding settle_share bond_active miner_banned is_ok
  add_share c share_size target_share expected_prev ratio b share =
      let k = share.miner_id in
      let now = share.timestamp in
      let is_valid = is_ok (validate c share target_share expected_prev b.epoch now) in
      if miner_banned now (lookup k b.miners)
      then (b, false)
      else if not (bond_active b.height (lookup k b.bonds))
      then (b, false)
      else settle_share ratio b share (Pool.add_share c share_size b.share_pool share is_valid)
