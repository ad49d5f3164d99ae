-- ===== src/Registry.antt =====
-- `MinerRegistry` of accum-node/src/miner.rs: the miners of an epoch and their bonds.
pub mod Keys
pub mod Backed
pub mod Reached
use accum_core.Base.{
  ℕ, ◌+◌, ◌-◌, ◌*◌, ◌%◌, ◌^◌, Bool, true, false, Option, none, some, List, [], ◌∷◌, ◌++◌, Result,
  ok, err, ltb, leb, ◌==◌, if◌then◌else◌,
}
use accum_core.Base.Dict.{Dict, lookup, insert, unwrap_or}
use accum_core.Bond.{bond_lockup_blocks}
use accum_core.Miner.{Floats}
use accum_core.Tx.{minimum_bond_lyt}

pub record BondEntry : Type 0 where
  pub amount : ℕ
  pub locked_until : ℕ
  pub created_at : ℕ

-- The one error, with the least bond.
pub data RegistryError : Type 0 where
  insufficient_bond : ℕ → RegistryError

-- The sum of the amounts in `u64`.
pub sum_amounts : List BondEntry → ℕ
sum_amounts [] = 0
sum_amounts (b ∷ rest) = (b.amount + sum_amounts rest) % 2 ^ 64

-- `bond_list.retain(|bond| bond.locked_until > self.current_height)`
pub retain_locked : ℕ → List BondEntry → List BondEntry
retain_locked height [] = []
retain_locked height (b ∷ rest) =
    let others = retain_locked height rest in
    if ltb height b.locked_until then b ∷ others else others

-- A dictionary entry, where its list is not empty.
abbrev pub keep_entry : List ℕ → List BondEntry → Dict (List BondEntry) → Dict (List BondEntry)
keep_entry k [] d = d
keep_entry k (b ∷ bs) d = (k, b ∷ bs) ∷ d

-- The lists of bonds after `cleanup_expired_bonds`.
pub kept_bonds : ℕ → Dict (List BondEntry) → Dict (List BondEntry)
unfolding retain_locked
kept_bonds height [] = []
kept_bonds height ((k, bs) ∷ rest) = keep_entry k (retain_locked height bs) (kept_bonds height rest)

module _ (f : Floats) where
  open f use {Float, zero_value, add_one, grace_decay, decay}

  pub record MinerInfo : Type 0 where
    pub miner_id : List ℕ
    shares_raw : ℕ
    pub loyalty : Float
    pub bond_total : ℕ
    pub invalid_shares : ℕ
    pub total_shares : ℕ
    last_epoch_participated : ℕ
    pub first_seen : ℕ

  pub record MinerRegistry : Type 0 where
    pub miners : Dict MinerInfo
    pub bonds : Dict (List BondEntry)
    pub current_epoch : ℕ
    pub current_height : ℕ

  -- `MinerRegistry::new`
  abbrev pub new_registry : MinerRegistry
  new_registry = record { miners = []; bonds = []; current_epoch = 0; current_height = 0 }

  -- The entry that `get_or_create_miner` makes at the time `now`.
  abbrev pub default_miner : ℕ → List ℕ → MinerInfo
  default_miner now k = record {
    miner_id = k;
    shares_raw = 0;
    loyalty = zero_value;
    bond_total = 0;
    invalid_shares = 0;
    total_shares = 0;
    last_epoch_participated = 0;
    first_seen = now;
  }

  -- `get_or_create_miner` with a change of the entry.
  pub change_miner : ℕ → List ℕ → (MinerInfo → MinerInfo) → Dict MinerInfo → Dict MinerInfo
  change_miner now k change ms =
      insert k (change (unwrap_or (default_miner now k) (lookup k ms))) ms

  -- The changes of `add_valid_share` and `add_invalid_share`.
  abbrev pub with_valid_share : ℕ → MinerInfo → MinerInfo
  with_valid_share epoch m = record m {
    shares_raw = (m.shares_raw + 1) % 2 ^ 64;
    total_shares = (m.total_shares + 1) % 2 ^ 32;
    last_epoch_participated = epoch;
  }

  abbrev pub with_invalid_share : ℕ → MinerInfo → MinerInfo
  with_invalid_share epoch m = record m {
    invalid_shares = (m.invalid_shares + 1) % 2 ^ 32;
    total_shares = (m.total_shares + 1) % 2 ^ 32;
    last_epoch_participated = epoch;
  }

  -- `add_valid_share`
  pub add_valid_share : ℕ → MinerRegistry → List ℕ → MinerRegistry
  unfolding change_miner
  add_valid_share now r k = record r {
    miners = change_miner now k (with_valid_share r.current_epoch) r.miners;
  }

  -- `add_invalid_share`
  pub add_invalid_share : ℕ → MinerRegistry → List ℕ → MinerRegistry
  unfolding change_miner
  add_invalid_share now r k = record r {
    miners = change_miner now k (with_invalid_share r.current_epoch) r.miners;
  }

  -- `MinerRegistry::add_bond`
  pub lock_bond : ℕ → MinerRegistry → List ℕ → ℕ → MinerRegistry × Result RegistryError (Unit {0})
  unfolding change_miner
  lock_bond now r k amount =
      let entry : BondEntry = record {
        amount = amount;
        locked_until = (r.current_height + bond_lockup_blocks) % 2 ^ 64;
        created_at = r.current_height;
      } in
      let change : MinerInfo → MinerInfo =
        λ m. record m { bond_total = (m.bond_total + amount) % 2 ^ 64 } in
      if ltb amount minimum_bond_lyt then (r, err (insufficient_bond minimum_bond_lyt)) else (
        record r {
          bonds = insert k (unwrap_or [] (lookup k r.bonds) ++ (entry ∷ [])) r.bonds;
          miners = change_miner now k change r.miners;
        },
        ok tt,
      )

  -- The body of the loop of `update_loyalty`. A ban sets the last epoch ahead of the current one,
  -- where the difference wraps around.
  pub age : ℕ → MinerInfo → MinerInfo
  age epoch m =
      let missed = (epoch + 2 ^ 32 - m.last_epoch_participated) % 2 ^ 32 in
      record m {
        loyalty =
            if m.last_epoch_participated == epoch
            then add_one m.loyalty
            else if leb missed 3
            then grace_decay m.loyalty
            else decay m.loyalty;
      }

  -- `update_loyalty`
  pub age_all : ℕ → Dict MinerInfo → Dict MinerInfo
  unfolding age
  age_all epoch [] = []
  age_all epoch ((k, m) ∷ rest) = (k, age epoch m) ∷ age_all epoch rest

  -- The body of the loop of `cleanup_expired_bonds`: the total of the miner, if it changes.
  pub settle_bonds : ℕ → List ℕ → List BondEntry → Dict MinerInfo → Dict MinerInfo
  unfolding sum_amounts retain_locked
  settle_bonds height k bs ms =
      let after = sum_amounts (retain_locked height bs) in
      if sum_amounts bs == after
      then ms
      else elim (lookup k ms) [ none ↦ ms | some m ↦ insert k (record m { bond_total = after }) ms ]

  pub settle_all : ℕ → Dict (List BondEntry) → Dict MinerInfo → Dict MinerInfo
  unfolding settle_bonds
  settle_all height [] ms = ms
  settle_all height ((k, bs) ∷ rest) ms = settle_all height rest (settle_bonds height k bs ms)

  -- `cleanup_expired_bonds`
  pub cleanup : MinerRegistry → MinerRegistry
  unfolding settle_all kept_bonds
  cleanup r = record r {
    miners = settle_all r.current_height r.bonds r.miners;
    bonds = kept_bonds r.current_height r.bonds;
  }

  -- The test of `check_bans`. The quotient of two `u32` in f64 is above 0.3 exactly if that of the
  -- numbers is above 3 / 10.
  abbrev pub must_ban : MinerInfo → Bool
  must_ban m =
      if ltb m.total_shares 10 then false else ltb (3 * m.total_shares) (10 * m.invalid_shares)

  -- `check_bans` and `ban_miner` for every miner that it names.
  pub ban_all : ℕ → Dict MinerInfo → Dict MinerInfo
  ban_all epoch [] = []
  ban_all epoch ((k, m) ∷ rest) =
      (
        k,
        if must_ban m
            then record m { last_epoch_participated = (epoch + 3) % 2 ^ 32; loyalty = zero_value }
            else m,
      )
      ∷ ban_all epoch rest

  -- `next_epoch`
  pub next_epoch : MinerRegistry → MinerRegistry
  unfolding age_all cleanup ban_all
  next_epoch r =
      let epoch = (r.current_epoch + 1) % 2 ^ 32 in
      let r1 = cleanup (record r { current_epoch = epoch; miners = age_all epoch r.miners }) in
      record r1 { miners = ban_all epoch r1.miners }

  -- `set_height`
  abbrev pub set_height : ℕ → MinerRegistry → MinerRegistry
  set_height height r = record r { current_height = height }
