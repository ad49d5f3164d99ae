-- ===== src/Miner.antt =====
-- `MinerData` and `LoyaltyData` of accum-node/src/main.rs. The values in f64 are a parameter, with
-- the four operations that the code applies to them.
pub mod Loyalty
use accum_core.Base.{
  ℕ, zero, suc, ◌+◌, ◌-◌, ◌*◌, ◌%◌, ◌^◌, Bool, true, false, ◌&&◌, Option, none, some, List, [], ltb,
  leb, ◌==◌, if◌then◌else◌,
}

-- `0.0`, `+ 1.0`, `* LOYALTY_GRACE_DECAY_FACTOR`, and the `max` of the two decays.
pub record Floats : Type 1 where
  pub Float : Type 0
  pub zero_value : Float
  pub add_one : Float → Float
  pub grace_decay : Float → Float
  pub decay : Float → Float

-- `const LOYALTY_GRACE_PERIOD`
abbrev pub loyalty_grace_period : ℕ
loyalty_grace_period = 3

-- `const PEER_BAN_DURATION_SECS`
abbrev pub peer_ban_duration_secs : ℕ
peer_ban_duration_secs = 300

module _ (f : Floats) where
  open f use {Float, zero_value, add_one, grace_decay, decay}

  pub record LoyaltyData : Type 0 where
    pub value : Float
    pub last_epoch : ℕ
    pub missed_epochs : ℕ
    pub consecutive_epochs : ℕ
    pub grace_remaining : ℕ

  -- `LoyaltyData::new`
  abbrev pub new_loyalty : LoyaltyData
  new_loyalty = record {
    value = zero_value;
    last_epoch = 0;
    missed_epochs = 0;
    consecutive_epochs = 0;
    grace_remaining = 0;
  }

  -- `for i in 0..n { self.apply_decay(i == 0 && self.grace_remaining > 0); }`
  pub decay_rounds : ℕ → Bool → Float → Float
  decay_rounds zero grace v = v
  decay_rounds (suc n) true v = decay_rounds n false (grace_decay v)
  decay_rounds (suc n) false v = decay_rounds n false (decay v)

  -- The branch of an epoch with a share.
  pub participate : ℕ → LoyaltyData → LoyaltyData
  unfolding decay_rounds
  participate current_epoch l =
      let passed = current_epoch - l.last_epoch in
      record {
        value = add_one (decay_rounds (passed - 1) (ltb 0 l.grace_remaining) l.value);
        last_epoch = current_epoch;
        missed_epochs = 0;
        consecutive_epochs = (l.consecutive_epochs + 1) % 2 ^ 32;
        grace_remaining =
            if ltb l.grace_remaining loyalty_grace_period
            then loyalty_grace_period
            else l.grace_remaining;
      }

  -- The branch of an epoch without one.
  pub miss : ℕ → LoyaltyData → LoyaltyData
  unfolding decay_rounds
  miss current_epoch l =
      let passed = current_epoch - l.last_epoch in
      record {
        value = decay_rounds passed (ltb 0 l.grace_remaining) l.value;
        last_epoch = current_epoch;
        missed_epochs = (l.missed_epochs + passed) % 2 ^ 32;
        consecutive_epochs = 0;
        grace_remaining = l.grace_remaining - 1;
      }

  -- `LoyaltyData::update`
  pub update : LoyaltyData → ℕ → Bool → LoyaltyData
  unfolding participate miss
  update l current_epoch participated =
      if leb current_epoch l.last_epoch
      then l
      else if participated
      then participate current_epoch l
      else miss current_epoch l

  -- `LoyaltyData::is_active`
  abbrev pub is_active_miner : LoyaltyData → Bool
  is_active_miner l = ltb l.missed_epochs (loyalty_grace_period * 2)

-- `struct MinerData` without the two fields in f64 and the key, which these operations do not use.
pub record MinerData : Type 0 where
  pub miner_id : List ℕ
  pub shares : ℕ
  pub bond : ℕ
  pub last_epoch : ℕ
  pub banned_until : Option ℕ
  pub last_share_time : ℕ
  pub total_shares_historical : ℕ
  pub blocks_found : ℕ
  pub total_rewards : ℕ
  pub payout_address : Option (List ℕ)
  pub first_seen : ℕ

-- `MinerData::new`
abbrev pub new_miner : List ℕ → ℕ → ℕ → ℕ → MinerData
new_miner miner_id bond epoch time = record {
  miner_id = miner_id;
  shares = 0;
  bond = bond;
  last_epoch = epoch;
  banned_until = none;
  last_share_time = time;
  total_shares_historical = 0;
  blocks_found = 0;
  total_rewards = 0;
  payout_address = none;
  first_seen = time;
}

-- `MinerData::is_banned`
unfoldable pub is_banned : MinerData → ℕ → Bool
is_banned m now = elim m.banned_until [ none ↦ false | some until ↦ ltb now until ]

-- `MinerData::update_invalid_ratio`, by the outcomes of its two comparisons in f64.
abbrev pub update_invalid_ratio : Bool → Bool → ℕ → MinerData → MinerData
update_invalid_ratio over_ban over_warning now m =
    if over_ban
    then record m { banned_until = some ((now + peer_ban_duration_secs * 3) % 2 ^ 64) }
    else if over_warning
    then record m { banned_until = some ((now + peer_ban_duration_secs) % 2 ^ 64) }
    else m

-- `MinerData::add_share`
pub count_share : ℕ → MinerData → MinerData
count_share time m = record m {
  shares = (m.shares + 1) % 2 ^ 64;
  total_shares_historical = (m.total_shares_historical + 1) % 2 ^ 64;
  last_share_time = time;
}

-- `MinerData::add_block`
abbrev add_block : ℕ → MinerData → MinerData
add_block reward m = record m {
  blocks_found = (m.blocks_found + 1) % 2 ^ 64;
  total_rewards = (m.total_rewards + reward) % 2 ^ 64;
}
