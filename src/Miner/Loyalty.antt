-- ===== src/Miner/Loyalty.antt =====
-- How often an epoch counts towards a miner's loyalty.
use accum_core.Base.{
  ℕ, zero, suc, ◌+◌, ◌-◌, ◌%◌, ◌^◌, ◌≤◌, ◌<◌, ◌≡◌, refl, Bool, true, false, List, [], ◌∷◌, ltb, leb,
  if◌then◌else◌, replicate, arith,
}
use accum_core.Miner.{
  Floats, LoyaltyData, decay_rounds, participate, miss, update, loyalty_grace_period,
}

module _ (f : Floats) where
  open f use {Float, zero_value, add_one, grace_decay, decay}

  -- Several calls of `update` in one epoch.
  update_all : LoyaltyData f → ℕ → List Bool → LoyaltyData f
  update_all l epoch [] = l
  update_all l epoch (p ∷ rest) = update_all (update f l epoch p) epoch rest

  update_known :
      (l : LoyaltyData f) (epoch : ℕ) (rest : List Bool)
      → epoch ≤ l.last_epoch
      → update_all l epoch rest ≡ l
  unfolding update_all update
  update_known l epoch [] known = refl
  update_known l epoch (p ∷ rest) known =
      let e : leb epoch l.last_epoch ≡ true = ground arith in rw e (update_known l epoch rest known)

  update_reaches :
      (l : LoyaltyData f) (epoch : ℕ) (p : Bool) → epoch ≤ (update f l epoch p).last_epoch
  unfolding update participate miss
  update_reaches l epoch p = ground arith

  -- However often `update` is called for an epoch, for each share and once more at its end, only the
  -- first call counts.
  update_all_once :
      (l : LoyaltyData f) (epoch : ℕ) (first : Bool) (rest : List Bool)
      → update_all l epoch (first ∷ rest) ≡ update f l epoch first
  unfolding update_all
  update_all_once l epoch first rest =
      update_known (update f l epoch first) epoch rest (update_reaches l epoch first)

  -- One call for each of the epochs from the first on.
  update_epochs : LoyaltyData f → ℕ → List Bool → LoyaltyData f
  update_epochs l epoch [] = l
  update_epochs l epoch (p ∷ rest) = update_epochs (update f l epoch p) (epoch + 1) rest

  abbrev pub add_times : ℕ → Float → Float
  add_times zero v = v
  add_times (suc k) v = add_times k (add_one v)

  -- What an update for the next epoch gives, where the miner had a share in it.
  abbrev next : LoyaltyData f → LoyaltyData f
  next l = record {
    value = add_one l.value;
    last_epoch = l.last_epoch + 1;
    missed_epochs = 0;
    consecutive_epochs = (l.consecutive_epochs + 1) % 2 ^ 32;
    grace_remaining =
        if ltb l.grace_remaining loyalty_grace_period
        then loyalty_grace_period
        else l.grace_remaining;
  }

  update-next : (l : LoyaltyData f) → update f l (l.last_epoch + 1) true ≡ next l
  unfolding update participate decay_rounds
  update-next l =
      let later : leb (l.last_epoch + 1) l.last_epoch ≡ false = ground arith in
      let one : l.last_epoch + 1 - l.last_epoch - 1 ≡ 0 = omega arith in rw (later, one) refl

  -- A miner with a share in each of the next epochs gains one for each of them, without any decay,
  -- and has so many more consecutive epochs, where their number stays below 2^32.
  update_epochs_streak :
      (l : LoyaltyData f) (k : ℕ)
      → l.consecutive_epochs + k < 2 ^ 32
      → let after = update_epochs l (l.last_epoch + 1) (replicate k true) in
        (after.value ≡ add_times k l.value)
        × (after.last_epoch ≡ l.last_epoch + k)
        × (after.consecutive_epochs ≡ l.consecutive_epochs + k)
  unfolding update_epochs
  update_epochs_streak l zero low = (refl, omega arith, omega arith)
  update_epochs_streak l (suc k) low =
      let (value, last, consecutive) = update_epochs_streak (next l) k (omega arith) in
      rw (update_epochs, update-next l) (value, omega arith, omega arith)
