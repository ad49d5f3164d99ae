-- ===== src/Examples/Miners.antt =====
-- The theorems on loyalty, on the shares that a node credits and on the end of an epoch, with
-- natural numbers in the place of f64.
use accum_core.Base.{
  ℕ, ◌+◌, ◌<◌, ◌^◌, ◌≡◌, refl, Bool, true, false, Option, none, some, List, [], ◌∷◌, Result, ok,
  err, replicate, arith,
}
use accum_core.Base.Dict.{lookup}
use accum_core.Bond.{new_bond}
use accum_core.Examples.{zeros_crypto}
use accum_core.Header.{BlockHeader}
use accum_core.Miner.{Floats, LoyaltyData, new_loyalty, update, new_miner}
use accum_core.Node.Shares.{ShareBook, add_share}
use accum_core.Node.Shares.Counted.{
  IsCredited, add_share-IsCredited, add_shares, add_shares_unpunished,
}
use accum_core.Node.Epoch.{PociResult, process_epoch_end}
use accum_core.Node.Epoch.Synced.{InOneEpoch, AllReset, process_epoch_end_synced}
use accum_core.Registry.{MinerRegistry, new_registry, add_valid_share, lock_bond, next_epoch}
use accum_core.Registry.Backed.{IsBacked}
use accum_core.Registry.Reached.{Reached, Reached-IsBacked}
use accum_core.Share.{Share, validate}
use accum_core.Share.Pool.{SharePool, new_pool, get_shares}
use accum_core.Target.{genesis}

abbrev numbers : Floats
numbers = record {
  Float = ℕ;
  zero_value = 0;
  add_one = λ x. x + 1;
  grace_decay = λ x. x;
  decay = λ x. x;
}

abbrev miner_id : List ℕ
miner_id = replicate 20 0

abbrev header : BlockHeader
header = record {
  version = 1;
  prev_hash = replicate 32 0;
  merkle_root = replicate 32 0;
  timestamp = 10_000;
  difficulty = genesis;
  nonce = 0;
  epoch_index = 1;
}

abbrev share : Share
share = record {
  miner_id = miner_id;
  header = header;
  nonce = 3;
  hash = replicate 32 0;
  timestamp = 10_000;
}

abbrev book : ShareBook numbers
book = record {
  epoch = 1;
  height = 5;
  miners = (miner_id, new_miner miner_id 10_000_000 1 9_000) ∷ [];
  bonds = (miner_id, new_bond 10_000_000 2 miner_id) ∷ [];
  loyalty = [];
  share_pool = new_pool 1 9_000;
  shares_found = 0;
}

abbrev within : SharePool → List ℕ → Bool × Bool
within pool k = (false, false)

credits : (add_share numbers zeros_crypto 192 genesis (replicate 32 0) within book share).1 ≡ true
unfolding add_share lookup accum_core.Base.eq_bytes accum_core.Miner.is_banned
    accum_core.Bond.is_active new_bond accum_core.Share.Pool.add_share accum_core.Base.Dict.mem
    validate accum_core.Target.is_met_by accum_core.Pow.pow_hash
credits = refl

add_share-IsCredited_example :
    IsCredited zeros_crypto 192 numbers within genesis (replicate 32 0) book share
add_share-IsCredited_example =
    add_share-IsCredited zeros_crypto 192 numbers within genesis (replicate 32 0) book share credits

abbrev stray_share : Share
stray_share = record share { hash = replicate 32 1 }

refused :
    validate zeros_crypto stray_share genesis (replicate 32 0) 1 10_000
    ≡ err accum_core.Share.hash_mismatch
unfolding validate accum_core.Base.eq_bytes accum_core.Target.is_met_by accum_core.Pow.pow_hash
refused = refl

add_shares_unpunished_example :
    (add_shares zeros_crypto 192 numbers within genesis
      (replicate 32 0)
      book
      (stray_share ∷ (stray_share ∷ []))).miners
    ≡ book.miners
add_shares_unpunished_example =
    add_shares_unpunished zeros_crypto 192 numbers within genesis (replicate 32 0) book
      (stray_share ∷ (stray_share ∷ []))
      (
        ((accum_core.Share.hash_mismatch, refused), refl),
        (((accum_core.Share.hash_mismatch, refused), refl), tt),
      )

abbrev results : List PociResult
results = record { miner_id = miner_id; shares = 4; reward = 700 } ∷ []

process_epoch_end_synced_example :
    let after = process_epoch_end numbers 11_000 results book in
    InOneEpoch numbers after
    × (after.epoch ≡ book.epoch + 1)
    × AllReset after.miners
    × ((k : List ℕ) → get_shares after.share_pool k ≡ 0)
process_epoch_end_synced_example =
    process_epoch_end_synced numbers 11_000 results book refl (omega arith)

abbrev registry : MinerRegistry numbers
registry =
    next_epoch numbers
      (lock_bond numbers 100 (add_valid_share numbers 90 (new_registry numbers) miner_id) miner_id
        10_000_000).0

registry-Reached : Reached numbers registry
registry-Reached =
    Reached.epoch_end
      (Reached.bond 100 miner_id 10_000_000 (Reached.valid_share 90 miner_id Reached.begin))

Reached-IsBacked_example : IsBacked numbers registry
Reached-IsBacked_example = Reached-IsBacked numbers registry-Reached
