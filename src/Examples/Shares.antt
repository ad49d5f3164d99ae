-- ===== src/Examples/Shares.antt =====
-- The theorems on shares, pools of shares and bonds at small inputs.
use accum_core.Base.{
  ℕ, ◌+◌, ◌-◌, ◌%◌, ◌^◌, ◌≤◌, ◌<◌, ◌≡◌, ◌⊎◌, ◌↔◌, refl, Bool, true, false, Option, none, some, List,
  [], ◌∷◌, ◌++◌, Result, ok, length, map, take, drop, replicate, arith,
}
use accum_core.Bond.{new_bond, from_output}
use accum_core.Examples.{zeros_crypto}
use accum_core.Header.{BlockHeader}
use accum_core.Share.{Share, validate}
use accum_core.Share.Countable.{IsCountable, validate-IsCountable}
use accum_core.Share.Pool.{SharePool, new_pool, add_share}
use accum_core.Share.Pool.Counted.{AllCounted, add_share-AllCounted}
use accum_core.Target.{genesis}
use accum_core.Tx.{TxOut, extract_miner_id}

abbrev header : BlockHeader
header = record {
  version = 1;
  prev_hash = replicate 32 0;
  merkle_root = replicate 32 0;
  timestamp = 10_000;
  difficulty = genesis;
  nonce = 0;
  epoch_index = 1;
}

abbrev share : Share
share = record {
  miner_id = replicate 20 0;
  header = header;
  nonce = 3;
  hash = replicate 32 0;
  timestamp = 10_000;
}

validate-IsCountable_example :
    (validate zeros_crypto share genesis (replicate 32 0) 1 10_000 ≡ ok tt)
    ↔ IsCountable zeros_crypto share genesis (replicate 32 0) 1 10_000
validate-IsCountable_example =
    validate-IsCountable zeros_crypto share genesis (replicate 32 0) 1 10_000 (omega arith)
      (omega arith)

abbrev pool : SharePool
pool = new_pool 1 9_000

pool-AllCounted : AllCounted pool
unfolding accum_core.Base.Dict.lookup
pool-AllCounted k = (refl, omega arith, tt)

add_share-AllCounted_example : AllCounted (add_share zeros_crypto 192 pool share true).0
add_share-AllCounted_example = add_share-AllCounted zeros_crypto 192 pool share true pool-AllCounted

abbrev bond_output : TxOut
bond_output = record { value = 10_000_000; script_pubkey = 0xba ∷ replicate 20 4 }

bonds : from_output bond_output 5 ≡ some (new_bond 10_000_000 5 (replicate 20 4))
unfolding from_output extract_miner_id
bonds = refl
