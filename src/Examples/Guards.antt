-- ===== src/Examples/Guards.antt =====
-- The theorems on the rate limit and on slashing at small inputs.
use accum_core.Base.{
  ℕ, ◌≡◌, ◌≢◌, refl, Bool, true, false, Option, none, some, List, [], ◌∷◌, Result, ok, replicate,
}
use accum_core.Ddos.{
  DdosProtection, new_protection, check_rate_limit, check_connection_limit, is_banned,
}
use accum_core.Ddos.Banned.{check_rate_limit_refused}
use accum_core.Examples.{zeros_crypto}
use accum_core.Slashing.{EquivocationProof, SlashDb, verify}
use accum_core.Slashing.Never.{verify_never_true}
use accum_core.Sync.{Block}
use accum_core.Target.{genesis}

abbrev crowd : DdosProtection
crowd = record (new_protection 10) {
  rate_limits =
      (1 ∷ [], record { requests = 100; last_hour = 10; last_minute = 10; minute_requests = 100 })
      ∷ [];
}

refused : (check_rate_limit 20 crowd (1 ∷ [])).1 ≡ false
unfolding check_rate_limit accum_core.Base.Dict.mem accum_core.Base.Dict.lookup
    accum_core.Base.eq_bytes
refused = refl

check_rate_limit_refused_example :
    (is_banned (check_rate_limit 20 crowd (1 ∷ [])).0 (1 ∷ []) ≡ true)
    × ((check_rate_limit 9_000 (check_rate_limit 20 crowd (1 ∷ [])).0 (1 ∷ [])).1 ≡ false)
    × ((check_connection_limit 9_000 (check_rate_limit 20 crowd (1 ∷ [])).0 (1 ∷ [])).1 ≡ false)
check_rate_limit_refused_example = check_rate_limit_refused 20 9_000 crowd (1 ∷ []) refused

abbrev block : Block
block = record {
  header = record {
    version = 1;
    prev_hash = replicate 32 0;
    merkle_root = replicate 32 0;
    timestamp = 100;
    difficulty = genesis;
    nonce = 0;
    epoch_index = 1;
  };
  transactions = [];
  signature = some (1 ∷ []);
  pubkey = some (replicate 33 2);
}

-- A store that holds one block at every height, and no bond; writes change nothing.
abbrev block_db : SlashDb
block_db = record {
  Store = List Block;
  get_block = λ s _. ok (some block);
  get_bond = λ _ _. ok none;
  delete_bond = λ s _. ok s;
  save_slash_record = λ s _ _. ok s;
  encode_proof = λ _. [];
}

abbrev proof : EquivocationProof
proof = record {
  miner_id = replicate 20 0;
  block_height = 1;
  block_hash_1 = replicate 32 1;
  block_hash_2 = replicate 32 2;
  signature_1 = 1 ∷ [];
  signature_2 = 1 ∷ [];
  timestamp = 100;
  proven = false;
}

verify_never_true_example : verify zeros_crypto block_db 200 [] proof ≢ ok true
verify_never_true_example = verify_never_true zeros_crypto block_db 200 [] proof
