-- ===== src/Tx/Validate.antt =====
-- `Transaction::validate_basic`, `validate` and `fee` of accum-node/src/main.rs.
pub mod Spec
mod Loops
pub mod Accepted
pub mod Fee
use accum_core.Base.{
  ℕ, ◌+◌, ◌-◌, ◌%◌, ◌^◌, Bool, true, false, ◌||◌, Option, none, some, List, [], ◌∷◌, Result, ok,
  err, ◌>>=◌, ◌>>◌, reject_if, ok_or, ltb, if◌then◌else◌, length,
}
use accum_core.Crypto.{Crypto}
use accum_core.Tx.{
  OutPoint, eq_outpoint, TxOut, TxIn, Transaction, is_coinbase, is_coinbase_input, is_dust,
  outpoint, max_supply_lyt, minimum_fee_lyt,
}
use accum_core.Tx.Input.{verify_input}
use accum_core.Utxo.{UtxoDb, DbError}

-- The messages of `validate_basic`, `validate` and `fee`.
pub data TxError : Type 0 where
  empty_transaction : TxError
  double_spend : TxError
  dust_output : TxError
  exceeds_max_supply : TxError
  db_failed : TxError
  utxo_not_found : TxError
  overflow : TxError
  invalid_signature : TxError
  outputs_exceed_inputs : TxError
  fee_below_minimum : TxError

-- `HashSet::contains`
unfoldable pub contains : OutPoint → List OutPoint → Bool
contains p [] = false
contains p (q ∷ rest) = eq_outpoint p q || contains p rest

-- The loop over the inputs in `validate_basic`, with the set `seen`.
pub check_seen : List OutPoint → List TxIn → Result TxError (Unit {0})
unfolding contains
check_seen seen [] = ok tt
check_seen seen (input ∷ rest) =
    let plain = check_seen (outpoint input ∷ seen) rest in
    let skip = check_seen seen rest in
    if is_coinbase_input input
    then skip
    else if contains (outpoint input) seen
    then err double_spend
    else plain

pub check_dust : List TxOut → Result TxError (Unit {0})
check_dust [] = ok tt
check_dust (o ∷ rest) = if is_dust o then err dust_output else check_dust rest

-- `iter().map(|o| o.value).sum()`, which wraps around in a release build.
pub wrapping_sum : List TxOut → ℕ
wrapping_sum [] = 0
wrapping_sum (o ∷ rest) = (o.value + wrapping_sum rest) % 2 ^ 64

abbrev pub is_empty {ℓ} : {A : Type ℓ} → List A → Bool
is_empty [] = true
is_empty (x ∷ xs) = false

-- `Transaction::validate_basic`
unfoldable pub validate_basic : Transaction → Result TxError (Unit {0})
unfolding check_seen check_dust wrapping_sum
validate_basic tx = do
  reject_if (is_empty tx.inputs || is_empty tx.outputs) empty_transaction
  check_seen [] tx.inputs
  check_dust tx.outputs
  reject_if (ltb max_supply_lyt (wrapping_sum tx.outputs)) exceeds_max_supply

-- `checked_add` of `u64`
abbrev pub checked_add : ℕ → ℕ → Option ℕ
checked_add a b = if ltb (a + b) (2 ^ 64) then some (a + b) else none

-- `.map_err(|_| "DB error")?.ok_or("UTXO not found")?`
abbrev pub found : Result DbError (Option TxOut) → Result TxError TxOut
found (err _) = err db_failed
found (ok none) = err utxo_not_found
found (ok (some o)) = ok o

-- `try_fold(0u64, |acc, out| acc.checked_add(out.value)).ok_or("Overflow")?`
pub sum_outputs : ℕ → List TxOut → Result TxError ℕ
sum_outputs acc [] = ok acc
sum_outputs acc (o ∷ rest) = do
  acc' ← ok_or (checked_add acc o.value) overflow
  sum_outputs acc' rest

-- `if output_sum > input_sum { … }`, the fee, and `if fee < MINIMUM_FEE_LYT { … }`
pub settle : ℕ → ℕ → Result TxError ℕ
settle input_sum output_sum = do
  reject_if (ltb input_sum output_sum) outputs_exceed_inputs
  reject_if (ltb (input_sum - output_sum) minimum_fee_lyt) fee_below_minimum
  ok (input_sum - output_sum)

module _ (c : Crypto) (db : UtxoDb) where
  open db use {Store, get_utxo}

  -- The loop over the inputs in `validate`, from input `i` on.
  pub sum_inputs : Store → Transaction → ℕ → ℕ → List TxIn → Result TxError ℕ
  sum_inputs s tx i acc [] = ok acc
  sum_inputs s tx i acc (input ∷ rest) = do
    utxo ← found (get_utxo s (outpoint input))
    acc' ← ok_or (checked_add acc utxo.value) overflow
    reject_if (if verify_input c input tx i utxo then false else true) invalid_signature
    sum_inputs s tx (i + 1) acc' rest

  -- The part of `validate` behind the coinbase case.
  pub validate_spend : Store → Transaction → Result TxError ℕ
  unfolding sum_inputs sum_outputs settle
  validate_spend s tx = do
    input_sum ← sum_inputs s tx 0 0 tx.inputs
    output_sum ← sum_outputs 0 tx.outputs
    settle input_sum output_sum

  -- `Transaction::validate`: the fee of a valid transaction.
  unfoldable pub validate : Store → Transaction → Result TxError ℕ
  unfolding validate_basic validate_spend
  validate s tx = do validate_basic tx; (if is_coinbase tx then ok 0 else validate_spend s tx)
