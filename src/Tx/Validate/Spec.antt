-- ===== src/Tx/Validate/Spec.antt =====
-- What makes a transaction valid, said without the order of the checks.
use accum_core.Base.{ℕ, ◌+◌, ◌^◌, ◌≤◌, ◌<◌, ◌≡◌, ◌⊎◌, true, false, some, List, [], ◌∷◌, ok, All}
use accum_core.Crypto.{Crypto}
use accum_core.Tx.{
  OutPoint, TxOut, TxIn, Transaction, is_coinbase_input, outpoint, max_supply_lyt, minimum_fee_lyt,
  dust_limit_lyt,
}
use accum_core.Tx.Input.{verify_input}
use accum_core.Tx.Validate.{contains, is_empty}
use accum_core.Utxo.{UtxoDb}

-- The sum of the outputs, as a number without bound.
abbrev pub total : List TxOut → ℕ
total [] = 0
total (o ∷ rest) = o.value + total rest

-- No outpoint that the inputs name, coinbase inputs aside, is in the list or named twice.
abbrev pub Fresh : List OutPoint → List TxIn → Type 0
Fresh seen [] = Unit
Fresh seen (input ∷ rest) =
    ((is_coinbase_input input ≡ true) × Fresh seen rest)
    ⊎ ((is_coinbase_input input ≡ false)
        × (contains (outpoint input) seen ≡ false)
        × Fresh (outpoint input ∷ seen) rest)

module _ (c : Crypto) (db : UtxoDb) where
  open db use {Store, get_utxo}

  -- The inputs from `i` on refer to these unspent outputs, and each passes `verify`.
  abbrev pub Spends : Store → Transaction → ℕ → List TxIn → List TxOut → Type 0
  Spends s tx i [] [] = Unit
  Spends s tx i [] (o ∷ os) = ⊥
  Spends s tx i (input ∷ rest) [] = ⊥
  Spends s tx i (input ∷ rest) (o ∷ os) =
      (get_utxo s (outpoint input) ≡ ok (some o))
      × (verify_input c input tx i o ≡ true)
      × Spends s tx (i + 1) rest os

  -- A transaction, not a coinbase, that spends these outputs and pays this fee.
  pub record IsValid (s : Store) (tx : Transaction) (spent : List TxOut) (fee : ℕ) : Type 0 where
    pub some_input : is_empty tx.inputs ≡ false
    pub some_output : is_empty tx.outputs ≡ false
    pub fresh : Fresh [] tx.inputs
    pub no_dust : All (λ (o : TxOut). dust_limit_lyt ≤ o.value) tx.outputs
    pub supply : total tx.outputs ≤ max_supply_lyt
    pub spends : Spends s tx 0 tx.inputs spent
    pub input_sum_u64 : total spent < 2 ^ 64
    pub balance : total spent ≡ total tx.outputs + fee
    pub fee_paid : minimum_fee_lyt ≤ fee
