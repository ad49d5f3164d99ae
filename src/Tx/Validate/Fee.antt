-- ===== src/Tx/Validate/Fee.antt =====
-- `Transaction::fee` of accum-node/src/main.rs, whose sums wrap around, against `validate`.
use accum_core.Base.{
  ℕ, ◌+◌, ◌-◌, ◌%◌, ◌^◌, ◌<◌, ◌≡◌, false, ap, List, [], ◌∷◌, Result, ok, ◌>>=◌, ◌>>◌, reject_if,
  ltb, if◌then◌else◌, arith,
}
use accum_core.Crypto.{Crypto}
use accum_core.Tx.{TxOut, TxIn, Transaction, is_coinbase, outpoint}
use accum_core.Tx.Validate.{TxError, outputs_exceed_inputs, found, validate}
use accum_core.Tx.Validate.Spec.{total, Spends}
use accum_core.Tx.Validate.Accepted.{validate-IsValid}
use accum_core.Utxo.{UtxoDb}

-- The loop over the outputs: `output_sum += output.value`.
add_outputs : ℕ → List TxOut → ℕ
add_outputs acc [] = acc
add_outputs acc (o ∷ rest) = add_outputs ((acc + o.value) % 2 ^ 64) rest

module _ (db : UtxoDb) where
  open db use {Store, get_utxo}

  -- The loop over the inputs: `input_sum += output.value`.
  add_inputs : Store → ℕ → List TxIn → Result TxError ℕ
  add_inputs s acc [] = ok acc
  add_inputs s acc (input ∷ rest) = do
    utxo ← found (get_utxo s (outpoint input))
    add_inputs s ((acc + utxo.value) % 2 ^ 64) rest

  -- `Transaction::fee`
  pub fee : Store → Transaction → Result TxError ℕ
  unfolding add_inputs add_outputs
  fee s tx = if is_coinbase tx then ok 0 else (do
    input_sum ← add_inputs s 0 tx.inputs
    reject_if (ltb input_sum (add_outputs 0 tx.outputs)) outputs_exceed_inputs
    ok (input_sum - add_outputs 0 tx.outputs))

add_outputs-total :
    (acc : ℕ) (outputs : List TxOut)
    → acc + total outputs < 2 ^ 64
    → add_outputs acc outputs ≡ acc + total outputs
unfolding add_outputs
add_outputs-total acc [] b = omega arith
add_outputs-total acc (o ∷ rest) b =
    let low : (acc + o.value) % 2 ^ 64 ≡ acc + o.value = omega arith in
    rw low (let ih = add_outputs-total (acc + o.value) rest (omega arith) in omega arith)

module _ (c : Crypto) (db : UtxoDb) where
  open db use {Store, get_utxo}

  add_inputs-total :
      (s : Store) (tx : Transaction) (i acc : ℕ) (inputs : List TxIn) (os : List TxOut)
      → Spends c db s tx i inputs os
      → acc + total os < 2 ^ 64
      → add_inputs db s acc inputs ≡ ok (acc + total os)
  unfolding add_inputs
  add_inputs-total s tx i acc [] [] sp b = ap ok (omega arith)
  add_inputs-total s tx i acc [] (o ∷ os) sp b = elim sp [ ]
  add_inputs-total s tx i acc (input ∷ rest) [] sp b = elim sp [ ]
  add_inputs-total s tx i acc (input ∷ rest) (o ∷ os) (there, verified, sp) b =
      let low : (acc + o.value) % 2 ^ 64 ≡ acc + o.value = omega arith in
      let ih = add_inputs-total s tx (i + 1) (acc + o.value) rest os sp (omega arith) in
      let assoc : acc + (o.value + total os) ≡ acc + o.value + total os = omega arith in
      rw (there, low, assoc) ih

  -- For every transaction that is not a coinbase and that `validate` accepts, `fee` returns the
  -- fee that `validate` returned: its unchecked sums do not wrap around there.
  fee-validate :
      (s : Store) (tx : Transaction) (n : ℕ)
      → is_coinbase tx ≡ false
      → validate c db s tx ≡ ok n
      → fee db s tx ≡ ok n
  unfolding fee
  fee-validate s tx n plain h =
      let (spent, v) = (validate-IsValid c db s tx n plain).0 h in
      let balance = v.balance in
      let low = v.input_sum_u64 in
      let ins = add_inputs-total s tx 0 0 tx.inputs spent v.spends (omega arith) in
      let outs = add_outputs-total 0 tx.outputs (omega arith) in
      let enough : ltb (0 + total spent) (0 + total tx.outputs) ≡ false = ground arith in
      rw (plain, ins, outs, enough) (ap ok (omega arith))
