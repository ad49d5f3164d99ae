-- ===== src/Tx/Validate/Accepted.antt =====
-- `validate` accepts exactly the transactions that the specification describes.
use accum_core.Base.{
  ℕ, ◌+◌, ◌%◌, ◌^◌, ◌≤◌, ◌≡◌, ◌↔◌, true, false, ◌||◌, List, [], ok, >>=-eq-ok, reject_if, ltb,
  arith, All, reject_if-eq-ok,
}
use accum_core.Crypto.{Crypto}
use accum_core.Tx.{TxOut, Transaction, is_coinbase, max_supply_lyt, dust_limit_lyt}
use accum_core.Tx.Validate.{
  check_seen, check_dust, wrapping_sum, is_empty, validate_basic, sum_outputs, sum_inputs,
  validate_spend, validate,
}
use accum_core.Utxo.{UtxoDb}
use accum_core.Tx.Validate.Spec.{total, Fresh, IsValid}
use accum_core.Tx.Validate.Loops.{
  check_seen-Fresh, Fresh-check_seen, check_dust_iff, wrapping_sum_mod, sum_outputs_sound,
  sum_outputs_complete, settle_iff, sum_inputs_sound, sum_inputs_complete,
}

-- What `validate_basic` has checked.
pub record IsBasic (tx : Transaction) : Type 0 where
  pub some_input : is_empty tx.inputs ≡ false
  pub some_output : is_empty tx.outputs ≡ false
  pub fresh : Fresh [] tx.inputs
  pub no_dust : All (λ (o : TxOut). dust_limit_lyt ≤ o.value) tx.outputs
  pub supply : total tx.outputs % 2 ^ 64 ≤ max_supply_lyt

validate_basic_sound : (tx : Transaction) → validate_basic tx ≡ ok tt → IsBasic tx
unfolding validate_basic
validate_basic_sound tx h =
    let (_, e1, h1) = >>=-eq-ok (reject_if (is_empty tx.inputs || is_empty tx.outputs) _) _ h in
    let (_, e2, h2) = >>=-eq-ok (check_seen [] tx.inputs) _ h1 in
    let (_, e3, h3) = >>=-eq-ok (check_dust tx.outputs) _ h2 in
    let some_of_each = reject_if-eq-ok (is_empty tx.inputs || is_empty tx.outputs) _ e1 in
    let bounded = reject_if-eq-ok (ltb max_supply_lyt (wrapping_sum tx.outputs)) _ h3 in
    record {
      some_input = ground arith;
      some_output = ground arith;
      fresh = check_seen-Fresh [] tx.inputs e2;
      no_dust = (check_dust_iff tx.outputs).0 e3;
      supply = ground (arith, wrapping_sum_mod tx.outputs);
    }

validate_basic_complete : (tx : Transaction) → IsBasic tx → validate_basic tx ≡ ok tt
unfolding validate_basic
validate_basic_complete tx v =
    let bounded : ltb max_supply_lyt (wrapping_sum tx.outputs) ≡ false =
      ground (arith, v.supply, wrapping_sum_mod tx.outputs) in
    rw (
      v.some_input,
      v.some_output,
      Fresh-check_seen [] tx.inputs v.fresh,
      (check_dust_iff tx.outputs).1 v.no_dust,
      bounded,
    )

module _ (c : Crypto) (db : UtxoDb) where
  open db use {Store}

  spend_sound :
      (s : Store) (tx : Transaction) (fee : ℕ)
      → validate_basic tx ≡ ok tt
      → validate_spend c db s tx ≡ ok fee
      → (spent : List TxOut) × IsValid c db s tx spent fee
  unfolding validate_spend
  spend_sound s tx fee basic h =
      let (input_sum, e1, h1) = >>=-eq-ok (sum_inputs c db s tx 0 0 tx.inputs) _ h in
      let (output_sum, e2, h2) = >>=-eq-ok (sum_outputs 0 tx.outputs) _ h1 in
      let (os, sp, in_total, in_low) = sum_inputs_sound c db s tx 0 0 tx.inputs (omega arith) e1 in
      let (out_total, out_low) = sum_outputs_sound 0 tx.outputs (omega arith) e2 in
      let (balance, paid) = (settle_iff input_sum output_sum fee).0 h2 in
      let b = validate_basic_sound tx basic in
      (
        os,
        record {
          some_input = b.some_input;
          some_output = b.some_output;
          fresh = b.fresh;
          no_dust = b.no_dust;
          supply = let bound = b.supply in omega arith;
          spends = sp;
          input_sum_u64 = omega arith;
          balance = omega arith;
          fee_paid = paid;
        },
      )

  spend_complete :
      (s : Store) (tx : Transaction) (spent : List TxOut) (fee : ℕ)
      → IsValid c db s tx spent fee
      → (validate_basic tx ≡ ok tt) × (validate_spend c db s tx ≡ ok fee)
  unfolding validate_spend
  spend_complete s tx spent fee v =
      let supply = v.supply in
      let balance = v.balance in
      let low = v.input_sum_u64 in
      let paid = v.fee_paid in
      let zero_in : 0 + total spent ≡ total spent = omega arith in
      let zero_out : 0 + total tx.outputs ≡ total tx.outputs = omega arith in
      let basic : IsBasic tx = record {
        some_input = v.some_input;
        some_output = v.some_output;
        fresh = v.fresh;
        no_dust = v.no_dust;
        supply = omega arith;
      } in
      (
        validate_basic_complete tx basic,
        rw
            (
              sum_inputs_complete c db s tx 0 0 tx.inputs spent v.spends (omega arith),
              sum_outputs_complete 0 tx.outputs (omega arith),
              zero_in,
              zero_out,
            )
            ((settle_iff (total spent) (total tx.outputs) fee).1 (balance, paid)),
      )

  -- For every transaction that is not a coinbase, `validate` returns a fee exactly if the
  -- transaction is valid: it has inputs and outputs, no input twice, no dust, at most the maximal
  -- supply in its outputs, every input names an unspent output and passes `verify` for it, the
  -- inputs' sum fits into 64 bits, and is the outputs' sum plus that fee, which is at least the
  -- minimum.
  pub validate-IsValid :
      (s : Store) (tx : Transaction) (fee : ℕ)
      → is_coinbase tx ≡ false
      → (validate c db s tx ≡ ok fee) ↔ ((spent : List TxOut) × IsValid c db s tx spent fee)
  unfolding validate
  validate-IsValid s tx fee plain = (
    λ h.
        let (_, e, h1) = >>=-eq-ok (validate_basic tx) _ h in
        spend_sound s tx fee e (rw plain at h1),
    λ v. let (e1, e2) = spend_complete s tx v.0 fee v.1 in rw (e1, plain) e2,
  )

  -- `validate` accepts every transaction that passes `validate_basic` and has the coinbase input
  -- as its one input, with fee 0 and whatever the store holds: its outputs are backed by nothing.
  validate-coinbase :
      (s : Store) (tx : Transaction)
      → is_coinbase tx ≡ true
      → IsBasic tx
      → validate c db s tx ≡ ok 0
  unfolding validate
  validate-coinbase s tx coinbase v = rw (validate_basic_complete tx v, coinbase)
