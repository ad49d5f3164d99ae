-- ===== src/Tx/Validate/Loops.antt =====
-- The loops of `validate_basic` and `validate` against the parts of the specification.
use accum_core.Base.{
  ℕ, ◌+◌, ◌%◌, ◌^◌, ◌≤◌, ◌<◌, ◌≡◌, ◌↔◌, inl, inr, refl, ap, true, Option, none, some, List, [], ◌∷◌,
  Result, ok, err, ok-injective, >>=-eq-ok, ltb, arith, ltb→lt, lt→ltb, All, Bool-cases,
}
use accum_core.Crypto.{Crypto}
use accum_core.Tx.{
  OutPoint, TxOut, TxIn, Transaction, is_coinbase_input, outpoint, minimum_fee_lyt, dust_limit_lyt,
}
use accum_core.Tx.Input.{verify_input}
use accum_core.Tx.Validate.{
  contains, check_seen, check_dust, wrapping_sum, found, sum_outputs, settle, sum_inputs,
}
use accum_core.Utxo.{UtxoDb, DbError}
use accum_core.Tx.Validate.Spec.{total, Fresh, Spends}

pub check_seen-Fresh :
    (seen : List OutPoint) (inputs : List TxIn) → check_seen seen inputs ≡ ok tt → Fresh seen inputs
unfolding check_seen
check_seen-Fresh seen [] h = tt
check_seen-Fresh seen (input ∷ rest) h = elim (Bool-cases (is_coinbase_input input)) [
  | inl coinbase ↦ inl (coinbase, check_seen-Fresh seen rest (rw coinbase at h))
  | inr plain ↦
      let h' = rw plain at h in
      elim (Bool-cases (contains (outpoint input) seen)) [
        | inl twice ↦ absurd (cc (rw twice at h'))
        | inr new ↦ inr (plain, new, check_seen-Fresh (outpoint input ∷ seen) rest (rw new at h'))
      ]
]

pub Fresh-check_seen :
    (seen : List OutPoint) (inputs : List TxIn) → Fresh seen inputs → check_seen seen inputs ≡ ok tt
unfolding check_seen
Fresh-check_seen seen [] h = refl
Fresh-check_seen seen (input ∷ rest) (inl (coinbase, h)) =
    rw coinbase (Fresh-check_seen seen rest h)
Fresh-check_seen seen (input ∷ rest) (inr (plain, new, h)) =
    rw (plain, new) (Fresh-check_seen (outpoint input ∷ seen) rest h)

pub check_dust_iff :
    (outputs : List TxOut)
    → (check_dust outputs ≡ ok tt) ↔ All (λ (o : TxOut). dust_limit_lyt ≤ o.value) outputs
unfolding check_dust
check_dust_iff [] = (λ h. tt, λ h. refl)
check_dust_iff (o ∷ rest) =
    let ih = check_dust_iff rest in
    (λ h. (ground arith, ih.0 (ground arith)), λ h. ground (arith, ih.1 h.1))

pub wrapping_sum_mod : (outputs : List TxOut) → wrapping_sum outputs ≡ total outputs % 2 ^ 64
unfolding wrapping_sum
wrapping_sum_mod [] = refl
wrapping_sum_mod (o ∷ rest) = omega (arith, wrapping_sum_mod rest)

pub sum_outputs_sound :
    (acc : ℕ) (outputs : List TxOut) {n : ℕ}
    → acc < 2 ^ 64
    → sum_outputs acc outputs ≡ ok n
    → (n ≡ acc + total outputs) × (n < 2 ^ 64)
unfolding sum_outputs
sum_outputs_sound acc [] low h = let e : acc ≡ _ = ok-injective h in (omega arith, omega arith)
sum_outputs_sound acc (o ∷ rest) low h = elim (Bool-cases (ltb (acc + o.value) (2 ^ 64))) [
  | inl fits ↦
      let (e, b) = sum_outputs_sound (acc + o.value) rest (ltb→lt _ _ fits) (rw fits at h) in
      (omega arith, b)
  | inr over ↦ absurd (cc (rw over at h))
]

pub sum_outputs_complete :
    (acc : ℕ) (outputs : List TxOut)
    → acc + total outputs < 2 ^ 64
    → sum_outputs acc outputs ≡ ok (acc + total outputs)
unfolding sum_outputs
sum_outputs_complete acc [] b = ap ok (omega arith)
sum_outputs_complete acc (o ∷ rest) b =
    let fits : ltb (acc + o.value) (2 ^ 64) ≡ true = lt→ltb _ _ (omega arith) in
    let regroup : acc + o.value + total rest ≡ acc + (o.value + total rest) = omega arith in
    rw (fits, sum_outputs_complete (acc + o.value) rest (omega arith), regroup)

pub settle_iff :
    (input_sum output_sum fee : ℕ)
    → (settle input_sum output_sum ≡ ok fee)
      ↔ ((input_sum ≡ output_sum + fee) × (minimum_fee_lyt ≤ fee))
unfolding settle
settle_iff a b fee = (λ h. ground arith, λ h. ground arith)

module _ (c : Crypto) (db : UtxoDb) where
  open db use {Store, get_utxo}

  found_sound : (r : Result DbError (Option TxOut)) {o : TxOut} → found r ≡ ok o → r ≡ ok (some o)
  found_sound (err e) h = cc
  found_sound (ok none) h = cc
  found_sound (ok (some o)) h = cc

  pub sum_inputs_sound :
      (s : Store) (tx : Transaction) (i acc : ℕ) (inputs : List TxIn) {n : ℕ}
      → acc < 2 ^ 64
      → sum_inputs c db s tx i acc inputs ≡ ok n
      → (os : List TxOut) × Spends c db s tx i inputs os × (n ≡ acc + total os) × (n < 2 ^ 64)
  unfolding sum_inputs
  sum_inputs_sound s tx i acc [] low h =
      let e : acc ≡ _ = ok-injective h in ([], tt, omega arith, omega arith)
  sum_inputs_sound s tx i acc (input ∷ rest) low h =
      let (o, e, h1) = >>=-eq-ok (found (get_utxo s (outpoint input))) _ h in
      elim (Bool-cases (ltb (acc + o.value) (2 ^ 64))) [
        | inr over ↦ absurd (cc (rw over at h1))
        | inl fits ↦
            let h2 = rw fits at h1 in
            elim (Bool-cases (verify_input c input tx i o)) [
              | inr bad ↦ absurd (cc (rw bad at h2))
              | inl good ↦
                  let (os, sp, sum, b) =
                    sum_inputs_sound s tx (i + 1) (acc + o.value) rest (ltb→lt _ _ fits)
                      (rw good at h2) in
                  (o ∷ os, (found_sound (get_utxo s (outpoint input)) e, good, sp), omega arith, b)
            ]
      ]

  pub sum_inputs_complete :
      (s : Store) (tx : Transaction) (i acc : ℕ) (inputs : List TxIn) (os : List TxOut)
      → Spends c db s tx i inputs os
      → acc + total os < 2 ^ 64
      → sum_inputs c db s tx i acc inputs ≡ ok (acc + total os)
  unfolding sum_inputs
  sum_inputs_complete s tx i acc [] [] sp b = ap ok (omega arith)
  sum_inputs_complete s tx i acc [] (o ∷ os) sp b = absurd sp
  sum_inputs_complete s tx i acc (input ∷ rest) [] sp b = absurd sp
  sum_inputs_complete s tx i acc (input ∷ rest) (o ∷ os) sp b =
      let fits : ltb (acc + o.value) (2 ^ 64) ≡ true = lt→ltb _ _ (omega arith) in
      let regroup : acc + o.value + total os ≡ acc + (o.value + total os) = omega arith in
      rw (
        sp.0,
        fits,
        sp.1,
        sum_inputs_complete s tx (i + 1) (acc + o.value) rest os sp.2 (omega arith),
        regroup,
      )
