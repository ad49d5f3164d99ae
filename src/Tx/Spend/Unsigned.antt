-- ===== src/Tx/Spend/Unsigned.antt =====
-- What the transaction of a payment spends and pays before it is signed.
use accum_core.Base.{
  ℕ, ◌+◌, ◌%◌, ◌^◌, ◌≤◌, ◌<◌, ◌≡◌, refl, ap, sym, inl, inr, Option, some, none, List, [], ◌∷◌, ◌++◌,
  not, ok, >>=-eq-ok, ok-injective, reject_if, reject_if-eq-ok, not-false, ==_iff, take, drop, ltb,
  leb, ◌==◌, length, map, Bool-cases, arith, ok_or,
}
use accum_core.Pow.{wrapping_sub}
use accum_core.Tx.{TxOut, Transaction, dust_limit_lyt, outpoint}
use accum_core.Tx.Validate.Spec.{total}
use accum_core.Tx.Spend.{
  Utxo, select, unsigned_input, pay_to, change_outputs, unsigned_tx, bad_address,
  bad_address_length, insufficient_funds, SpendError,
}

ok_or-eq-ok {ℓ} :
    {A : Type ℓ} (o : Option A) (e : SpendError) {a : A} → ok_or o e ≡ ok a → o ≡ some a
ok_or-eq-ok none e h = cc
ok_or-eq-ok (some b) e h = ap some (ok-injective h)

abbrev pub values : List Utxo → ℕ
values us = total (map (λ (u : Utxo). u.1) us)

-- The selected outputs are the first ones, their sum is right, and each was needed.
record IsSelected (need start : ℕ) (utxos selected : List Utxo) (sum : ℕ) : Type 0 where
  rest : List Utxo
  prefix : utxos ≡ selected ++ rest
  sum_is : sum ≡ start + values selected
  bounded : values selected ≤ values utxos

select-IsSelected :
    (need start : ℕ) (utxos : List Utxo)
    → start + values utxos < 2 ^ 64
    → IsSelected need start utxos (select need start utxos).0 (select need start utxos).1
unfolding select
select-IsSelected need start [] low = record {
  rest = [];
  prefix = refl;
  sum_is = omega arith;
  bounded = omega arith;
}
select-IsSelected need start (u ∷ rest) low =
    let fits : (start + u.1.value) % 2 ^ 64 ≡ start + u.1.value = omega arith in
    elim (Bool-cases (leb need (start + u.1.value))) [
      | inl enough ↦
          rw (fits, enough)
            (record { rest = rest; prefix = refl; sum_is = omega arith; bounded = omega arith })
      | inr more ↦
          let ih = select-IsSelected need (start + u.1.value) rest (omega arith) in
          let sum = ih.sum_is in
          let less = ih.bounded in
          rw (fits, more)
            (record {
              rest = ih.rest;
              prefix = ap (λ l. u ∷ l) ih.prefix;
              sum_is = omega arith;
              bounded = omega arith;
            })
    ]

module _ (decode_base58 : List ℕ → Option (List ℕ)) where
  -- The output is a P2PKH output of the hash in the 25 bytes that the address decodes to.
  pub record PaysTo (address : List ℕ) (value : ℕ) (o : TxOut) : Type 0 where
    decoded : List ℕ
    decodes : decode_base58 address ≡ some decoded
    size : length decoded ≡ 25
    paid : o.value ≡ value
    script : o.script_pubkey ≡ 0x76 ∷ 0xa9 ∷ 0x14 ∷ (take 20 (drop 1 decoded) ++ (0x88 ∷ 0xac ∷ []))

  -- The change: no output, or one to the own address with more than the dust limit.
  abbrev pub IsChange : List ℕ → List TxOut → Type 0
  IsChange own [] = Unit
  IsChange own (o ∷ []) = PaysTo own o.value o × (dust_limit_lyt < o.value)
  IsChange own (o ∷ p ∷ rest) = ⊥

  -- What a payment spends and whom it pays.
  pub record Pays (own to : List ℕ) (utxos : List Utxo) (amount fee : ℕ) (tx : Transaction)
      : Type 0 where
    pub selected : List Utxo
    pub rest : List Utxo
    pub prefix : utxos ≡ selected ++ rest
    pub spends : map outpoint tx.inputs ≡ map (λ (u : Utxo). u.0) selected
    pub recipient : TxOut
    pub change : List TxOut
    pub outputs_are : tx.outputs ≡ recipient ∷ change
    pub pays_recipient : PaysTo to amount recipient
    pub is_change : IsChange own change
    pub at_least_fee : total tx.outputs + fee ≤ values selected
    pub at_most_dust : values selected ≤ total tx.outputs + fee + dust_limit_lyt

  pay_to-PaysTo :
      (address : List ℕ) (value : ℕ) {o : TxOut}
      → pay_to decode_base58 address value ≡ ok o
      → PaysTo address value o
  unfolding pay_to
  pay_to-PaysTo address value h =
      let (decoded, e1, h1) = >>=-eq-ok (ok_or (decode_base58 address) bad_address) _ h in
      let (_, e2, h2) =
        >>=-eq-ok (reject_if (not (length decoded == 25)) bad_address_length) _ h1 in
      record {
        decoded = decoded;
        decodes = ok_or-eq-ok (decode_base58 address) bad_address e1;
        size = (==_iff (length decoded) 25).0 (not-false _ (reject_if-eq-ok _ _ e2));
        paid = sym (ap (λ (o : TxOut). o.value) (ok-injective h2));
        script = sym (ap (λ (o : TxOut). o.script_pubkey) (ok-injective h2));
      }

  change_outputs-IsChange :
      (own : List ℕ) (change : ℕ) {os : List TxOut}
      → change_outputs decode_base58 own change ≡ ok os
      → IsChange own os × (total os ≤ change) × (change ≤ total os + dust_limit_lyt)
  unfolding change_outputs
  change_outputs-IsChange own change h = elim (Bool-cases (ltb dust_limit_lyt change)) [
    | inl kept ↦
        let (o, e1, h1) = >>=-eq-ok (pay_to decode_base58 own change) _ (rw kept at h) in
        let to_own = pay_to-PaysTo own change e1 in
        let same = to_own.paid in
        let more : dust_limit_lyt < o.value = ground arith in
        rw (sym (ok-injective h1)) ((rw (sym same) at to_own, more), omega arith, omega arith)
    | inr lost ↦ rw (sym (ok-injective (rw lost at h))) (tt, omega arith, ground arith)
  ]

  outpoints_of :
      (us : List Utxo) → map outpoint (map unsigned_input us) ≡ map (λ (u : Utxo). u.0) us
  outpoints_of [] = refl
  outpoints_of (u ∷ us) = ap (λ l. u.0 ∷ l) (outpoints_of us)

  pub unsigned_tx-Pays :
      (own to : List ℕ) (amount fee : ℕ) (utxos : List Utxo) {tx : Transaction}
      → amount + fee < 2 ^ 64
      → values utxos < 2 ^ 64
      → unsigned_tx decode_base58 own to amount fee (select ((amount + fee) % 2 ^ 64) 0 utxos)
        ≡ ok tx
      → Pays own to utxos amount fee tx
  unfolding unsigned_tx
  unsigned_tx-Pays own to amount fee utxos low fits h =
      let need = (amount + fee) % 2 ^ 64 in
      let chosen = select need 0 utxos in
      let s = select-IsSelected need 0 utxos (omega arith) in
      let sum = s.sum_is in
      let change = wrapping_sub (wrapping_sub chosen.1 amount) fee in
      let (_, e1, h1) = >>=-eq-ok (reject_if (ltb chosen.1 need) insufficient_funds) _ h in
      let (recipient, e2, h2) = >>=-eq-ok (pay_to decode_base58 to amount) _ h1 in
      let (os, e3, h3) = >>=-eq-ok (change_outputs decode_base58 own change) _ h2 in
      let paid = pay_to-PaysTo to amount e2 in
      let same = paid.paid in
      let (own_change, low_change, high_change) = change_outputs-IsChange own change e3 in
      let enough = reject_if-eq-ok _ _ e1 in
      let funded : amount + fee ≤ chosen.1 = ground arith in
      let bounded = s.bounded in
      let exact : change + amount + fee ≡ chosen.1 = omega arith in
      rw (sym (ok-injective h3)) (record {
        selected = chosen.0;
        rest = s.rest;
        prefix = s.prefix;
        spends = outpoints_of chosen.0;
        recipient = recipient;
        change = os;
        outputs_are = refl;
        pays_recipient = paid;
        is_change = own_change;
        at_least_fee = omega arith;
        at_most_dust = omega arith;
      })
