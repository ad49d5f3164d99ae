-- ===== src/Tx/Spend/Balance.antt =====
-- What the transactions of a wallet spend and pay.
use accum_core.Base.{
  ℕ, zero, suc, ◌+◌, ◌%◌, ◌^◌, ◌<◌, ◌≡◌, refl, ap, sym, ◌∙◌, ◌⊎◌, inl, inr, Option, List, [], ◌∷◌,
  ok, >>=-eq-ok, ok-injective, reject_if, ◌==◌, length, map,
}
use accum_core.Crypto.{Crypto}
use accum_core.Tx.{TxIn, Transaction, outpoint}
use accum_core.Tx.Encode.Sighash.{sign_at}
use accum_core.Tx.Validate.Spec.{total}
use accum_core.Tx.Spend.{
  Wallet, Utxo, select, unsigned_tx, sign_script, sign_against, sign_each, create_p2pkh,
  create_simple_tx, zero_amount,
}
use accum_core.Tx.Spend.Unsigned.{values, Pays, unsigned_tx-Pays}

-- Signing changes scripts only.
record SameSpend (tx tx' : Transaction) : Type 0 where
  same_outputs : tx'.outputs ≡ tx.outputs
  same_inputs : map outpoint tx'.inputs ≡ map outpoint tx.inputs

sign_at-outpoints :
    (k : ℕ) (script : List ℕ) (inputs : List TxIn)
    → map outpoint (sign_at k script inputs) ≡ map outpoint inputs
sign_at-outpoints k script [] = refl
sign_at-outpoints zero script (input ∷ rest) = refl
sign_at-outpoints (suc k) script (input ∷ rest) =
    ap (λ l. outpoint input ∷ l) (sign_at-outpoints k script rest)

module _ (c : Crypto) (w : Wallet) where
  sign_against-SameSpend :
      (n i : ℕ) (bare tx : Transaction) {tx' : Transaction}
      → sign_against c w n bare i tx ≡ ok tx'
      → SameSpend tx tx'
  unfolding sign_against
  sign_against-SameSpend zero i bare tx h =
      rw (sym (ok-injective h)) (record { same_outputs = refl; same_inputs = refl })
  sign_against-SameSpend (suc n) i bare tx h =
      let (script, e1, h1) = >>=-eq-ok (sign_script c w bare i) _ h in
      let ih =
        sign_against-SameSpend n (i + 1) bare (record tx { inputs = sign_at i script tx.inputs })
          h1 in
      record {
        same_outputs = ih.same_outputs;
        same_inputs = ih.same_inputs ∙ sign_at-outpoints i script tx.inputs;
      }

  sign_each-SameSpend :
      (n i : ℕ) (tx : Transaction) {tx' : Transaction}
      → sign_each c w n i tx ≡ ok tx'
      → SameSpend tx tx'
  unfolding sign_each
  sign_each-SameSpend zero i tx h =
      rw (sym (ok-injective h)) (record { same_outputs = refl; same_inputs = refl })
  sign_each-SameSpend (suc n) i tx h =
      let (script, e1, h1) = >>=-eq-ok (sign_script c w tx i) _ h in
      let ih =
        sign_each-SameSpend n (i + 1) (record tx { inputs = sign_at i script tx.inputs }) h1 in
      record {
        same_outputs = ih.same_outputs;
        same_inputs = ih.same_inputs ∙ sign_at-outpoints i script tx.inputs;
      }

  module _ (decode_base58 : List ℕ → Option (List ℕ)) where
    SameSpend-Pays :
        (own to : List ℕ) (utxos : List Utxo) (amount fee : ℕ) (tx tx' : Transaction)
        → SameSpend tx tx'
        → Pays decode_base58 own to utxos amount fee tx
        → Pays decode_base58 own to utxos amount fee tx'
    SameSpend-Pays own to utxos amount fee tx tx' s p =
        let e = ap total s.same_outputs in
        record {
          selected = p.selected;
          rest = p.rest;
          prefix = p.prefix;
          spends = s.same_inputs ∙ p.spends;
          recipient = p.recipient;
          change = p.change;
          outputs_are = s.same_outputs ∙ p.outputs_are;
          pays_recipient = p.pays_recipient;
          is_change = p.is_change;
          at_least_fee = rw e p.at_least_fee;
          at_most_dust = rw e p.at_most_dust;
        }

    create_p2pkh-Pays :
        (to : List ℕ) (amount fee : ℕ) (utxos : List Utxo) (tx : Transaction)
        → amount + fee < 2 ^ 64
        → values utxos < 2 ^ 64
        → create_p2pkh c w decode_base58 to amount fee utxos ≡ ok tx
        → Pays decode_base58 w.address to utxos amount fee tx
    unfolding create_p2pkh
    create_p2pkh-Pays to amount fee utxos tx low fits h =
        let chosen = select ((amount + fee) % 2 ^ 64) 0 utxos in
        let (bare, e1, h1) =
          >>=-eq-ok (unsigned_tx decode_base58 w.address to amount fee chosen) _ h in
        SameSpend-Pays w.address to utxos amount fee bare tx
          (sign_against-SameSpend (length bare.inputs) 0 bare bare h1)
          (unsigned_tx-Pays decode_base58 w.address to amount fee utxos low fits e1)

    create_simple_tx-Pays :
        (to : List ℕ) (amount fee : ℕ) (utxos : List Utxo) (tx : Transaction)
        → amount + fee < 2 ^ 64
        → values utxos < 2 ^ 64
        → create_simple_tx c w decode_base58 to amount fee utxos ≡ ok tx
        → Pays decode_base58 w.address to utxos amount fee tx
    unfolding create_simple_tx
    create_simple_tx-Pays to amount fee utxos tx low fits h =
        let chosen = select ((amount + fee) % 2 ^ 64) 0 utxos in
        let (_, e0, h0) = >>=-eq-ok (reject_if (amount == 0) zero_amount) _ h in
        let (bare, e1, h1) =
          >>=-eq-ok (unsigned_tx decode_base58 w.address to amount fee chosen) _ h0 in
        SameSpend-Pays w.address to utxos amount fee bare tx
          (sign_each-SameSpend (length bare.inputs) 0 bare h1)
          (unsigned_tx-Pays decode_base58 w.address to amount fee utxos low fits e1)

    -- Both functions that make a payment, with an amount and a fee whose sum is below 2^64, from
    -- outputs whose sum is: a transaction that either returns spends a prefix of the outputs offered,
    -- in their order; its first output pays exactly the amount to the hash in the recipient's address,
    -- and the only other one, if any, more than 100 to the hash in the wallet's own; the fee is left
    -- to the miner, and at most 100 more.
    pub create_tx-Pays :
        (to : List ℕ) (amount fee : ℕ) (utxos : List Utxo) (tx : Transaction)
        → amount + fee < 2 ^ 64
        → values utxos < 2 ^ 64
        → (create_p2pkh c w decode_base58 to amount fee utxos ≡ ok tx)
          ⊎ (create_simple_tx c w decode_base58 to amount fee utxos ≡ ok tx)
        → Pays decode_base58 w.address to utxos amount fee tx
    create_tx-Pays to amount fee utxos tx low fits (inl h) =
        create_p2pkh-Pays to amount fee utxos tx low fits h
    create_tx-Pays to amount fee utxos tx low fits (inr h) =
        create_simple_tx-Pays to amount fee utxos tx low fits h
