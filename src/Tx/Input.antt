-- ===== src/Tx/Input.antt =====
-- `TxIn::verify` of accum-node/src/main.rs: who may spend an output.
use accum_core.Base.{
  ℕ, ◌≡◌, ap, sym, ◌∙◌, Bool, true, false, none, some, List, if◌then◌else◌, eq_bytes,
  eq_of_eq_bytes, take, drop, Bool-cases, Option-cases, inl, inr, not, ◌⊎◌,
}
use accum_core.Crypto.{Crypto, miner_id_from_pubkey, verify_ecdsa}
use accum_core.Tx.{TxIn, TxOut, Transaction, is_coinbase_input, is_p2pkh, is_bond, extract_miner_id}
use accum_core.Tx.Encode.{sighash}
use accum_core.Tx.Script.{parse_script_sig}

module _ (c : Crypto) where
  -- `TxIn::verify_p2pkh`
  verify_p2pkh : Transaction → ℕ → TxOut → List ℕ → List ℕ → Bool
  verify_p2pkh tx input_index utxo pubkey_bytes sig_bytes =
      if not (eq_bytes (c.ripemd160 (c.sha256 pubkey_bytes)) (take 20 (drop 3 utxo.script_pubkey)))
      then false
      else verify_ecdsa c pubkey_bytes sig_bytes (sighash c tx input_index)

  -- `TxIn::verify_bond`
  verify_bond : Transaction → ℕ → TxOut → List ℕ → List ℕ → Bool
  verify_bond tx input_index utxo pubkey_bytes sig_bytes = elim (extract_miner_id utxo) [
    | none ↦ false
    | some expected ↦ elim (c.parse_pubkey pubkey_bytes) [
      | none ↦ false
      | some key ↦
          if not (eq_bytes (miner_id_from_pubkey c key) expected)
          then false
          else verify_ecdsa c pubkey_bytes sig_bytes (sighash c tx input_index)
    ]
  ]

  -- `TxIn::verify`
  unfoldable pub verify_input : TxIn → Transaction → ℕ → TxOut → Bool
  unfolding verify_p2pkh verify_bond
  verify_input input tx input_index utxo =
      if is_coinbase_input input then true else elim (parse_script_sig input.script_sig) [
        | none ↦ false
        | some (sig_bytes, pubkey_bytes) ↦
            if is_p2pkh utxo
            then verify_p2pkh tx input_index utxo pubkey_bytes sig_bytes
            else if is_bond utxo
            then verify_bond tx input_index utxo pubkey_bytes sig_bytes
            else false
      ]

  -- What a spender has shown: a key whose hash the output names, and a signature by that key of the
  -- hash of the transaction.
  pub record Authorised (input : TxIn) (tx : Transaction) (input_index : ℕ) (utxo : TxOut)
      : Type 0 where
    pub sig : List ℕ
    pub key : List ℕ
    pub script : parse_script_sig input.script_sig ≡ some (sig, key)
    pub signed : verify_ecdsa c key sig (sighash c tx input_index) ≡ true
    owner :
        ((is_p2pkh utxo ≡ true)
          × (c.ripemd160 (c.sha256 key) ≡ take 20 (drop 3 utxo.script_pubkey)))
        ⊎ ((parsed : List ℕ) × (c.parse_pubkey key ≡ some parsed)
            × (extract_miner_id utxo ≡ some (miner_id_from_pubkey c parsed)))

  p2pkh_owner :
      (tx : Transaction) (i : ℕ) (utxo : TxOut) (key sig : List ℕ)
      → verify_p2pkh tx i utxo key sig ≡ true
      → (c.ripemd160 (c.sha256 key) ≡ take 20 (drop 3 utxo.script_pubkey))
        × (verify_ecdsa c key sig (sighash c tx i) ≡ true)
  unfolding verify_p2pkh
  p2pkh_owner tx i utxo key sig h =
      let expected = take 20 (drop 3 utxo.script_pubkey) in
      elim (Bool-cases (eq_bytes (c.ripemd160 (c.sha256 key)) expected)) [
        | inl same ↦ (eq_of_eq_bytes (c.ripemd160 (c.sha256 key)) expected same, rw same at h)
        | inr other ↦ absurd (cc (rw other at h))
      ]

  bond_owner :
      (tx : Transaction) (i : ℕ) (utxo : TxOut) (key sig : List ℕ)
      → verify_bond tx i utxo key sig ≡ true
      → ((parsed : List ℕ) × (c.parse_pubkey key ≡ some parsed)
          × (extract_miner_id utxo ≡ some (miner_id_from_pubkey c parsed)))
        × (verify_ecdsa c key sig (sighash c tx i) ≡ true)
  unfolding verify_bond
  bond_owner tx i utxo key sig h = elim (Option-cases (extract_miner_id utxo)) [
    | inl no_id ↦ absurd (cc (rw (no_id, verify_bond) at h))
    | inr (id, e) ↦
        let h1 = rw (e, verify_bond) at h in
        elim (Option-cases (c.parse_pubkey key)) [
          | inl no_key ↦ absurd (cc (rw no_key at h1))
          | inr (parsed, k) ↦
              let h2 = rw k at h1 in
              elim (Bool-cases (eq_bytes (miner_id_from_pubkey c parsed) id)) [
                | inl same ↦
                    let own = eq_of_eq_bytes (miner_id_from_pubkey c parsed) id same in
                    ((parsed, k, e ∙ ap some (sym own)), rw same at h2)
                | inr other ↦ absurd (cc (rw other at h2))
              ]
        ]
  ]

  -- An input that is no coinbase input and passes `verify` holds a key that the output names, by its
  -- hash in a P2PKH output or as the miner id of a bond output, and a signature of the transaction's
  -- hash that this key verifies.
  pub verify_input-Authorised :
      (input : TxIn) (tx : Transaction) (i : ℕ) (utxo : TxOut)
      → is_coinbase_input input ≡ false
      → verify_input input tx i utxo ≡ true
      → Authorised input tx i utxo
  unfolding verify_input
  verify_input-Authorised input tx i utxo plain h =
      let h0 = rw plain at h in
      elim (Option-cases (parse_script_sig input.script_sig)) [
        | inl bad ↦ absurd (cc (rw bad at h0))
        | inr ((sig, key), e) ↦
            let h1 = rw e at h0 in
            elim (Bool-cases (is_p2pkh utxo)) [
              | inl p2pkh ↦
                  let own = p2pkh_owner tx i utxo key sig (rw p2pkh at h1) in
                  record {
                    sig = sig;
                    key = key;
                    script = e;
                    signed = own.1;
                    owner = inl (p2pkh, own.0);
                  }
              | inr other ↦
                  let h2 = rw other at h1 in
                  elim (Bool-cases (is_bond utxo)) [
                    | inl bond ↦
                        let own = bond_owner tx i utxo key sig (rw bond at h2) in
                        record {
                          sig = sig;
                          key = key;
                          script = e;
                          signed = own.1;
                          owner = inr own.0;
                        }
                    | inr neither ↦ absurd (cc (rw neither at h2))
                  ]
            ]
      ]
