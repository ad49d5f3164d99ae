-- ===== src/Tx/Spend.antt =====
-- The transactions that a wallet makes: `TxOut::create_p2pkh`, `TxIn::sign`,
-- `Transaction::create_p2pkh` and `Wallet::create_simple_tx` of accum-node/src/main.rs.
pub mod Unsigned
pub mod Balance
use accum_core.Base.{
  ℕ, zero, suc, ◌+◌, ◌%◌, ◌^◌, Option, none, some, List, [], ◌∷◌, ◌++◌, Result, ok, err, ◌>>=◌,
  ◌>>◌, reject_if, ok_or, ltb, leb, ◌==◌, not, Bool, true, false, if◌then◌else◌, length, map, take,
  drop,
}
use accum_core.Crypto.{Crypto}
use accum_core.Pow.{wrapping_sub}
use accum_core.Target.{Hash32}
use accum_core.Tx.{OutPoint, TxOut, TxIn, Transaction, dust_limit_lyt}
use accum_core.Tx.Encode.{sighash}
use accum_core.Tx.Encode.Sighash.{sign_at}
use accum_core.Tx.Script.{script_of}

-- The messages of these functions.
pub data SpendError : Type 0 where
  zero_amount : SpendError
  insufficient_funds : SpendError
  bad_address : SpendError
  bad_address_length : SpendError
  sign_failed : SpendError

-- `struct Wallet` as these functions use it: `sign` is the call of secp256k1 with the secret key, on
-- a digest.
pub record Wallet : Type 0 where
  pub address : List ℕ
  pub public_key : List ℕ
  pub sign : Hash32 → Option (List ℕ)

abbrev pub Utxo : Type 0
Utxo = OutPoint × TxOut

-- The loop that takes outputs until they reach `need`, from a sum on.
pub select : ℕ → ℕ → List Utxo → List Utxo × ℕ
select need total [] = ([], total)
select need total (u ∷ rest) =
    let total' = (total + u.1.value) % 2 ^ 64 in
    let (more, sum) = select need total' rest in
    if leb need total' then (u ∷ [], total') else (u ∷ more, sum)

-- `TxIn { prev_txid: outpoint.0, prev_index: outpoint.1, script_sig: vec![], sequence: 0xFFFFFFFF }`
abbrev pub unsigned_input : Utxo → TxIn
unsigned_input u = record {
  prev_txid = u.0.0;
  prev_index = u.0.1;
  script_sig = [];
  sequence = 0xffff_ffff;
}

-- `bs58::decode` is a parameter.
module _ (decode_base58 : List ℕ → Option (List ℕ)) where
  -- `TxOut::create_p2pkh`, with the value that its callers then write.
  unfoldable pub pay_to : List ℕ → ℕ → Result SpendError TxOut
  pay_to address value = do
    decoded ← ok_or (decode_base58 address) bad_address
    reject_if (not (length decoded == 25)) bad_address_length
    ok (record {
      value = value;
      script_pubkey = 0x76 ∷ 0xa9 ∷ 0x14 ∷ (take 20 (drop 1 decoded) ++ (0x88 ∷ 0xac ∷ []));
    })

  -- `if change > DUST_LIMIT_LYT { … }`
  pub change_outputs : List ℕ → ℕ → Result SpendError (List TxOut)
  unfolding pay_to
  change_outputs own change =
      if ltb dust_limit_lyt change then (do o ← pay_to own change; ok (o ∷ [])) else ok []

  -- The transaction before it is signed, with what was selected and its sum.
  pub unsigned_tx : List ℕ → List ℕ → ℕ → ℕ → List Utxo × ℕ → Result SpendError Transaction
  unfolding change_outputs
  unsigned_tx own to amount fee (selected, total) = do
    reject_if (ltb total ((amount + fee) % 2 ^ 64)) insufficient_funds
    recipient ← pay_to to amount
    change ← change_outputs own (wrapping_sub (wrapping_sub total amount) fee)
    ok (record {
      version = 1;
      inputs = map unsigned_input selected;
      outputs = recipient ∷ change;
      locktime = 0;
    })

module _ (c : Crypto) (w : Wallet) where
  -- The script that `TxIn::sign` writes for input `i` of `tx`.
  pub sign_script : Transaction → ℕ → Result SpendError (List ℕ)
  sign_script tx i = do
    sig ← ok_or (w.sign (sighash c tx i)) sign_failed
    ok (script_of sig w.public_key)

  -- The loop of `Transaction::create_p2pkh` over its last inputs, as many as the first argument
  -- says: every input is signed for the transaction without scripts.
  pub sign_against : ℕ → Transaction → ℕ → Transaction → Result SpendError Transaction
  unfolding sign_script
  sign_against zero bare i tx = ok tx
  sign_against (suc n) bare i tx = do
    script ← sign_script bare i
    sign_against n bare (i + 1) (record tx { inputs = sign_at i script tx.inputs })

  -- The loop of `Wallet::create_simple_tx`: every input is signed for the transaction as it is.
  pub sign_each : ℕ → ℕ → Transaction → Result SpendError Transaction
  unfolding sign_script
  sign_each zero i tx = ok tx
  sign_each (suc n) i tx = do
    script ← sign_script tx i
    sign_each n (i + 1) (record tx { inputs = sign_at i script tx.inputs })

  module _ (decode_base58 : List ℕ → Option (List ℕ)) where
    -- `Transaction::create_p2pkh`
    unfoldable pub create_p2pkh : List ℕ → ℕ → ℕ → List Utxo → Result SpendError Transaction
    unfolding select unsigned_tx sign_against
    create_p2pkh to amount fee utxos = do
      tx ←
          unsigned_tx decode_base58 w.address to amount fee
            (select ((amount + fee) % 2 ^ 64) 0 utxos)
      sign_against (length tx.inputs) tx 0 tx

    -- `Wallet::create_simple_tx`
    pub create_simple_tx : List ℕ → ℕ → ℕ → List Utxo → Result SpendError Transaction
    unfolding select unsigned_tx sign_each
    create_simple_tx to amount fee utxos = do
      reject_if (amount == 0) zero_amount
      tx ←
          unsigned_tx decode_base58 w.address to amount fee
            (select ((amount + fee) % 2 ^ 64) 0 utxos)
      sign_each (length tx.inputs) 0 tx
