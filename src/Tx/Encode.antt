-- ===== src/Tx/Encode.antt =====
-- The bytes that accum-node/src/main.rs hashes for `Transaction::txid` and `Transaction::sighash`.
pub mod Sighash
use accum_core.Base.{ℕ, ◌+◌, List, [], ◌∷◌, ◌++◌, ◌==◌, if◌then◌else◌, length}
use accum_core.Bytes.{to_le_bytes}
use accum_core.Target.{Hash32}
use accum_core.Crypto.{Crypto}
use accum_core.Tx.{TxIn, TxOut, Transaction}

-- A script with its length, a `u32`, in front.
pub encode_script : List ℕ → List ℕ
encode_script script = to_le_bytes 4 (length script) ++ script

pub encode_input : TxIn → List ℕ → List ℕ
encode_input i script =
    i.prev_txid ++ to_le_bytes 4 i.prev_index ++ script ++ to_le_bytes 4 i.sequence

-- `for input in &self.inputs`, in `txid`.
encode_inputs : List TxIn → List ℕ
unfolding encode_script encode_input
encode_inputs [] = []
encode_inputs (i ∷ rest) = encode_input i (encode_script i.script_sig) ++ encode_inputs rest

-- `for output in &self.outputs`
pub encode_outputs : List TxOut → List ℕ
unfolding encode_script
encode_outputs [] = []
encode_outputs (o ∷ rest) =
    to_le_bytes 8 o.value ++ encode_script o.script_pubkey ++ encode_outputs rest

-- What `txid` hashes.
txid_preimage : Transaction → List ℕ
unfolding encode_inputs encode_outputs
txid_preimage tx =
    to_le_bytes 4 tx.version
    ++ to_le_bytes 4 (length tx.inputs)
    ++ encode_inputs tx.inputs
    ++ to_le_bytes 4 (length tx.outputs)
    ++ encode_outputs tx.outputs
    ++ to_le_bytes 4 tx.locktime

-- `Transaction::txid`
unfoldable pub txid : Crypto → Transaction → Hash32
unfolding txid_preimage
txid c tx = c.sha256 (c.sha256 (txid_preimage tx))

-- `for (i, input) in self.inputs.iter().enumerate()`, in `sighash`: the input that is signed has an
-- empty script.
pub sighash_inputs : ℕ → ℕ → List TxIn → List ℕ
unfolding encode_script encode_input
sighash_inputs input_index i [] = []
sighash_inputs input_index i (input ∷ rest) =
    encode_input input
      (if i == input_index then to_le_bytes 4 0 else encode_script input.script_sig)
    ++ sighash_inputs input_index (i + 1) rest

-- What `sighash` hashes.
pub sighash_preimage : Transaction → ℕ → List ℕ
unfolding sighash_inputs encode_outputs
sighash_preimage tx input_index =
    to_le_bytes 4 tx.version
    ++ to_le_bytes 4 (length tx.inputs)
    ++ sighash_inputs input_index 0 tx.inputs
    ++ to_le_bytes 4 (length tx.outputs)
    ++ encode_outputs tx.outputs
    ++ to_le_bytes 4 tx.locktime
    ++ to_le_bytes 4 1

-- `Transaction::sighash`
abbrev pub sighash : Crypto → Transaction → ℕ → Hash32
unfolding sighash_preimage
sighash c tx input_index = c.sha256 (c.sha256 (sighash_preimage tx input_index))
