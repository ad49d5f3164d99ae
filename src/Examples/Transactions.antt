-- ===== src/Examples/Transactions.antt =====
-- The theorems on transactions and the mempool at one transfer, of an output of 200 lyators into one of
-- 150.
use accum_core.Base.{
  ℕ, ◌+◌, ◌*◌, ◌%◌, ◌^◌, ◌≤◌, ◌<◌, ◌≡◌, ◌≢◌, ◌↔◌, refl, inl, inr, Bool, true, false, Option, none,
  some, List, [], ◌∷◌, ◌++◌, Result, ok, if◌then◌else◌, length, take, drop, replicate, All, arith,
}
use accum_core.Crypto.{verify_ecdsa}
use accum_core.Examples.{zeros_crypto, MemStore, mem_utxo}
use accum_core.Mempool.{Mempool, add_transaction_to_mempool}
use accum_core.Mempool.Apart.{IsPool, add_transaction_to_mempool-IsPool}
use accum_core.Mempool.Sorted.{Pairwise, PaysMore}
use accum_core.Target.{Hash32}
use accum_core.Tx.{
  OutPoint, eq_outpoint, TxOut, TxIn, Transaction, outpoint, coinbase_input, is_p2pkh, is_bond,
  is_coinbase,
}
use accum_core.Tx.Encode.{txid, sighash_preimage}
use accum_core.Tx.Encode.Sighash.{sign_all, sighash_preimage-sign_all}
use accum_core.Tx.Input.{verify_input, Authorised, verify_input-Authorised}
use accum_core.Tx.Script.{parse_script_sig}
use accum_core.Tx.Validate.{validate}
use accum_core.Tx.Validate.Accepted.{validate-IsValid}
use accum_core.Tx.Validate.Spec.{IsValid}
use accum_core.Utxo.{update_utxo_set}
use accum_core.Utxo.Update.{after_block, get-update_utxo_set}

-- A P2PKH script for the key hash of zeros.
abbrev p2pkh_script : List ℕ
p2pkh_script = 0x76 ∷ 0xa9 ∷ 0x14 ∷ (replicate 20 0 ++ (0x88 ∷ 0xac ∷ []))

abbrev old_output : TxOut
old_output = record { value = 200; script_pubkey = p2pkh_script }

abbrev spend : TxIn
spend = record {
  prev_txid = replicate 32 7;
  prev_index = 0;
  script_sig = 1 ∷ 9 ∷ 1 ∷ 8 ∷ [];
  sequence = 0xffff_ffff;
}

abbrev transfer : Transaction
transfer = record {
  version = 1;
  inputs = spend ∷ [];
  outputs = record { value = 150; script_pubkey = p2pkh_script } ∷ [];
  locktime = 0;
}

abbrev store : MemStore
store = (λ p. if eq_outpoint p (outpoint spend) then some old_output else none, λ _. none)

validate-IsValid_example :
    (validate zeros_crypto mem_utxo store transfer ≡ ok 50)
    ↔ ((spent : List TxOut) × IsValid zeros_crypto mem_utxo store transfer spent 50)
unfolding accum_core.Base.eq_bytes
validate-IsValid_example = validate-IsValid zeros_crypto mem_utxo store transfer 50 refl

verifies : verify_input zeros_crypto spend transfer 0 old_output ≡ true
unfolding verify_input accum_core.Base.eq_bytes parse_script_sig is_p2pkh verify_ecdsa
verifies = refl

verify_input-Authorised_example : Authorised zeros_crypto spend transfer 0 old_output
unfolding accum_core.Base.eq_bytes
verify_input-Authorised_example =
    verify_input-Authorised zeros_crypto spend transfer 0 old_output refl verifies

abbrev zero_id : Transaction → Hash32
zero_id _ = replicate 32 0

abbrev new_store : MemStore
new_store = (
  λ q.
      if eq_outpoint (outpoint spend) q
      then none
      else if eq_outpoint (replicate 32 0, 0) q
      then some (record { value = 150; script_pubkey = p2pkh_script })
      else store.0 q,
  store.1,
)

updates : update_utxo_set mem_utxo zero_id store (transfer ∷ []) ≡ ok new_store
unfolding update_utxo_set accum_core.Base.eq_bytes
updates = refl

get-update_utxo_set_example :
    mem_utxo.get_utxo new_store (outpoint spend)
    ≡ after_block zero_id
        (transfer ∷ [])
        (outpoint spend)
        (mem_utxo.get_utxo store (outpoint spend))
get-update_utxo_set_example =
    get-update_utxo_set mem_utxo zero_id (transfer ∷ []) store new_store (outpoint spend)
      (omega arith, tt) updates

abbrev empty_pool : Mempool
empty_pool = record { mempool = []; processed_txids = [] }

abbrev one_pool : Mempool
one_pool = record { mempool = transfer ∷ []; processed_txids = replicate 32 0 ∷ [] }

adds : add_transaction_to_mempool zeros_crypto mem_utxo 10 store empty_pool transfer ≡ ok one_pool
unfolding add_transaction_to_mempool accum_core.Tx.Validate.validate_basic accum_core.Base.eq_bytes
    validate verify_input parse_script_sig is_p2pkh verify_ecdsa accum_core.Base.Dict.mem txid
adds = refl

empty-IsPool : IsPool zeros_crypto mem_utxo store []
empty-IsPool = record { accepted = tt; apart = tt }

add_transaction_to_mempool-IsPool_example :
    IsPool zeros_crypto mem_utxo store (transfer ∷ [])
    × (length (transfer ∷ []) ≤ 10)
    × Pairwise (PaysMore zeros_crypto mem_utxo store) (transfer ∷ [])
add_transaction_to_mempool-IsPool_example =
    add_transaction_to_mempool-IsPool zeros_crypto mem_utxo 10 store empty_pool one_pool transfer
      empty-IsPool adds

-- Two inputs that are not signed yet.
abbrev unsigned : Transaction
unsigned = record transfer {
  inputs = record spend { script_sig = [] } ∷ record spend { script_sig = []; prev_index = 1 } ∷ [];
}

sighash_preimage-sign_all_example :
    sighash_preimage
      (record unsigned { inputs = sign_all ((1 ∷ []) ∷ (2 ∷ []) ∷ []) unsigned.inputs })
      0
    ≢ sighash_preimage unsigned 0
sighash_preimage-sign_all_example =
    sighash_preimage-sign_all unsigned ((1 ∷ []) ∷ (2 ∷ []) ∷ []) 0 1 {s = 2 ∷ []} refl
      (refl, (refl, tt)) (omega arith) refl (omega arith)
