-- ===== src/Bond/Lockup.antt =====
-- How long a bond of accum-node/src/main.rs stays locked, and which outputs make one.
use accum_core.Base.{
  ℕ, ◌+◌, ◌-◌, ◌%◌, ◌^◌, ◌≤◌, ◌<◌, ◌≡◌, ◌↔◌, sym, ap, ◌∙◌, inl, inr, true, some, List, leb, length,
  take, drop, Bool-cases, Option-cases, arith,
}
use accum_core.Bond.{
  Bond, new_bond, is_active, is_valid_for_poci, from_output, remaining_blocks, bond_lockup_blocks,
}
use accum_core.Tx.{TxOut, is_bond, extract_miner_id, minimum_bond_lyt}

-- A new bond, at a height that the lockup does not carry out of `u64`: from the height it was made at
-- on it is active exactly while blocks remain, and the remaining blocks are those of the lockup less
-- the ones that have passed.
new_bond_lockup :
    (amount created_at height : ℕ) (miner_id : List ℕ)
    → created_at + bond_lockup_blocks < 2 ^ 64
    → created_at ≤ height
    → ((is_active (new_bond amount created_at miner_id) height ≡ true)
        ↔ (0 < remaining_blocks (new_bond amount created_at miner_id) height))
      × (remaining_blocks (new_bond amount created_at miner_id) height
          ≡ bond_lockup_blocks - (height - created_at))
unfolding new_bond is_active remaining_blocks
new_bond_lockup amount created_at height miner_id fits later =
    let until : (created_at + bond_lockup_blocks) % 2 ^ 64 ≡ created_at + bond_lockup_blocks =
      omega arith in
    rw until (ground arith, ground arith)

extract_miner_id_sound :
    (output : TxOut) {miner_id : List ℕ}
    → extract_miner_id output ≡ some miner_id
    → (is_bond output ≡ true) × (miner_id ≡ take 20 (drop 1 output.script_pubkey))
unfolding extract_miner_id
extract_miner_id_sound output h = elim (Bool-cases (is_bond output)) [
  | inr other ↦ cc (rw other at h)
  | inl bond ↦ elim (Bool-cases (leb 21 (length output.script_pubkey))) [
    | inr short ↦ cc (rw (bond, short) at h)
    | inl long ↦ (bond, cc (rw (bond, long) at h))
  ]
]

new_bond_fields :
    (amount created_at : ℕ) (miner_id : List ℕ) (b : Bond) {bytes : List ℕ}
    → new_bond amount created_at miner_id ≡ b
    → leb minimum_bond_lyt amount ≡ true
    → miner_id ≡ bytes
    → (is_valid_for_poci b ≡ true) × (b.amount ≡ amount) × (b.miner_id ≡ bytes)
unfolding new_bond is_valid_for_poci
new_bond_fields amount created_at miner_id b made large e =
    let same : b.amount ≡ amount = ap (λ (x : Bond). x.amount) (sym made) in
    (rw same large, same, ap (λ (x : Bond). x.miner_id) (sym made) ∙ e)

-- Whenever `from_output` makes a bond, the output is a bond script, the bond is large enough for
-- `is_valid_for_poci`, has the output's value and the 20 bytes behind the script's first one.
from_output_sound :
    (output : TxOut) (height : ℕ) (b : Bond)
    → from_output output height ≡ some b
    → (is_bond output ≡ true)
      × (is_valid_for_poci b ≡ true)
      × (b.amount ≡ output.value)
      × (b.miner_id ≡ take 20 (drop 1 output.script_pubkey))
unfolding from_output
from_output_sound output height b h = elim (Option-cases (extract_miner_id output)) [
  | inl no_id ↦ cc (rw (from_output, no_id) at h)
  | inr (miner_id, there) ↦
      let (bond, bytes) = extract_miner_id_sound output there in
      elim (Bool-cases (leb minimum_bond_lyt output.value)) [
        | inr small ↦ cc (rw (from_output, there, small) at h)
        | inl large ↦
            let made : new_bond output.value height miner_id ≡ b =
              cc (rw (from_output, there, large) at h) in
            let (valid, amount, id) =
              new_bond_fields output.value height miner_id b made large bytes in
            (bond, valid, amount, id)
      ]
]
