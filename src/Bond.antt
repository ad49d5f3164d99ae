-- ===== src/Bond.antt =====
-- `Bond` of accum-node/src/main.rs, the deposit that a miner locks.
pub mod Lockup
use accum_core.Base.{
  ℕ, ◌+◌, ◌-◌, ◌%◌, ◌^◌, Bool, ◌&&◌, Option, none, some, List, ltb, leb, if◌then◌else◌,
}
use accum_core.Tx.{TxOut, extract_miner_id, minimum_bond_lyt}

-- `const BOND_LOCKUP_BLOCKS`
abbrev pub bond_lockup_blocks : ℕ
bond_lockup_blocks = 20_160

pub record Bond : Type 0 where
  pub amount : ℕ
  pub created_at : ℕ
  lock_until : ℕ
  pub miner_id : List ℕ

-- `Bond::new`
unfoldable pub new_bond : ℕ → ℕ → List ℕ → Bond
new_bond amount created_at miner_id = record {
  amount = amount;
  created_at = created_at;
  lock_until = (created_at + bond_lockup_blocks) % 2 ^ 64;
  miner_id = miner_id;
}

-- `Bond::is_active`
unfoldable pub is_active : Bond → ℕ → Bool
is_active b current_height = leb b.created_at current_height && ltb current_height b.lock_until

-- `Bond::is_valid_for_poci`
pub is_valid_for_poci : Bond → Bool
is_valid_for_poci b = leb minimum_bond_lyt b.amount

-- `Bond::from_output`
unfoldable pub from_output : TxOut → ℕ → Option Bond
unfolding new_bond
from_output output height = elim (extract_miner_id output) [
  | some miner_id ↦
      if leb minimum_bond_lyt output.value
      then some (new_bond output.value height miner_id)
      else none
  | none ↦ none
]

-- `Bond::remaining_blocks`
pub remaining_blocks : Bond → ℕ → ℕ
remaining_blocks b current_height =
    if ltb current_height b.lock_until then b.lock_until - current_height else 0
