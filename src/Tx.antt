-- ===== src/Tx.antt =====
-- `TxOut`, `TxIn` and `Transaction` of accum-node/src/main.rs: the data and what is read off it.
pub mod Script
pub mod Encode
pub mod Input
pub mod Validate
pub mod Spend
use accum_core.Base.{
  ℕ, ◌+◌, ◌%◌, ◌^◌, Bool, true, false, ◌&&◌, Option, none, some, List, [], ◌∷◌, ◌++◌, ltb, leb,
  ◌==◌, if◌then◌else◌, eq_bytes, length, get_or, take, drop, replicate,
}
use accum_core.Target.{Hash32}

abbrev pub dust_limit_lyt : ℕ
dust_limit_lyt = 100

abbrev pub minimum_fee_lyt : ℕ
minimum_fee_lyt = 50

abbrev pub max_supply_lyt : ℕ
max_supply_lyt = 1_500_000_000_000_000

abbrev pub minimum_bond_lyt : ℕ
minimum_bond_lyt = 10_000_000

-- `const OP_BOND`
abbrev pub op_bond : ℕ
op_bond = 0xba

-- `type OutPoint = (Txid, u32)`
abbrev pub OutPoint : Type 0
OutPoint = Hash32 × ℕ

abbrev pub eq_outpoint : OutPoint → OutPoint → Bool
eq_outpoint a b = eq_bytes a.0 b.0 && a.1 == b.1

pub record TxOut : Type 0 where
  pub value : ℕ
  pub script_pubkey : List ℕ

pub record TxIn : Type 0 where
  pub prev_txid : Hash32
  pub prev_index : ℕ
  pub script_sig : List ℕ
  pub sequence : ℕ

pub record Transaction : Type 0 where
  pub version : ℕ
  pub inputs : List TxIn
  pub outputs : List TxOut
  pub locktime : ℕ

-- `TxOut::is_bond`
pub is_bond : TxOut → Bool
is_bond o = length o.script_pubkey == 21 && get_or o.script_pubkey 0 0 == op_bond

-- `TxOut::extract_miner_id`
unfoldable pub extract_miner_id : TxOut → Option (List ℕ)
unfolding is_bond
extract_miner_id o =
    if is_bond o && leb 21 (length o.script_pubkey)
    then some (take 20 (drop 1 o.script_pubkey))
    else none

-- `TxOut::is_dust`
abbrev pub is_dust : TxOut → Bool
is_dust o = ltb o.value dust_limit_lyt

-- `TxOut::is_p2pkh`
unfoldable pub is_p2pkh : TxOut → Bool
is_p2pkh o =
    length o.script_pubkey == 25
    && get_or o.script_pubkey 0 0 == 0x76
    && get_or o.script_pubkey 1 0 == 0xa9
    && get_or o.script_pubkey 2 0 == 0x14
    && get_or o.script_pubkey 23 0 == 0x88
    && get_or o.script_pubkey 24 0 == 0xac

-- `TxIn::coinbase`
abbrev pub coinbase_input : TxIn
coinbase_input = record {
  prev_txid = replicate 32 0;
  prev_index = 0xffff_ffff;
  script_sig = [];
  sequence = 0xffff_ffff;
}

-- `TxIn::is_coinbase`
abbrev pub is_coinbase_input : TxIn → Bool
is_coinbase_input i = eq_bytes i.prev_txid (replicate 32 0) && i.prev_index == 0xffff_ffff

-- `TxIn::outpoint`
abbrev pub outpoint : TxIn → OutPoint
outpoint i = (i.prev_txid, i.prev_index)

abbrev coinbase_of : List TxIn → Bool
coinbase_of [] = false
coinbase_of (i ∷ []) = is_coinbase_input i
coinbase_of (i ∷ j ∷ rest) = false

-- `Transaction::is_coinbase`: one input, and it is the coinbase input.
abbrev pub is_coinbase : Transaction → Bool
is_coinbase tx = coinbase_of tx.inputs
