-- ===== src/Slashing.antt =====
-- `EquivocationProof` and `SlashingPool` of accum-node/src/main.rs: the evidence that a miner signed two
-- blocks at a height, and what becomes of it.
pub mod Never
use accum_core.Base.{
  ℕ, Bool, true, false, not, ◌&&◌, ◌||◌, Option, none, some, List, [], ◌∷◌, ◌++◌, Result, ok, err,
  ◌>>=◌, if◌then◌else◌, eq_bytes,
}
use accum_core.Base.Dict.{mem, include}
use accum_core.Bond.{Bond}
use accum_core.Crypto.{Crypto, miner_id_from_pubkey, verify_signature}
use accum_core.Pow.{header_hash}
use accum_core.Sync.{Block}
use accum_core.Target.{Hash32}
use accum_core.Tx.{TxOut, Transaction, is_coinbase, extract_miner_id}
use accum_core.Utxo.{DbError}

pub record EquivocationProof : Type 0 where
  pub miner_id : List ℕ
  pub block_height : ℕ
  pub block_hash_1 : Hash32
  pub block_hash_2 : Hash32
  pub signature_1 : List ℕ
  pub signature_2 : List ℕ
  pub timestamp : ℕ
  pub proven : Bool

pub record SlashRecord : Type 0 where
  pub miner_id : List ℕ
  pub amount : ℕ
  pub height : ℕ
  pub timestamp : ℕ
  pub proof : List ℕ

pub record SlashingPool : Type 0 where
  pub pending_slashes : List EquivocationProof
  pub processed_slashes : List (List ℕ)
  slash_height : ℕ

pub data SlashError : Type 0 where
  db_failed : SlashError
  block_not_found : SlashError
  no_bond : SlashError
  no_miner_id : SlashError

-- The calls of `ProductionStorage` that slashing makes, and `bincode::serialize` of a proof.
pub record SlashDb : Type 1 where
  pub Store : Type 0
  pub get_block : Store → ℕ → Result DbError (Option Block)
  pub get_bond : Store → List ℕ → Result DbError (Option Bond)
  pub delete_bond : Store → List ℕ → Result DbError Store
  pub save_slash_record : Store → ℕ → SlashRecord → Result DbError Store
  pub encode_proof : EquivocationProof → List ℕ

-- `?` on the database, and `.ok_or(…)?` on what it found.
abbrev pub found {ℓ} : {A : Type ℓ} → SlashError → Result DbError (Option A) → Result SlashError A
found e (err _) = err db_failed
found e (ok none) = err e
found e (ok (some a)) = ok a

abbrev pub written {ℓ} : {S : Type ℓ} → Result DbError S → Result SlashError S
written (err _) = err db_failed
written (ok s) = ok s

-- The loop over the outputs of the coinbase.
abbrev pub first_miner_id : List TxOut → Option (List ℕ)
first_miner_id [] = none
first_miner_id (o ∷ rest) = elim (extract_miner_id o) [
  | some id ↦ some id
  | none ↦ first_miner_id rest
]

abbrev pub coinbase_miner_id : List Transaction → Option (List ℕ)
coinbase_miner_id [] = none
coinbase_miner_id (tx ∷ _) = if is_coinbase tx then first_miner_id tx.outputs else none

abbrev pub key_miner_id : Crypto → Option (List ℕ) → Result SlashError (List ℕ)
key_miner_id c none = err no_miner_id
key_miner_id c (some bytes) = elim (c.parse_pubkey bytes) [
  | some key ↦ ok (miner_id_from_pubkey c key)
  | none ↦ err no_miner_id
]

-- `EquivocationProof::extract_miner_id_from_block`
extract_miner_id_from_block : Crypto → Block → Result SlashError (List ℕ)
extract_miner_id_from_block c b = elim (coinbase_miner_id b.transactions) [
  | some id ↦ ok id
  | none ↦ key_miner_id c b.pubkey
]

abbrev pub signature_ok : Crypto → Option (List ℕ) → Option (List ℕ) → Hash32 → Bool
signature_ok c (some sig) (some key) hash = verify_signature c key sig hash
signature_ok c (some sig) none hash = false
signature_ok c none _ hash = false

-- `EquivocationProof::from_blocks` at the time `now`
abbrev from_blocks : Crypto → ℕ → Block → Block → ℕ → Result SlashError EquivocationProof
unfolding extract_miner_id_from_block
from_blocks c now block1 block2 height = do
  miner_id ← extract_miner_id_from_block c block1
  ok (record {
    miner_id = miner_id;
    block_height = height;
    block_hash_1 = header_hash c block1.header;
    block_hash_2 = header_hash c block2.header;
    signature_1 = elim block1.signature [ some s ↦ s | none ↦ [] ];
    signature_2 = elim block2.signature [ some s ↦ s | none ↦ [] ];
    timestamp = now;
    proven = false;
  })

-- `SlashingPool::add_proof`
abbrev add_proof : SlashingPool → EquivocationProof → SlashingPool
add_proof p proof =
    if mem proof.miner_id p.processed_slashes
    then p
    else record p { pending_slashes = p.pending_slashes ++ (proof ∷ []) }

module _ (c : Crypto) (db : SlashDb) (now : ℕ) where
  open db use {Store, get_block, get_bond, delete_bond, save_slash_record, encode_proof}

  -- The part of `verify` behind the comparison of the hashes.
  verify_blocks : EquivocationProof → Block → Block → Result SlashError Bool
  unfolding extract_miner_id_from_block
  verify_blocks proof block1 block2 =
      let sig1_ok = signature_ok c block1.signature block1.pubkey (header_hash c block1.header) in
      let sig2_ok = signature_ok c block2.signature block2.pubkey (header_hash c block2.header) in
      if not sig1_ok || not sig2_ok then ok false else (do
        id1 ← extract_miner_id_from_block c block1
        id2 ← extract_miner_id_from_block c block2
        ok (eq_bytes id1 id2 && eq_bytes id1 proof.miner_id))

  -- `EquivocationProof::verify`
  unfoldable pub verify : Store → EquivocationProof → Result SlashError Bool
  unfolding verify_blocks
  verify s proof = do
    block1 ← found block_not_found (get_block s proof.block_height)
    block2 ← found block_not_found (get_block s proof.block_height)
    (if eq_bytes (header_hash c block1.header) (header_hash c block2.header)
        then ok false
        else verify_blocks proof block1 block2)

  -- `EquivocationProof::execute_slash`
  execute_slash : Store → EquivocationProof → ℕ → Result SlashError (Store × SlashRecord)
  execute_slash s proof height = do
    bond ← found no_bond (get_bond s proof.miner_id)
    s1 ← written (delete_bond s proof.miner_id)
    let slash_record : SlashRecord = record {
      miner_id = proof.miner_id;
      amount = bond.amount;
      height = height;
      timestamp = now;
      proof = encode_proof proof;
    }
    s2 ← written (save_slash_record s1 height slash_record)
    ok (s2, slash_record)

  -- What one proof does to the store, the slashed miners and the results.
  abbrev Progress : Type 0
  Progress = Store × List (List ℕ) × List SlashRecord

  pub process_proof : ℕ → Progress → EquivocationProof → Result SlashError Progress
  unfolding verify execute_slash
  process_proof height (s, processed, results) proof =
      if mem proof.miner_id processed then ok (s, processed, results) else (do
        proven ← verify s proof
        (if proven
            then (do
              (s', slash_record) ← execute_slash s proof height
              ok (s', include proof.miner_id processed, results ++ (slash_record ∷ [])))
            else ok (s, processed, results)))

  -- The loop of `process_all`. What the proofs before an error have changed is not in the result.
  pub process_proofs : ℕ → Progress → List EquivocationProof → Result SlashError Progress
  unfolding process_proof
  process_proofs height st [] = ok st
  process_proofs height st (proof ∷ rest) = do
    st' ← process_proof height st proof
    process_proofs height st' rest

  -- `SlashingPool::process_all`
  pub process_all :
      Store → SlashingPool → ℕ → Result SlashError (Store × SlashingPool × List SlashRecord)
  unfolding process_proofs
  process_all s p height = do
    (s', processed, results) ← process_proofs height (s, p.processed_slashes, []) p.pending_slashes
    ok (
      s',
      record { pending_slashes = []; processed_slashes = processed; slash_height = height },
      results,
    )
