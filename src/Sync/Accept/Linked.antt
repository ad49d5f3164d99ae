-- ===== src/Sync/Accept/Linked.antt =====
-- The blocks that `verify_and_accept_blocks` of accum-node/src/main.rs accepts form a chain.
use accum_core.Base.{
  ℕ, ◌+◌, ◌-◌, ◌%◌, ◌^◌, ◌≤◌, ◌<◌, ◌≡◌, refl, sym, ap, ◌∙◌, ◌⊎◌, inl, inr, true, false, not, Option,
  none, some, List, [], ◌∷◌, ok, >>=-eq-ok, reject_if, reject_if-eq-ok, not-false, ltb, ◌==◌,
  eq_bytes, eq_of_eq_bytes, map, Bool-cases, arith,
}
use accum_core.Crypto.{Crypto}
use accum_core.Header.{BlockHeader, validate_timestamp}
use accum_core.Merkle.{zero_hash, compute_merkle_root}
use accum_core.Pow.{header_hash}
use accum_core.Sync.{Block}
use accum_core.Sync.Accept.{ChainDb, root_is, signed_by, expected_prev, prev_timestamp, check_block}
use accum_core.Target.{Hash32, is_met_by}
use accum_core.Tx.{Transaction, TxOut, TxIn, is_coinbase_input, outpoint}
use accum_core.Tx.Encode.{txid}
use accum_core.Utxo.{save_outputs, delete_inputs, apply_tx, update_utxo_set}

abbrev pub prev_hash_of : Crypto → Option BlockHeader → Hash32
prev_hash_of c none = zero_hash
prev_hash_of c (some h) = header_hash c h

abbrev pub IsLater : Option BlockHeader → ℕ → Type 0
IsLater none t = Unit
IsLater (some h) t = h.timestamp < t

-- A block that may follow the header, at the time `now`.
pub record Extends (c : Crypto) (now : ℕ) (prev : Option BlockHeader) (b : Block) : Type 0 where
  pub names_prev : b.header.prev_hash ≡ prev_hash_of c prev
  pub has_work : is_met_by b.header.difficulty (header_hash c b.header) ≡ true
  pub is_later : IsLater prev b.header.timestamp
  pub not_future : b.header.timestamp ≤ (now + 7200) % 2 ^ 64
  pub has_root :
      compute_merkle_root c.sha256 (map (txid c) b.transactions) ≡ some b.header.merkle_root
  pub is_signed : signed_by c (header_hash c b.header) b.signature b.pubkey ≡ true

abbrev pub Linked : Crypto → ℕ → Option BlockHeader → List Block → Type 0
Linked c now prev [] = Unit
Linked c now prev (b ∷ rest) = Extends c now prev b × Linked c now (some b.header) rest

root_is-eq :
    (claimed : Hash32) (root : Option Hash32) → root_is claimed root ≡ true → root ≡ some claimed
root_is-eq claimed none h = cc
root_is-eq claimed (some root) h = ap some (sym (eq_of_eq_bytes claimed root h))

validate_timestamp-none :
    (now : ℕ) (h : BlockHeader)
    → validate_timestamp now h none ≡ true
    → h.timestamp ≤ (now + 7200) % 2 ^ 64
unfolding validate_timestamp
validate_timestamp-none now h v = ground arith

validate_timestamp-some :
    (now : ℕ) (h : BlockHeader) (t : ℕ)
    → validate_timestamp now h (some t) ≡ true
    → (h.timestamp ≤ (now + 7200) % 2 ^ 64) × (t < h.timestamp)
unfolding validate_timestamp
validate_timestamp-some now h t v = ground arith

module _ (c : Crypto) (db : ChainDb) (now : ℕ) where
  open db use {
    utxo, get_block, save_block, get_block-save_block, get_block-save_utxo, get_block-delete_utxo,
  }

  -- The store holds the block at the height, and this is its header; there is none at height 0.
  abbrev pub Tip : utxo.Store → ℕ → Option BlockHeader → Type 0
  Tip s height tip =
      ((height ≡ 0) × (tip ≡ none))
      ⊎ ((b : Block) × (0 < height) × (get_block s height ≡ ok (some b)) × (tip ≡ some b.header))

  get_block-save_outputs :
      (s t : utxo.Store) (k : ℕ) (id : Hash32) (i : ℕ) (outputs : List TxOut)
      → save_outputs utxo s id i outputs ≡ ok t
      → get_block t k ≡ get_block s k
  unfolding save_outputs
  get_block-save_outputs s t k id i [] h = cc
  get_block-save_outputs s t k id i (o ∷ rest) h =
      let (s', e, h1) = >>=-eq-ok (utxo.save_utxo s (id, i % 2 ^ 32) o) _ h in
      get_block-save_outputs s' t k id (i + 1) rest h1 ∙ get_block-save_utxo s s' k _ o e

  get_block-delete_inputs :
      (s t : utxo.Store) (k : ℕ) (inputs : List TxIn)
      → delete_inputs utxo s inputs ≡ ok t
      → get_block t k ≡ get_block s k
  unfolding delete_inputs
  get_block-delete_inputs s t k [] h = cc
  get_block-delete_inputs s t k (input ∷ rest) h = elim (Bool-cases (is_coinbase_input input)) [
    | inl coinbase ↦ get_block-delete_inputs s t k rest (rw coinbase at h)
    | inr plain ↦
        let (s', e, h1) = >>=-eq-ok (utxo.delete_utxo s (outpoint input)) _ (rw plain at h) in
        get_block-delete_inputs s' t k rest h1 ∙ get_block-delete_utxo s s' k _ e
  ]

  pub get_block-update_utxo_set :
      (s t : utxo.Store) (k : ℕ) (txs : List Transaction)
      → update_utxo_set utxo (txid c) s txs ≡ ok t
      → get_block t k ≡ get_block s k
  unfolding update_utxo_set apply_tx
  get_block-update_utxo_set s t k [] h = cc
  get_block-update_utxo_set s t k (tx ∷ rest) h =
      let (s2, e, h1) = >>=-eq-ok (apply_tx utxo (txid c) s tx) _ h in
      let (s1, e1, e2) = >>=-eq-ok (save_outputs utxo s (txid c tx) 0 tx.outputs) _ e in
      get_block-update_utxo_set s2 t k rest h1
      ∙ get_block-delete_inputs s1 s2 k tx.inputs e2
      ∙ get_block-save_outputs s s1 k _ 0 tx.outputs e1

  pub expected_prev-Tip :
      (s : utxo.Store) (height : ℕ) (tip : Option BlockHeader)
      → Tip s height tip
      → expected_prev c db now s (height + 1) ≡ ok (prev_hash_of c tip)
  unfolding expected_prev
  expected_prev-Tip s height tip (inl (e, none_yet)) = rw (e, none_yet) refl
  expected_prev-Tip s height tip (inr (b, positive, there, e)) =
      let first : (height + 1 == 1) ≡ false = ground arith in
      let back : height + 1 - 1 ≡ height = omega arith in rw (first, back, there, e) refl

  abbrev pub timestamp_of : Option BlockHeader → Option ℕ
  timestamp_of none = none
  timestamp_of (some h) = some h.timestamp

  pub prev_timestamp-Tip :
      (s : utxo.Store) (height : ℕ) (tip : Option BlockHeader)
      → Tip s height tip
      → prev_timestamp c db now s (height + 1) ≡ ok (timestamp_of tip)
  unfolding prev_timestamp
  prev_timestamp-Tip s height tip (inl (e, none_yet)) = rw (e, none_yet) refl
  prev_timestamp-Tip s height tip (inr (b, positive, there, e)) =
      let later : ltb 1 (height + 1) ≡ true = ground arith in
      let back : height + 1 - 1 ≡ height = omega arith in rw (later, back, there, e) refl

  timestamp_ok :
      (tip : Option BlockHeader) (h : BlockHeader)
      → validate_timestamp now h (timestamp_of tip) ≡ true
      → (h.timestamp ≤ (now + 7200) % 2 ^ 64) × IsLater tip h.timestamp
  timestamp_ok none h v = (validate_timestamp-none now h v, tt)
  timestamp_ok (some prev) h v = validate_timestamp-some now h prev.timestamp v

  pub check_block-Extends :
      (s : utxo.Store) (height : ℕ) (tip : Option BlockHeader) (b : Block) {u : Unit {0}}
      → Tip s height tip
      → check_block c db now s (height + 1) b ≡ ok u
      → Extends c now tip b
  unfolding check_block
  check_block-Extends s height tip b at_tip h =
      let hash = header_hash c b.header in
      let h0 =
        rw (expected_prev-Tip s height tip at_tip, prev_timestamp-Tip s height tip at_tip) at h in
      let (_, e1, h1) =
        >>=-eq-ok (reject_if (not (eq_bytes b.header.prev_hash (prev_hash_of c tip))) _) _ h0 in
      let (_, e2, h2) = >>=-eq-ok (reject_if (not (is_met_by b.header.difficulty hash)) _) _ h1 in
      let (_, e3, h3) =
        >>=-eq-ok (reject_if (not (validate_timestamp now b.header (timestamp_of tip))) _) _ h2 in
      let (_, e4, e5) =
        >>=-eq-ok
          (reject_if
            (not (
              root_is b.header.merkle_root
                (compute_merkle_root c.sha256 (map (txid c) b.transactions))))
            _)
          _ h3 in
      let (not_future, later) = timestamp_ok tip b.header (not-false _ (reject_if-eq-ok _ _ e3)) in
      record {
        names_prev = eq_of_eq_bytes _ _ (not-false _ (reject_if-eq-ok _ _ e1));
        has_work = not-false _ (reject_if-eq-ok _ _ e2);
        is_later = later;
        not_future = not_future;
        has_root = root_is-eq _ _ (not-false _ (reject_if-eq-ok _ _ e4));
        is_signed = not-false _ (reject_if-eq-ok _ _ e5);
      }
