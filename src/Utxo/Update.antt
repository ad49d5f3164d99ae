-- ===== src/Utxo/Update.antt =====
-- What a block does to the unspent outputs.
use accum_core.Base.{
  ℕ, ◌+◌, ◌%◌, ◌^◌, ◌≤◌, ◌<◌, ◌≡◌, refl, ap, ◌∙◌, Bool, false, ◌&&◌, ◌||◌, not, Option, none, some,
  List, [], ◌∷◌, arith, Result, ok, >>=-eq-ok, ok-injective, ◌==◌, if◌then◌else◌, length, All,
  Bool-cases, inl, inr,
}
use accum_core.Target.{Hash32}
use accum_core.Tx.{OutPoint, eq_outpoint, TxOut, TxIn, Transaction, is_coinbase_input, outpoint}
use accum_core.Utxo.{UtxoDb, DbError, save_outputs, delete_inputs, apply_tx, update_utxo_set}

-- The output that a transaction with this id creates at an outpoint, its outputs counted from `i`.
abbrev pub created : Hash32 → ℕ → List TxOut → OutPoint → Option TxOut
created txid i [] p = none
created txid i (o ∷ rest) p =
    if eq_outpoint (txid, i) p then some o else created txid (i + 1) rest p

-- Some input other than a coinbase input refers to the outpoint.
abbrev pub spends : List TxIn → OutPoint → Bool
spends [] p = false
spends (input ∷ rest) p =
    (not (is_coinbase_input input) && eq_outpoint (outpoint input) p) || spends rest p

-- What is created at an outpoint, or else what was there.
abbrev pub or_before : Option TxOut → Result DbError (Option TxOut) → Result DbError (Option TxOut)
or_before none before = before
or_before (some o) before = ok (some o)

-- What an outpoint holds after a transaction: nothing if an input spends it, else the output that
-- the transaction creates there, else what it held.
abbrev pub after_tx :
    Hash32 → Transaction → OutPoint → Result DbError (Option TxOut) → Result DbError (Option TxOut)
after_tx txid tx p before =
    if spends tx.inputs p then ok none else or_before (created txid 0 tx.outputs p) before

-- The same after the transactions of a block, in their order.
abbrev pub after_block :
    (Transaction → Hash32)
    → List Transaction
    → OutPoint
    → Result DbError (Option TxOut)
    → Result DbError (Option TxOut)
after_block txid [] p before = before
after_block txid (tx ∷ rest) p before = after_block txid rest p (after_tx (txid tx) tx p before)

module _ (db : UtxoDb) where
  open db use {Store, get_utxo, get-save, get-delete}

  get-delete_inputs :
      (inputs : List TxIn) (s t : Store) (p : OutPoint)
      → delete_inputs db s inputs ≡ ok t
      → get_utxo t p ≡ (if spends inputs p then ok none else get_utxo s p)
  unfolding delete_inputs
  get-delete_inputs [] s t p h = rw (ok-injective h)
  get-delete_inputs (input ∷ rest) s t p h =
      let (s', e, h') =
        >>=-eq-ok (if is_coinbase_input input then ok s else db.delete_utxo s (outpoint input)) _
          h in
      elim (Bool-cases (is_coinbase_input input)) [
        | inl coinbase ↦
            let same : s ≡ s' = ok-injective (rw coinbase at e) in
            rw (coinbase, same) (get-delete_inputs rest s' t p h')
        | inr spent ↦
            let gone = get-delete s s' (outpoint input) p (rw spent at e) in
            rw (spent, get-delete_inputs rest s' t p h', gone)
              (merge (eq_outpoint (outpoint input) p) (spends rest p) (get_utxo s p))
      ]
    where
      merge :
          (a b : Bool) (r : Result DbError (Option TxOut))
          → (if b then ok none else (if a then ok none else r)) ≡ (if a || b then ok none else r)
      merge a b r = ground arith

  -- An outpoint with a smaller index is not among those that follow.
  created_later :
      (txid : Hash32) (j : ℕ) (rest : List TxOut) (p : OutPoint)
      → p.1 < j
      → created txid j rest p ≡ none
  created_later txid j [] p h = refl
  created_later txid j (o ∷ rest) p h =
      let ne : (j == p.1) ≡ false = ground arith in
      let miss : eq_outpoint (txid, j) p ≡ false = ground arith in
      rw miss (created_later txid (j + 1) rest p (omega arith))

  get-save_outputs :
      (txid : Hash32) (outputs : List TxOut) (i : ℕ) (s t : Store) (p : OutPoint)
      → i + length outputs ≤ 2 ^ 32
      → save_outputs db s txid i outputs ≡ ok t
      → get_utxo t p ≡ or_before (created txid i outputs p) (get_utxo s p)
  unfolding save_outputs
  get-save_outputs txid [] i s t p room h = rw (ok-injective h)
  get-save_outputs txid (o ∷ rest) i s t p room h =
      let (s', e, h') = >>=-eq-ok (db.save_utxo s (txid, i % 2 ^ 32) o) _ h in
      let index : i % 2 ^ 32 ≡ i = omega arith in
      let e' = rw index at e in
      let now = get-save s s' (txid, i) p o e' in
      let later = get-save_outputs txid rest (i + 1) s' t p (omega arith) h' in
      elim (Bool-cases (eq_outpoint (txid, i) p)) [
        | inl here ↦
            let at : p.1 ≡ i = ground arith in
            let none_later = created_later txid (i + 1) rest p (omega arith) in
            later ∙ rw (none_later, now, here)
        | inr other ↦ later ∙ rw (now, other)
      ]

  get-apply_tx :
      (txid : Transaction → Hash32) (tx : Transaction) (s t : Store) (p : OutPoint)
      → length tx.outputs ≤ 2 ^ 32
      → apply_tx db txid s tx ≡ ok t
      → get_utxo t p ≡ after_tx (txid tx) tx p (get_utxo s p)
  unfolding apply_tx
  get-apply_tx txid tx s t p room h =
      let (s', e, h') = >>=-eq-ok (save_outputs db s (txid tx) 0 tx.outputs) _ h in
      rw (
        get-delete_inputs tx.inputs s' t p h',
        get-save_outputs (txid tx) tx.outputs 0 s s' p (omega arith) e,
      )

  -- When the update of the unspent outputs with a block succeeds, and no transaction has more than
  -- 2 ^ 32 outputs, every outpoint holds what the transactions of the block, in their order, leave
  -- there.
  pub get-update_utxo_set :
      (txid : Transaction → Hash32) (txs : List Transaction) (s t : Store) (p : OutPoint)
      → All (λ (tx : Transaction). length tx.outputs ≤ 2 ^ 32) txs
      → update_utxo_set db txid s txs ≡ ok t
      → get_utxo t p ≡ after_block txid txs p (get_utxo s p)
  unfolding update_utxo_set
  get-update_utxo_set txid [] s t p room h = rw (ok-injective h)
  get-update_utxo_set txid (tx ∷ rest) s t p room h =
      let (s', e, h') = >>=-eq-ok (apply_tx db txid s tx) _ h in
      get-update_utxo_set txid rest s' t p room.1 h'
      ∙ ap (after_block txid rest p) (get-apply_tx txid tx s s' p room.0 e)
