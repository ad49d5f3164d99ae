-- ===== src/Mempool/Apart.antt =====
-- `Node::add_transaction_to_mempool` of accum-node/src/main.rs keeps a mempool of valid transactions
-- that do not compete.
use accum_core.Base.{
  ℕ, ◌≤◌, ◌≡◌, ◌≢◌, refl, sym, ap, ◌∙◌, inl, inr, Bool, true, false, ◌||◌, List, [], ◌∷◌, ◌++◌,
  Result, ok, err, ok-injective, >>=-eq-ok, reject_if, reject_if-eq-ok, length, length-take,
  eq_bytes, eq_of_eq_bytes, eq_bytes_refl, ==_iff, take, All, All-append, All-take, Bool-cases,
  arith,
}
use accum_core.Base.Dict.{mem}
use accum_core.Crypto.{Crypto}
use accum_core.Mempool.{
  Mempool, checked, plain_outpoints, used_inputs, any_used, has_txid, trim, sort_by_fee,
  add_transaction_to_mempool,
}
use accum_core.Mempool.Sorted.{
  Pairwise, Pairwise-take, Pairwise-snoc, All-sort_by_fee, Pairwise-sort_by_fee, PaysMore,
  sort_by_fee_sorted,
}
use accum_core.Tx.{OutPoint, eq_outpoint, TxIn, Transaction, is_coinbase_input, outpoint}
use accum_core.Tx.Encode.{txid}
use accum_core.Tx.Validate.{TxError, contains, validate_basic, validate}
use accum_core.Utxo.{UtxoDb}

-- Two transactions with different ids and no unspent output that both spend.
pub record Apart (c : Crypto) (x y : Transaction) : Type 0 where
  other_id : txid c x ≢ txid c y
  disjoint :
      (p : OutPoint)
      → contains p (plain_outpoints x.inputs) ≡ true
      → contains p (plain_outpoints y.inputs) ≡ false

Apart-sym : (c : Crypto) (x y : Transaction) → Apart c x y → Apart c y x
Apart-sym c x y a = record {
  other_id = λ e. a.other_id (sym e);
  disjoint = λ p there. elim (Bool-cases (contains p (plain_outpoints x.inputs))) [
    | inl both ↦ cc (a.disjoint p both)
    | inr free ↦ free
  ];
}

eq_of_eq_outpoint : (p q : OutPoint) → eq_outpoint p q ≡ true → p ≡ q
eq_of_eq_outpoint (a, i) (b, j) h = elim (Bool-cases (eq_bytes a b)) [
  | inl same ↦ let e = (==_iff i j).0 (rw same at h) in cc (eq_of_eq_bytes a b same)
  | inr other ↦ cc (rw other at h)
]

contains-append :
    (p : OutPoint) (xs ys : List OutPoint)
    → contains p (xs ++ ys) ≡ (contains p xs || contains p ys)
unfolding contains
contains-append p [] ys = refl
contains-append p (x ∷ xs) ys = elim (Bool-cases (eq_outpoint p x)) [
  | inl hit ↦ rw hit refl
  | inr miss ↦ rw miss (contains-append p xs ys)
]

unused_inputs :
    (used : List OutPoint) (inputs : List TxIn) (p : OutPoint)
    → any_used used inputs ≡ false
    → contains p (plain_outpoints inputs) ≡ true
    → contains p used ≡ false
unfolding any_used plain_outpoints contains
unused_inputs used [] p h there = cc
unused_inputs used (i ∷ rest) p h there = elim (Bool-cases (is_coinbase_input i)) [
  | inl coinbase ↦ unused_inputs used rest p (rw coinbase at h) (rw coinbase at there)
  | inr plain ↦
      let h' = rw plain at h in
      let there' = rw plain at there in
      elim (Bool-cases (contains (outpoint i) used)) [
        | inl taken ↦ cc (rw taken at h')
        | inr free ↦ elim (Bool-cases (eq_outpoint p (outpoint i))) [
          | inl hit ↦ rw (eq_of_eq_outpoint p (outpoint i) hit) free
          | inr miss ↦ unused_inputs used rest p (rw free at h') (rw miss at there')
        ]
      ]
]

or_false : (a b : Bool) → (a || b) ≡ false → (a ≡ false) × (b ≡ false)
or_false true b h = cc
or_false false b h = (refl, h)

Apart-all :
    (c : Crypto) (tx : Transaction) (txs : List Transaction)
    → has_txid c (txid c tx) txs ≡ false
    → ((p : OutPoint)
        → contains p (plain_outpoints tx.inputs) ≡ true
        → contains p (used_inputs txs) ≡ false)
    → All (λ x. Apart c x tx) txs
unfolding has_txid used_inputs
Apart-all c tx [] new free = tt
Apart-all c tx (x ∷ xs) new free =
    let (other, new') =
      or_false (eq_bytes (txid c x) (txid c tx)) (has_txid c (txid c tx) xs) new in
    let free' : (p : OutPoint)
        → contains p (plain_outpoints tx.inputs) ≡ true
        → (contains p (plain_outpoints x.inputs) ≡ false) × (contains p (used_inputs xs) ≡ false) =
      λ p h.
        or_false _ _
          (sym (contains-append p (plain_outpoints x.inputs) (used_inputs xs)) ∙ free p h) in
    (
      Apart-sym c tx x (record {
        other_id = λ e. cc (other, e, eq_bytes_refl (txid c x));
        disjoint = λ p h. (free' p h).0;
      }),
      Apart-all c tx xs new' (λ p h. (free' p h).1),
    )

module _ (c : Crypto) (db : UtxoDb) where
  open db use {Store}

  abbrev pub IsAccepted : Store → Transaction → Type 0
  IsAccepted s tx = (fee : ℕ) × (validate c db s tx ≡ ok fee)

  -- Every transaction is valid for the store, and no two compete.
  pub record IsPool (s : Store) (txs : List Transaction) : Type 0 where
    pub accepted : All (IsAccepted s) txs
    pub apart : Pairwise (Apart c) txs

  checked-eq-ok {ℓ} : {A : Type ℓ} (r : Result TxError A) {a : A} → checked r ≡ ok a → r ≡ ok a
  checked-eq-ok (err e) h = cc
  checked-eq-ok (ok a) h = cc

  -- If `add_transaction_to_mempool` accepts a transaction into a mempool whose transactions are valid
  -- for the store and do not compete (different ids, no unspent output that two of them spend), then
  -- the new mempool is one too, holds at most `max_size` transactions, and is ordered by fee, the
  -- highest first.
  pub add_transaction_to_mempool-IsPool :
      (max_size : ℕ) (s : Store) (m m' : Mempool) (tx : Transaction)
      → IsPool s m.mempool
      → add_transaction_to_mempool c db max_size s m tx ≡ ok m'
      → IsPool s m'.mempool × (length m'.mempool ≤ max_size) × Pairwise (PaysMore c db s) m'.mempool
  unfolding add_transaction_to_mempool trim
  add_transaction_to_mempool-IsPool max_size s m m' tx pool h =
      let (_, _, h1) = >>=-eq-ok (checked (validate_basic tx)) _ h in
      let (fee, valid, h2) = >>=-eq-ok (checked (validate c db s tx)) _ h1 in
      let (_, _, h3) = >>=-eq-ok (reject_if (mem (txid c tx) m.processed_txids) _) _ h2 in
      let (_, new, h4) = >>=-eq-ok (reject_if (has_txid c (txid c tx) m.mempool) _) _ h3 in
      let (_, unused, h5) =
        >>=-eq-ok (reject_if (any_used (used_inputs m.mempool) tx.inputs) _) _ h4 in
      let longer = m.mempool ++ (tx ∷ []) in
      let sorted = sort_by_fee c db s longer in
      let result : take max_size sorted ≡ m'.mempool =
        ap (λ (x : Mempool). x.mempool) (ok-injective h5) in
      let apart =
        Pairwise-snoc (Apart c) m.mempool tx
          (Apart-all c tx m.mempool (reject_if-eq-ok _ _ new)
            (λ p. unused_inputs (used_inputs m.mempool) tx.inputs p (reject_if-eq-ok _ _ unused)))
          pool.apart in
      let accepted =
        All-append (IsAccepted s) m.mempool (tx ∷ []) pool.accepted
          ((fee, checked-eq-ok _ valid), tt) in
      let short = length-take max_size sorted in
      let kept : IsPool s (take max_size sorted) = record {
        accepted =
            All-take (IsAccepted s) max_size sorted
              (All-sort_by_fee c db (IsAccepted s) s longer accepted);
        apart =
            Pairwise-take (Apart c) max_size sorted
              (Pairwise-sort_by_fee c db (Apart c) (Apart-sym c) s longer apart);
      } in
      let ordered =
        Pairwise-take (PaysMore c db s) max_size sorted (sort_by_fee_sorted c db s longer) in
      let bounded : length (take max_size sorted) ≤ max_size = omega arith in
      (rw result at kept, rw result at bounded, rw result at ordered)
