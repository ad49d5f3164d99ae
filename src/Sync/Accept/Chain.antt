-- ===== src/Sync/Accept/Chain.antt =====
-- What a successful `verify_and_accept_blocks` of accum-node/src/main.rs has done to the chain.
use accum_core.Base.{
  ℕ, ◌+◌, ◌^◌, ◌≤◌, ◌==◌, false, if◌then◌else◌, All, Bool-cases, inl, ◌≡◌, refl, sym, ap, ◌∙◌, inr,
  Option, some, List, [], ◌∷◌, ◌++◌, Result, ok, err, ok-injective, >>=-eq-ok, ==_iff, length, map,
  arith,
}
use accum_core.Crypto.{Crypto}
use accum_core.Header.{BlockHeader}
use accum_core.Sync.{Block, SyncManager, SyncError, push_header, current_height}
use accum_core.Sync.Accept.{
  ChainDb, written, resume, check_block, left_behind, accept_block, accept_blocks,
  verify_and_accept_blocks,
}
use accum_core.Sync.Accept.Linked.{
  Extends, Linked, Tip, check_block-Extends, get_block-update_utxo_set,
}
use accum_core.Tx.Encode.{txid}
use accum_core.Tx.{OutPoint, TxOut, Transaction}
use accum_core.Utxo.{DbError, update_utxo_set}
use accum_core.Utxo.Update.{after_block, get-update_utxo_set}

written-eq-ok {ℓ} : {S : Type ℓ} (r : Result DbError S) {s : S} → written r ≡ ok s → r ≡ ok s
written-eq-ok (err e) h = cc
written-eq-ok (ok s) h = cc

pub resume-eq-ok {ℓ κ} :
    {S : Type ℓ} {A : Type κ} (st : S) (r : Result SyncError S) (k : S → S × Result SyncError A)
    {st' : S} {a : A}
    → resume st r k ≡ (st', ok a)
    → (s1 : S) × (r ≡ ok s1) × (k s1 ≡ (st', ok a))
resume-eq-ok st (err e) k h = cc
resume-eq-ok st (ok s1) k h = (s1, refl, h)

append_nil : (xs : List BlockHeader) → xs ++ [] ≡ xs
append_nil [] = refl
append_nil (x ∷ xs) = ap (◌∷◌ x) (append_nil xs)

append_assoc :
    (xs : List BlockHeader) (y : BlockHeader) (ys : List BlockHeader)
    → (xs ++ (y ∷ [])) ++ ys ≡ xs ++ (y ∷ ys)
append_assoc [] y ys = refl
append_assoc (x ∷ xs) y ys = ap (◌∷◌ x) (append_assoc xs y ys)

module _ (c : Crypto) (db : ChainDb) (now : ℕ) where
  open db use {utxo, get_block, save_block, get_block-save_block, get_utxo-save_block}

  -- Every transaction of the blocks has so few outputs that an index fits into `u32`.
  abbrev pub AllRoom : List Block → Type 0
  AllRoom blocks =
      All (λ (b : Block). All (λ (tx : Transaction). length tx.outputs ≤ 2 ^ 32) b.transactions)
        blocks

  -- What the store holds at a height after the blocks are stored from the height behind `height` on.
  abbrev pub block_at :
      ℕ → List Block → ℕ → Result DbError (Option Block) → Result DbError (Option Block)
  block_at height [] k before = before
  block_at height (b ∷ rest) k before =
      if height + 1 == k then ok (some b) else block_at (height + 1) rest k before

  -- What an outpoint holds after the transactions of the blocks, in their order.
  abbrev pub after_blocks :
      List Block → OutPoint → Result DbError (Option TxOut) → Result DbError (Option TxOut)
  after_blocks [] p before = before
  after_blocks (b ∷ rest) p before =
      after_blocks rest p (after_block (txid c) b.transactions p before)

  block_at_below :
      (height : ℕ) (blocks : List Block) (k : ℕ) (before : Result DbError (Option Block))
      → k ≤ height
      → block_at height blocks k before ≡ before
  block_at_below height [] k before low = refl
  block_at_below height (b ∷ rest) k before low =
      let other : (height + 1 == k) ≡ false = ground arith in
      rw other (block_at_below (height + 1) rest k before (omega arith))

  block_at_next :
      (height : ℕ) (b : Block) (rest : List Block) (k : ℕ) (before : Result DbError (Option Block))
      → block_at (height + 1) rest k (if height + 1 == k then ok (some b) else before)
        ≡ block_at height (b ∷ rest) k before
  block_at_next height b rest k before = elim (Bool-cases (height + 1 == k)) [
    | inl here ↦
        let low : k ≤ height + 1 = ground arith in
        rw here (block_at_below (height + 1) rest k (ok (some b)) low)
    | inr other ↦ rw other refl
  ]

  -- What accepting the blocks on a tip has done to the manager and the store.
  pub record IsSynced (height : ℕ) (m m' : SyncManager) (s s' : utxo.Store)
      (tip : Option BlockHeader) (blocks : List Block) (result : ℕ) : Type 0 where
    pub linked : Linked c now tip blocks
    pub counted : result ≡ height + length blocks
    pub chain : m'.local_chain ≡ m.local_chain ++ map (λ (b : Block). b.header) blocks
    pub stored : (k : ℕ) → get_block s' k ≡ block_at height blocks k (get_block s k)
    pub outputs : (p : OutPoint) → utxo.get_utxo s' p ≡ after_blocks blocks p (utxo.get_utxo s p)
    pub last : Option BlockHeader
    pub at_last : Tip c db now s' result last

  accept_block-Extends :
      (height : ℕ) (m m' : SyncManager) (s s' : utxo.Store) (tip : Option BlockHeader) (b : Block)
      → Tip c db now s height tip
      → All (λ (tx : Transaction). length tx.outputs ≤ 2 ^ 32) b.transactions
      → accept_block c db now (height + 1) (m, s) b ≡ ok (m', s')
      → Extends c now tip b
        × (m'.local_chain ≡ m.local_chain ++ (b.header ∷ []))
        × ((k : ℕ) → get_block s' k ≡ (if height + 1 == k then ok (some b) else get_block s k))
        × ((p : OutPoint)
            → utxo.get_utxo s' p ≡ after_block (txid c) b.transactions p (utxo.get_utxo s p))
  unfolding accept_block
  accept_block-Extends height m m' s s' tip b at_tip room h =
      let (_, e0, h0) = >>=-eq-ok (check_block c db now s (height + 1) b) _ h in
      let (s1, e1, h1) = >>=-eq-ok (written (save_block s (height + 1) b)) _ h0 in
      let (s2, e2, h2) =
        >>=-eq-ok (written (update_utxo_set utxo (txid c) s1 b.transactions)) _ h1 in
      let done : (push_header c m b.header (height + 1), s2) ≡ (m', s') = ok-injective h2 in
      let same_store : s2 ≡ s' = ap (λ p. p.1) done in
      let saved = written-eq-ok (save_block s (height + 1) b) e1 in
      let updated = written-eq-ok (update_utxo_set utxo (txid c) s1 b.transactions) e2 in
      (
        check_block-Extends c db now s height tip b at_tip e0,
        ap (λ p. p.0.local_chain) (sym done),
        λ k.
            ap (λ t. get_block t k) (sym same_store)
            ∙ get_block-update_utxo_set c db now s1 s2 k b.transactions updated
            ∙ get_block-save_block s s1 (height + 1) k b saved,
        λ p.
            ap (λ t. utxo.get_utxo t p) (sym same_store)
            ∙ get-update_utxo_set utxo (txid c) b.transactions s1 s2 p room updated
            ∙ ap (after_block (txid c) b.transactions p)
                (get_utxo-save_block s s1 (height + 1) p b saved),
      )

  pub accept_blocks-IsSynced :
      (height : ℕ) (m m' : SyncManager) (s s' : utxo.Store) (tip : Option BlockHeader)
      (blocks : List Block) (result : ℕ)
      → Tip c db now s height tip
      → AllRoom blocks
      → accept_blocks c db now height (m, s) blocks ≡ ((m', s'), ok result)
      → IsSynced height m m' s s' tip blocks result
  unfolding accept_blocks
  accept_blocks-IsSynced height m m' s s' tip [] result at_tip room h =
      let reached : height ≡ result = ok-injective (ap (λ p. p.1) h) in
      let same_store : s ≡ s' = ap (λ p. p.0.1) h in
      record {
        linked = tt;
        counted = omega arith;
        chain = ap (λ p. p.0.0.local_chain) (sym h) ∙ sym (append_nil m.local_chain);
        stored = λ k. ap (λ t. get_block t k) (sym same_store);
        outputs = λ p. ap (λ t. utxo.get_utxo t p) (sym same_store);
        last = tip;
        at_last = rw (same_store, reached) at at_tip;
      }
  accept_blocks-IsSynced height m m' s s' tip (b ∷ rest) result at_tip (room, rooms) h =
      let ((m1, s1), accepted, h1) =
        resume-eq-ok (left_behind c db now (height + 1) (m, s) b)
          (accept_block c db now (height + 1) (m, s) b) _ h in
      let (extends, pushed, stored, outputs) =
        accept_block-Extends height m m1 s s1 tip b at_tip room accepted in
      let here = (==_iff (height + 1) (height + 1)).1 refl in
      let there : get_block s1 (height + 1) ≡ ok (some b) = stored (height + 1) ∙ rw here refl in
      let ih =
        accept_blocks-IsSynced (height + 1) m1 m' s1 s' (some b.header) rest result
          (inr (b, omega arith, there, refl)) rooms h1 in
      let count = ih.counted in
      record {
        linked = (extends, ih.linked);
        counted = omega arith;
        chain =
            ih.chain
            ∙ ap (λ xs. xs ++ map (λ (x : Block). x.header) rest) pushed
            ∙ append_assoc m.local_chain b.header (map (λ (x : Block). x.header) rest);
        stored = λ k.
            ih.stored k
            ∙ ap (block_at (height + 1) rest k) (stored k)
            ∙ block_at_next height b rest k (get_block s k);
        outputs = λ p. ih.outputs p ∙ ap (after_blocks rest p) (outputs p);
        last = ih.last;
        at_last = ih.at_last;
      }

  -- Let the store hold the block at the manager's height with the header `tip`, or the height be 0,
  -- and let no transaction have more than 2^32 outputs. If `verify_and_accept_blocks` returns a
  -- height, then the blocks form a chain on `tip`: each names the hash of the one before, is later
  -- than it, at most two hours ahead of the clock, meets the difficulty that it names itself, has the
  -- Merkle root of its transactions, and a valid signature if it has one. The height is the old one
  -- plus the number of blocks, `local_chain` is extended by their headers in order, the store holds
  -- exactly these blocks at the heights behind the old one and at every other height what it held,
  -- and every outpoint holds what the transactions of the blocks, in their order, leave there.
  pub verify_and_accept_blocks-IsSynced :
      (m m' : SyncManager) (s s' : utxo.Store) (tip : Option BlockHeader) (blocks : List Block)
      (result : ℕ)
      → Tip c db now s (current_height m) tip
      → AllRoom blocks
      → verify_and_accept_blocks c db now (m, s) blocks ≡ ((m', s'), ok result)
      → IsSynced (current_height m) m m' s s' tip blocks result
  unfolding verify_and_accept_blocks
  verify_and_accept_blocks-IsSynced m m' s s' tip blocks result at_tip room h =
      accept_blocks-IsSynced (current_height m) m m' s s' tip blocks result at_tip room h
