-- ===== src/Slashing/Never.antt =====
-- The equivocation check of accum-node/src/main.rs reads both blocks from one place.
use accum_core.Base.{
  ℕ, ◌≡◌, ◌≢◌, sym, ap, ◌∙◌, inl, inr, true, List, [], ◌∷◌, ok, ok-injective, >>=-eq-ok,
  eq_bytes_refl, Bool-cases, Result-cases,
}
use accum_core.Base.Dict.{mem}
use accum_core.Crypto.{Crypto}
use accum_core.Pow.{header_hash}
use accum_core.Slashing.{
  EquivocationProof, SlashRecord, SlashingPool, SlashDb, block_not_found, found, verify,
  process_proof, process_proofs, process_all,
}

module _ (c : Crypto) (db : SlashDb) (now : ℕ) where
  open db use {Store, get_block}

  -- For every proof and every store, `verify` does not return true: it reads the block at the proof's
  -- height twice, finds the hashes equal, and so never gets to the signatures.
  pub verify_never_true :
      (s : Store) (proof : EquivocationProof) → verify c db now s proof ≢ ok true
  unfolding verify
  verify_never_true s proof h =
      elim (Result-cases (found block_not_found (get_block s proof.block_height))) [
        | inr (e, failed) ↦ cc (rw failed at h)
        | inl (b, there) ↦ cc (rw (there, eq_bytes_refl (header_hash c b.header)) at h)
      ]

  process_proof_idle :
      (s : Store) (processed : List (List ℕ)) (results : List SlashRecord) (height : ℕ)
      (proof : EquivocationProof) {st : Store × List (List ℕ) × List SlashRecord}
      → process_proof c db now height (s, processed, results) proof ≡ ok st
      → st ≡ (s, processed, results)
  unfolding process_proof
  process_proof_idle s processed results height proof h =
      elim (Bool-cases (mem proof.miner_id processed)) [
        | inl known ↦ sym (ok-injective (rw known at h))
        | inr new ↦
            let (proven, e, h1) = >>=-eq-ok (verify c db now s proof) _ (rw new at h) in
            elim (Bool-cases proven) [
              | inl shown ↦ elim (verify_never_true s proof (e ∙ ap ok shown)) [ ]
              | inr unshown ↦ sym (ok-injective (rw unshown at h1))
            ]
      ]

  process_proofs_idle :
      (s : Store) (processed : List (List ℕ)) (results : List SlashRecord) (height : ℕ)
      (proofs : List EquivocationProof) {st : Store × List (List ℕ) × List SlashRecord}
      → process_proofs c db now height (s, processed, results) proofs ≡ ok st
      → st ≡ (s, processed, results)
  unfolding process_proofs
  process_proofs_idle s processed results height [] h = sym (ok-injective h)
  process_proofs_idle s processed results height (proof ∷ rest) h =
      let (st, e, h1) =
        >>=-eq-ok (process_proof c db now height (s, processed, results) proof) _ h in
      process_proofs_idle s processed results height rest
        (rw (process_proof_idle s processed results height proof e) at h1)

  -- Whenever `process_all` succeeds, it has slashed nobody: the store and the set of slashed miners
  -- are as they were, no record is returned, and the pending proofs are gone.
  process_all_idle :
      (s s' : Store) (p p' : SlashingPool) (height : ℕ) (records : List SlashRecord)
      → process_all c db now s p height ≡ ok (s', p', records)
      → (s' ≡ s)
        × (records ≡ [])
        × (p'.processed_slashes ≡ p.processed_slashes)
        × (p'.pending_slashes ≡ [])
  unfolding process_all
  process_all_idle s s' p p' height records h =
      let (st, e, h1) =
        >>=-eq-ok (process_proofs c db now height (s, p.processed_slashes, []) p.pending_slashes) _
          h in
      let same = process_proofs_idle s p.processed_slashes [] height p.pending_slashes e in
      let done = ok-injective (rw same at h1) in
      (
        ap (λ r. r.0) (sym done),
        ap (λ r. r.2) (sym done),
        ap (λ r. r.1.processed_slashes) (sym done),
        ap (λ r. r.1.pending_slashes) (sym done),
      )
