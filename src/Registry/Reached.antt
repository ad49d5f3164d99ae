-- ===== src/Registry/Reached.antt =====
-- The totals of `MinerRegistry` over all its operations.
use accum_core.Base.{
  ℕ, ◌+◌, ◌%◌, ◌^◌, ◌≡◌, refl, sym, ap, ◌∙◌, inl, inr, false, Option, none, some, List, [], ◌∷◌,
  ◌++◌, ltb, eq_bytes, eq_of_eq_bytes, Bool-cases, arith,
}
use accum_core.Base.Dict.{Dict, lookup, unwrap_or, lookup-insert}
use accum_core.Bond.{bond_lockup_blocks}
use accum_core.Miner.{Floats}
use accum_core.Registry.{
  BondEntry, sum_amounts, MinerInfo, MinerRegistry, new_registry, default_miner, change_miner,
  with_valid_share, with_invalid_share, add_valid_share, add_invalid_share, lock_bond, age_all,
  cleanup, ban_all, next_epoch, set_height,
}
use accum_core.Registry.Keys.{lookup-insert_other, insert-Distinct, stored}
use accum_core.Registry.Backed.{
  total_of, known, IsBacked, Same, Same-IsBacked, age_all-Same, ban_all-Same, cleanup-IsBacked,
}
use accum_core.Tx.{minimum_bond_lyt}

sum_amounts_last :
    (bs : List BondEntry) (b : BondEntry)
    → sum_amounts (bs ++ (b ∷ [])) ≡ (sum_amounts bs + b.amount) % 2 ^ 64
unfolding sum_amounts
sum_amounts_last [] b = omega arith
sum_amounts_last (x ∷ bs) b = let ih = sum_amounts_last bs b in omega arith

module _ (f : Floats) where
  default_total :
      (now : ℕ) (k : List ℕ) (o : Option (MinerInfo f))
      → (unwrap_or (default_miner f now k) o).bond_total ≡ total_of f o
  default_total now k none = refl
  default_total now k (some m) = refl

  change_miner-Same :
      (now : ℕ) (k : List ℕ) (change : MinerInfo f → MinerInfo f) (ms : Dict (MinerInfo f))
      → ((m : MinerInfo f) → (change m).bond_total ≡ m.bond_total)
      → Same f ms (change_miner f now k change ms)
  unfolding change_miner
  change_miner-Same now k change ms keeps q =
      let entry = change (unwrap_or (default_miner f now k) (lookup k ms)) in
      let e = lookup-insert k q entry ms in
      elim (Bool-cases (eq_bytes k q)) [
        | inl hit ↦
            let total =
              keeps (unwrap_or (default_miner f now k) (lookup k ms))
              ∙ default_total now k (lookup k ms)
              ∙ ap (λ x. total_of f (lookup x ms)) (eq_of_eq_bytes k q hit) in
            rw (change_miner, e, hit) (total, λ h. cc h)
        | inr miss ↦ rw (change_miner, e, miss) (refl, λ h. h)
      ]

  lock_bond-IsBacked :
      (now : ℕ) (r : MinerRegistry f) (k : List ℕ) (amount : ℕ)
      → IsBacked f r
      → IsBacked f (lock_bond f now r k amount).0
  unfolding lock_bond change_miner
  lock_bond-IsBacked now r k amount inv = elim (Bool-cases (ltb amount minimum_bond_lyt)) [
    | inl small ↦ rw (lock_bond, small) inv
    | inr enough ↦
        let entry : BondEntry = record {
          amount = amount;
          locked_until = (r.current_height + bond_lockup_blocks) % 2 ^ 64;
          created_at = r.current_height;
        } in
        let old = unwrap_or (default_miner f now k) (lookup k r.miners) in
        let list = stored (lookup k r.bonds) ++ (entry ∷ []) in
        let m = record old { bond_total = (old.bond_total + amount) % 2 ^ 64 } in
        let total : (old.bond_total + amount) % 2 ^ 64 ≡ sum_amounts list =
          ap (λ x. (x + amount) % 2 ^ 64) (default_total now k (lookup k r.miners) ∙ inv.backed k)
          ∙ sym (sum_amounts_last (stored (lookup k r.bonds)) entry) in
        rw (lock_bond, enough)
          (record {
            distinct = insert-Distinct k list r.bonds inv.distinct;
            backed = λ q. elim (Bool-cases (eq_bytes k q)) [
              | inl hit ↦
                  rw (lookup-insert k q m r.miners, lookup-insert k q list r.bonds, hit) total
              | inr miss ↦
                  rw (lookup-insert k q m r.miners, lookup-insert k q list r.bonds, miss)
                    (inv.backed q)
            ];
            entered = λ q h. elim (Bool-cases (eq_bytes k q)) [
              | inl hit ↦ cc (rw (lookup-insert k q m r.miners, hit) at h)
              | inr miss ↦
                  let h' : known f (lookup q r.miners) ≡ false =
                    rw (lookup-insert k q m r.miners, miss) at h in
                  lookup-insert_other k q list r.bonds miss ∙ inv.entered q h'
            ];
          })
  ]

  next_epoch-IsBacked : (r : MinerRegistry f) → IsBacked f r → IsBacked f (next_epoch f r)
  unfolding next_epoch cleanup
  next_epoch-IsBacked r inv =
      let epoch = (r.current_epoch + 1) % 2 ^ 32 in
      let aged = record r { current_epoch = epoch; miners = age_all f epoch r.miners } in
      let aged_inv =
        Same-IsBacked f r aged.miners epoch r.current_height (age_all-Same f epoch r.miners) inv in
      Same-IsBacked f (cleanup f aged) (ban_all f epoch (cleanup f aged).miners) epoch
        r.current_height (ban_all-Same f epoch (cleanup f aged).miners)
        (cleanup-IsBacked f aged aged_inv)

  -- The registries that the operations lead to from a new one.
  pub data Reached : MinerRegistry f → Type 0 where
    begin : Reached (new_registry f)
    valid_share :
        {r : MinerRegistry f} (now : ℕ) (k : List ℕ)
        → Reached r
        → Reached (add_valid_share f now r k)
    invalid_share :
        {r : MinerRegistry f} (now : ℕ) (k : List ℕ)
        → Reached r
        → Reached (add_invalid_share f now r k)
    bond :
        {r : MinerRegistry f} (now : ℕ) (k : List ℕ) (amount : ℕ)
        → Reached r
        → Reached (lock_bond f now r k amount).0
    epoch_end : {r : MinerRegistry f} → Reached r → Reached (next_epoch f r)
    new_height : {r : MinerRegistry f} (height : ℕ) → Reached r → Reached (set_height f height r)

  -- Whatever shares, bonds, heights and ends of epochs a registry sees: the total that it
  -- keeps of each miner is the sum in 64 bits of the bonds that it stores for the miner, each key
  -- stands once in the map of bonds, and whoever has a bond is known as a miner.
  pub Reached-IsBacked : {r : MinerRegistry f} → Reached r → IsBacked f r
  unfolding add_valid_share add_invalid_share lookup sum_amounts
  Reached-IsBacked begin = record { distinct = tt; backed = λ k. refl; entered = λ k h. refl }
  Reached-IsBacked (valid_share {r = r} now k before) =
      Same-IsBacked f r _ r.current_epoch r.current_height
        (change_miner-Same now k (with_valid_share f r.current_epoch) r.miners (λ m. refl))
        (Reached-IsBacked before)
  Reached-IsBacked (invalid_share {r = r} now k before) =
      Same-IsBacked f r _ r.current_epoch r.current_height
        (change_miner-Same now k (with_invalid_share f r.current_epoch) r.miners (λ m. refl))
        (Reached-IsBacked before)
  Reached-IsBacked (bond {r = r} now k amount before) =
      lock_bond-IsBacked now r k amount (Reached-IsBacked before)
  Reached-IsBacked (epoch_end {r = r} before) = next_epoch-IsBacked r (Reached-IsBacked before)
  Reached-IsBacked (new_height {r = r} height before) =
      Same-IsBacked f r r.miners r.current_epoch height (λ k. (refl, λ h. h))
        (Reached-IsBacked before)
