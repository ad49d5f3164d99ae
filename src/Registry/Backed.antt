-- ===== src/Registry/Backed.antt =====
-- The total that `MinerRegistry` keeps for a miner, and the bonds behind it.
use accum_core.Base.{
  ℕ, ◌≡◌, refl, sym, ap, ◌∙◌, inl, inr, Bool, true, false, Option, none, some, List, [], ◌∷◌, ◌==◌,
  ==_iff, if◌then◌else◌, eq_bytes, eq_of_eq_bytes, eq_bytes_refl, Bool-cases, Option-cases,
}
use accum_core.Base.Dict.{Dict, lookup, lookup-insert}
use accum_core.Miner.{Floats}
use accum_core.Registry.{
  BondEntry, sum_amounts, retain_locked, MinerInfo, MinerRegistry, age, age_all, settle_bonds,
  settle_all, cleanup, must_ban, ban_all,
}
use accum_core.Registry.Keys.{
  Distinct, lookup-insert_other, stored, lookup-kept_bonds-none, lookup-kept_bonds,
  kept_bonds-Distinct,
}

module _ (f : Floats) where
  -- The total of an entry, 0 where there is none.
  abbrev pub total_of : Option (MinerInfo f) → ℕ
  total_of none = 0
  total_of (some m) = m.bond_total

  abbrev pub known : Option (MinerInfo f) → Bool
  known none = false
  known (some m) = true

  -- Of each miner with bonds there is an entry, and the total of each is the sum of its bonds.
  pub record IsBacked (r : MinerRegistry f) : Type 0 where
    pub distinct : Distinct r.bonds
    pub backed :
        (k : List ℕ) → total_of (lookup k r.miners) ≡ sum_amounts (stored (lookup k r.bonds))
    pub entered : (k : List ℕ) → known (lookup k r.miners) ≡ false → lookup k r.bonds ≡ none

  -- What two dictionaries of miners agree on.
  abbrev pub Same : Dict (MinerInfo f) → Dict (MinerInfo f) → Type 0
  Same ms ms' =
      (k : List ℕ)
      → (total_of (lookup k ms') ≡ total_of (lookup k ms))
        × (known (lookup k ms') ≡ false → known (lookup k ms) ≡ false)

  pub Same-IsBacked :
      (r : MinerRegistry f) (ms : Dict (MinerInfo f)) (epoch height : ℕ)
      → Same r.miners ms
      → IsBacked r
      → IsBacked
          (record { miners = ms; bonds = r.bonds; current_epoch = epoch; current_height = height })
  Same-IsBacked r ms epoch height same inv = record {
    distinct = inv.distinct;
    backed = λ k. (same k).0 ∙ inv.backed k;
    entered = λ k h. inv.entered k ((same k).1 h);
  }

  pub age_all-Same : (epoch : ℕ) (ms : Dict (MinerInfo f)) → Same ms (age_all f epoch ms)
  unfolding age_all age lookup
  age_all-Same epoch [] k = (refl, λ h. h)
  age_all-Same epoch ((q, m) ∷ rest) k = elim (Bool-cases (eq_bytes q k)) [
    | inl same ↦ rw same (refl, λ h. h)
    | inr other ↦ rw other (age_all-Same epoch rest k)
  ]

  unbanned_total :
      (b : Bool) (m m' : MinerInfo f)
      → m'.bond_total ≡ m.bond_total
      → (if b then m' else m).bond_total ≡ m.bond_total
  unbanned_total true m m' h = h
  unbanned_total false m m' h = refl

  pub ban_all-Same : (epoch : ℕ) (ms : Dict (MinerInfo f)) → Same ms (ban_all f epoch ms)
  unfolding ban_all lookup
  ban_all-Same epoch [] k = (refl, λ h. h)
  ban_all-Same epoch ((q, m) ∷ rest) k = elim (Bool-cases (eq_bytes q k)) [
    | inl same ↦ rw same (unbanned_total (must_ban f m) m _ refl, λ h. h)
    | inr other ↦ rw other (ban_all-Same epoch rest k)
  ]

  -- The entry of another miner, and of the miner itself, after the cleanup of its bonds.
  settle_bonds_other :
      (height : ℕ) (k q : List ℕ) (bs : List BondEntry) (ms : Dict (MinerInfo f))
      → eq_bytes k q ≡ false
      → lookup q (settle_bonds f height k bs ms) ≡ lookup q ms
  unfolding settle_bonds
  settle_bonds_other height k q bs ms other =
      elim (Bool-cases (sum_amounts bs == sum_amounts (retain_locked height bs))) [
        | inl same ↦ rw (settle_bonds, same) refl
        | inr changed ↦ elim (Option-cases (lookup k ms)) [
          | inl nothing ↦ rw (settle_bonds, changed, nothing) refl
          | inr (m, found) ↦
              rw (settle_bonds, changed, found)
                (lookup-insert_other k q
                  (record m { bond_total = sum_amounts (retain_locked height bs) }) ms other)
        ]
      ]

  known-settle_bonds :
      (height : ℕ) (k q : List ℕ) (bs : List BondEntry) (ms : Dict (MinerInfo f))
      → known (lookup q (settle_bonds f height k bs ms)) ≡ known (lookup q ms)
  unfolding settle_bonds
  known-settle_bonds height k q bs ms = elim (Bool-cases (eq_bytes k q)) [
    | inr other ↦ ap known (settle_bonds_other height k q bs ms other)
    | inl same ↦ elim (Bool-cases (sum_amounts bs == sum_amounts (retain_locked height bs))) [
      | inl equal ↦ rw (settle_bonds, equal) refl
      | inr changed ↦ elim (Option-cases (lookup k ms)) [
        | inl nothing ↦ rw (settle_bonds, changed, nothing) refl
        | inr (m, found) ↦
            let e =
              lookup-insert k q (record m { bond_total = sum_amounts (retain_locked height bs) })
                ms in
            let there : known (lookup q ms) ≡ true =
              ap known (rw (eq_of_eq_bytes k q same) at found) in
            rw (settle_bonds, changed, found, e, same) (sym there)
      ]
    ]
  ]

  settle_bonds_own :
      (height : ℕ) (k : List ℕ) (bs : List BondEntry) (ms : Dict (MinerInfo f))
      → known (lookup k ms) ≡ true
      → total_of (lookup k ms) ≡ sum_amounts bs
      → (total_of (lookup k (settle_bonds f height k bs ms))
          ≡ sum_amounts (retain_locked height bs))
        × (known (lookup k (settle_bonds f height k bs ms)) ≡ true)
  unfolding settle_bonds
  settle_bonds_own height k bs ms there total =
      elim (Bool-cases (sum_amounts bs == sum_amounts (retain_locked height bs))) [
        | inl same ↦
            let e = (==_iff (sum_amounts bs) (sum_amounts (retain_locked height bs))).0 same in
            rw (settle_bonds, same) (total ∙ e, there)
        | inr changed ↦ elim (Option-cases (lookup k ms)) [
          | inl nothing ↦ cc (rw nothing at there)
          | inr (m, found) ↦
              let e =
                lookup-insert k k (record m { bond_total = sum_amounts (retain_locked height bs) })
                  ms in
              rw (settle_bonds, changed, found, e, eq_bytes_refl k) (refl, refl)
        ]
      ]

  settle_all_other :
      (height : ℕ) (q : List ℕ) (d : Dict (List BondEntry)) (ms : Dict (MinerInfo f))
      → lookup q d ≡ none
      → lookup q (settle_all f height d ms) ≡ lookup q ms
  unfolding settle_all lookup
  settle_all_other height q [] ms h = refl
  settle_all_other height q ((k, bs) ∷ rest) ms h = elim (Bool-cases (eq_bytes k q)) [
    | inl same ↦ cc (rw same at h)
    | inr other ↦
        let h' : lookup q rest ≡ none = rw other at h in
        settle_all_other height q rest (settle_bonds f height k bs ms) h'
        ∙ settle_bonds_other height k q bs ms other
  ]

  settle_all_own :
      (height : ℕ) (q : List ℕ) (d : Dict (List BondEntry)) (ms : Dict (MinerInfo f))
      → Distinct d
      → known (lookup q ms) ≡ true
      → total_of (lookup q ms) ≡ sum_amounts (stored (lookup q d))
      → total_of (lookup q (settle_all f height d ms))
        ≡ sum_amounts (retain_locked height (stored (lookup q d)))
  unfolding settle_all lookup sum_amounts retain_locked
  settle_all_own height q [] ms u there total = total
  settle_all_own height q ((k, bs) ∷ rest) ms u there total = elim (Bool-cases (eq_bytes k q)) [
    | inl same ↦
        let e = eq_of_eq_bytes k q same in
        let there' : known (lookup k ms) ≡ true = rw (sym e) at there in
        let total' : total_of (lookup k ms) ≡ sum_amounts bs = rw (same, sym e) at total in
        let own = settle_bonds_own height k bs ms there' total' in
        rw (same, sym e)
          (ap total_of (settle_all_other height k rest (settle_bonds f height k bs ms) u.0) ∙ own.0)
    | inr other ↦
        let step = settle_bonds_other height k q bs ms other in
        let total' : total_of (lookup q ms) ≡ sum_amounts (stored (lookup q rest)) =
          rw other at total in
        rw other (
          settle_all_own height q rest (settle_bonds f height k bs ms) u.1 (ap known step ∙ there)
            (ap total_of step ∙ total'))
  ]

  known-settle_all :
      (height : ℕ) (q : List ℕ) (d : Dict (List BondEntry)) (ms : Dict (MinerInfo f))
      → known (lookup q (settle_all f height d ms)) ≡ known (lookup q ms)
  unfolding settle_all
  known-settle_all height q [] ms = refl
  known-settle_all height q ((k, bs) ∷ rest) ms =
      known-settle_all height q rest (settle_bonds f height k bs ms)
      ∙ known-settle_bonds height k q bs ms

  -- `cleanup_expired_bonds` keeps the totals and leaves no bond that has expired.
  pub cleanup-IsBacked : (r : MinerRegistry f) → IsBacked r → IsBacked (cleanup f r)
  unfolding cleanup
  cleanup-IsBacked r inv = record {
    distinct = kept_bonds-Distinct r.current_height r.bonds inv.distinct;
    backed = λ k. elim (Bool-cases (known (lookup k r.miners))) [
      | inl there ↦
          settle_all_own r.current_height k r.bonds r.miners inv.distinct there (inv.backed k)
          ∙ ap sum_amounts (sym (lookup-kept_bonds r.current_height k r.bonds inv.distinct))
      | inr absent ↦
          let none_locked = inv.entered k absent in
          let gone = lookup-kept_bonds-none r.current_height k r.bonds none_locked in
          ap total_of (settle_all_other r.current_height k r.bonds r.miners none_locked)
          ∙ inv.backed k
          ∙ ap (λ o. sum_amounts (stored o)) (none_locked ∙ sym gone)
    ];
    entered = λ k h.
        lookup-kept_bonds-none r.current_height k r.bonds
          (inv.entered k (sym (known-settle_all r.current_height k r.bonds r.miners) ∙ h));
  }
