-- ===== src/Registry/Keys.antt =====
-- Dictionaries in which each key stands once, as in a `HashMap`.
use accum_core.Base.{
  ℕ, ◌≡◌, refl, sym, ap, ◌∙◌, inl, inr, false, Option, none, List, [], ◌∷◌, eq_bytes,
  eq_of_eq_bytes, eq_bytes_refl, Bool-cases,
}
use accum_core.Base.Dict.{Dict, lookup, insert, unwrap_or, lookup-insert}
use accum_core.Registry.{BondEntry, retain_locked, keep_entry, kept_bonds}

abbrev pub Distinct {ℓ} : {V : Type ℓ} → Dict V → Type ℓ
Distinct [] = Unit
Distinct ((k, v) ∷ rest) = (lookup k rest ≡ none) × Distinct rest

pub lookup-insert_other {ℓ} :
    {V : Type ℓ} (k q : List ℕ) (v : V) (d : Dict V)
    → eq_bytes k q ≡ false
    → lookup q (insert k v d) ≡ lookup q d
lookup-insert_other k q v d other = rw (lookup-insert k q v d, other) refl

eq_bytes_sym : (k q : List ℕ) → eq_bytes q k ≡ false → eq_bytes k q ≡ false
eq_bytes_sym k q h = elim (Bool-cases (eq_bytes k q)) [
  | inl same ↦ cc (eq_of_eq_bytes k q same, eq_bytes_refl k, h)
  | inr other ↦ other
]

pub insert-Distinct {ℓ} :
    {V : Type ℓ} (k : List ℕ) (v : V) (d : Dict V) → Distinct d → Distinct (insert k v d)
unfolding insert lookup
insert-Distinct k v [] h = (refl, tt)
insert-Distinct k v ((q, w) ∷ d) h = elim (Bool-cases (eq_bytes q k)) [
  | inl same ↦ rw same h
  | inr other ↦
      let other' : eq_bytes k q ≡ false = eq_bytes_sym k q other in
      rw other (lookup-insert_other k q v d other' ∙ h.0, insert-Distinct k v d h.1)
]

-- A list of bonds in a dictionary, with the empty list where there is none.
abbrev pub stored : Option (List BondEntry) → List BondEntry
stored o = unwrap_or [] o

lookup-keep_entry_other :
    (k q : List ℕ) (bs : List BondEntry) (d : Dict (List BondEntry))
    → eq_bytes k q ≡ false
    → lookup q (keep_entry k bs d) ≡ lookup q d
unfolding lookup
lookup-keep_entry_other k q [] d other = refl
lookup-keep_entry_other k q (b ∷ bs) d other = rw other refl

lookup-keep_entry :
    (k : List ℕ) (bs : List BondEntry) (d : Dict (List BondEntry))
    → lookup k d ≡ none
    → stored (lookup k (keep_entry k bs d)) ≡ bs
unfolding lookup
lookup-keep_entry k [] d h = rw h refl
lookup-keep_entry k (b ∷ bs) d h = rw (eq_bytes_refl k) refl

-- A miner without bonds has none after the cleanup.
pub lookup-kept_bonds-none :
    (height : ℕ) (k : List ℕ) (d : Dict (List BondEntry))
    → lookup k d ≡ none
    → lookup k (kept_bonds height d) ≡ none
unfolding kept_bonds lookup
lookup-kept_bonds-none height k [] h = refl
lookup-kept_bonds-none height k ((q, bs) ∷ rest) h = elim (Bool-cases (eq_bytes q k)) [
  | inl same ↦ cc (rw same at h)
  | inr other ↦
      let h' : lookup k rest ≡ none = rw other at h in
      lookup-keep_entry_other q k (retain_locked height bs) (kept_bonds height rest) other
      ∙ lookup-kept_bonds-none height k rest h'
]

-- The bonds of a miner after the cleanup are those of its bonds that are still locked.
pub lookup-kept_bonds :
    (height : ℕ) (k : List ℕ) (d : Dict (List BondEntry))
    → Distinct d
    → stored (lookup k (kept_bonds height d)) ≡ retain_locked height (stored (lookup k d))
unfolding kept_bonds lookup retain_locked
lookup-kept_bonds height k [] h = refl
lookup-kept_bonds height k ((q, bs) ∷ rest) h = elim (Bool-cases (eq_bytes q k)) [
  | inl same ↦
      let e = eq_of_eq_bytes q k same in
      let gone = lookup-kept_bonds-none height q rest h.0 in
      rw (same, sym e) (lookup-keep_entry q (retain_locked height bs) (kept_bonds height rest) gone)
  | inr other ↦
      ap stored
        (lookup-keep_entry_other q k (retain_locked height bs) (kept_bonds height rest) other)
      ∙ rw other (lookup-kept_bonds height k rest h.1)
]

keep_entry-Distinct :
    (k : List ℕ) (bs : List BondEntry) (d : Dict (List BondEntry))
    → lookup k d ≡ none
    → Distinct d
    → Distinct (keep_entry k bs d)
keep_entry-Distinct k [] d h u = u
keep_entry-Distinct k (b ∷ bs) d h u = (h, u)

pub kept_bonds-Distinct :
    (height : ℕ) (d : Dict (List BondEntry)) → Distinct d → Distinct (kept_bonds height d)
unfolding kept_bonds
kept_bonds-Distinct height [] h = tt
kept_bonds-Distinct height ((k, bs) ∷ rest) h =
    keep_entry-Distinct k (retain_locked height bs) (kept_bonds height rest)
      (lookup-kept_bonds-none height k rest h.0) (kept_bonds-Distinct height rest h.1)
