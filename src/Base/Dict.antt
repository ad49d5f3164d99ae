-- ===== src/Base/Dict.antt =====
-- `HashMap` and `HashSet` with byte strings as keys: an association list and a list, in which a key
-- is found at most once.
use mathlib.Core.Path.{◌≡◌, refl}
use mathlib.Core.Logic.{inl, inr}
use mathlib.Core.Bool.{Bool, false, ◌||◌}
use mathlib.Core.Option.{Option, none, some}
use mathlib.Core.List.{List, [], ◌∷◌}
use Prim.Native.Nat.{ℕ}
use accum_core.Base.Tests.{eq_bytes, eq_of_eq_bytes, if◌then◌else◌, Bool-cases}

abbrev pub Dict {ℓ} : Type ℓ → Type ℓ
Dict V = List (List ℕ × V)

-- `get`
unfoldable pub lookup {ℓ} : {V : Type ℓ} → List ℕ → Dict V → Option V
lookup k [] = none
lookup k ((q, v) ∷ d) = if eq_bytes q k then some v else lookup k d

-- `insert`: the old entry is replaced.
unfoldable pub insert {ℓ} : {V : Type ℓ} → List ℕ → V → Dict V → Dict V
insert k v [] = (k, v) ∷ []
insert k v ((q, w) ∷ d) = if eq_bytes q k then (q, v) ∷ d else (q, w) ∷ insert k v d

-- `remove`
pub remove {ℓ} : {V : Type ℓ} → List ℕ → Dict V → Dict V
remove k [] = []
remove k ((q, w) ∷ d) = let rest = remove k d in if eq_bytes q k then rest else (q, w) ∷ rest

-- `unwrap_or`
abbrev pub unwrap_or {ℓ} : {A : Type ℓ} → A → Option A → A
unwrap_or a none = a
unwrap_or a (some b) = b

-- `HashSet::contains`
unfoldable pub mem : List ℕ → List (List ℕ) → Bool
mem k [] = false
mem k (q ∷ s) = eq_bytes q k || mem k s

-- `HashSet::insert`
abbrev pub include : List ℕ → List (List ℕ) → List (List ℕ)
include k s = if mem k s then s else k ∷ s

-- `HashSet::remove`
pub exclude : List ℕ → List (List ℕ) → List (List ℕ)
exclude k [] = []
exclude k (q ∷ s) = let rest = exclude k s in if eq_bytes q k then rest else q ∷ rest

-- A lookup sees the last insertion of its key, and no other.
pub lookup-insert {ℓ} :
    {V : Type ℓ} (k q : List ℕ) (v : V) (d : Dict V)
    → lookup q (insert k v d) ≡ (if eq_bytes k q then some v else lookup q d)
unfolding lookup insert
lookup-insert k q v [] = refl
lookup-insert k q v ((p, w) ∷ d) = elim (Bool-cases (eq_bytes p k)) [
  | inl same ↦
      let e = eq_of_eq_bytes p k same in
      elim (Bool-cases (eq_bytes k q)) [
        | inl hit ↦ rw (same, e, hit) refl
        | inr miss ↦ rw (same, e, miss) refl
      ]
  | inr other ↦ elim (Bool-cases (eq_bytes p q)) [
    | inl hit ↦ elim (Bool-cases (eq_bytes k q)) [
      | inl both ↦ cc (eq_of_eq_bytes k q both)
      | inr miss ↦ rw (other, hit, miss) refl
    ]
    | inr miss ↦ rw (other, miss) (lookup-insert k q v d)
  ]
]

pub mem-include :
    (k q : List ℕ) (s : List (List ℕ)) → mem q (include k s) ≡ (eq_bytes k q || mem q s)
unfolding mem
mem-include k q s = elim (Bool-cases (mem k s)) [
  | inl there ↦ elim (Bool-cases (eq_bytes k q)) [
    | inl hit ↦ rw (there, hit) (rw (eq_of_eq_bytes k q hit) at there)
    | inr miss ↦ rw (there, miss) refl
  ]
  | inr new ↦ rw new refl
]

mem-exclude : (k : List ℕ) (s : List (List ℕ)) → mem k (exclude k s) ≡ false
unfolding mem exclude
mem-exclude k [] = refl
mem-exclude k (q ∷ s) = elim (Bool-cases (eq_bytes q k)) [
  | inl hit ↦ rw hit (mem-exclude k s)
  | inr miss ↦ rw (miss, miss) (mem-exclude k s)
]
