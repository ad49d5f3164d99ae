-- ===== src/Base/Totals.antt =====
-- Sums over the values of a map.
use Prim.Native.Nat.{ℕ, ◌+◌}
use mathlib.Core.Path.{◌≡◌}
use mathlib.Core.Logic.{inl, inr}
use mathlib.Core.Option.{Option, none, some}
use mathlib.Core.List.{List, [], ◌∷◌}
use native.Mathlib.Omega.{arith}
use accum_core.Base.Dict.{Dict, lookup, insert}
use accum_core.Base.Tests.{eq_bytes, Bool-cases}

module _ {ℓ} {V : Type ℓ} (measure : V → ℕ) where
  abbrev pub total : Dict V → ℕ
  total [] = 0
  total ((k, v) ∷ d) = measure v + total d

  abbrev pub measure_or_zero : Option V → ℕ
  measure_or_zero none = 0
  measure_or_zero (some v) = measure v

  -- An insertion exchanges the value of its key.
  pub total-insert :
      (k : List ℕ) (v : V) (d : Dict V)
      → total (insert k v d) + measure_or_zero (lookup k d) ≡ total d + measure v
  unfolding insert lookup
  total-insert k v [] = omega arith
  total-insert k v ((q, w) ∷ d) = elim (Bool-cases (eq_bytes q k)) [
    | inl hit ↦ rw hit (omega arith)
    | inr miss ↦ rw miss (omega (arith, total-insert k v d))
  ]
