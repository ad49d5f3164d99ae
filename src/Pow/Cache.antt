-- ===== src/Pow/Cache.antt =====
-- The cache of `Argon2Cache::hash` in accum-node/src/main.rs is transparent.
use accum_core.Base.{
  ℕ, ◌≡◌, refl, inl, inr, some, List, [], ◌∷◌, ltb, length, eq_bytes, eq_of_eq_bytes, Bool-cases,
  Option-cases,
}
use accum_core.Base.Dict.{Dict, lookup, insert}
use accum_core.Crypto.{Crypto}
use accum_core.Pow.{
  Argon2Cache, wrapping_sub, retain_recent, fresh_entry, pow_hash, miss, hash_cached,
}
use accum_core.Target.{Hash32}

module _ (c : Crypto) where
  -- Every entry of the table holds the hash of its key.
  unfoldable pub AllHashed : Dict (Hash32 × ℕ) → Type 0
  AllHashed [] = Unit
  AllHashed ((k, (h, t)) ∷ d) = (h ≡ pow_hash c k) × AllHashed d

  retain-AllHashed :
      (now : ℕ) (d : Dict (Hash32 × ℕ)) → AllHashed d → AllHashed (retain_recent now d)
  unfolding AllHashed retain_recent
  retain-AllHashed now [] v = tt
  retain-AllHashed now ((k, (h, t)) ∷ d) (e, v) =
      let rest = retain-AllHashed now d v in
      elim (Bool-cases (ltb (wrapping_sub now t) 60)) [
        | inl young ↦ rw young (e, rest)
        | inr old ↦ rw old rest
      ]

  insert-AllHashed :
      (k : List ℕ) (t : ℕ) (d : Dict (Hash32 × ℕ))
      → AllHashed d
      → AllHashed (insert k (pow_hash c k, t) d)
  unfolding AllHashed insert
  insert-AllHashed k t [] v = (refl, tt)
  insert-AllHashed k t ((q, (h, u)) ∷ d) (e, v) = elim (Bool-cases (eq_bytes q k)) [
    | inl same ↦ rw same (rw (eq_of_eq_bytes q k same) refl, v)
    | inr other ↦ rw other (e, insert-AllHashed k t d v)
  ]

  lookup-AllHashed :
      (k : List ℕ) (d : Dict (Hash32 × ℕ)) {h : Hash32} {t : ℕ}
      → AllHashed d
      → lookup k d ≡ some (h, t)
      → h ≡ pow_hash c k
  unfolding AllHashed lookup
  lookup-AllHashed k [] v found = cc
  lookup-AllHashed k ((q, (g, u)) ∷ d) (e, v) found = elim (Bool-cases (eq_bytes q k)) [
    | inl same ↦ let there = rw same at found in cc (there, eq_of_eq_bytes q k same)
    | inr other ↦ lookup-AllHashed k d v (rw other at found)
  ]

  fresh_entry-AllHashed :
      (now : ℕ) (k : List ℕ) (d : Dict (Hash32 × ℕ)) {h : Hash32}
      → AllHashed d
      → fresh_entry now (lookup k d) ≡ some h
      → h ≡ pow_hash c k
  fresh_entry-AllHashed now k d v found = elim (Option-cases (lookup k d)) [
    | inl absent ↦ cc
    | inr ((g, t), there) ↦ elim (Bool-cases (ltb (wrapping_sub now t) 60)) [
      | inl young ↦
          let hit = rw (there, young) at found in let e = lookup-AllHashed k d v there in cc
      | inr old ↦ let hit = rw (there, old) at found in cc
    ]
  ]

  -- At any time, on any data and with any counters: if every entry of the cache holds the hash of
  -- its key, then `hash` returns the hash of the data, and every entry still does so.
  pub hash_cached-pow_hash :
      (now : ℕ) (bytes : List ℕ) (a : Argon2Cache)
      → AllHashed a.cache
      → ((hash_cached c now bytes a).1 ≡ pow_hash c bytes)
        × AllHashed (hash_cached c now bytes a).0.cache
  unfolding hash_cached miss
  hash_cached-pow_hash now bytes a v =
      elim (Option-cases (fresh_entry now (lookup bytes a.cache))) [
        | inr (h, hit) ↦ rw (hash_cached, hit) (fresh_entry-AllHashed now bytes a.cache v hit, v)
        | inl none_fresh ↦
            rw (hash_cached, none_fresh, miss)
              (elim (Bool-cases (ltb (length a.cache) a.max_size)) [
                | inl room ↦ rw room (refl, insert-AllHashed bytes now a.cache v)
                | inr full ↦
                    rw full (refl, insert-AllHashed bytes now _ (retain-AllHashed now a.cache v))
              ])
      ]
