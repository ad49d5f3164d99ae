-- ===== src/Pow.antt =====
-- `Argon2Cache` of accum-node/src/main.rs: the proof-of-work hash of a byte string, and the cache
-- that `hash` keeps. The times `now` are the readings of the clock.
pub mod Cache
use accum_core.Base.{
  ℕ, ◌+◌, ◌-◌, ◌%◌, ◌^◌, Bool, true, false, Option, none, some, List, [], ◌∷◌, ◌++◌, ltb,
  if◌then◌else◌, length, take,
}
use accum_core.Base.Dict.{Dict, lookup, insert}
use accum_core.Crypto.{Crypto}
use accum_core.Bytes.{to_le_bytes}
use accum_core.Target.{Hash32, Target, is_met_by}
use accum_core.Header.{BlockHeader, to_bytes, with_nonce}

-- `b"ACCUMPOWv3.2+!!!"`
abbrev pub argon2_salt : List ℕ
argon2_salt =
    0x41 ∷ 0x43 ∷ 0x43 ∷ 0x55 ∷ 0x4d ∷ 0x50 ∷ 0x4f ∷ 0x57 ∷ 0x76 ∷ 0x33 ∷ 0x2e ∷ 0x32 ∷ 0x2b ∷ 0x21
    ∷ 0x21 ∷ 0x21 ∷ []

-- `u64` subtraction of a release build.
abbrev pub wrapping_sub : ℕ → ℕ → ℕ
wrapping_sub a b = (a + (2 ^ 64 - b)) % 2 ^ 64

-- `struct Argon2Cache` without the hash function itself and the time it took.
pub record Argon2Cache : Type 0 where
  pub cache : Dict (Hash32 × ℕ)
  pub max_size : ℕ
  pub hits : ℕ
  pub misses : ℕ
  pub total_hashes : ℕ

-- `retain(|_, (_, t)| now - *t < 60)`
pub retain_recent : ℕ → Dict (Hash32 × ℕ) → Dict (Hash32 × ℕ)
retain_recent now [] = []
retain_recent now ((k, (h, t)) ∷ d) =
    let rest = retain_recent now d in
    if ltb (wrapping_sub now t) 60 then (k, (h, t)) ∷ rest else rest

-- An entry that is less than a minute old.
abbrev fresh_entry : ℕ → Option (Hash32 × ℕ) → Option Hash32
fresh_entry now none = none
fresh_entry now (some (h, t)) = if ltb (wrapping_sub now t) 60 then some h else none

module _ (c : Crypto) where
  -- What `hash` computes on a miss: Argon2id with a salt made from the data.
  unfoldable pub pow_hash : List ℕ → Hash32
  pow_hash bytes = c.argon2id bytes (take 16 (c.sha256 (argon2_salt ++ bytes)))

  pub miss : ℕ → List ℕ → Argon2Cache → Argon2Cache × Hash32
  unfolding pow_hash
  miss now bytes a =
      let kept = if ltb (length a.cache) a.max_size then a.cache else retain_recent now a.cache in
      (
        record a {
          cache = insert bytes (pow_hash bytes, now) kept;
          misses = (a.misses + 1) % 2 ^ 64;
          total_hashes = (a.total_hashes + 1) % 2 ^ 64;
        },
        pow_hash bytes,
      )

  -- `Argon2Cache::hash` at the time `now`.
  pub hash_cached : ℕ → List ℕ → Argon2Cache → Argon2Cache × Hash32
  unfolding miss
  hash_cached now bytes a = elim (fresh_entry now (lookup bytes a.cache)) [
    | some h ↦ (record a { hits = (a.hits + 1) % 2 ^ 64 }, h)
    | none ↦ miss now bytes a
  ]

  -- `BlockHeader::hash` and `hash_with_nonce`, by what the cache's hash is.
  abbrev pub header_hash : BlockHeader → Hash32
  header_hash h = pow_hash (to_bytes h)

  abbrev pub hash_with_nonce : BlockHeader → ℕ → Hash32
  hash_with_nonce h nonce = header_hash (with_nonce h nonce)

  -- `BlockHeader::meets_target`
  abbrev meets_target : BlockHeader → Bool
  meets_target h = is_met_by h.difficulty (header_hash h)
