-- ===== src/Guards/Rate.antt =====
-- How many shares of one peer `PeerRateLimiter` of accum-node/src/share.rs lets through.
use accum_core.Base.{
  ℕ, ◌+◌, ◌-◌, ◌%◌, ◌^◌, ◌≤◌, ◌<◌, ◌≡◌, ◌⊎◌, refl, inl, inr, true, false, none, some, List, [], ◌∷◌,
  Result, ok, err, ltb, leb, lt→ltb, eq_bytes_refl, Bool-cases, arith,
}
use accum_core.Base.Dict.{Dict, lookup, insert, lookup-insert}
use accum_core.Guards.{PeerRateLimiter, RateLimitError, seconds, limit_entry, unbanned, check_rate}

lookup-insert_same {ℓ} :
    {V : Type ℓ} (k : List ℕ) (v : V) (d : Dict V) → lookup k (insert k v d) ≡ some v
lookup-insert_same k v d = rw (lookup-insert k k v d, eq_bytes_refl k) refl

-- The peer has had `n` shares since `start`, and no ban of it ends within the minute.
pub record IsWindow (l : PeerRateLimiter) (k : List ℕ) (n start : ℕ) : Type 0 where
  pub entry : lookup k l.peer_shares ≡ some (n, start)
  pub low : n ≤ 100
  pub ban :
      (lookup k l.banned_peers ≡ none)
      ⊎ ((until : ℕ) × (lookup k l.banned_peers ≡ some until) × (start + seconds 60 < until))

abbrev passed : Result RateLimitError (Unit {0}) → ℕ
passed (ok tt) = 1
passed (err e) = 0

-- The number of shares after one more call.
abbrev after : ℕ → Result RateLimitError (Unit {0}) → ℕ
after n (ok tt) = 1 + n
after n (err e) = n

after-passed : (n : ℕ) (r : Result RateLimitError (Unit {0})) → after n r ≡ passed r + n
after-passed n (ok tt) = refl
after-passed n (err e) = omega arith

-- One call in the minute after `start`.
record Stays (l : PeerRateLimiter) (k : List ℕ) (n start : ℕ)
    (r : PeerRateLimiter × Result RateLimitError (Unit {0})) : Type 0 where
  window : IsWindow r.0 k (after n r.1) start

limit_entry-Stays :
    (now : ℕ) (l : PeerRateLimiter) (k : List ℕ) (n start : ℕ)
    → lookup k l.banned_peers ≡ none
    → n ≤ 100
    → start ≤ now
    → now ≤ start + seconds 60
    → Stays l k n start (limit_entry now l k (n, start))
unfolding limit_entry
limit_entry-Stays now l k n start free low from to =
    let same : ltb (seconds 60) (now - start) ≡ false = ground arith in
    elim (Bool-cases (leb 100 n)) [
      | inl full ↦
          rw (same, full)
            (record {
              window = record {
                entry = lookup-insert_same k (n, start) l.peer_shares;
                low = low;
                ban = inr (
                  now + seconds 300,
                  lookup-insert_same k (now + seconds 300) l.banned_peers,
                  omega arith,
                );
              };
            })
      | inr room ↦
          let next : (n + 1) % 2 ^ 32 ≡ 1 + n = ground arith in
          rw (same, room, next)
            (record {
              window = record {
                entry = lookup-insert_same k (1 + n, start) l.peer_shares;
                low = ground arith;
                ban = inl free;
              };
            })
    ]

check_rate-Stays :
    (now : ℕ) (l : PeerRateLimiter) (k : List ℕ) (n start : ℕ)
    → IsWindow l k n start
    → start ≤ now
    → now ≤ start + seconds 60
    → Stays l k n start (check_rate now l k)
unfolding check_rate unbanned
check_rate-Stays now l k n start w from to = elim w.ban [
  | inl free ↦
      rw (check_rate, free, unbanned, w.entry)
        (limit_entry-Stays now l k n start free w.low from to)
  | inr (until, kept, late) ↦
      let shut : ltb now until ≡ true = lt→ltb now until (omega arith) in
      rw (check_rate, kept, shut) (record { window = w })
]

-- The calls of one peer at these times one after the other: how many are let through.
check_all : PeerRateLimiter → List ℕ → List ℕ → ℕ
check_all l k [] = 0
check_all l k (now ∷ rest) = let (l', r) = check_rate now l k in passed r + check_all l' k rest

-- Times in the minute after `start`.
abbrev pub AllInMinute : ℕ → List ℕ → Type 0
AllInMinute start [] = Unit
AllInMinute start (now ∷ rest) = (start ≤ now) × (now ≤ start + seconds 60) × AllInMinute start rest

-- In the minute after the first share of a window the limiter lets at most 100 shares of the peer
-- through, counted with those that it has counted in that window, however many arrive.
check_all_bounded :
    (l : PeerRateLimiter) (k : List ℕ) (n start : ℕ) (times : List ℕ)
    → IsWindow l k n start
    → AllInMinute start times
    → check_all l k times + n ≤ 100
unfolding check_all
check_all_bounded l k n start [] w within = let low = w.low in omega arith
check_all_bounded l k n start (now ∷ rest) w (from, to, within) =
    let (l', r) = check_rate now l k in
    let ih =
      check_all_bounded l' k (after n r) start rest
        (check_rate-Stays now l k n start w from to).window within in
    omega (arith, after-passed n r)
