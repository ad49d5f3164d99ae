-- ===== src/Guards/Monitor.antt =====
-- What `InvalidShareMonitor` of accum-node/src/share.rs says of a miner.
use accum_core.Base.{
  ℕ, ◌+◌, ◌^◌, ◌≤◌, ◌<◌, ◌≡◌, ◌≢◌, refl, sym, ap, ◌∙◌, inl, inr, Bool, true, false, not, ◌&&◌, List,
  [], ◌∷◌, ==_iff, ◌==◌, if◌then◌else◌, eq_bytes, eq_of_eq_bytes, Bool-cases, arith,
}
use accum_core.Base.Dict.{lookup, unwrap_or, lookup-insert}
use accum_core.Guards.{InvalidShareMonitor, counted, status_of, in_epoch, record_share}

-- The shares of an epoch in their order, each with its miner and whether it is valid.
abbrev pub Reports : Type 0
Reports = List (List ℕ × Bool)

pub record_all : InvalidShareMonitor → ℕ → Reports → InvalidShareMonitor
record_all m epoch [] = m
record_all m epoch ((k, is_valid) ∷ rest) =
    record_all (record_share m k is_valid epoch).0 epoch rest

-- How many of the shares are of the miner, and how many of those are invalid.
abbrev pub total_of : List ℕ → Reports → ℕ
total_of k [] = 0
total_of k ((q, is_valid) ∷ rest) = (if eq_bytes q k then 1 else 0) + total_of k rest

abbrev pub invalid_of : List ℕ → Reports → ℕ
invalid_of k [] = 0
invalid_of k ((q, is_valid) ∷ rest) =
    (if eq_bytes q k && not is_valid then 1 else 0) + invalid_of k rest

abbrev stats : InvalidShareMonitor → List ℕ → ℕ × ℕ
stats m k = unwrap_or (0, 0) (lookup k m.miner_stats)

-- Whether the share is of the miner, and whether it is valid.
adds_entry :
    (same v : Bool) (e : ℕ × ℕ)
    → e.1 + (if same then 1 else 0) < 2 ^ 32
    → e.0 ≤ e.1
    → ((if same then counted v e else e).1 ≡ e.1 + (if same then 1 else 0))
      × ((if same then counted v e else e).0 ≡ e.0 + (if same && not v then 1 else 0))
      × ((if same && not v then 1 else 0) ≤ (if same then 1 else 0))
adds_entry true true (a, b) low less = (omega arith, omega arith, omega arith)
adds_entry true false (a, b) low less = (omega arith, omega arith, omega arith)
adds_entry false v (a, b) low less = (omega arith, omega arith, omega arith)

-- One share of the monitor's epoch.
record_share-stats :
    (m : InvalidShareMonitor) (epoch : ℕ) (q k : List ℕ) (is_valid : Bool)
    → m.epoch ≡ epoch
    → (stats (record_share m q is_valid epoch).0 k
        ≡ (if eq_bytes q k then counted is_valid (stats m k) else stats m k))
      × ((record_share m q is_valid epoch).0.epoch ≡ epoch)
unfolding record_share in_epoch
record_share-stats m epoch q k is_valid now =
    let same = (==_iff epoch m.epoch).1 (sym now) in
    let entry = counted is_valid (stats m q) in
    elim (Bool-cases (eq_bytes q k)) [
      | inl hit ↦
          let e = eq_of_eq_bytes q k hit in
          rw (same, lookup-insert q k entry m.miner_stats, hit, e) (refl, now)
      | inr miss ↦ rw (same, lookup-insert q k entry m.miner_stats, miss) (refl, now)
    ]

-- What the shares add to a miner's entry.
record_all-stats :
    (m : InvalidShareMonitor) (epoch : ℕ) (k : List ℕ) (reports : Reports)
    → m.epoch ≡ epoch
    → (stats m k).1 + total_of k reports < 2 ^ 32
    → (stats m k).0 ≤ (stats m k).1
    → ((stats (record_all m epoch reports) k).0 ≡ (stats m k).0 + invalid_of k reports)
      × ((stats (record_all m epoch reports) k).1 ≡ (stats m k).1 + total_of k reports)
      × ((record_all m epoch reports).epoch ≡ epoch)
unfolding record_all
record_all-stats m epoch k [] now low less = (omega arith, omega arith, now)
record_all-stats m epoch k ((q, is_valid) ∷ rest) now low less =
    let m1 = (record_share m q is_valid epoch).0 in
    let (entry, now1) = record_share-stats m epoch q k is_valid now in
    let seen = adds_entry (eq_bytes q k) is_valid (stats m k) in
    let total = ap (λ (p : ℕ × ℕ). p.1) entry in
    let invalid = ap (λ (p : ℕ × ℕ). p.0) entry in
    let (grows, grows_invalid, bound) = seen (omega arith) less in
    let (a, b, c) = record_all-stats m1 epoch k rest now1 (omega arith) (omega arith) in
    (omega arith, omega arith, c)

abbrev empty_monitor : ℕ → InvalidShareMonitor
empty_monitor epoch = record { miner_stats = []; epoch = epoch }

pair_of : {a b c d : ℕ} → a ≡ c → b ≡ d → ◌≡◌ {A = ℕ × ℕ} (a, b) (c, d)
pair_of {a} {d = d} h g = ap (λ n. (a, n)) g ∙ ap (λ n. (n, d)) h

invalid_bound : (k : List ℕ) (reports : Reports) → invalid_of k reports ≤ total_of k reports
invalid_bound k [] = omega arith
invalid_bound k ((q, is_valid) ∷ rest) =
    let before = invalid_bound k rest in
    elim (Bool-cases (eq_bytes q k)) [
      | inl hit ↦ rw hit (elim (Bool-cases is_valid) [
        | inl good ↦ rw good (omega arith)
        | inr bad ↦ rw bad (omega arith)
      ])
      | inr miss ↦ rw miss (omega arith)
    ]

exact_pair :
    (v : Bool) (e : ℕ × ℕ) {a b : ℕ}
    → e.1 + 1 < 2 ^ 32
    → e.0 ≤ e.1
    → e.0 ≡ a
    → e.1 ≡ b
    → counted v e ≡ (a + (if v then 0 else 1), b + 1)
exact_pair true (x, y) low less h g = pair_of (omega arith) (omega arith)
exact_pair false (x, y) low less h g = pair_of (omega arith) (omega arith)

-- The same, from the monitor that the first share of an epoch makes.
empty_exact :
    (epoch : ℕ) (k : List ℕ) (reports : Reports) (is_valid : Bool)
    → total_of k reports + 1 < 2 ^ 32
    → (record_share (record_all (empty_monitor epoch) epoch reports) k is_valid epoch).1
      ≡ status_of (invalid_of k reports + (if is_valid then 0 else 1), total_of k reports + 1)
unfolding record_share in_epoch lookup
empty_exact epoch k reports is_valid low =
    let m = empty_monitor epoch in
    let (a, b, now) = record_all-stats m epoch k reports refl (omega arith) (omega arith) in
    let none_before : (stats m k).0 ≡ 0 = refl in
    let none_before' : (stats m k).1 ≡ 0 = refl in
    let a' : (stats (record_all m epoch reports) k).0 ≡ invalid_of k reports = omega arith in
    let b' : (stats (record_all m epoch reports) k).1 ≡ total_of k reports = omega arith in
    let same = (==_iff epoch (record_all m epoch reports).epoch).1 (sym now) in
    let bound = invalid_bound k reports in
    rw same (
      ap status_of (
        exact_pair is_valid (stats (record_all m epoch reports) k) (omega arith) (omega arith) a'
          b'))

-- A share of another epoch is recorded as by an empty monitor of that epoch.
record_share_reset :
    (m : InvalidShareMonitor) (epoch : ℕ) (k : List ℕ) (is_valid : Bool)
    → m.epoch ≢ epoch
    → record_share m k is_valid epoch ≡ record_share (empty_monitor epoch) k is_valid epoch
unfolding record_share in_epoch
record_share_reset m epoch k is_valid other =
    let differ : (epoch == m.epoch) ≡ false = ground (arith, other) in
    let same = (==_iff epoch epoch).1 refl in rw (differ, same) refl

-- The status that the last of an epoch's shares gets from a monitor of another epoch, whatever that
-- has counted, where the miner has fewer than 2^32 shares: the one of the miner's exact numbers of
-- invalid and of all shares since, the last one included.
pub record_share_exact :
    (m : InvalidShareMonitor) (epoch : ℕ) (k : List ℕ) (reports : Reports) (is_valid : Bool)
    → m.epoch ≢ epoch
    → total_of k reports + 1 < 2 ^ 32
    → (record_share (record_all m epoch reports) k is_valid epoch).1
      ≡ status_of (invalid_of k reports + (if is_valid then 0 else 1), total_of k reports + 1)
unfolding record_all
record_share_exact m epoch k [] is_valid other low =
    ap (λ r. r.1) (record_share_reset m epoch k is_valid other)
    ∙ empty_exact epoch k [] is_valid low
record_share_exact m epoch k ((q, v) ∷ rest) is_valid other low =
    ap (λ r. (record_share (record_all r.0 epoch rest) k is_valid epoch).1)
      (record_share_reset m epoch q v other)
    ∙ empty_exact epoch k ((q, v) ∷ rest) is_valid low
