-- ===== src/Guards.antt =====
-- `PeerRateLimiter` and `InvalidShareMonitor` of accum-node/src/share.rs. Instants are nanoseconds.
pub mod Rate
pub mod Monitor
use accum_core.Base.{
  ℕ, ◌+◌, ◌-◌, ◌*◌, ◌%◌, ◌^◌, Bool, true, false, not, Option, none, some, List, [], ◌∷◌, Result, ok,
  err, ltb, leb, ◌==◌, if◌then◌else◌,
}
use accum_core.Base.Dict.{Dict, lookup, insert, remove, unwrap_or}

pub record PeerRateLimiter : Type 0 where
  pub peer_shares : Dict (ℕ × ℕ)
  pub banned_peers : Dict ℕ

pub data RateLimitError : Type 0 where
  rate_exceeded : RateLimitError
  banned : RateLimitError

-- `PeerRateLimiter::new`
abbrev pub new_limiter : PeerRateLimiter
new_limiter = record { peer_shares = []; banned_peers = [] }

-- `Duration::from_secs`
abbrev pub seconds : ℕ → ℕ
seconds n = n * 1_000_000_000

-- The part of `check_rate` behind the ban, with the peer's entry: a difference of instants stops
-- at 0.
pub limit_entry :
    ℕ → PeerRateLimiter → List ℕ → ℕ × ℕ → PeerRateLimiter × Result RateLimitError (Unit {0})
limit_entry now l k (n, start) =
    if ltb (seconds 60) (now - start)
    then (record l { peer_shares = insert k (1, now) l.peer_shares }, ok tt)
    else if leb 100 n
    then (
      record {
        peer_shares = insert k (n, start) l.peer_shares;
        banned_peers = insert k (now + seconds 300) l.banned_peers;
      },
      err rate_exceeded,
    )
    else (record l { peer_shares = insert k ((n + 1) % 2 ^ 32, start) l.peer_shares }, ok tt)

-- The part of `check_rate` behind the lookup of a ban.
pub unbanned : ℕ → PeerRateLimiter → List ℕ → PeerRateLimiter × Result RateLimitError (Unit {0})
unfolding limit_entry
unbanned now l k = limit_entry now l k (unwrap_or (0, now) (lookup k l.peer_shares))

-- `PeerRateLimiter::check_rate`. Its two readings of the clock are one.
pub check_rate : ℕ → PeerRateLimiter → List ℕ → PeerRateLimiter × Result RateLimitError (Unit {0})
unfolding unbanned
check_rate now l k = elim (lookup k l.banned_peers) [
  | none ↦ unbanned now l k
  | some until ↦
      if ltb now until
      then (l, err banned)
      else unbanned now (record l { banned_peers = remove k l.banned_peers }) k
]

pub data MinerStatus : Type 0 where
  warning : MinerStatus
  ban : MinerStatus

-- `struct InvalidShareMonitor`: invalid and all shares by miner.
pub record InvalidShareMonitor : Type 0 where
  pub miner_stats : Dict (ℕ × ℕ)
  pub epoch : ℕ

-- `InvalidShareMonitor::new`
abbrev pub new_monitor : InvalidShareMonitor
new_monitor = record { miner_stats = []; epoch = 0 }

-- The comparisons of the ratio with 0.3 and 0.1. A quotient of two `u32` in f64 is rounded to the
-- nearest, which moves it across neither constant, so that they are comparisons of integers.
pub status_of : ℕ × ℕ → Option MinerStatus
status_of (invalid, total) =
    if leb (3 * total) (10 * invalid)
    then some ban
    else if leb total (10 * invalid)
    then some warning
    else none

-- The two increments.
abbrev pub counted : Bool → ℕ × ℕ → ℕ × ℕ
counted is_valid (invalid, total) =
    ((if is_valid then invalid else (invalid + 1) % 2 ^ 32), (total + 1) % 2 ^ 32)

-- `if current_epoch != self.epoch { … }`
pub in_epoch : ℕ → InvalidShareMonitor → InvalidShareMonitor
in_epoch current_epoch m =
    if current_epoch == m.epoch then m else record { miner_stats = []; epoch = current_epoch }

-- `InvalidShareMonitor::record_share`
pub record_share :
    InvalidShareMonitor → List ℕ → Bool → ℕ → InvalidShareMonitor × Option MinerStatus
unfolding in_epoch status_of
record_share m k is_valid current_epoch =
    let m1 = in_epoch current_epoch m in
    let entry = counted is_valid (unwrap_or (0, 0) (lookup k m1.miner_stats)) in
    (record m1 { miner_stats = insert k entry m1.miner_stats }, status_of entry)
