-- ===== src/Ddos.antt =====
-- `DDoSProtection` of accum-node/src/main.rs with `RateLimit` and `ConnectionLimit`. An address is a
-- byte string, the times `now` are the readings of the clock.
pub mod Banned
use accum_core.Base.{
  ℕ, ◌+◌, ◌%◌, ◌^◌, Bool, true, false, ◌||◌, Option, none, some, List, [], ltb, leb, if◌then◌else◌,
}
use accum_core.Base.Dict.{Dict, lookup, insert, unwrap_or, mem, include, exclude}
use accum_core.Pow.{wrapping_sub}

pub record RateLimit : Type 0 where
  pub requests : ℕ
  pub last_hour : ℕ
  pub last_minute : ℕ
  pub minute_requests : ℕ

pub record ConnectionLimit : Type 0 where
  pub connections : ℕ
  pub last_reset : ℕ
  failures : ℕ

pub record DdosProtection : Type 0 where
  pub ip_blacklist : List (List ℕ)
  pub ip_whitelist : List (List ℕ)
  pub rate_limits : Dict RateLimit
  pub connection_limits : Dict ConnectionLimit
  pub global_request_count : ℕ
  pub last_reset : ℕ
  pub attack_mode : Bool

-- `DDoSProtection::new`
abbrev pub new_protection : ℕ → DdosProtection
new_protection now = record {
  ip_blacklist = [];
  ip_whitelist = [];
  rate_limits = [];
  connection_limits = [];
  global_request_count = 0;
  last_reset = now;
  attack_mode = false;
}

-- The entries that `or_insert` makes.
abbrev pub fresh_rate : ℕ → RateLimit
fresh_rate now = record { requests = 0; last_hour = now; last_minute = now; minute_requests = 0 }

abbrev fresh_connections : ℕ → ConnectionLimit
fresh_connections now = record { connections = 0; last_reset = now; failures = 0 }

-- The two resets, and the two increments behind them.
pub count_request : ℕ → RateLimit → RateLimit
count_request now l =
    let hour_over = ltb 3600 (wrapping_sub now l.last_hour) in
    let minute_over = ltb 60 (wrapping_sub now l.last_minute) in
    record {
      requests = ((if hour_over then 0 else l.requests) + 1) % 2 ^ 32;
      last_hour = if hour_over then now else l.last_hour;
      last_minute = if minute_over then now else l.last_minute;
      minute_requests = ((if minute_over then 0 else l.minute_requests) + 1) % 2 ^ 32;
    }

-- `limit.requests > max_per_hour || limit.minute_requests > max_per_minute`
abbrev pub over_limit : Bool → RateLimit → Bool
over_limit attack_mode l =
    ltb (if attack_mode then 100 else 1000) l.requests
    || ltb (if attack_mode then 10 else 100) l.minute_requests

-- The part of `check_rate_limit` behind the two lists.
pub limit_rate : ℕ → DdosProtection → List ℕ → DdosProtection × Bool
unfolding count_request
limit_rate now d addr =
    let limit = count_request now (unwrap_or (fresh_rate now) (lookup addr d.rate_limits)) in
    let d1 = record d {
      rate_limits = insert addr limit d.rate_limits;
      global_request_count = (d.global_request_count + 1) % 2 ^ 64;
    } in
    if over_limit d.attack_mode limit
    then (record d1 { ip_blacklist = include addr d1.ip_blacklist }, false)
    else (d1, true)

-- `DDoSProtection::check_rate_limit`
unfoldable pub check_rate_limit : ℕ → DdosProtection → List ℕ → DdosProtection × Bool
unfolding limit_rate
check_rate_limit now d addr =
    if mem addr d.ip_whitelist
    then (d, true)
    else if mem addr d.ip_blacklist
    then (d, false)
    else limit_rate now d addr

-- The part of `check_connection_limit` behind the blacklist.
limit_connections : ℕ → DdosProtection → List ℕ → DdosProtection × Bool
limit_connections now d addr =
    let found = unwrap_or (fresh_connections now) (lookup addr d.connection_limits) in
    let limit =
      if ltb 60 (wrapping_sub now found.last_reset)
      then record found { connections = 0; last_reset = now }
      else found in
    if leb (if d.attack_mode then 5 else 50) limit.connections
    then (record d { connection_limits = insert addr limit d.connection_limits }, false)
    else (
      record d {
        connection_limits =
            insert addr (record limit { connections = (limit.connections + 1) % 2 ^ 32 })
              d.connection_limits;
      },
      true,
    )

-- `DDoSProtection::check_connection_limit`
pub check_connection_limit : ℕ → DdosProtection → List ℕ → DdosProtection × Bool
unfolding limit_connections
check_connection_limit now d addr =
    if mem addr d.ip_blacklist then (d, false) else limit_connections now d addr

-- `DDoSProtection::record_failure`
abbrev record_failure : DdosProtection → List ℕ → DdosProtection
record_failure d addr = elim (lookup addr d.connection_limits) [
  | none ↦ d
  | some limit ↦
      let failures' = (limit.failures + 1) % 2 ^ 32 in
      record d {
        connection_limits = insert addr (record limit { failures = failures' }) d.connection_limits;
        ip_blacklist = if ltb 10 failures' then include addr d.ip_blacklist else d.ip_blacklist;
      }
]

-- `DDoSProtection::whitelist_ip`
abbrev whitelist_ip : DdosProtection → List ℕ → DdosProtection
whitelist_ip d addr = record d {
  ip_whitelist = include addr d.ip_whitelist;
  ip_blacklist = exclude addr d.ip_blacklist;
}

-- `DDoSProtection::blacklist_ip`
abbrev blacklist_ip : DdosProtection → List ℕ → DdosProtection
blacklist_ip d addr = record d {
  ip_blacklist = include addr d.ip_blacklist;
  ip_whitelist = exclude addr d.ip_whitelist;
}

-- `enable_attack_mode` and `disable_attack_mode`
abbrev pub set_attack_mode : Bool → DdosProtection → DdosProtection
set_attack_mode b d = record d { attack_mode = b }

-- `DDoSProtection::is_banned`
pub is_banned : DdosProtection → List ℕ → Bool
is_banned d addr = mem addr d.ip_blacklist
