-- ===== src/Ddos/Banned.antt =====
-- Bans in `DDoSProtection` of accum-node/src/main.rs.
use accum_core.Base.{
  ℕ, ◌≡◌, refl, ap, ◌∙◌, inl, inr, Bool, true, false, List, if◌then◌else◌, eq_bytes_refl,
  Bool-cases,
}
use accum_core.Base.Dict.{lookup, unwrap_or, mem, mem-include}
use accum_core.Ddos.{
  DdosProtection, fresh_rate, count_request, over_limit, limit_rate, check_rate_limit,
  check_connection_limit, is_banned,
}

-- A ban that `limit_rate` decides is on the lists.
limit_rate_refused :
    (now : ℕ) (d : DdosProtection) (addr : List ℕ)
    → (limit_rate now d addr).1 ≡ false
    → (mem addr (limit_rate now d addr).0.ip_blacklist ≡ true)
      × ((limit_rate now d addr).0.ip_whitelist ≡ d.ip_whitelist)
unfolding limit_rate
limit_rate_refused now d addr h =
    elim (Bool-cases (
      over_limit d.attack_mode
        (count_request now (unwrap_or (fresh_rate now) (lookup addr d.rate_limits))))) [
          | inr within ↦ cc (rw within at h)
          | inl over ↦
              rw over (mem-include addr addr d.ip_blacklist ∙ rw (eq_bytes_refl addr) refl, refl)
        ]

-- The lists alone decide the next checks.
banned_checks :
    (later : ℕ) (d : DdosProtection) (addr : List ℕ)
    → mem addr d.ip_whitelist ≡ false
    → mem addr d.ip_blacklist ≡ true
    → (is_banned d addr ≡ true)
      × ((check_rate_limit later d addr).1 ≡ false)
      × ((check_connection_limit later d addr).1 ≡ false)
unfolding is_banned check_rate_limit check_connection_limit
banned_checks later d addr plain banned = (banned, rw (plain, banned) refl, rw banned refl)

abbrev IsShutOut : ℕ → DdosProtection → List ℕ → Type 0
IsShutOut later d addr =
    (is_banned d addr ≡ true)
    × ((check_rate_limit later d addr).1 ≡ false)
    × ((check_connection_limit later d addr).1 ≡ false)

-- The cases of `check_rate_limit`, by whether the address is on the lists.
listed_cases :
    (now later : ℕ) (d : DdosProtection) (addr : List ℕ) (white black : Bool)
    → mem addr d.ip_whitelist ≡ white
    → mem addr d.ip_blacklist ≡ black
    → (if white then (d, true) else if black then (d, false) else limit_rate now d addr).1 ≡ false
    → IsShutOut later
        (if white then (d, true) else if black then (d, false) else limit_rate now d addr).0
        addr
listed_cases now later d addr true black on_white on_black h = cc
listed_cases now later d addr false true on_white on_black h =
    banned_checks later d addr on_white on_black
listed_cases now later d addr false false on_white on_black h =
    let (listed, same) = limit_rate_refused now d addr h in
    banned_checks later (limit_rate now d addr).0 addr (ap (mem addr) same ∙ on_white) listed

-- An address that `check_rate_limit` refuses is banned from then on, and is refused by the next
-- `check_rate_limit` and `check_connection_limit` at whatever time.
pub check_rate_limit_refused :
    (now later : ℕ) (d : DdosProtection) (addr : List ℕ)
    → (check_rate_limit now d addr).1 ≡ false
    → (is_banned (check_rate_limit now d addr).0 addr ≡ true)
      × ((check_rate_limit later (check_rate_limit now d addr).0 addr).1 ≡ false)
      × ((check_connection_limit later (check_rate_limit now d addr).0 addr).1 ≡ false)
unfolding check_rate_limit
check_rate_limit_refused now later d addr h =
    listed_cases now later d addr (mem addr d.ip_whitelist) (mem addr d.ip_blacklist) refl refl h
