-- ===== src/Node/Shares/Counted.antt =====
-- What `Node::add_share` accepts, and what an invalid share leads to.
use accum_core.Base.{
  ℕ, ◌≡◌, refl, sym, ap, ◌∙◌, inl, inr, Bool, true, false, List, [], ◌∷◌, All, Result, ok, err,
  Bool-cases, ◌==◌, ==_iff,
}
use accum_core.Base.Dict.{lookup}
use accum_core.Crypto.{Crypto}
use accum_core.Miner.{Floats}
use accum_core.Node.Shares.{
  ShareBook, settle_share, credit, add_share, miner_banned, bond_active, is_ok,
}
use accum_core.Share.{Share, ShareRefusal, validate}
use accum_core.Share.Pool as Pool
use accum_core.Share.Pool.{SharePool, PoolError, wrong_epoch, count_share}
use accum_core.Share.Pool.Invalid.{add_invalid, add_invalid_epoch}
use accum_core.Target.{Target, Hash32}

is_ok_sound : (r : Result ShareRefusal (Unit {0})) → is_ok r ≡ true → r ≡ ok tt
unfolding is_ok
is_ok_sound (ok tt) h = refl
is_ok_sound (err e) h = cc

module _ (c : Crypto) (share_size : ℕ) where
  module _ (f : Floats) (ratio : SharePool → List ℕ → Bool × Bool) where
    -- What `add_share` has checked of a share that it accepts, and what it does with it.
    pub record IsCredited (target : Target) (prev : Hash32) (b : ShareBook f) (s : Share)
        : Type 0 where
      pub pool : SharePool
      pub valid : validate c s target prev b.epoch s.timestamp ≡ ok tt
      bonded : bond_active b.height (lookup s.miner_id b.bonds) ≡ true
      pub free : miner_banned s.timestamp (lookup s.miner_id b.miners) ≡ false
      pooled : Pool.add_share c share_size b.share_pool s true ≡ (pool, ok true)
      pub credited : (add_share f c share_size target prev ratio b s).0 ≡ credit f b s pool

    settled :
        (b : ShareBook f) (s : Share) (r : SharePool × Result PoolError Bool)
        → (settle_share f ratio b s r).1 ≡ true
        → (r.1 ≡ ok true) × ((settle_share f ratio b s r).0 ≡ credit f b s r.0)
    unfolding settle_share
    settled b s (pool, ok true) h = (refl, refl)
    settled b s (pool, ok false) h = cc
    settled b s (pool, err e) h = cc

    -- The pool takes a share only where it is valid.
    pooled_valid :
        (p : SharePool) (s : Share) (v : Bool)
        → (Pool.add_share c share_size p s v).1 ≡ ok true
        → v ≡ true
    pooled_valid p s true h = refl
    pooled_valid p s false h = elim (Bool-cases (s.header.epoch_index == p.current_epoch)) [
      | inl same ↦ cc (rw same at (add_invalid c share_size p s), h)
      | inr other ↦ cc (rw other at (add_invalid c share_size p s), h)
    ]

    -- A share that `Node::add_share` accepts passed `validate` at its own timestamp for the given
    -- target, tip and epoch, its miner has an active bond and is not banned, the pool took it, and the
    -- miner is credited with it.
    pub add_share-IsCredited :
        (target : Target) (prev : Hash32) (b : ShareBook f) (s : Share)
        → (add_share f c share_size target prev ratio b s).1 ≡ true
        → IsCredited target prev b s
    unfolding add_share
    add_share-IsCredited target prev b s h =
        let v = is_ok (validate c s target prev b.epoch s.timestamp) in
        elim (Bool-cases (miner_banned s.timestamp (lookup s.miner_id b.miners))) [
          | inl banned ↦ cc (rw (add_share, banned) at h)
          | inr free ↦ elim (Bool-cases (bond_active b.height (lookup s.miner_id b.bonds))) [
            | inr loose ↦ cc (rw (add_share, free, loose) at h)
            | inl bonded ↦
                let r = Pool.add_share c share_size b.share_pool s v in
                let (taken, same) = settled b s r (rw (add_share, free, bonded) at h) in
                let good = pooled_valid b.share_pool s v taken in
                record {
                  pool = r.0;
                  valid = is_ok_sound (validate c s target prev b.epoch s.timestamp) good;
                  bonded = bonded;
                  free = free;
                  pooled =
                      sym (ap (λ q. Pool.add_share c share_size b.share_pool s q) good)
                      ∙ ap (λ x. (r.0, x)) taken;
                  credited = rw (add_share, free, bonded) same;
                }
          ]
        ]

    -- A share of the pool's epoch that does not pass `validate` for the target, the tip and the epoch.
    abbrev pub IsInvalid : Target → Hash32 → ShareBook f → Share → Type 0
    IsInvalid target prev b s =
        ((e : ShareRefusal) × (validate c s target prev b.epoch s.timestamp ≡ err e))
        × (s.header.epoch_index ≡ b.share_pool.current_epoch)

    -- What an invalid share leaves as it was.
    abbrev Unpunished : ShareBook f → ShareBook f × Bool → Type 0
    Unpunished b (b', taken) =
        (taken ≡ false)
        × (b'.miners ≡ b.miners)
        × (b'.epoch ≡ b.epoch)
        × (b'.share_pool.current_epoch ≡ b.share_pool.current_epoch)

    invalid_settled :
        (b : ShareBook f) (s : Share) (r : SharePool × Result PoolError Bool)
        → r.1 ≡ ok false
        → r.0.current_epoch ≡ b.share_pool.current_epoch
        → Unpunished b (settle_share f ratio b s r)
    unfolding settle_share
    invalid_settled b s (pool, ok true) h same = cc
    invalid_settled b s (pool, ok false) h same = (refl, refl, refl, same)
    invalid_settled b s (pool, err e) h same = cc

    invalid-Unpunished :
        (target : Target) (prev : Hash32) (b : ShareBook f) (s : Share)
        → IsInvalid target prev b s
        → Unpunished b (add_share f c share_size target prev ratio b s)
    unfolding add_share is_ok
    invalid-Unpunished target prev b s ((e, bad), same) =
        elim (Bool-cases (miner_banned s.timestamp (lookup s.miner_id b.miners))) [
          | inl banned ↦ rw (add_share, banned) (refl, refl, refl, refl)
          | inr free ↦ elim (Bool-cases (bond_active b.height (lookup s.miner_id b.bonds))) [
            | inr loose ↦ rw (add_share, free, loose) (refl, refl, refl, refl)
            | inl bonded ↦
                let in_epoch = (==_iff s.header.epoch_index b.share_pool.current_epoch).1 same in
                rw (add_share, free, bonded, bad)
                  (invalid_settled b s (Pool.add_share c share_size b.share_pool s false)
                    (rw in_epoch at (add_invalid c share_size b.share_pool s))
                    (add_invalid_epoch c share_size b.share_pool s))
          ]
        ]

    same_epoch-IsInvalid :
        (target : Target) (prev : Hash32) (b b1 : ShareBook f) (shares : List Share)
        → b1.epoch ≡ b.epoch
        → b1.share_pool.current_epoch ≡ b.share_pool.current_epoch
        → All (IsInvalid target prev b) shares
        → All (IsInvalid target prev b1) shares
    same_epoch-IsInvalid target prev b b1 [] e p h = tt
    same_epoch-IsInvalid target prev b b1 (s ∷ rest) e p (((r, bad), same), later) = (
      ((r, ap (λ x. validate c s target prev x s.timestamp) e ∙ bad), same ∙ sym p),
      same_epoch-IsInvalid target prev b b1 rest e p later,
    )

    -- Several shares one after the other, for one target and tip.
    pub add_shares : Target → Hash32 → ShareBook f → List Share → ShareBook f
    unfolding add_share
    add_shares target prev b [] = b
    add_shares target prev b (s ∷ rest) =
        add_shares target prev (add_share f c share_size target prev ratio b s).0 rest

    -- Any number of shares in a row that are of the pool's epoch and do not pass `validate`, from
    -- whichever miners, leave the entries of all miners as they were: while no other share comes, none
    -- is banned or warned.
    pub add_shares_unpunished :
        (target : Target) (prev : Hash32) (b : ShareBook f) (shares : List Share)
        → All (IsInvalid target prev b) shares
        → (add_shares target prev b shares).miners ≡ b.miners
    unfolding add_shares
    add_shares_unpunished target prev b [] h = refl
    add_shares_unpunished target prev b (s ∷ rest) (here, later) =
        let b1 = (add_share f c share_size target prev ratio b s).0 in
        let (_, same, epoch, pool_epoch) = invalid-Unpunished target prev b s here in
        add_shares_unpunished target prev b1 rest
          (same_epoch-IsInvalid target prev b b1 rest epoch pool_epoch later)
        ∙ same
