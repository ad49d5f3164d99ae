-- ===== src/Share/Countable.antt =====
-- What `Share::validate` of accum-node/src/main.rs accepts.
use accum_core.Base.{
  ℕ, ◌+◌, ◌-◌, ◌%◌, ◌^◌, ◌≤◌, ◌<◌, ◌≡◌, ◌↔◌, refl, sym, true, false, not, ok, >>=-eq-ok, reject_if,
  reject_if-eq-ok, not-false, ltb, ◌==◌, ==_iff, eq_bytes, eq_of_eq_bytes, eq_bytes_refl, arith,
}
use accum_core.Crypto.{Crypto}
use accum_core.Header.{to_bytes}
use accum_core.Pow.{hash_with_nonce, wrapping_sub}
use accum_core.Share.{Share, prefilter, validate}
use accum_core.Target.{Target, Hash32, is_met_by}

-- A share that may be counted at the time `now`.
pub record IsCountable (c : Crypto) (s : Share) (target : Target) (prev : Hash32) (epoch now : ℕ)
    : Type 0 where
  pub on_tip : s.header.prev_hash ≡ prev
  pub in_epoch : s.header.epoch_index ≡ epoch
  not_old : now ≤ s.timestamp + 7200
  pub not_future : s.timestamp ≤ now + 7200
  prefiltered : prefilter c (to_bytes s.header) s.nonce target ≡ true
  pub own_hash : s.hash ≡ hash_with_nonce c s.header s.nonce
  pub has_work : is_met_by target s.hash ≡ true

-- At a time that two hours do not carry out of the range of `u64` in either direction, `validate`
-- accepts a share exactly if it is on the given block, in the given epoch, at most two hours old
-- and at most two hours ahead, passes the prefilter, carries the hash of its header
-- with its nonce, and that hash meets the share target.
pub validate-IsCountable :
    (c : Crypto) (s : Share) (target : Target) (prev : Hash32) (epoch now : ℕ)
    → 7200 ≤ now
    → now + 7200 < 2 ^ 64
    → (validate c s target prev epoch now ≡ ok tt) ↔ IsCountable c s target prev epoch now
unfolding validate
validate-IsCountable c s target prev epoch now late early =
    let down : wrapping_sub now 7200 ≡ now - 7200 = omega arith in
    let up : (now + 7200) % 2 ^ 64 ≡ now + 7200 = omega arith in
    (
      λ h.
          let (_, e1, h1) = >>=-eq-ok (reject_if (not (eq_bytes s.header.prev_hash prev)) _) _ h in
          let (_, e2, h2) = >>=-eq-ok (reject_if (not (s.header.epoch_index == epoch)) _) _ h1 in
          let (_, e3, h3) =
            >>=-eq-ok (reject_if (ltb s.timestamp (wrapping_sub now 7200)) _) _ h2 in
          let (_, e4, h4) =
            >>=-eq-ok (reject_if (ltb ((now + 7200) % 2 ^ 64) s.timestamp) _) _ h3 in
          let (_, e5, h5) =
            >>=-eq-ok (reject_if (not (prefilter c (to_bytes s.header) s.nonce target)) _) _ h4 in
          let (_, e6, e7) =
            >>=-eq-ok (reject_if (not (eq_bytes (hash_with_nonce c s.header s.nonce) s.hash)) _) _
              h5 in
          let old = reject_if-eq-ok _ _ e3 in
          let future = reject_if-eq-ok _ _ e4 in
          record {
            on_tip = eq_of_eq_bytes _ _ (not-false _ (reject_if-eq-ok _ _ e1));
            in_epoch = (==_iff _ _).0 (not-false _ (reject_if-eq-ok _ _ e2));
            not_old = ground arith;
            not_future = ground arith;
            prefiltered = not-false _ (reject_if-eq-ok _ _ e5);
            own_hash = sym (eq_of_eq_bytes _ _ (not-false _ (reject_if-eq-ok _ _ e6)));
            has_work = not-false _ (reject_if-eq-ok _ _ e7);
          },
      λ v.
          let in_time = v.not_old in
          let in_time' = v.not_future in
          let old : ltb s.timestamp (wrapping_sub now 7200) ≡ false = ground arith in
          let future : ltb ((now + 7200) % 2 ^ 64) s.timestamp ≡ false = ground arith in
          let same = (==_iff s.header.epoch_index epoch).1 v.in_epoch in
          rw
            (
              old,
              future,
              same,
              v.prefiltered,
              v.has_work,
              sym v.own_hash,
              v.on_tip,
              eq_bytes_refl prev,
              eq_bytes_refl s.hash,
            )
            refl,
    )
