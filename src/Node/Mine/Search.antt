-- ===== src/Node/Mine/Search.antt =====
-- What the loop over the nonces finds.
use accum_core.Base.{
  ℕ, zero, suc, ◌+◌, ◌≤◌, ◌<◌, ◌≡◌, ◌↔◌, refl, inl, inr, Bool, true, false, ◌&&◌, Option, none,
  some, ◌==◌, ==_iff, if◌then◌else◌, Bool-cases, Option-cases, ltb, ltb→lt, arith,
}
use accum_core.Crypto.{Crypto}
use accum_core.Header.{BlockHeader, to_bytes}
use accum_core.Node.Mine.{search, better}
use accum_core.Pow.{hash_with_nonce}
use accum_core.Share.{prefilter}
use accum_core.Target.{Target, Hash32, is_met_by, prefilter_target, share_target}

module _ (c : Crypto) (header : BlockHeader) (difficulty : Target) where
  -- A nonce that passes the prefilter and whose hash meets the target.
  abbrev pub solves : ℕ → Bool
  solves nonce =
      prefilter c (to_bytes header) nonce (prefilter_target difficulty)
      && is_met_by difficulty (hash_with_nonce c header nonce)

  -- The first nonce from `low` on, below `high`, that solves the block.
  pub record IsFirst (low high nonce : ℕ) : Type 0 where
    from_low : low ≤ nonce
    below_high : nonce < high
    pub solved : solves nonce ≡ true
    earlier : (m : ℕ) → low ≤ m → m < nonce → solves m ≡ false

  -- The best share after one round.
  next_best : ℕ → ℕ × Hash32 → ℕ × Hash32
  next_best nonce best =
      if prefilter c (to_bytes header) nonce (prefilter_target difficulty)
      then better c (share_target difficulty) best nonce (hash_with_nonce c header nonce)
      else best

  found_if :
      (b : Bool) (x y : ℕ × Hash32) (nonce : ℕ) (o : Option ℕ)
      → let r : (ℕ × Hash32) × Option ℕ = if b then (x, some nonce) else (y, o) in
        r.1 ≡ (if b then some nonce else o)
  found_if true x y nonce o = refl
  found_if false x y nonce o = refl

  search_step :
      (rounds low : ℕ) (best : ℕ × Hash32)
      → (search c header difficulty (suc rounds) low best).1 ≡ (
          if solves low
          then some low
          else (search c header difficulty rounds (low + 1) (next_best low best)).1)
  unfolding search next_best
  search_step rounds low best =
      let rest = search c header difficulty rounds (low + 1) (next_best low best) in
      found_if (solves low) best rest.0 low rest.1

  search_sound :
      (rounds low : ℕ) (best : ℕ × Hash32) (nonce : ℕ)
      → (search c header difficulty rounds low best).1 ≡ some nonce
      → IsFirst low (low + rounds) nonce
  unfolding search
  search_sound zero low best nonce h = cc
  search_sound (suc rounds) low best nonce h = elim (Bool-cases (solves low)) [
    | inl here ↦
        let e : some low ≡ some nonce = rw (search_step rounds low best, here) at h in
        let same : low ≡ nonce = cc in
        record {
          from_low = omega arith;
          below_high = omega arith;
          solved = rw same at here;
          earlier = λ m above below. absurd (omega arith);
        }
    | inr later ↦
        let ih =
          search_sound rounds (low + 1) (next_best low best) nonce
            (rw (search_step rounds low best, later) at h) in
        let from = ih.from_low in
        let to = ih.below_high in
        record {
          from_low = omega arith;
          below_high = omega arith;
          solved = ih.solved;
          earlier = λ m above below. elim (Bool-cases (m == low)) [
            | inl at ↦ rw ((==_iff m low).0 at) later
            | inr past ↦ ih.earlier m (ground arith) below
          ];
        }
  ]

  search-none :
      (rounds low : ℕ) (best : ℕ × Hash32)
      → (search c header difficulty rounds low best).1 ≡ none
      → (m : ℕ) → low ≤ m
      → m < low + rounds
      → solves m ≡ false
  unfolding search
  search-none zero low best h m above below = absurd (omega arith)
  search-none (suc rounds) low best h m above below = elim (Bool-cases (solves low)) [
    | inl here ↦ absurd (cc (rw (search_step rounds low best, here) at h))
    | inr later ↦ elim (Bool-cases (m == low)) [
      | inl at ↦ rw ((==_iff m low).0 at) later
      | inr past ↦
          search-none rounds (low + 1) (next_best low best)
            (rw (search_step rounds low best, later) at h) m (ground arith) (omega arith)
    ]
  ]

  -- The loop of `mine_block` over any number of nonces from `low` on finds a nonce exactly if that is
  -- the first of them that passes the prefilter and whose hash meets the difficulty.
  pub search-IsFirst :
      (rounds low : ℕ) (best : ℕ × Hash32) (nonce : ℕ)
      → ((search c header difficulty rounds low best).1 ≡ some nonce)
        ↔ IsFirst low (low + rounds) nonce
  search-IsFirst rounds low best nonce = (
    search_sound rounds low best nonce,
    λ v. elim (Option-cases (search c header difficulty rounds low best).1) [
      | inl nothing ↦
          absurd (cc (search-none rounds low best nothing nonce v.from_low v.below_high, v.solved))
      | inr (other, found) ↦
          let f = search_sound rounds low best other found in
          let low_other = f.from_low in
          let low_nonce = v.from_low in
          elim (Bool-cases (ltb other nonce)) [
            | inl before ↦
                absurd (cc (v.earlier other low_other (ltb→lt other nonce before), f.solved))
            | inr after ↦ elim (Bool-cases (ltb nonce other)) [
              | inl before ↦
                  absurd (cc (f.earlier nonce low_nonce (ltb→lt nonce other before), v.solved))
              | inr same ↦ let e : other ≡ nonce = ground arith in rw e at found
            ]
          ]
    ],
  )
