-- ===== src/Sync/Request/Nearest.antt =====
-- The filters and the least and greatest entries of the peers.
use mathlib.Core.List.{Memᴰ}
use mathlib.Core.List.Memᴰ
use accum_core.Base.{
  ℕ, ◌≤◌, ◌≡◌, refl, inl, inr, Bool, true, List, [], ◌∷◌, ltb, leb, Bool-cases, arith,
}
use accum_core.Base.Dict.{Dict}
use accum_core.Sync.{SyncPeer}
use accum_core.Sync.Request.{filter_peers, nearer, min_latency, higher, max_height}

abbrev pub Entry : Type 0
Entry = List ℕ × SyncPeer

pub filter_peers-Memᴰ :
    (keep : SyncPeer → Bool) (e : Entry) (d : Dict SyncPeer)
    → Memᴰ e (filter_peers keep d)
    → Memᴰ e d × (keep e.1 ≡ true)
unfolding filter_peers
filter_peers-Memᴰ keep e [] h = elim h [ ]
filter_peers-Memᴰ keep e ((k, p) ∷ rest) h = elim (Bool-cases (keep p)) [
  | inl kept ↦ elim (Memᴰ.cases_cons (rw kept at h)) [
    | inl here ↦ (Memᴰ.head here, rw here kept)
    | inr there ↦ let (m, good) = filter_peers-Memᴰ keep e rest there in (Memᴰ.tail m, good)
  ]
  | inr left ↦ let (m, good) = filter_peers-Memᴰ keep e rest (rw left at h) in (Memᴰ.tail m, good)
]

pub Memᴰ-filter_peers :
    (keep : SyncPeer → Bool) (e : Entry) (d : Dict SyncPeer)
    → Memᴰ e d
    → keep e.1 ≡ true
    → Memᴰ e (filter_peers keep d)
unfolding filter_peers
Memᴰ-filter_peers keep e [] h good = elim h [ ]
Memᴰ-filter_peers keep e ((k, p) ∷ rest) h good = elim (Memᴰ.cases_cons h) [
  | inl here ↦ let kept : keep p ≡ true = rw here at good in rw kept (Memᴰ.head here)
  | inr there ↦ elim (Bool-cases (keep p)) [
    | inl kept ↦ rw kept (Memᴰ.tail (Memᴰ-filter_peers keep e rest there good))
    | inr left ↦ rw left (Memᴰ-filter_peers keep e rest there good)
  ]
]

-- The entry is in the list, and none in the list has a lower latency.
pub record IsNearest (e : Entry) (d : Dict SyncPeer) : Type 0 where
  pub listed : Memᴰ e d
  pub nearest : (f : Entry) → Memᴰ f d → e.1.latency_ms ≤ f.1.latency_ms

pub nearer-IsNearest :
    (a : Entry) (rest : Dict SyncPeer) → IsNearest (nearer a (min_latency rest)) (a ∷ rest)
unfolding min_latency
nearer-IsNearest a [] = record {
  listed = Memᴰ.head refl;
  nearest = λ f m. elim (Memᴰ.cases_cons m) [
    | inl here ↦ rw here (omega arith)
    | inr there ↦ elim there [ ]
  ];
}
nearer-IsNearest a (b ∷ rest) =
    let best = nearer b (min_latency rest) in
    let ih = nearer-IsNearest b rest in
    elim (Bool-cases (leb a.1.latency_ms best.1.latency_ms)) [
      | inl less ↦ rw less (record {
        listed = Memᴰ.head refl;
        nearest = λ f m. elim (Memᴰ.cases_cons m) [
          | inl here ↦ rw here (omega arith)
          | inr there ↦ let low = ih.nearest f there in ground arith
        ];
      })
      | inr more ↦ rw more (record {
        listed = Memᴰ.tail ih.listed;
        nearest = λ f m. elim (Memᴰ.cases_cons m) [
          | inl here ↦ rw here (ground arith)
          | inr there ↦ ih.nearest f there
        ];
      })
    ]

pub max_height-listed :
    (a : Entry) (rest : Dict SyncPeer) → Memᴰ (higher a (max_height rest)) (a ∷ rest)
unfolding max_height
max_height-listed a [] = Memᴰ.head refl
max_height-listed a (b ∷ rest) =
    let best = higher b (max_height rest) in
    elim (Bool-cases (ltb best.1.height a.1.height)) [
      | inl more ↦ rw more (Memᴰ.head refl)
      | inr less ↦ rw less (Memᴰ.tail (max_height-listed b rest))
    ]
