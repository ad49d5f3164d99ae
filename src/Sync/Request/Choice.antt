-- ===== src/Sync/Request/Choice.antt =====
-- The peer that `start_active_sync` synchronises with.
use mathlib.Core.List.{Memᴰ}
use mathlib.Core.List.Memᴰ
use mathlib.Core.Path.{subst}
use accum_core.Base.{
  ap, sym, ◌⊎◌, ℕ, ◌≤◌, ◌<◌, ◌≡◌, refl, inl, inr, Bool, true, false, not, Option, none, some, List,
  [], ◌∷◌, leb, if◌then◌else◌, Bool-cases, arith,
}
use accum_core.Base.Dict.{Dict}
use accum_core.Sync.{SyncPeer, SyncSession, SyncManager, current_height}
use accum_core.Sync.Request.{
  filter_peers, nearer, min_latency, higher, max_height, or_else, is_ahead, select_best_peer,
  open_session, start_active_sync,
}
use accum_core.Sync.Request.Nearest.{
  Entry, filter_peers-Memᴰ, Memᴰ-filter_peers, IsNearest, nearer-IsNearest, max_height-listed,
}

-- Of the peers that are ahead one of least latency; where none is ahead, some peer that is not banned.
record Chosen (m : SyncManager) (e : Entry) : Type 0 where
  listed : Memᴰ e m.peers
  free : e.1.banned ≡ false
  nearest :
      (f : Entry)
      → Memᴰ f m.peers
      → is_ahead (current_height m) f.1 ≡ true
      → (is_ahead (current_height m) e.1 ≡ true) × (e.1.latency_ms ≤ f.1.latency_ms)

choice :
    (ahead free : Dict SyncPeer) (e : Entry)
    → or_else (min_latency ahead) (max_height free) ≡ some e
    → IsNearest e ahead ⊎ ((ahead ≡ []) × Memᴰ e free)
unfolding min_latency max_height
choice [] [] e h = cc
choice [] (b ∷ rest) e h =
    let same : higher b (max_height rest) ≡ e = cc in
    inr (refl, subst (λ x. Memᴰ x (b ∷ rest)) same (max_height-listed b rest))
choice (a ∷ rest) free e h =
    let same : nearer a (min_latency rest) ≡ e = cc in
    inl (subst (λ x. IsNearest x (a ∷ rest)) same (nearer-IsNearest a rest))

select_best_peer-Chosen : (m : SyncManager) (e : Entry) → select_best_peer m ≡ some e → Chosen m e
unfolding select_best_peer
select_best_peer-Chosen m e h =
    let ahead = filter_peers (is_ahead (current_height m)) m.peers in
    let free = filter_peers (λ p. not p.banned) m.peers in
    elim (choice ahead free e h) [
      | inl near ↦
          let (there, good) =
            filter_peers-Memᴰ (is_ahead (current_height m)) e m.peers near.listed in
          record {
            listed = there;
            free = ground arith;
            nearest = λ f m' good'. (
              good,
              near.nearest f (Memᴰ-filter_peers (is_ahead (current_height m)) f m.peers m' good'),
            );
          }
      | inr (empty, other) ↦
          let (there, good) = filter_peers-Memᴰ (λ p. not p.banned) e m.peers other in
          record {
            listed = there;
            free = ground arith;
            nearest = λ f m' good'.
                let there' = Memᴰ-filter_peers (is_ahead (current_height m)) f m.peers m' good' in
                absurd (Memᴰ.not-nil (subst (λ l. Memᴰ f l) empty there'));
          }
    ]

-- What a synchronisation that was started looks like.
pub record IsOpened (now : ℕ) (m m' : SyncManager) : Type 0 where
  pub peer : List ℕ × SyncPeer
  pub session : SyncSession
  pub listed : Memᴰ peer m.peers
  pub free : peer.1.banned ≡ false
  pub ahead : current_height m < peer.1.height
  pub nearest :
      (f : List ℕ × SyncPeer)
      → Memᴰ f m.peers
      → is_ahead (current_height m) f.1 ≡ true
      → peer.1.latency_ms ≤ f.1.latency_ms
  pub active : m'.active_session ≡ some session
  with_peer : session.peer_id ≡ peer.0
  pub target : session.target_height ≡ peer.1.height
  pub here : session.current_height ≡ current_height m
  in_progress : m'.sync_in_progress ≡ true
  was_idle : m.sync_in_progress ≡ false

opened :
    (now : ℕ) (m m' : SyncManager) (o : Option Entry)
    → select_best_peer m ≡ o
    → m.sync_in_progress ≡ false
    → open_session now m o ≡ (m', true)
    → IsOpened now m m'
unfolding open_session
opened now m m' none chosen was_idle h = cc
opened now m m' (some (k, p)) chosen was_idle h =
    elim (Bool-cases (leb p.height (current_height m))) [
      | inl low ↦ cc (rw low at h)
      | inr high ↦
          let best = select_best_peer-Chosen m (k, p) chosen in
          let same = ap (λ r. r.0) (rw high at h) in
          record {
            peer = (k, p);
            session = _;
            listed = best.listed;
            free = best.free;
            ahead = ground arith;
            nearest = λ f l a. (best.nearest f l a).1;
            active = sym (ap (λ (x : SyncManager). x.active_session) same);
            with_peer = refl;
            target = refl;
            here = refl;
            in_progress = sym (ap (λ (x : SyncManager). x.sync_in_progress) same);
            was_idle = was_idle;
          }
    ]

started :
    (now : ℕ) (m m' : SyncManager) (busy : Bool)
    → m.sync_in_progress ≡ busy
    → (if busy then (m, false) else open_session now m (select_best_peer m)) ≡ (m', true)
    → IsOpened now m m'
started now m m' true idle h = cc
started now m m' false idle h = opened now m m' (select_best_peer m) refl idle h

-- Where `start_active_sync` returns true, no synchronisation was in progress, and now one is, from
-- the manager's own height up to the height of a peer that is not banned and is ahead; of all such
-- peers this one has a least latency.
pub start_active_sync-IsOpened :
    (now : ℕ) (m m' : SyncManager) → start_active_sync now m ≡ (m', true) → IsOpened now m m'
unfolding start_active_sync
start_active_sync-IsOpened now m m' h = started now m m' m.sync_in_progress refl h
