-- ===== src/Node/Linked.antt =====
-- Chains of linked headers in memory, which `Node` of accum-node/src/main.rs keeps.
use accum_core.Base.{
  ◌+◌, ◌≡◌, refl, ap, ◌∙◌, List, [], ◌∷◌, ◌++◌, length, length-append, map, arith, Bool, true,
  false,
}
use accum_core.Crypto.{Crypto}
use accum_core.Header.{BlockHeader}
use accum_core.Node.{Node, last_block, hash_or_zero, last_hash, push_block}
use accum_core.Pow.{header_hash}
use accum_core.Target.{Hash32}

module _ (c : Crypto) where
  -- Each header names the hash of the one before.
  abbrev pub Linked : List BlockHeader → Type 0
  Linked [] = Unit
  Linked (h ∷ []) = Unit
  Linked (h ∷ k ∷ rest) = (k.prev_hash ≡ header_hash c h) × Linked (k ∷ rest)

  -- There is one header for each height from 0 on, which is known only while no `Blocks` message has
  -- arrived: its handler sets the height and appends no header.
  abbrev pub HasHeights : Bool → Node → Type 0
  HasHeights false n = length n.blocks ≡ n.height + 1
  HasHeights true n = Unit

  -- Each header names the hash of the one before, and the timestamps are those of the headers.
  pub record IsChained (synced : Bool) (n : Node) : Type 0 where
    pub heights : HasHeights synced n
    pub linked : Linked n.blocks
    pub times : n.timestamps ≡ map (λ (h : BlockHeader). h.timestamp) n.blocks

  Linked-append :
      (hs : List BlockHeader) (k : BlockHeader)
      → Linked hs
      → k.prev_hash ≡ hash_or_zero c (last_block hs)
      → Linked (hs ++ (k ∷ []))
  unfolding hash_or_zero
  Linked-append [] k l e = tt
  Linked-append (h ∷ []) k l e = (e, tt)
  Linked-append (h ∷ g ∷ rest) k l e = (l.0, Linked-append (g ∷ rest) k l.1 e)

  map-append :
      (hs : List BlockHeader) (k : BlockHeader)
      → map (λ (h : BlockHeader). h.timestamp) hs ++ (k.timestamp ∷ [])
        ≡ map (λ (h : BlockHeader). h.timestamp) (hs ++ (k ∷ []))
  map-append [] k = refl
  map-append (h ∷ hs) k = ap (λ l. h.timestamp ∷ l) (map-append hs k)

  push_block-HasHeights :
      (synced : Bool) (n : Node) (header : BlockHeader) (hash : Hash32)
      → HasHeights synced n
      → HasHeights synced (push_block c n header hash)
  push_block-HasHeights true n header hash h = tt
  push_block-HasHeights false n header hash h =
      omega (arith, length-append n.blocks (header ∷ []), h)

  same-HasHeights :
      (synced : Bool) (n m : Node)
      → m.blocks ≡ n.blocks
      → m.height ≡ n.height
      → HasHeights synced n
      → HasHeights synced m
  same-HasHeights true n m eb eh h = tt
  same-HasHeights false n m eb eh h = rw (eb, eh) h

  pub push_block-IsChained :
      {synced : Bool} (n : Node) (header : BlockHeader) (hash : Hash32)
      → header.prev_hash ≡ last_hash c n
      → IsChained synced n
      → IsChained synced (push_block c n header hash)
  unfolding hash_or_zero
  push_block-IsChained {synced} n header hash e inv = record {
    heights = push_block-HasHeights synced n header hash inv.heights;
    linked = Linked-append n.blocks header inv.linked e;
    times = ap (λ l. l ++ (header.timestamp ∷ [])) inv.times ∙ map-append n.blocks header;
  }

  -- A node whose other fields change.
  pub same_chain :
      {synced : Bool} (n m : Node)
      → m.blocks ≡ n.blocks
      → m.height ≡ n.height
      → m.timestamps ≡ n.timestamps
      → IsChained synced n
      → IsChained synced m
  same_chain {synced} n m eb eh et inv = record {
    heights = same-HasHeights synced n m eb eh inv.heights;
    linked = rw eb inv.linked;
    times = rw (eb, et) inv.times;
  }
