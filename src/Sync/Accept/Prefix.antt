-- ===== src/Sync/Accept/Prefix.antt =====
-- What a failing `verify_and_accept_blocks` of accum-node/src/main.rs leaves behind.
use accum_core.Base.{ℕ, ◌+◌, ◌≡◌, ◌⊎◌, Option, List, ◌∷◌, ◌++◌, ok, err, length}
use accum_core.Crypto.{Crypto}
use accum_core.Header.{BlockHeader}
use accum_core.Sync.{Block, SyncManager, SyncError, db_failed}
use accum_core.Sync.Accept.{ChainDb, left_behind, accept_block, accept_blocks}
use accum_core.Sync.Accept.Linked.{Extends}
use accum_core.Sync.Accept.Chain.{IsSynced}

module _ (c : Crypto) (db : ChainDb) (now : ℕ) where
  open db use {utxo, save_block}

  -- The list up to the block that the loop stopped at, that block, what the blocks before it have
  -- done, and why it was refused: a write failed, or it does not extend the tip that they have left,
  -- and then it has changed nothing.
  pub record StoppedAt (height : ℕ) (m m' : SyncManager) (s s' : utxo.Store)
      (tip : Option BlockHeader) (blocks : List Block) (e : SyncError) : Type 0 where
    pub done : List Block
    pub refused : Block
    pub rest : List Block
    pub split : blocks ≡ done ++ (refused ∷ rest)
    pub before : utxo.Store
    pub synced : IsSynced c db now height m m' s before tip done (height + length done)
    pub reason : (e ≡ db_failed) ⊎ ((Extends c now synced.last refused → ⊥) × (s' ≡ before))

  -- The same as it comes out of the loop.
  record Halted (height : ℕ) (st st' : SyncManager × utxo.Store) (blocks : List Block)
      (e : SyncError) : Type 0 where
    done : List Block
    refused : Block
    rest : List Block
    split : blocks ≡ done ++ (refused ∷ rest)
    last : SyncManager × utxo.Store
    went : accept_blocks c db now height st done ≡ (last, ok (height + length done))
    failed : accept_block c db now (height + length done + 1) last refused ≡ err e
    left : st' ≡ left_behind c db now (height + length done + 1) last refused
