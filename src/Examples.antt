-- ===== src/Examples.antt =====
-- Concrete data for the examples: hash functions that give zeros, keys and signatures that always
-- parse and verify, and stores that are functions.
mod Targets
mod Codecs
mod Trees
mod Transactions
mod Chains
mod Shares
mod Guards
mod Peers
mod Nodes
mod Miners
mod Packets
use accum_core.Base.{
  ℕ, zero, suc, ◌<◌, ◌≡◌, refl, sym, ap, ◌∙◌, inl, inr, Bool, true, false, Option, none, some, List,
  [], ◌∷◌, Result, ok, err, ok-injective, ◌==◌, if◌then◌else◌, length-replicate, replicate, All,
  arith,
}
use accum_core.Bytes.{IsBytes}
use accum_core.Crypto.{Crypto}
use accum_core.Sync.{Block}
use accum_core.Sync.Accept.{ChainDb}
use accum_core.Tx.{OutPoint, eq_outpoint, TxOut}
use accum_core.Utxo.{UtxoDb, DbError}

All-replicate : (n b : ℕ) → b < 256 → All (λ x. x < 256) (replicate n b)
All-replicate zero b h = tt
All-replicate (suc n) b h = (h, All-replicate n b h)

pub replicate-IsBytes : (n b : ℕ) → b < 256 → IsBytes n (replicate n b)
replicate-IsBytes n b h = record { size = length-replicate n b; byte = All-replicate n b h }

abbrev pub zeros_crypto : Crypto
zeros_crypto = record {
  sha256 = λ _. replicate 32 0;
  ripemd160 = λ _. replicate 20 0;
  argon2id = λ _ _. replicate 32 0;
  parse_pubkey = λ key. some key;
  parse_signature = λ sig. some sig;
  secp_verify = λ _ _ _. true;
}

abbrev pub MemStore : Type 0
MemStore = (OutPoint → Option TxOut) × (ℕ → Option Block)

abbrev read_utxo : MemStore → OutPoint → Result DbError (Option TxOut)
read_utxo s p = ok (s.0 p)

abbrev read_block : MemStore → ℕ → Result DbError (Option Block)
read_block s h = ok (s.1 h)

abbrev put_utxo : MemStore → OutPoint → Option TxOut → MemStore
put_utxo s p o = (λ q. if eq_outpoint p q then o else s.0 q, s.1)

abbrev put_block : MemStore → ℕ → Block → MemStore
put_block s h b = (s.0, λ k. if h == k then some b else s.1 k)

pub ok-if {ℓ} :
    {A : Type ℓ} (b : Bool) (x y : Option A)
    → ◌≡◌ {A = Result DbError (Option A)} (ok (if b then x else y)) (if b then ok x else ok y)
ok-if true x y = refl
ok-if false x y = refl

pub read-put :
    (s t : MemStore) (p q : OutPoint) (o : Option TxOut)
    → ◌≡◌ {A = Result DbError MemStore} (ok (put_utxo s p o)) (ok t)
    → read_utxo t q ≡ (if eq_outpoint p q then ok o else read_utxo s q)
read-put s t p q o h =
    ap (λ u. read_utxo u q) (sym (ok-injective h)) ∙ ok-if (eq_outpoint p q) o (s.0 q)

abbrev pub mem_utxo : UtxoDb
mem_utxo = record {
  Store = MemStore;
  get_utxo = read_utxo;
  save_utxo = λ s p o. ok (put_utxo s p (some o));
  delete_utxo = λ s p. ok (put_utxo s p none);
  get-save = λ s t p q o h. read-put s t p q (some o) h;
  get-delete = λ s t p q h. read-put s t p q none h;
}

abbrev pub mem_chain : ChainDb
mem_chain = record {
  utxo = mem_utxo;
  get_block = read_block;
  save_block = λ s h b. ok (put_block s h b);
  get_block-save_block = λ s t h k b e.
      ap (λ u. read_block u k) (sym (ok-injective e)) ∙ ok-if (h == k) (some b) (s.1 k);
  get_block-save_utxo = λ s t k p o e. ap (λ u. read_block u k) (sym (ok-injective e));
  get_utxo-save_block = λ s t h p b e. ap (λ u. read_utxo u p) (sym (ok-injective e));
  get_block-delete_utxo = λ s t k p e. ap (λ u. read_block u k) (sym (ok-injective e));
}

abbrev pub empty_store : MemStore
empty_store = (λ _. none, λ _. none)
