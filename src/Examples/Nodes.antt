-- ===== src/Examples/Nodes.antt =====
-- The theorems on the chain of a node, on mining and on payments at a node of one block.
use accum_core.Base.{
  ℕ, ◌+◌, ◌≤◌, ◌<◌, ◌^◌, ◌≡◌, ◌≢◌, ◌⊎◌, ◌↔◌, refl, inl, inr, Bool, true, false, Option, none, some,
  List, [], ◌∷◌, ◌++◌, Result, ok, err, length, replicate, leb, ◌==◌, if◌then◌else◌, arith,
}
use accum_core.Base.Dict.{unwrap_or}
use accum_core.Crypto.{Crypto}
use accum_core.Examples.{zeros_crypto, MemStore, mem_chain, empty_store}
use accum_core.Merkle.{zero_hash}
use accum_core.Node.{Node, init_genesis, genesis_header, last_hash}
use accum_core.Node.Linked.{IsChained}
use accum_core.Node.Chained.{Reached, Reached-IsChained}
use accum_core.Node.Genesis.{mine_block-refused}
use accum_core.Node.Median.{median_timestamp, count, median_timestamp_middle}
use accum_core.Node.Mine.{mine_block, search}
use accum_core.Node.Mine.Search.{IsFirst, search-IsFirst}
use accum_core.Node.Mine.Received.{IsAccepted, mine_block-IsAccepted}
use accum_core.Pow.{header_hash, pow_hash}
use accum_core.Sync.{Block, new_manager, invalid_prev_hash}
use accum_core.Sync.Accept.{verify_and_accept_blocks}
use accum_core.Target.{Target, genesis, Hash32}
use accum_core.Tx.{OutPoint, TxOut, Transaction}
use accum_core.Tx.Spend.{Wallet, Utxo, create_p2pkh, create_simple_tx}
use accum_core.Tx.Spend.Unsigned.{Pays}
use accum_core.Tx.Spend.Balance.{create_tx-Pays}

-- Hashes of zeros, but a one at the front of every Argon2id hash.
abbrev ones_crypto : Crypto
ones_crypto = record zeros_crypto { argon2id = λ _ _. 1 ∷ replicate 31 0 }

abbrev wallet : Wallet
wallet = record { address = 1 ∷ []; public_key = replicate 33 2; sign = λ hash. some (1 ∷ []) }

abbrev decode : List ℕ → Option (List ℕ)
decode address = some (replicate 25 0)

abbrev size : Transaction → ℕ
size tx = 200

abbrev easy : Target
easy = record { bytes = replicate 32 0xff }

abbrev new_node : Node
new_node = init_genesis ones_crypto

abbrev mining : Option ((Node × MemStore) × Block)
mining =
    mine_block ones_crypto mem_chain decode size 3 1_741_353_700 easy (some wallet)
      (new_node, empty_store)

abbrev nothing_mined : (Node × MemStore) × Block
nothing_mined = (
  (new_node, empty_store),
  record {
    header = genesis_header ones_crypto;
    transactions = [];
    signature = none;
    pubkey = none;
  },
)

abbrev mined : (Node × MemStore) × Block
mined = unwrap_or nothing_mined mining

mines :
    mine_block ones_crypto mem_chain decode size 3 1_741_353_700 easy
      (some wallet)
      (new_node, empty_store)
    ≡ some ((mined.0.0, mined.0.1), mined.1)
unfolding mine_block accum_core.Tx.Spend.pay_to accum_core.Share.prefilter
    accum_core.Target.is_met_by accum_core.Target.prefilter_target accum_core.Target.scale_val
    pow_hash accum_core.Node.Mine.has_duplicate accum_core.Node.plain_txids accum_core.Base.eq_bytes
mines = refl

-- The store with the block.
abbrev put : MemStore
put = (
  empty_store.0,
  λ k. if 1 == k then some (record (mined.1) { signature = none; pubkey = none }) else none,
)

mine_block-IsAccepted_example :
    IsAccepted ones_crypto mem_chain new_node empty_store mined.1 mined.0.0
mine_block-IsAccepted_example =
    mine_block-IsAccepted ones_crypto mem_chain decode size 3 1_741_353_700 easy (some wallet)
      new_node mined.0.0 empty_store mined.0.1 mined.1 new_node empty_store put mines refl refl

reached : Reached ones_crypto mem_chain false mined.0.0 mined.0.1
reached =
    Reached.mine decode size 3 1_741_353_700 easy (some wallet) mined.1 (Reached.start empty_store)
      mines

Reached-IsChained_example : IsChained ones_crypto false mined.0.0
Reached-IsChained_example = Reached-IsChained ones_crypto mem_chain reached

search-IsFirst_example :
    ((search ones_crypto (genesis_header ones_crypto) easy 3 0 (0, replicate 32 0xff)).1 ≡ some 0)
    ↔ IsFirst ones_crypto (genesis_header ones_crypto) easy 0 (0 + 3) 0
search-IsFirst_example =
    search-IsFirst ones_crypto (genesis_header ones_crypto) easy 3 0 (0, replicate 32 0xff) 0

genesis_hash : header_hash ones_crypto (genesis_header ones_crypto) ≢ zero_hash
unfolding pow_hash
genesis_hash h = cc

mine_block-refused_example :
    verify_and_accept_blocks ones_crypto mem_chain 1_741_353_800
      (new_manager, empty_store)
      (mined.1 ∷ [])
    ≡ ((new_manager, empty_store), err invalid_prev_hash)
mine_block-refused_example =
    mine_block-refused ones_crypto mem_chain decode size 3 1_741_353_700 easy (some wallet)
      mined.0.0 empty_store mined.0.1 mined.1 1_741_353_800 empty_store [] genesis_hash mines

abbrev recent : List ℕ
recent = 1 ∷ 9 ∷ 9 ∷ 2 ∷ 8 ∷ 3 ∷ 7 ∷ 4 ∷ 6 ∷ 11 ∷ 5 ∷ []

abbrev eleven_blocks : Node
eleven_blocks = record new_node { timestamps = 1_000 ∷ 2_000 ∷ recent }

median_timestamp_middle_example :
    (m : ℕ) × (median_timestamp eleven_blocks ≡ some m)
    × (6 ≤ count (λ t. leb t m) recent)
    × (6 ≤ count (λ t. leb m t) recent)
median_timestamp_middle_example =
    median_timestamp_middle eleven_blocks (1_000 ∷ 2_000 ∷ []) recent refl refl

abbrev coin : ℕ → Utxo
coin value = ((replicate 32 3, 0), record { value = value; script_pubkey = [] })

abbrev coins : List Utxo
coins = coin 600 ∷ coin 5_000 ∷ coin 70 ∷ []

abbrev payment : Transaction
payment = elim (create_p2pkh ones_crypto wallet decode (4 ∷ []) 1_000 500 coins) [
  | ok tx ↦ tx
  | err e ↦ record { version = 0; inputs = []; outputs = []; locktime = 0 }
]

pays : create_p2pkh ones_crypto wallet decode (4 ∷ []) 1_000 500 coins ≡ ok payment
unfolding create_p2pkh
pays = refl

create_tx-Pays_example : Pays decode wallet.address (4 ∷ []) coins 1_000 500 payment
create_tx-Pays_example =
    create_tx-Pays ones_crypto wallet decode (4 ∷ []) 1_000 500 coins payment (omega arith)
      (omega arith) (inl pays)
