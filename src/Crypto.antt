-- ===== src/Crypto.antt =====
-- The cryptographic libraries that accum-node/src/main.rs calls (sha2, ripemd, argon2, secp256k1), as
-- functions that the model takes as a parameter, and `Wallet`'s two functions over them.
use accum_core.Base.{
  ℕ, Bool, false, not, ◌&&◌, Option, none, some, List, ◌==◌, if◌then◌else◌, length,
}
use accum_core.Target.{Hash32}

pub record Crypto : Type 0 where
  -- `Sha256::digest` and `Ripemd160::digest`
  pub sha256 : List ℕ → Hash32
  pub ripemd160 : List ℕ → List ℕ
  -- `Argon2::hash_password_into` with the protocol's parameters: data and salt
  pub argon2id : List ℕ → List ℕ → Hash32
  -- `PublicKey::from_slice`, with the key in the bytes that `serialize` gives
  pub parse_pubkey : List ℕ → Option (List ℕ)
  -- `Signature::from_compact`
  pub parse_signature : List ℕ → Option (List ℕ)
  -- `SECP.verify_ecdsa(message, signature, key).is_ok()`
  pub secp_verify : List ℕ → List ℕ → List ℕ → Bool

-- `Wallet::miner_id_from_pubkey`
abbrev pub miner_id_from_pubkey : Crypto → List ℕ → List ℕ
miner_id_from_pubkey c key = c.ripemd160 (c.sha256 key)

-- `TxIn::verify_ecdsa`: a key or a signature that does not parse is refused.
unfoldable pub verify_ecdsa : Crypto → List ℕ → List ℕ → List ℕ → Bool
verify_ecdsa c pubkey_bytes sig_bytes msg = elim (c.parse_pubkey pubkey_bytes) [
  | none ↦ false
  | some key ↦ elim (c.parse_signature sig_bytes) [
    | none ↦ false
    | some sig ↦ c.secp_verify msg sig key
  ]
]

-- `Wallet::verify_signature`: the key has 33 or 65 bytes, and the signature is checked against the
-- hash of the message.
pub verify_signature : Crypto → List ℕ → List ℕ → List ℕ → Bool
unfolding verify_ecdsa
verify_signature c pubkey_bytes signature message =
    if not (length pubkey_bytes == 33) && not (length pubkey_bytes == 65)
    then false
    else verify_ecdsa c pubkey_bytes signature (c.sha256 message)
