-- ===== src/Examples/Codecs.antt =====
-- The theorems on encoded headers, packets and scripts at small inputs.
use accum_core.Base.{◌≡◌, some, [], ◌∷◌, ok, replicate, arith}
use accum_core.Examples.{replicate-IsBytes}
use accum_core.Header.{BlockHeader, IsHeader, to_bytes, deserialize}
use accum_core.Header.Roundtrip.{deserialize-to_bytes}
use accum_core.Tx.Script.{script_of, parse_script_sig, parse_script_sig-script_of}

abbrev header : BlockHeader
header = record {
  version = 1;
  prev_hash = replicate 32 1;
  merkle_root = replicate 32 2;
  timestamp = 1_741_353_600;
  difficulty = record { bytes = replicate 32 3 };
  nonce = 7;
  epoch_index = 1;
}

header-IsHeader : IsHeader header
header-IsHeader = record {
  version_u32 = omega arith;
  prev_hash_32 = replicate-IsBytes 32 1 (omega arith);
  merkle_root_32 = replicate-IsBytes 32 2 (omega arith);
  timestamp_u64 = omega arith;
  difficulty_32 = replicate-IsBytes 32 3 (omega arith);
  nonce_u64 = omega arith;
  epoch_index_u32 = omega arith;
}

deserialize-to_bytes_example : deserialize (to_bytes header) ≡ ok header
deserialize-to_bytes_example = deserialize-to_bytes header header-IsHeader

parse_script_sig-script_of_example :
    parse_script_sig (script_of (1 ∷ 2 ∷ []) (3 ∷ [])) ≡ some (1 ∷ 2 ∷ [], 3 ∷ [])
parse_script_sig-script_of_example =
    parse_script_sig-script_of (1 ∷ 2 ∷ []) (3 ∷ []) (omega arith) (omega arith) (omega arith)
