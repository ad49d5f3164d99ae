-- ===== src/Tx/Encode/Sighash.antt =====
-- What a signature commits to: not the script of its own input, but the scripts of all others.
use accum_core.Base.{
  ℕ, zero, suc, ◌+◌, ◌≡◌, ◌≢◌, ◌<◌, refl, ap, List, [], ◌∷◌, ◌++◌, arith, ◌==◌, if◌then◌else◌,
  length, length-append, get_elem?, some, true, All,
}
use accum_core.Bytes.{to_le_bytes, length-to_le_bytes}
use accum_core.Tx.{TxIn, Transaction}
use accum_core.Tx.Encode.{
  encode_outputs, encode_input, encode_script, sighash_inputs, sighash_preimage,
}

-- `tx.inputs[k].script_sig = script`
abbrev pub sign_at : ℕ → List ℕ → List TxIn → List TxIn
sign_at k script [] = []
sign_at zero script (input ∷ rest) = record input { script_sig = script } ∷ rest
sign_at (suc k) script (input ∷ rest) = input ∷ sign_at k script rest

length-sign_at :
    (k : ℕ) (script : List ℕ) (inputs : List TxIn)
    → length (sign_at k script inputs) ≡ length inputs
length-sign_at k script [] = refl
length-sign_at zero script (input ∷ rest) = refl
length-sign_at (suc k) script (input ∷ rest) = ap suc (length-sign_at k script rest)

sighash_inputs-sign_at :
    (k i j : ℕ) (script : List ℕ) (inputs : List TxIn)
    → i + k ≡ j
    → sighash_inputs j i (sign_at k script inputs) ≡ sighash_inputs j i inputs
unfolding sighash_inputs encode_input
sighash_inputs-sign_at k i j script [] e = refl
sighash_inputs-sign_at zero i j script (input ∷ rest) e =
    let here : (i == j) ≡ true = ground arith in rw here
sighash_inputs-sign_at (suc k) i j script (input ∷ rest) e =
    ap
      (λ l.
        encode_input input (if i == j then to_le_bytes 4 0 else encode_script input.script_sig)
        ++ l)
      (sighash_inputs-sign_at k (i + 1) j script rest (omega arith))

-- Writing the script of input `k` does not change what the signature of input `k` commits to.
sighash_preimage-sign_at :
    (k : ℕ) (script : List ℕ) (tx : Transaction)
    → sighash_preimage (record tx { inputs = sign_at k script tx.inputs }) k ≡ sighash_preimage tx k
unfolding sighash_preimage
sighash_preimage-sign_at k script tx =
    rw (
      length-sign_at k script tx.inputs,
      sighash_inputs-sign_at k 0 k script tx.inputs (omega arith),
    )

length-encode_input :
    (i : TxIn) (script : List ℕ)
    → length (encode_input i script) ≡ length i.prev_txid + length script + 8
unfolding encode_input
length-encode_input i script =
    let index = to_le_bytes 4 i.prev_index in
    let seq = to_le_bytes 4 i.sequence in
    omega (
      arith,
      length-append (i.prev_txid ++ index ++ script) seq,
      length-append (i.prev_txid ++ index) script,
      length-append i.prev_txid index,
      length-to_le_bytes 4 i.prev_index,
      length-to_le_bytes 4 i.sequence,
    )

length-encode_script : (s : List ℕ) → length (encode_script s) ≡ length s + 4
unfolding encode_script
length-encode_script s =
    omega (arith, length-append (to_le_bytes 4 (length s)) s, length-to_le_bytes 4 (length s))

-- `for (i, input) in tx.inputs.iter_mut().enumerate() { input.sign(…) }`: every input gets a script.
abbrev pub sign_all : List (List ℕ) → List TxIn → List TxIn
sign_all [] inputs = inputs
sign_all (s ∷ ss) [] = []
sign_all (s ∷ ss) (input ∷ rest) = record input { script_sig = s } ∷ sign_all ss rest

length-sign_all :
    (ss : List (List ℕ)) (inputs : List TxIn) → length (sign_all ss inputs) ≡ length inputs
length-sign_all [] inputs = refl
length-sign_all (s ∷ ss) [] = refl
length-sign_all (s ∷ ss) (input ∷ rest) = ap suc (length-sign_all ss rest)

-- The bytes of all scripts but the one at `j`, counted from `i`.
abbrev sum_others : ℕ → ℕ → List (List ℕ) → ℕ
sum_others j i [] = 0
sum_others j i (s ∷ ss) = (if i == j then 0 else length s) + sum_others j (i + 1) ss

sum_others_pos :
    (j i k : ℕ) (ss : List (List ℕ)) {s : List ℕ}
    → i + k ≢ j
    → get_elem? ss k ≡ some s
    → 0 < length s
    → 0 < sum_others j i ss
sum_others_pos j i k [] ne at pos = absurd (cc at)
sum_others_pos j i zero (x ∷ ss) {s} ne at pos =
    let same : x ≡ s = cc in
    let here : length x ≡ length s = ap (λ (t : List ℕ). length t) same in ground arith
sum_others_pos j i (suc k) (x ∷ ss) ne at pos =
    let later = sum_others_pos j (i + 1) k ss (omega arith) at pos in omega arith

-- Scripts written over empty ones make the hashed bytes longer by their size.
sighash_inputs-sign_all :
    (j i : ℕ) (ss : List (List ℕ)) (inputs : List TxIn)
    → length ss ≡ length inputs
    → All (λ (input : TxIn). length input.script_sig ≡ 0) inputs
    → length (sighash_inputs j i (sign_all ss inputs))
      ≡ length (sighash_inputs j i inputs) + sum_others j i ss
unfolding sighash_inputs
sighash_inputs-sign_all j i [] inputs e h = omega arith
sighash_inputs-sign_all j i (s ∷ ss) [] e h = absurd (omega arith)
sighash_inputs-sign_all j i (s ∷ ss) (x ∷ rest) e h =
    let x' : TxIn = record x { script_sig = s } in
    let coded = λ (t : TxIn). if i == j then to_le_bytes 4 0 else encode_script t.script_sig in
    omega (
      arith,
      length-append (encode_input x' (coded x')) (sighash_inputs j (i + 1) (sign_all ss rest)),
      length-append (encode_input x (coded x)) (sighash_inputs j (i + 1) rest),
      length-encode_input x' (coded x'),
      length-encode_input x (coded x),
      length_coded i j s,
      length_coded i j x.script_sig,
      no_script i j (length x.script_sig) h.0,
      sighash_inputs-sign_all j (i + 1) ss rest (omega arith) h.1,
    )
  where
    length_coded :
        (i j : ℕ) (script : List ℕ)
        → length (if i == j then to_le_bytes 4 0 else encode_script script)
          ≡ (if i == j then 0 else length script) + 4
    length_coded i j script = ground (arith, length-to_le_bytes 4 0, length-encode_script script)

    no_script : (i j n : ℕ) → n ≡ 0 → (if i == j then 0 else n) ≡ 0
    no_script i j n z = ground arith

-- Only the third of seven parts can differ in length.
framed :
    (a b x y c d e f : List ℕ)
    → a ++ b ++ x ++ c ++ d ++ e ++ f ≡ a ++ b ++ y ++ c ++ d ++ e ++ f
    → length x ≡ length y
framed a b x y c d e f h = omega (arith, ap (λ (l : List ℕ). length l) h, whole x, whole y)
  where
    whole :
        (z : List ℕ)
        → length (a ++ b ++ z ++ c ++ d ++ e ++ f)
          ≡ length a + length b + length z + length c + length d + length e + length f
    whole z = omega (
      arith,
      length-append (a ++ b ++ z ++ c ++ d ++ e) f,
      length-append (a ++ b ++ z ++ c ++ d) e,
      length-append (a ++ b ++ z ++ c) d,
      length-append (a ++ b ++ z) c,
      length-append (a ++ b) z,
      length-append a b,
    )

-- Signing all inputs of a transaction with empty scripts changes what the signature of input `j`
-- commits to, whenever another input gets a script that is not empty.
pub sighash_preimage-sign_all :
    (tx : Transaction) (ss : List (List ℕ)) (j k : ℕ) {s : List ℕ}
    → length ss ≡ length tx.inputs
    → All (λ (input : TxIn). length input.script_sig ≡ 0) tx.inputs
    → k ≢ j
    → get_elem? ss k ≡ some s
    → 0 < length s
    → sighash_preimage (record tx { inputs = sign_all ss tx.inputs }) j ≢ sighash_preimage tx j
unfolding sighash_preimage
sighash_preimage-sign_all tx ss j k e h ne at pos same =
    let signed = sighash_inputs j 0 (sign_all ss tx.inputs) in
    let plain = sighash_inputs j 0 tx.inputs in
    let count = to_le_bytes 4 (length tx.inputs) in
    let level : length signed ≡ length plain =
      framed (to_le_bytes 4 tx.version) count signed plain (to_le_bytes 4 (length tx.outputs))
        (encode_outputs tx.outputs) (to_le_bytes 4 tx.locktime) (to_le_bytes 4 1)
        (rw (length-sign_all ss tx.inputs) at same) in
    omega (
      arith,
      level,
      sum_others_pos j 0 k ss (omega arith) at pos,
      sighash_inputs-sign_all j 0 ss tx.inputs e h,
    )
