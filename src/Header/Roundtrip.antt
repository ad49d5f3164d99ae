-- ===== src/Header/Roundtrip.antt =====
-- Encoding and decoding a header are inverse to one another.
use accum_core.Base.{
  ℕ, zero, suc, ◌+◌, ◌<◌, ◌≤◌, ◌≡◌, ◌≢◌, refl, sym, ap, ◌∙◌, List, [], ◌∷◌, ◌++◌, ok, err,
  ok-injective, arith, length, take, drop, take_prefix, drop_prefix, length-append, length-take,
  length-drop, All-take, All-drop, take-append-drop,
}
use accum_core.Bytes.{
  IsBytes, to_le_bytes, from_le_bytes, length-to_le_bytes, to_le_bytes-IsBytes,
  from_le_bytes-to_le_bytes, to_le_bytes-from_le_bytes, IsBytes-append,
}
use accum_core.Header.{BlockHeader, IsHeader, to_bytes, deserialize, slice, invalid_header_length}

drop-drop : (n m : ℕ) (xs : List ℕ) → drop (n + m) xs ≡ drop m (drop n xs)
drop-drop zero m xs = let z : 0 + m ≡ m = omega arith in rw z
drop-drop (suc n) m [] = let e : suc n + m ≡ suc (n + m) = omega arith in rw e (sym (drop-nil m))
  where
    drop-nil : (k : ℕ) → drop {A = ℕ} k [] ≡ []
    drop-nil zero = refl
    drop-nil (suc k) = refl
drop-drop (suc n) m (x ∷ xs) =
    let e : suc n + m ≡ suc (n + m) = omega arith in rw e (drop-drop n m xs)

-- Behind a field of `n` bytes the offsets count from its end.
pub slice_after :
    (n k m : ℕ) (xs ys : List ℕ) → length xs ≡ n → slice (n + k) m (xs ++ ys) ≡ slice k m ys
slice_after n k m xs ys e =
    ap (take m) (drop-drop n k (xs ++ ys) ∙ ap (drop k) (drop_prefix n xs ys e))

pub slice_here : (n : ℕ) (xs ys : List ℕ) → length xs ≡ n → slice 0 n (xs ++ ys) ≡ xs
slice_here n xs ys e = take_prefix n xs ys e

pub slice_all : (n : ℕ) (xs : List ℕ) → length xs ≡ n → take n xs ≡ xs
slice_all zero [] e = refl
slice_all zero (x ∷ xs) e = absurd (omega arith)
slice_all (suc n) [] e = refl
slice_all (suc n) (x ∷ xs) e = ap (λ l. x ∷ l) (slice_all n xs (omega arith))

-- The seven fields of a header one after the other, each found again at its offset.
module _ (a b c d e f g : List ℕ) (ha : length a ≡ 4) (hb : length b ≡ 32) (hc : length c ≡ 32)
    (hd : length d ≡ 8) (he : length e ≡ 32) (hf : length f ≡ 8) (hg : length g ≡ 4) where
  abbrev fields : List ℕ
  fields = a ++ (b ++ (c ++ (d ++ (e ++ (f ++ g)))))

  at_0 : slice 0 4 fields ≡ a
  at_0 = slice_here 4 a _ ha

  at_4 : slice 4 32 fields ≡ b
  at_4 = slice_after 4 0 32 a _ ha ∙ slice_here 32 b _ hb

  -- Behind the first two fields.
  after_36 : (k n : ℕ) → slice (4 + (32 + k)) n fields ≡ slice k n (c ++ (d ++ (e ++ (f ++ g))))
  after_36 k n = slice_after 4 (32 + k) n a _ ha ∙ slice_after 32 k n b _ hb

  at_36 : slice 36 32 fields ≡ c
  at_36 = after_36 0 32 ∙ slice_here 32 c _ hc

  at_68 : slice 68 8 fields ≡ d
  at_68 = after_36 32 8 ∙ slice_after 32 0 8 c _ hc ∙ slice_here 8 d _ hd

  -- Behind the first four fields.
  after_76 : (k n : ℕ) → slice (4 + (32 + (32 + (8 + k)))) n fields ≡ slice k n (e ++ (f ++ g))
  after_76 k n =
      after_36 (32 + (8 + k)) n ∙ slice_after 32 (8 + k) n c _ hc ∙ slice_after 8 k n d _ hd

  at_76 : slice 76 32 fields ≡ e
  at_76 = after_76 0 32 ∙ slice_here 32 e _ he

  at_108 : slice 108 8 fields ≡ f
  at_108 = after_76 32 8 ∙ slice_after 32 0 8 e _ he ∙ slice_here 8 f _ hf

  at_116 : slice 116 4 fields ≡ g
  at_116 = after_76 40 4 ∙ slice_after 32 8 4 e _ he ∙ slice_after 8 0 4 f _ hf ∙ slice_all 4 g hg

  -- What `deserialize` makes of the seven fields.
  decoded :
      deserialize fields
      ≡ ok (record {
        version = from_le_bytes a;
        prev_hash = b;
        merkle_root = c;
        timestamp = from_le_bytes d;
        difficulty = record { bytes = e };
        nonce = from_le_bytes f;
        epoch_index = from_le_bytes g;
      })
  unfolding deserialize
  decoded =
      let l5 = length-append e (f ++ g) ∙ ap (λ n. length e + n) (length-append f g) in
      let l3 =
        length-append c (d ++ (e ++ (f ++ g)))
        ∙ ap (λ n. length c + n) (length-append d (e ++ (f ++ g))) in
      let l1 =
        length-append a (b ++ (c ++ (d ++ (e ++ (f ++ g)))))
        ∙ ap (λ n. length a + n) (length-append b (c ++ (d ++ (e ++ (f ++ g))))) in
      let size : length fields ≡ 120 = omega (arith, l1, l3, l5) in
      rw (size, at_0, at_4, at_36, at_68, at_76, at_108, at_116)

pub to_bytes-IsBytes : (h : BlockHeader) → IsHeader h → IsBytes 120 (to_bytes h)
unfolding to_bytes
to_bytes-IsBytes h v =
    let v4 = to_le_bytes-IsBytes 4 h.version in
    let t8 = to_le_bytes-IsBytes 8 h.timestamp in
    let n8 = to_le_bytes-IsBytes 8 h.nonce in
    let e4 = to_le_bytes-IsBytes 4 h.epoch_index in
    IsBytes-append 4 116 _ _ v4 (
      IsBytes-append 32 84 _ _ v.prev_hash_32 (
        IsBytes-append 32 52 _ _ v.merkle_root_32 (
          IsBytes-append 8 44 _ _ t8
            (IsBytes-append 32 12 _ _ v.difficulty_32 (IsBytes-append 8 4 _ _ n8 e4)))))

-- A header whose fields fit their types is decoded from its 120 bytes as it was.
pub deserialize-to_bytes : (h : BlockHeader) → IsHeader h → deserialize (to_bytes h) ≡ ok h
unfolding to_bytes
deserialize-to_bytes h v = rw (
  decoded (to_le_bytes 4 h.version) h.prev_hash h.merkle_root (to_le_bytes 8 h.timestamp)
      h.difficulty.bytes (to_le_bytes 8 h.nonce) (to_le_bytes 4 h.epoch_index)
      (length-to_le_bytes 4 h.version) v.prev_hash_32.size v.merkle_root_32.size
      (length-to_le_bytes 8 h.timestamp) v.difficulty_32.size (length-to_le_bytes 8 h.nonce)
      (length-to_le_bytes 4 h.epoch_index),
  from_le_bytes-to_le_bytes 4 h.version v.version_u32,
  from_le_bytes-to_le_bytes 8 h.timestamp v.timestamp_u64,
  from_le_bytes-to_le_bytes 8 h.nonce v.nonce_u64,
  from_le_bytes-to_le_bytes 4 h.epoch_index v.epoch_index_u32,
)

-- The bytes from an offset on are a slice and what follows it.
slice-append-drop : (k n : ℕ) (xs : List ℕ) → slice k n xs ++ drop (k + n) xs ≡ drop k xs
slice-append-drop k n xs = rw (drop-drop k n xs) (take-append-drop n (drop k xs))

slice-IsBytes : (k n : ℕ) (xs : List ℕ) → IsBytes 120 xs → k + n ≤ 120 → IsBytes n (slice k n xs)
slice-IsBytes k n xs h room = record {
  size = omega (arith, length-take n (drop k xs), length-drop k xs, h.size);
  byte = All-take (λ b. b < 256) n (drop k xs) (All-drop (λ b. b < 256) k xs h.byte);
}

-- The slices that the decoder reads make up the whole array.
slices_whole :
    (xs : List ℕ)
    → length xs ≡ 120
    → slice 0 4 xs
        ++ (slice 4 32 xs
            ++ (slice 36 32 xs
                ++ (slice 68 8 xs ++ (slice 76 32 xs ++ (slice 108 8 xs ++ slice 116 4 xs)))))
      ≡ xs
slices_whole xs e =
    let last : slice 116 4 xs ≡ drop 116 xs =
      slice_all 4 (drop 116 xs) (omega (arith, length-drop 116 xs, e)) in
    rw
      (
        last,
        slice-append-drop 108 8 xs,
        slice-append-drop 76 32 xs,
        slice-append-drop 68 8 xs,
        slice-append-drop 36 32 xs,
        slice-append-drop 4 32 xs,
      )
      (slice-append-drop 0 4 xs)

-- 120 bytes are decoded to a header that encodes to the same bytes.
to_bytes-deserialize :
    (xs : List ℕ) {h : BlockHeader} → IsBytes 120 xs → deserialize xs ≡ ok h → to_bytes h ≡ xs
unfolding to_bytes deserialize
to_bytes-deserialize xs {h} b e =
    let size : length xs ≡ 120 = b.size in
    let made = rw size at e in
    rw (sym (ok-injective made)) (
      rw
        (
          to_le_bytes-from_le_bytes 4 (slice 0 4 xs) (slice-IsBytes 0 4 xs b (omega arith)),
          to_le_bytes-from_le_bytes 8 (slice 68 8 xs) (slice-IsBytes 68 8 xs b (omega arith)),
          to_le_bytes-from_le_bytes 8 (slice 108 8 xs) (slice-IsBytes 108 8 xs b (omega arith)),
          to_le_bytes-from_le_bytes 4 (slice 116 4 xs) (slice-IsBytes 116 4 xs b (omega arith)),
        )
        (slices_whole xs b.size))

-- Every array of another length is refused.
deserialize_refuses : (xs : List ℕ) → length xs ≢ 120 → deserialize xs ≡ err invalid_header_length
unfolding deserialize
deserialize_refuses xs ne = ground arith
