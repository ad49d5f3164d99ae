-- ===== src/Node/Median.antt =====
-- `Node::median_timestamp` of accum-node/src/main.rs.
use accum_core.Base.{
  ℕ, zero, suc, ◌+◌, ◌≤◌, ◌<◌, ◌≡◌, refl, inl, inr, Bool, true, false, Option, none, some, List, [],
  ◌∷◌, ◌++◌, ◌∙◌, ap, length-append, ltb, leb, if◌then◌else◌, length, take, get_or, All, Bool-cases,
  arith,
}
use accum_core.Node.{Node}

-- `iter().rev()`
reverse_onto : List ℕ → List ℕ → List ℕ
reverse_onto acc [] = acc
reverse_onto acc (x ∷ xs) = reverse_onto (x ∷ acc) xs

insert_time : ℕ → List ℕ → List ℕ
insert_time t [] = t ∷ []
insert_time t (x ∷ xs) = let rest = insert_time t xs in if leb t x then t ∷ x ∷ xs else x ∷ rest

-- `last.sort()`
sort_times : List ℕ → List ℕ
unfolding insert_time
sort_times [] = []
sort_times (t ∷ rest) = insert_time t (sort_times rest)

-- `self.timestamps.iter().rev().take(11)`
last_eleven : List ℕ → List ℕ
unfolding reverse_onto
last_eleven times = take 11 (reverse_onto [] times)

-- `Node::median_timestamp`
pub median_timestamp : Node → Option ℕ
unfolding sort_times last_eleven
median_timestamp n =
    if ltb (length n.timestamps) 11
    then none
    else some (get_or (sort_times (last_eleven n.timestamps)) 5 0)

-- How many of the numbers pass a test.
abbrev pub count : (ℕ → Bool) → List ℕ → ℕ
count test [] = 0
count test (x ∷ xs) = (if test x then 1 else 0) + count test xs

abbrev IsSorted : List ℕ → Type 0
IsSorted [] = Unit
IsSorted (x ∷ xs) = All (λ y. x ≤ y) xs × IsSorted xs

All-insert_time :
    (low t : ℕ) (xs : List ℕ)
    → low ≤ t
    → All (λ y. low ≤ y) xs
    → All (λ y. low ≤ y) (insert_time t xs)
unfolding insert_time
All-insert_time low t [] h hs = (h, tt)
All-insert_time low t (x ∷ xs) h (hx, hs) = elim (Bool-cases (leb t x)) [
  | inl before ↦ rw before (h, (hx, hs))
  | inr after ↦ rw after (hx, All-insert_time low t xs h hs)
]

All-weaken :
    (low high : ℕ) (xs : List ℕ) → low ≤ high → All (λ y. high ≤ y) xs → All (λ y. low ≤ y) xs
All-weaken low high [] h hs = tt
All-weaken low high (x ∷ xs) h (hx, hs) = (omega arith, All-weaken low high xs h hs)

insert_time-IsSorted : (t : ℕ) (xs : List ℕ) → IsSorted xs → IsSorted (insert_time t xs)
unfolding insert_time
insert_time-IsSorted t [] h = (tt, tt)
insert_time-IsSorted t (x ∷ xs) (hx, hs) = elim (Bool-cases (leb t x)) [
  | inl before ↦
      let low : t ≤ x = ground arith in rw before ((low, All-weaken t x xs low hx), (hx, hs))
  | inr after ↦ rw after (All-insert_time x t xs (ground arith) hx, insert_time-IsSorted t xs hs)
]

sort_times-IsSorted : (xs : List ℕ) → IsSorted (sort_times xs)
unfolding sort_times
sort_times-IsSorted [] = tt
sort_times-IsSorted (t ∷ rest) = insert_time-IsSorted t (sort_times rest) (sort_times-IsSorted rest)

count-insert_time :
    (test : ℕ → Bool) (t : ℕ) (xs : List ℕ) → count test (insert_time t xs) ≡ count test (t ∷ xs)
unfolding insert_time
count-insert_time test t [] = refl
count-insert_time test t (x ∷ xs) = elim (Bool-cases (leb t x)) [
  | inl before ↦ rw before refl
  | inr after ↦ rw after (omega (arith, count-insert_time test t xs))
]

count-sort_times : (test : ℕ → Bool) (xs : List ℕ) → count test (sort_times xs) ≡ count test xs
unfolding sort_times
count-sort_times test [] = refl
count-sort_times test (t ∷ rest) =
    omega (arith, count-insert_time test t (sort_times rest), count-sort_times test rest)

-- Counting everything is the length.
count_all : (low : ℕ) (xs : List ℕ) → All (λ y. low ≤ y) xs → count (λ y. leb low y) xs ≡ length xs
count_all low [] h = refl
count_all low (x ∷ xs) (hx, hs) =
    let e : leb low x ≡ true = ground arith in rw e (omega (arith, count_all low xs hs))

entry_above :
    (low i : ℕ) (xs : List ℕ) → All (λ y. low ≤ y) xs → i < length xs → low ≤ get_or xs i 0
entry_above low i [] h lt = absurd (omega arith)
entry_above low zero (x ∷ xs) h lt = h.0
entry_above low (suc i) (x ∷ xs) h lt = entry_above low i xs h.1 (omega arith)

-- Of a sorted list at least `i + 1` are at most entry `i`, and all from it on are at least it.
rank_below :
    (i : ℕ) (xs : List ℕ)
    → IsSorted xs
    → i < length xs
    → i + 1 ≤ count (λ y. leb y (get_or xs i 0)) xs
rank_below i [] h lt = absurd (omega arith)
rank_below zero (x ∷ xs) h lt = let e : leb x x ≡ true = ground arith in rw e (omega arith)
rank_below (suc i) (x ∷ xs) (hx, hs) lt =
    let above = entry_above x i xs hx (omega arith) in
    let e : leb x (get_or xs i 0) ≡ true = ground arith in
    rw e (omega (arith, rank_below i xs hs (omega arith)))

rank_above :
    (i : ℕ) (xs : List ℕ)
    → IsSorted xs
    → i < length xs
    → length xs ≤ count (λ y. leb (get_or xs i 0) y) xs + i
rank_above i [] h lt = absurd (omega arith)
rank_above zero (x ∷ xs) (hx, hs) lt =
    let e : leb x x ≡ true = ground arith in rw e (omega (arith, count_all x xs hx))
rank_above (suc i) (x ∷ xs) (hx, hs) lt = omega (arith, rank_above i xs hs (omega arith))

All-zero : (xs : List ℕ) → All (λ y. 0 ≤ y) xs
All-zero [] = tt
All-zero (x ∷ xs) = (omega arith, All-zero xs)

length-reverse_onto : (acc xs : List ℕ) → length (reverse_onto acc xs) ≡ length acc + length xs
unfolding reverse_onto
length-reverse_onto acc [] = omega arith
length-reverse_onto acc (x ∷ xs) = omega (arith, length-reverse_onto (x ∷ acc) xs)

length-sort_times : (xs : List ℕ) → length (sort_times xs) ≡ length xs
length-sort_times xs = omega (
  arith,
  count_all 0 xs (All-zero xs),
  count_all 0 (sort_times xs) (All-zero (sort_times xs)),
  count-sort_times (λ y. leb 0 y) xs,
)

reverse_onto-append :
    (acc xs ys : List ℕ) → reverse_onto acc (xs ++ ys) ≡ reverse_onto (reverse_onto acc xs) ys
unfolding reverse_onto
reverse_onto-append acc [] ys = refl
reverse_onto-append acc (x ∷ xs) ys = reverse_onto-append (x ∷ acc) xs ys

-- Turning a list round onto another puts it in front.
reverse_onto_front :
    (front acc xs : List ℕ) → reverse_onto (front ++ acc) xs ≡ reverse_onto front xs ++ acc
unfolding reverse_onto
reverse_onto_front front acc [] = refl
reverse_onto_front front acc (x ∷ xs) = reverse_onto_front (x ∷ front) acc xs

take-append : (n : ℕ) (xs ys : List ℕ) → length xs ≡ n → take n (xs ++ ys) ≡ xs
take-append zero [] ys h = refl
take-append zero (x ∷ xs) ys h = absurd (omega arith)
take-append (suc n) [] ys h = absurd (omega arith)
take-append (suc n) (x ∷ xs) ys h = ap (λ l. x ∷ l) (take-append n xs ys (omega arith))

count-reverse_onto :
    (test : ℕ → Bool) (acc xs : List ℕ)
    → count test (reverse_onto acc xs) ≡ count test acc + count test xs
unfolding reverse_onto
count-reverse_onto test acc [] = omega arith
count-reverse_onto test acc (x ∷ xs) = omega (arith, count-reverse_onto test (x ∷ acc) xs)

-- What is taken is the last part of the list, turned round.
last_eleven-append :
    (older recent : List ℕ)
    → length recent ≡ 11
    → last_eleven (older ++ recent) ≡ reverse_onto [] recent
unfolding last_eleven
last_eleven-append older recent size =
    ap (take 11) (reverse_onto-append [] older recent)
    ∙ ap (take 11) (reverse_onto_front [] (reverse_onto [] older) recent)
    ∙ take-append 11 (reverse_onto [] recent) (reverse_onto [] older)
        (omega (arith, length-reverse_onto [] recent))

-- A node whose timestamps end with eleven `recent` ones has a median timestamp, and of these eleven
-- at least six are at most the median and at least six are at least the median, whatever the older
-- timestamps are.
pub median_timestamp_middle :
    (n : Node) (older recent : List ℕ)
    → n.timestamps ≡ older ++ recent
    → length recent ≡ 11
    → (m : ℕ) × (median_timestamp n ≡ some m)
      × (6 ≤ count (λ t. leb t m) recent)
      × (6 ≤ count (λ t. leb m t) recent)
unfolding median_timestamp
median_timestamp_middle n older recent split size =
    let times = last_eleven n.timestamps in
    let sorted = sort_times times in
    let m = get_or sorted 5 0 in
    let turned : times ≡ reverse_onto [] recent =
      ap last_eleven split ∙ last_eleven-append older recent size in
    let size' : length times ≡ 11 =
      ap length turned ∙ omega (arith, length-reverse_onto [] recent) in
    let sorted_size = length-sort_times times in
    let ordered = sort_times-IsSorted times in
    let enough = length-append older recent in
    let all = ap length split in
    let long : ltb (length n.timestamps) 11 ≡ false = ground arith in
    let below = ap (count (λ t. leb t m)) turned in
    let above = ap (count (λ t. leb m t)) turned in
    (
      m,
      rw long refl,
      omega (
        arith,
        rank_below 5 sorted ordered (omega arith),
        count-sort_times (λ t. leb t m) times,
        count-reverse_onto (λ t. leb t m) [] recent,
      ),
      omega (
        arith,
        rank_above 5 sorted ordered (omega arith),
        count-sort_times (λ t. leb m t) times,
        count-reverse_onto (λ t. leb m t) [] recent,
      ),
    )
