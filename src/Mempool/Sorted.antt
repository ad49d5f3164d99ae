-- ===== src/Mempool/Sorted.antt =====
-- Relations between the transactions of a mempool, kept by what `add_transaction_to_mempool` of
-- accum-node/src/main.rs does with the list.
use accum_core.Base.{
  ℕ, zero, suc, ◌≤◌, inl, inr, List, [], ◌∷◌, ◌++◌, leb, leb→le, take, All, All-append, All-take,
  Bool-cases, arith,
}
use accum_core.Crypto.{Crypto}
use accum_core.Mempool.{fee_or_zero, insert_by_fee, sort_by_fee}
use accum_core.Tx.{Transaction}
use accum_core.Utxo.{UtxoDb}

module _ {ℓ} (R : Transaction → Transaction → Type ℓ) where
  -- Every transaction is in the relation to those behind it.
  abbrev pub Pairwise : List Transaction → Type ℓ
  Pairwise [] = Unit
  Pairwise (x ∷ xs) = All (R x) xs × Pairwise xs

  pub Pairwise-take : (n : ℕ) (xs : List Transaction) → Pairwise xs → Pairwise (take n xs)
  Pairwise-take zero xs h = tt
  Pairwise-take (suc n) [] h = tt
  Pairwise-take (suc n) (x ∷ xs) (hx, h) = (All-take (R x) n xs hx, Pairwise-take n xs h)

  pub Pairwise-snoc :
      (xs : List Transaction) (y : Transaction)
      → All (λ x. R x y) xs
      → Pairwise xs
      → Pairwise (xs ++ (y ∷ []))
  Pairwise-snoc [] y new h = (tt, tt)
  Pairwise-snoc (x ∷ xs) y (hy, new) (hx, h) =
      (All-append (R x) xs (y ∷ []) hx (hy, tt), Pairwise-snoc xs y new h)

module _ (c : Crypto) (db : UtxoDb) where
  open db use {Store}

  All-insert_by_fee {ℓ} :
      (P : Transaction → Type ℓ) (s : Store) (tx : Transaction) (xs : List Transaction)
      → P tx
      → All P xs
      → All P (insert_by_fee c db s tx xs)
  unfolding insert_by_fee
  All-insert_by_fee P s tx [] p h = (p, tt)
  All-insert_by_fee P s tx (x ∷ xs) p (hx, h) =
      elim (Bool-cases (leb (fee_or_zero c db s x) (fee_or_zero c db s tx))) [
        | inl here ↦ rw here (p, (hx, h))
        | inr later ↦ rw later (hx, All-insert_by_fee P s tx xs p h)
      ]

  pub All-sort_by_fee {ℓ} :
      (P : Transaction → Type ℓ) (s : Store) (xs : List Transaction)
      → All P xs
      → All P (sort_by_fee c db s xs)
  unfolding sort_by_fee
  All-sort_by_fee P s [] h = tt
  All-sort_by_fee P s (x ∷ xs) (hx, h) =
      All-insert_by_fee P s x (sort_by_fee c db s xs) hx (All-sort_by_fee P s xs h)

  All-map {ℓ κ} :
      {P : Transaction → Type ℓ} {Q : Transaction → Type κ}
      → ((x : Transaction) → P x → Q x)
      → (xs : List Transaction) → All P xs
      → All Q xs
  All-map f [] h = tt
  All-map f (x ∷ xs) (hx, h) = (f x hx, All-map f xs h)

  -- A symmetric relation survives the sort.
  module _ {ℓ} (R : Transaction → Transaction → Type ℓ)
      (R-sym : (x y : Transaction) → R x y → R y x) where
    Pairwise-insert_by_fee :
        (s : Store) (tx : Transaction) (xs : List Transaction)
        → All (R tx) xs
        → Pairwise R xs
        → Pairwise R (insert_by_fee c db s tx xs)
    unfolding insert_by_fee
    Pairwise-insert_by_fee s tx [] new h = (tt, tt)
    Pairwise-insert_by_fee s tx (x ∷ xs) (rx, new) (hx, h) =
        elim (Bool-cases (leb (fee_or_zero c db s x) (fee_or_zero c db s tx))) [
          | inl here ↦ rw here ((rx, new), (hx, h))
          | inr later ↦ rw later (
            All-insert_by_fee (R x) s tx xs (R-sym tx x rx) hx,
            Pairwise-insert_by_fee s tx xs new h,
          )
        ]

    pub Pairwise-sort_by_fee :
        (s : Store) (xs : List Transaction) → Pairwise R xs → Pairwise R (sort_by_fee c db s xs)
    unfolding sort_by_fee
    Pairwise-sort_by_fee s [] h = tt
    Pairwise-sort_by_fee s (x ∷ xs) (hx, h) =
        Pairwise-insert_by_fee s x (sort_by_fee c db s xs) (All-sort_by_fee (R x) s xs hx)
          (Pairwise-sort_by_fee s xs h)

  abbrev pub PaysMore : Store → Transaction → Transaction → Type 0
  PaysMore s x y = fee_or_zero c db s y ≤ fee_or_zero c db s x

  insert_by_fee_sorted :
      (s : Store) (tx : Transaction) (xs : List Transaction)
      → Pairwise (PaysMore s) xs
      → Pairwise (PaysMore s) (insert_by_fee c db s tx xs)
  unfolding insert_by_fee
  insert_by_fee_sorted s tx [] h = (tt, tt)
  insert_by_fee_sorted s tx (x ∷ xs) (hx, h) =
      elim (Bool-cases (leb (fee_or_zero c db s x) (fee_or_zero c db s tx))) [
        | inl here ↦
            let le = leb→le _ _ here in
            rw here ((le, All-map (λ y (p : PaysMore s x y). omega arith) xs hx), (hx, h))
        | inr later ↦
            let less : PaysMore s x tx = ground arith in
            rw later
              (All-insert_by_fee (PaysMore s x) s tx xs less hx, insert_by_fee_sorted s tx xs h)
      ]

  pub sort_by_fee_sorted :
      (s : Store) (xs : List Transaction) → Pairwise (PaysMore s) (sort_by_fee c db s xs)
  unfolding sort_by_fee
  sort_by_fee_sorted s [] = tt
  sort_by_fee_sorted s (x ∷ xs) =
      insert_by_fee_sorted s x (sort_by_fee c db s xs) (sort_by_fee_sorted s xs)
