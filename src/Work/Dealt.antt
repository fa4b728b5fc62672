-- ===== src/Work/Dealt.antt =====
-- No item is lost or given out twice.
use mathlib.Core.List.{Perm, perm_middle, append_assoc, append-nil}
use mathlib.Core.List.Perm
use Prim.Native.Nat.{◌%◌}
use native.Mathlib.Nat.{mod-lt}
use evm_amm_search.Prelude.{
  ℕ, zero, suc, ◌+◌, ◌≤◌, ◌<◌, ◌≡◌, refl, ap, ◌∙◌, true, List, [], ◌∷◌, ◌++◌, arith, keep, flat,
  length, All,
}
use evm_amm_search.Work.{
  push_at, deal, is_filled, empty_chunks, split_paths, split_indexed_items, indexed,
}

module _ {ℓ} {A : Type ℓ} where
  -- All items of the chunks.
  abbrev pub dealt : List (List A) → List A
  dealt chunks = flat (λ chunk. chunk) chunks

  push_at-perm :
      (i : ℕ) (item : A) (chunks : List (List A))
      → i < length chunks
      → Perm (dealt (push_at i item chunks)) (item ∷ dealt chunks)
  unfolding push_at
  push_at-perm i item [] h = absurd (omega (arith, h))
  push_at-perm zero item (chunk ∷ chunks) h =
      simp append_assoc (perm_middle {a = item} chunk (dealt chunks))
  push_at-perm (suc i) item (chunk ∷ chunks) h =
      Perm.trans (Perm.append_left chunk (push_at-perm i item chunks (omega (arith, h))))
        (perm_middle {a = item} chunk (dealt chunks))

  length-push_at :
      (i : ℕ) (item : A) (chunks : List (List A)) → length (push_at i item chunks) ≡ length chunks
  unfolding push_at
  length-push_at i item [] = refl
  length-push_at zero item (chunk ∷ chunks) = refl
  length-push_at (suc i) item (chunk ∷ chunks) = ap suc (length-push_at i item chunks)

  deal-perm :
      (workers index : ℕ) (items : List A) (chunks : List (List A))
      → 1 ≤ workers
      → length chunks ≡ workers
      → Perm (dealt (deal workers index items chunks)) (items ++ dealt chunks)
  unfolding deal
  deal-perm workers index [] chunks h same = Perm.refl _
  deal-perm workers index (item ∷ items) chunks h same =
      let i = index % workers in
      Perm.trans
        (deal-perm workers (index + 1) items (push_at i item chunks) h
          (length-push_at i item chunks ∙ same))
        (Perm.trans
          (Perm.append_left items
            (push_at-perm i item chunks (omega (arith, mod-lt index {m = workers} h, same))))
          (perm_middle {a = item} items (dealt chunks)))

  length-deal :
      (workers index : ℕ) (items : List A) (chunks : List (List A))
      → length (deal workers index items chunks) ≡ length chunks
  unfolding deal
  length-deal workers index [] chunks = refl
  length-deal workers index (item ∷ items) chunks =
      length-deal workers (index + 1) items _ ∙ length-push_at (index % workers) item chunks

  dealt-keep : (chunks : List (List A)) → dealt (keep is_filled chunks) ≡ dealt chunks
  dealt-keep [] = refl
  dealt-keep ([] ∷ chunks) = dealt-keep chunks
  dealt-keep ((item ∷ items) ∷ chunks) = ap (λ rest. (item ∷ items) ++ rest) (dealt-keep chunks)

  All-keep_filled :
      (chunks : List (List A)) → All (λ chunk. is_filled chunk ≡ true) (keep is_filled chunks)
  All-keep_filled [] = tt
  All-keep_filled ([] ∷ chunks) = All-keep_filled chunks
  All-keep_filled ((item ∷ items) ∷ chunks) = (refl, All-keep_filled chunks)

  length-keep_filled : (chunks : List (List A)) → length (keep is_filled chunks) ≤ length chunks
  length-keep_filled [] = omega arith
  length-keep_filled ([] ∷ chunks) = omega (arith, length-keep_filled chunks)
  length-keep_filled ((item ∷ items) ∷ chunks) = omega (arith, length-keep_filled chunks)

  dealt-empty_chunks : (workers : ℕ) → dealt (empty_chunks workers) ≡ []
  unfolding empty_chunks
  dealt-empty_chunks zero = refl
  dealt-empty_chunks (suc workers) = dealt-empty_chunks workers

length-empty_chunks {ℓ} :
    (A : Type ℓ) (workers : ℕ) → length (empty_chunks {A = A} workers) ≡ workers
unfolding empty_chunks
length-empty_chunks A zero = refl
length-empty_chunks A (suc workers) = ap suc (length-empty_chunks A workers)

module _ {ℓ} {A : Type ℓ} (workers : ℕ) where
  -- The chunks hold the items, no more of them than workers, and none without an item.
  abbrev pub IsDealing : List A → List (List A) → Type ℓ
  IsDealing items chunks =
      Perm (dealt chunks) items
      × (length chunks ≤ workers)
      × All (λ chunk. is_filled chunk ≡ true) chunks

  deal-IsDealing :
      (items : List A)
      → 1 ≤ workers
      → IsDealing items (keep is_filled (deal workers 0 items (empty_chunks workers)))
  deal-IsDealing items some_worker =
      let chunks = deal workers 0 items (empty_chunks workers) in
      let perm =
        deal-perm workers 0 items (empty_chunks workers) some_worker
          (length-empty_chunks A workers) in
      (
        rw (dealt-keep chunks) (rw append-nil at (rw (dealt-empty_chunks workers) at perm)),
        omega (
          arith,
          length-keep_filled chunks,
          length-deal workers 0 items (empty_chunks workers),
          length-empty_chunks A workers,
        ),
        All-keep_filled chunks,
      )

module _ {ℓ} {A : Type ℓ} where
  -- With at least one worker, `split_paths` gives every path to exactly one chunk, as often as it is
  -- there, in at most as many chunks as workers and with no chunk empty; and `split_indexed_items`
  -- does the same with the items and their indices.
  pub split_deals :
      (items : List A) (workers : ℕ)
      → 1 ≤ workers
      → IsDealing workers items (split_paths items workers)
        × IsDealing workers (indexed 0 items) (split_indexed_items items workers)
  unfolding split_paths split_indexed_items
  split_deals items workers some_worker = (
    deal-IsDealing workers items some_worker,
    deal-IsDealing workers (indexed 0 items) some_worker,
  )
