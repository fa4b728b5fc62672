-- ===== src/Work/Ordered.antt =====
-- The results of the threads are put back in the order of the items.
use mathlib.Core.List.{Perm, is_set}
use mathlib.Core.List.Perm
use mathlib.Core.List.{Permᴰ}
use mathlib.Core.List.Permᴰ
use mathlib.Core.Path.{subst}
use mathlib.Core.Logic.{∥∥₁_elim}
use evm_amm_search.Prelude.{
  ℕ, ◌+◌, ◌≤◌, ◌≡◌, ◌≢◌, refl, sym, ap, ◌∙◌, List, [], ◌∷◌, arith, map, All, All-map,
}
use evm_amm_search.Prelude.Sort.{sort, sort_insert}
use evm_amm_search.Work.{by_index, collect_ordered_results, split_indexed_items, indexed}
use evm_amm_search.Work.Dealt.{dealt, split_deals}

module _ {ℓ} {A : Type ℓ} where
  -- No two of the results have one index.
  abbrev HasDistinctIndices : List (ℕ × A) → Type ℓ
  HasDistinctIndices [] = Unit
  HasDistinctIndices (x ∷ xs) = All (λ y. x.0 ≢ y.0) xs × HasDistinctIndices xs

  All-perm {κ} : (P : ℕ × A → Type κ) {xs ys : List (ℕ × A)} → Permᴰ xs ys → All P xs → All P ys
  All-perm P Permᴰ.nil h = tt
  All-perm P (Permᴰ.cons e d) h = (subst P e h.0, All-perm P d h.1)
  All-perm P (Permᴰ.swap e₁ e₂) h = (subst P e₂ h.1.0, (subst P e₁ h.0, h.1.1))
  All-perm P (Permᴰ.trans d₁ d₂) h = All-perm P d₂ (All-perm P d₁ h)

  HasDistinctIndices-perm :
      {xs ys : List (ℕ × A)} → Permᴰ xs ys → HasDistinctIndices xs → HasDistinctIndices ys
  HasDistinctIndices-perm Permᴰ.nil h = tt
  HasDistinctIndices-perm (Permᴰ.cons {l₂ = l₂} e d) h =
      (subst (λ z. All (λ y. z.0 ≢ y.0) l₂) e (All-perm _ d h.0), HasDistinctIndices-perm d h.1)
  HasDistinctIndices-perm (Permᴰ.swap {l = l} e₁ e₂) h = (
    (
      λ is. h.0.0 (ap (λ z. z.0) e₁ ∙ sym is ∙ sym (ap (λ z. z.0) e₂)),
      subst (λ z. All (λ y. z.0 ≢ y.0) l) e₂ h.1.0,
    ),
    (subst (λ z. All (λ y. z.0 ≢ y.0) l) e₁ h.0.1, h.1.1),
  )
  HasDistinctIndices-perm (Permᴰ.trans d₁ d₂) h =
      HasDistinctIndices-perm d₂ (HasDistinctIndices-perm d₁ h)

  sort_insert_comm :
      (x y : ℕ × A) (xs : List (ℕ × A))
      → x.0 ≢ y.0
      → sort_insert by_index x (sort_insert by_index y xs)
        ≡ sort_insert by_index y (sort_insert by_index x xs)
  unfolding sort_insert
  sort_insert_comm x y [] differ = ground (arith, differ)
  sort_insert_comm x y (z ∷ zs) differ = ground (arith, differ, sort_insert_comm x y zs differ)

  sort-perm_eq :
      {xs ys : List (ℕ × A)}
      → Permᴰ xs ys
      → HasDistinctIndices xs
      → sort by_index xs ≡ sort by_index ys
  unfolding sort
  sort-perm_eq Permᴰ.nil h = refl
  sort-perm_eq (Permᴰ.cons {b = b} {l₁ = l₁} e d) h =
      ap (λ z. sort_insert by_index z (sort by_index l₁)) e
      ∙ ap (sort_insert by_index b) (sort-perm_eq d h.1)
  sort-perm_eq (Permᴰ.swap {a = a} {b = b} {a' = a'} {l = l} e₁ e₂) h =
      sort_insert_comm a b (sort by_index l) h.0.0
      ∙ ap (λ z. sort_insert by_index z (sort_insert by_index a (sort by_index l))) e₂
      ∙ ap (λ z. sort_insert by_index a' (sort_insert by_index z (sort by_index l))) e₁
  sort-perm_eq (Permᴰ.trans d₁ d₂) h =
      sort-perm_eq d₁ h ∙ sort-perm_eq d₂ (HasDistinctIndices-perm d₁ h)

  indexed_from : (k n : ℕ) (xs : List A) → k ≤ n → All (λ y. k ≤ y.0) (indexed n xs)
  unfolding indexed
  indexed_from k n [] h = tt
  indexed_from k n (x ∷ xs) h = (h, indexed_from k (n + 1) xs (omega (arith, h)))

  indexed-HasDistinctIndices : (k : ℕ) (xs : List A) → HasDistinctIndices (indexed k xs)
  unfolding indexed
  indexed-HasDistinctIndices k [] = tt
  indexed-HasDistinctIndices k (x ∷ xs) = (
    All-map (λ y after is. omega (arith, after, is)) (indexed (k + 1) xs)
        (indexed_from (k + 1) (k + 1) xs (omega arith)),
    indexed-HasDistinctIndices (k + 1) xs,
  )

  sort-indexed : (k : ℕ) (xs : List A) → sort by_index (indexed k xs) ≡ indexed k xs
  unfolding sort sort_insert indexed
  sort-indexed k [] = refl
  sort-indexed k (x ∷ []) = refl
  sort-indexed k (x ∷ y ∷ ys) = ground (arith, sort-indexed (k + 1) (y ∷ ys))

  map-indexed_items : (k : ℕ) (xs : List A) → map (λ r. r.1) (indexed k xs) ≡ xs
  unfolding indexed
  map-indexed_items k [] = refl
  map-indexed_items k (x ∷ xs) = ap (λ rest. x ∷ rest) (map-indexed_items (k + 1) xs)

map-indexed {ℓ κ} :
    {A : Type ℓ} {B : Type κ} (f : A → B) (k : ℕ) (xs : List A)
    → map (λ r. (r.0, f r.1)) (indexed k xs) ≡ indexed k (map f xs)
unfolding indexed
map-indexed f k [] = refl
map-indexed f k (x ∷ xs) = ap (λ rest. (k, f x) ∷ rest) (map-indexed f (k + 1) xs)

-- Items are dealt to one or more threads with `split_indexed_items`, each is replaced by its result,
-- under the same index, and the results come back in any order. Then `collect_ordered_results` gives
-- the results in the order of the items.
pub collect_ordered_results-split_indexed_items {ℓ κ} :
    {A : Type ℓ} {B : Type κ} (f : A → B) (items : List A) (workers : ℕ) (results : List (ℕ × B))
    → IsSet B
    → 1 ≤ workers
    → Perm results (map (λ r. (r.0, f r.1)) (dealt (split_indexed_items items workers)))
    → collect_ordered_results results ≡ map f items
unfolding collect_ordered_results
collect_ordered_results-split_indexed_items f items workers results is some_worker came =
    let all : Perm results (indexed 0 (map f items)) =
      subst (λ z. Perm results z) (map-indexed f 0 items)
        (Perm.trans came
          (Perm.map (λ r. (r.0, f r.1)) (split_deals items workers some_worker).1.0)) in
    ∥∥₁_elim all (is_set is _ _) (λ d.
      ap (map (λ r. r.1)) (
        sym (sort-perm_eq (Permᴰ.symm d) (indexed-HasDistinctIndices 0 (map f items)))
        ∙ sort-indexed 0 (map f items))
      ∙ map-indexed_items 0 (map f items))
