-- ===== src/Prelude/Sort.antt =====
-- The standard library's stable sort, by a Boolean order.
use mathlib.Core.List.{Memᴰ, Perm}
use mathlib.Core.List.Memᴰ
use mathlib.Core.List.Perm
use mathlib.Core.Path.{◌≡◌, refl}
use mathlib.Core.Bool.{Bool, true, false, ◌||◌}
use mathlib.Core.List.{List, [], ◌∷◌}
use evm_amm_search.Prelude.Tests.{if◌then◌else◌, Bool-cases}
use Prim.Native.Nat.{ℕ, zero, suc}
use native.Mathlib.Omega.{arith}
use evm_amm_search.Prelude.Lists.{any, count_if, length, take, All-take, All, All-map, All-mem}
use evm_amm_search.Prelude.Members.{All-of_mem}
use mathlib.Core.Logic.{inl, inr}

module _ {ℓ} {A : Type ℓ} (before : A → A → Bool) where
  -- An item goes in front of those that it may precede, so equal items keep their order.
  unfoldable pub sort_insert : A → List A → List A
  sort_insert x [] = x ∷ []
  sort_insert x (y ∷ ys) = if before x y then x ∷ y ∷ ys else y ∷ sort_insert x ys

  unfoldable pub sort : List A → List A
  unfolding sort_insert
  sort [] = []
  sort (x ∷ xs) = sort_insert x (sort xs)

  abbrev pub IsSorted : List A → Type 0
  IsSorted [] = Unit
  IsSorted (x ∷ xs) = All (λ y. before x y ≡ true) xs × IsSorted xs

  pub sort_insert-perm : (x : A) (xs : List A) → Perm (sort_insert x xs) (x ∷ xs)
  unfolding sort_insert
  sort_insert-perm x [] = Perm.refl _
  sort_insert-perm x (y ∷ ys) = elim (Bool-cases (before x y)) [
    | inl e ↦ rw e (Perm.refl _)
    | inr e ↦ rw e (Perm.trans (Perm.cons y (sort_insert-perm x ys)) (Perm.swap x y ys))
  ]

  pub sort-perm : (xs : List A) → Perm (sort xs) xs
  unfolding sort
  sort-perm [] = Perm.refl _
  sort-perm (x ∷ xs) = Perm.trans (sort_insert-perm x (sort xs)) (Perm.cons x (sort-perm xs))

  pub All-sort_insert {κ} :
      (P : A → Type κ) (x : A) (xs : List A) → P x → All P xs → All P (sort_insert x xs)
  unfolding sort_insert
  All-sort_insert P x [] p h = (p, tt)
  All-sort_insert P x (y ∷ ys) p h = elim (Bool-cases (before x y)) [
    | inl e ↦ rw e (p, h)
    | inr e ↦ rw e (h.0, All-sort_insert P x ys p h.1)
  ]

  pub All-sort {κ} : (P : A → Type κ) (xs : List A) → All P xs → All P (sort xs)
  unfolding sort
  All-sort P [] h = tt
  All-sort P (x ∷ xs) h = All-sort_insert P x (sort xs) h.0 (All-sort P xs h.1)

  pub mem-sort_insert : (a x : A) (xs : List A) → Memᴰ a (x ∷ xs) → Memᴰ a (sort_insert x xs)
  unfolding sort_insert
  mem-sort_insert a x [] m = m
  mem-sort_insert a x (y ∷ xs) m = elim (Bool-cases (before x y)) [
    | inl first ↦ rw first m
    | inr later ↦ rw later (elim (Memᴰ.cases_cons m) [
      | inl is ↦ Memᴰ.tail (mem-sort_insert a x xs (Memᴰ.head is))
      | inr rest ↦ elim (Memᴰ.cases_cons rest) [
        | inl is ↦ Memᴰ.head is
        | inr m' ↦ Memᴰ.tail (mem-sort_insert a x xs (Memᴰ.tail m'))
      ]
    ])
  ]

  pub mem-sort : (a : A) (xs : List A) → Memᴰ a xs → Memᴰ a (sort xs)
  unfolding sort
  mem-sort a [] m = m
  mem-sort a (x ∷ xs) m = mem-sort_insert a x (sort xs) (elim (Memᴰ.cases_cons m) [
    | inl is ↦ Memᴰ.head is
    | inr later ↦ Memᴰ.tail (mem-sort a xs later)
  ])

  pub mem_of_sort : (a : A) (xs : List A) → Memᴰ a (sort xs) → Memᴰ a xs
  mem_of_sort a xs m =
      All-mem (λ y. Memᴰ y xs) (sort xs) a
        (All-sort (λ y. Memᴰ y xs) xs (All-of_mem (λ y. Memᴰ y xs) xs (λ x k. k))) m

  module _ (total : (a b : A) → before a b ≡ false → before b a ≡ true)
      (trans : (a b c : A) → before a b ≡ true → before b c ≡ true → before a c ≡ true) where
    pub sort_insert-IsSorted : (x : A) (xs : List A) → IsSorted xs → IsSorted (sort_insert x xs)
    unfolding sort_insert
    sort_insert-IsSorted x [] h = (tt, tt)
    sort_insert-IsSorted x (y ∷ ys) h = elim (Bool-cases (before x y)) [
      | inl e ↦ rw e ((e, All-map (λ z k. trans x y z e k) ys h.0), h)
      | inr e ↦ rw e (
        All-sort_insert (λ z. before y z ≡ true) x ys (total x y e) h.0,
        sort_insert-IsSorted x ys h.1,
      )
    ]

    pub sort-IsSorted : (xs : List A) → IsSorted (sort xs)
    unfolding sort
    sort-IsSorted [] = tt
    sort-IsSorted (x ∷ xs) = sort_insert-IsSorted x (sort xs) (sort-IsSorted xs)

  -- A test on the items, and a number of them, do not depend on the order.
  pub any-sort_insert :
      (p : A → Bool) (x : A) (xs : List A) → any p (sort_insert x xs) ≡ (p x || any p xs)
  unfolding sort_insert
  any-sort_insert p x [] = refl
  any-sort_insert p x (y ∷ ys) = ground (arith, any-sort_insert p x ys)

  pub any-sort : (p : A → Bool) (xs : List A) → any p (sort xs) ≡ any p xs
  unfolding sort
  any-sort p [] = refl
  any-sort p (x ∷ xs) = ground (arith, any-sort_insert p x (sort xs), any-sort p xs)

  count_if-sort_insert :
      (p : A → Bool) (x : A) (xs : List A) → count_if p (sort_insert x xs) ≡ count_if p (x ∷ xs)
  unfolding sort_insert
  count_if-sort_insert p x [] = refl
  count_if-sort_insert p x (y ∷ ys) = ground (arith, count_if-sort_insert p x ys)

  pub count_if-sort : (p : A → Bool) (xs : List A) → count_if p (sort xs) ≡ count_if p xs
  unfolding sort
  count_if-sort p [] = refl
  count_if-sort p (x ∷ xs) = ground (arith, count_if-sort_insert p x (sort xs), count_if-sort p xs)

  length-sort_insert : (x : A) (xs : List A) → length (sort_insert x xs) ≡ suc (length xs)
  unfolding sort_insert
  length-sort_insert x [] = refl
  length-sort_insert x (y ∷ ys) = ground (arith, length-sort_insert x ys)

  pub length-sort : (xs : List A) → length (sort xs) ≡ length xs
  unfolding sort
  length-sort [] = refl
  length-sort (x ∷ xs) = ground (arith, length-sort_insert x (sort xs), length-sort xs)

  pub IsSorted-take : (n : ℕ) (xs : List A) → IsSorted xs → IsSorted (take n xs)
  IsSorted-take zero xs h = tt
  IsSorted-take (suc n) [] h = tt
  IsSorted-take (suc n) (x ∷ xs) h =
      (All-take (λ y. before x y ≡ true) n xs h.0, IsSorted-take n xs h.1)
