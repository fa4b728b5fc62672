-- ===== src/Prelude/Members.antt =====
-- What the items of filtered, mapped and flattened lists are.
use mathlib.Core.Path.{◌≡◌, refl, sym, ap, ◌∙◌, subst}
use mathlib.Core.Logic.{inl, inr}
use mathlib.Core.Bool.{Bool, true}
use mathlib.Core.List.{Memᴰ, List, [], ◌∷◌, map}
use mathlib.Core.List.Memᴰ
use evm_amm_search.Prelude.Tests.{Bool-cases}
use evm_amm_search.Prelude.Lists.{keep, flat, All}

module _ {ℓ κ} {A : Type ℓ} {B : Type κ} (f : A → List B) where
  pub mem_of_flat : (b : B) (xs : List A) → Memᴰ b (flat f xs) → (x : A) × Memᴰ x xs × Memᴰ b (f x)
  mem_of_flat b [] m = absurd (Memᴰ.not-nil m)
  mem_of_flat b (x ∷ xs) m = elim (Memᴰ.append_cases (f x) m) [
    | inl here ↦ (x, Memᴰ.head refl, here)
    | inr there ↦ let (y, m', n) = mem_of_flat b xs there in (y, Memᴰ.tail m', n)
  ]

  pub mem-flat : (b : B) (x : A) (xs : List A) → Memᴰ x xs → Memᴰ b (f x) → Memᴰ b (flat f xs)
  mem-flat b x [] m n = absurd (Memᴰ.not-nil m)
  mem-flat b x (y ∷ xs) m n = elim (Memᴰ.cases_cons m) [
    | inl e ↦ Memᴰ.append_left (flat f xs) (subst (λ z. Memᴰ b (f z)) e n)
    | inr later ↦ Memᴰ.append_right (f y) (mem-flat b x xs later n)
  ]

module _ {ℓ} {A : Type ℓ} (p : A → Bool) where
  pub mem_of_keep : (a : A) (xs : List A) → Memᴰ a (keep p xs) → Memᴰ a xs × (p a ≡ true)
  mem_of_keep a [] m = absurd (Memᴰ.not-nil m)
  mem_of_keep a (x ∷ xs) m = elim (Bool-cases (p x)) [
    | inl kept ↦ elim (Memᴰ.cases_cons (rw kept at m)) [
      | inl e ↦ (Memᴰ.head e, ap p e ∙ kept)
      | inr later ↦ let (m', holds) = mem_of_keep a xs later in (Memᴰ.tail m', holds)
    ]
    | inr dropped ↦ let (m', holds) = mem_of_keep a xs (rw dropped at m) in (Memᴰ.tail m', holds)
  ]

  pub mem-keep : (a : A) (xs : List A) → Memᴰ a xs → p a ≡ true → Memᴰ a (keep p xs)
  mem-keep a [] m holds = absurd (Memᴰ.not-nil m)
  mem-keep a (x ∷ xs) m holds = elim (Memᴰ.cases_cons m) [
    | inl e ↦ rw (sym (ap p e) ∙ holds) (Memᴰ.head e)
    | inr later ↦ elim (Bool-cases (p x)) [
      | inl kept ↦ rw kept (Memᴰ.tail (mem-keep a xs later holds))
      | inr dropped ↦ rw dropped (mem-keep a xs later holds)
    ]
  ]

module _ {ℓ κ} {A : Type ℓ} {B : Type κ} (f : A → B) where
  pub mem_of_map : (b : B) (xs : List A) → Memᴰ b (map f xs) → (a : A) × Memᴰ a xs × (b ≡ f a)
  mem_of_map b [] m = absurd (Memᴰ.not-nil m)
  mem_of_map b (x ∷ xs) m = elim (Memᴰ.cases_cons m) [
    | inl e ↦ (x, Memᴰ.head refl, e)
    | inr later ↦ let (a, m', e) = mem_of_map b xs later in (a, Memᴰ.tail m', e)
  ]

  pub mem-map : (a : A) (xs : List A) → Memᴰ a xs → Memᴰ (f a) (map f xs)
  mem-map a [] m = absurd (Memᴰ.not-nil m)
  mem-map a (x ∷ xs) m = elim (Memᴰ.cases_cons m) [
    | inl e ↦ Memᴰ.head (ap f e)
    | inr later ↦ Memᴰ.tail (mem-map a xs later)
  ]

module _ {ℓ κ} {A : Type ℓ} (P : A → Type κ) where
  pub All-of_mem : (xs : List A) → ((x : A) → Memᴰ x xs → P x) → All P xs
  All-of_mem [] h = tt
  All-of_mem (x ∷ xs) h = (h x (Memᴰ.head refl), All-of_mem xs (λ y m. h y (Memᴰ.tail m)))
