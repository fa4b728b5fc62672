-- ===== src/Graph/Pairs.antt =====
-- The ordered pairs of different positions are those of different items, if no item stands twice.
use mathlib.Core.List.{Memᴰ}
use mathlib.Core.List.Memᴰ
use evm_amm_search.Prelude.{
  ℕ, ◌+◌, ◌≤◌, ◌≡◌, ◌≢◌, sym, ap, ◌∙◌, inl, inr, true, not, List, [], ◌∷◌, map, All, arith, ◌⊎◌,
  All-mem, nat_PartialEq, ◌==◌, keep,
}
use evm_amm_search.Route.{Address}
use evm_amm_search.Work.{indexed}
use evm_amm_search.Prelude.Members.{
  mem_of_keep, mem-keep, mem_of_flat, mem-flat, mem_of_map, mem-map,
}
use evm_amm_search.Graph.Edges.{directed_pairs}

-- No token stands twice.
abbrev pub HasDistinct : List Address → Type 0
HasDistinct [] = Unit
HasDistinct (token ∷ tokens) = All (λ other. token ≢ other) tokens × HasDistinct tokens

module _ {B : Type 0} where
  mem_of_indexed :
      (k i : ℕ) (z : Address × B) (zs : List (Address × B))
      → Memᴰ (i, z) (indexed k zs)
      → Memᴰ z zs × (k ≤ i)
  unfolding indexed
  mem_of_indexed k i z [] m = absurd (Memᴰ.not-nil m)
  mem_of_indexed k i z (y ∷ zs) m = elim (Memᴰ.cases_cons m) [
    | inl e ↦ (Memᴰ.head (ap (λ p. p.1) e), omega (arith, ap (λ (p : ℕ × (Address × B)). p.0) e))
    | inr later ↦
        let (m', le) = mem_of_indexed (k + 1) i z zs later in (Memᴰ.tail m', omega (arith, le))
  ]

  mem-indexed :
      (k : ℕ) (z : Address × B) (zs : List (Address × B))
      → Memᴰ z zs
      → (i : ℕ) × Memᴰ (i, z) (indexed k zs)
  unfolding indexed
  mem-indexed k z [] m = absurd (Memᴰ.not-nil m)
  mem-indexed k z (y ∷ zs) m = elim (Memᴰ.cases_cons m) [
    | inl e ↦ (k, Memᴰ.head (ap (λ x. (k, x)) e))
    | inr later ↦ let (i, m') = mem-indexed (k + 1) z zs later in (i, Memᴰ.tail m')
  ]

  other_index :
      (k j : ℕ) (y w : Address × B) (zs : List (Address × B))
      → All (λ other. y.0 ≢ other) (map (λ z. z.0) zs)
      → Memᴰ (j, w) (indexed (k + 1) zs)
      → (k ≢ j) × (y.0 ≢ w.0)
  other_index k j y w zs apart m =
      let (m', le) = mem_of_indexed (k + 1) j w zs m in
      (
        omega (arith, le),
        All-mem (λ other. y.0 ≢ other) (map (λ z. z.0) zs) w.0 apart (mem-map (λ z. z.0) w zs m'),
      )

  same_index :
      (k i j : ℕ) (z w : Address × B) (zs : List (Address × B))
      → HasDistinct (map (λ z. z.0) zs)
      → Memᴰ (i, z) (indexed k zs)
      → Memᴰ (j, w) (indexed k zs)
      → ((i ≡ j) × (z.0 ≡ w.0)) ⊎ ((i ≢ j) × (z.0 ≢ w.0))
  unfolding indexed
  same_index k i j z w [] d m n = absurd (Memᴰ.not-nil m)
  same_index k i j z w (y ∷ zs) d m n = elim (Memᴰ.cases_cons m) [
    | inl e ↦ elim (Memᴰ.cases_cons n) [
      | inl e' ↦ inl (ap (λ p. p.0) (e ∙ sym e'), ap (λ p. p.1.0) (e ∙ sym e'))
      | inr later ↦
          let (a, b) = other_index k j y w zs d.0 later in
          inr (
            rw (ap (λ (p : ℕ × (Address × B)). p.0) e) a,
            rw (ap (λ (p : ℕ × (Address × B)). p.1.0) e) b,
          )
    ]
    | inr later ↦ elim (Memᴰ.cases_cons n) [
      | inl e' ↦
          let (a, b) = other_index k i y z zs d.0 later in
          inr (
            λ q. a (sym (q ∙ ap (λ (p : ℕ × (Address × B)). p.0) e')),
            λ q. b (sym (q ∙ ap (λ (p : ℕ × (Address × B)). p.1.0) e')),
          )
      | inr later' ↦ same_index (k + 1) i j z w zs d.1 later later'
    ]
  ]

  pub mem_of_directed_pairs :
      (zs : List (Address × B)) (x : (Address × B) × (Address × B))
      → HasDistinct (map (λ z. z.0) zs)
      → Memᴰ x (directed_pairs (indexed 0 zs))
      → Memᴰ x.0 zs × Memᴰ x.1 zs × (x.0.0 ≢ x.1.0)
  unfolding directed_pairs
  mem_of_directed_pairs zs x d m =
      let items = indexed 0 zs in
      let (from, at_from, m₁) =
        mem_of_flat (λ from. map (λ to. (from.1, to.1)) (keep (λ to. not (from.0 == to.0)) items)) x
          items m in
      let (to, m₂, e) =
        mem_of_map (λ to. (from.1, to.1)) x (keep (λ to. not (from.0 == to.0)) items) m₁ in
      let (at_to, apart) = mem_of_keep (λ to. not (from.0 == to.0)) to items m₂ in
      rw e (
        (mem_of_indexed 0 from.0 from.1 zs at_from).0,
        (mem_of_indexed 0 to.0 to.1 zs at_to).0,
        elim (same_index 0 from.0 to.0 from.1 to.1 zs d at_from at_to) [
          | inl (same, _) ↦ absurd (ground (arith, same, apart))
          | inr (_, differ) ↦ differ
        ],
      )

  pub mem-directed_pairs :
      (zs : List (Address × B)) (z w : Address × B)
      → HasDistinct (map (λ z. z.0) zs)
      → Memᴰ z zs
      → Memᴰ w zs
      → z.0 ≢ w.0
      → Memᴰ (z, w) (directed_pairs (indexed 0 zs))
  unfolding directed_pairs
  mem-directed_pairs zs z w d at_z at_w apart =
      let items = indexed 0 zs in
      let (i, m) = mem-indexed 0 z zs at_z in
      let (j, n) = mem-indexed 0 w zs at_w in
      let kept : not (i == j) ≡ true = elim (same_index 0 i j z w zs d m n) [
        | inl (_, same) ↦ absurd (apart same)
        | inr (differ, _) ↦ ground (arith, differ)
      ] in
      mem-flat (λ from. map (λ to. (from.1, to.1)) (keep (λ to. not (from.0 == to.0)) items)) (z, w)
        (i, z) items m
        (mem-map (λ to. (z, to.1)) (j, w) (keep (λ to. not (i == to.0)) items)
          (mem-keep (λ to. not (i == to.0)) (j, w) items n kept))
