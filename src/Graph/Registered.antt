-- ===== src/Graph/Registered.antt =====
-- src/graph.rs: the tokens that a list of registrations gives to pools.
use mathlib.Core.List.{Memᴰ}
use mathlib.Core.List.Memᴰ
use evm_amm_search.Prelude.{
  ◌≡◌, ◌≢◌, refl, sym, ◌∙◌, inl, inr, Bool, Option, none, some, List, [], ◌∷◌, arith, PartialEq,
  nat_PartialEq, ◌==◌, eq_refl, if◌then◌else◌, Bool-cases, All, result_ok,
}
use evm_amm_search.Prelude.Sort.{sort, sort_insert, All-sort, All-sort_insert}
use evm_amm_search.Route.{Address}
use evm_amm_search.Graph.Tokens.{GraphBuildOptions, Statuses, PoolRegistration, indexable_tokens}

module _ {PoolKey PoolStatus : Type 0} where
  -- No key is registered twice.
  abbrev pub HasDistinctKeys : List (PoolRegistration PoolKey PoolStatus) → Type 0
  HasDistinctKeys [] = Unit
  HasDistinctKeys (r ∷ rs) = All (λ other. r.key ≢ other.key) rs × HasDistinctKeys rs

  module _
      (before : PoolRegistration PoolKey PoolStatus
        → PoolRegistration PoolKey PoolStatus
        → Bool) where
    sort_insert-HasDistinctKeys :
        (r : PoolRegistration PoolKey PoolStatus) (rs : List (PoolRegistration PoolKey PoolStatus))
        → All (λ other. r.key ≢ other.key) rs
        → HasDistinctKeys rs
        → HasDistinctKeys (sort_insert before r rs)
    unfolding sort_insert
    sort_insert-HasDistinctKeys r [] apart d = (tt, tt)
    sort_insert-HasDistinctKeys r (x ∷ rs) apart d = elim (Bool-cases (before r x)) [
      | inl first ↦ rw first (apart, d)
      | inr later ↦ rw later (
        All-sort_insert before (λ other. x.key ≢ other.key) r rs (λ e. apart.0 (sym e)) d.0,
        sort_insert-HasDistinctKeys r rs apart.1 d.1,
      )
    ]

    pub sort-HasDistinctKeys :
        (rs : List (PoolRegistration PoolKey PoolStatus))
        → HasDistinctKeys rs
        → HasDistinctKeys (sort before rs)
    unfolding sort
    sort-HasDistinctKeys [] d = tt
    sort-HasDistinctKeys (r ∷ rs) d =
        sort_insert-HasDistinctKeys r (sort before rs)
          (All-sort before (λ other. r.key ≢ other.key) rs d.0) (sort-HasDistinctKeys rs d.1)

module _ {PoolKey PoolStatus : Type 0} ⦃eP : PartialEq PoolKey⦄ ⦃eT : PartialEq PoolStatus⦄
    (statuses : Statuses PoolStatus) (options : GraphBuildOptions) where
  abbrev pub tokens_of : PoolRegistration PoolKey PoolStatus → Option (List Address)
  tokens_of r = result_ok (indexable_tokens statuses options r)

  -- The tokens of a pool after the registrations, given those before.
  unfoldable pub tokens_after :
      PoolKey
      → List (PoolRegistration PoolKey PoolStatus)
      → Option (List Address)
      → Option (List Address)
  tokens_after p [] before = before
  tokens_after p (r ∷ rs) before = tokens_after p rs (if r.key == p then tokens_of r else before)

  tokens_after_others :
      (p : PoolKey) (rs : List (PoolRegistration PoolKey PoolStatus))
      (before : Option (List Address))
      → All (λ other. p ≢ other.key) rs
      → tokens_after p rs before ≡ before
  unfolding tokens_after
  tokens_after_others p [] before apart = refl
  tokens_after_others p (r ∷ rs) before apart =
      tokens_after_others p rs (if r.key == p then tokens_of r else before) apart.1
      ∙ ground (arith, apart, eP.eq_iff r.key p)

  tokens_after_step :
      (p : PoolKey) (r : PoolRegistration PoolKey PoolStatus)
      (rs : List (PoolRegistration PoolKey PoolStatus)) (before : Option (List Address))
      → tokens_after p (r ∷ rs) before
        ≡ tokens_after p rs (if r.key == p then tokens_of r else before)
  unfolding tokens_after
  tokens_after_step p r rs before = refl

  tokens_after_first :
      (r : PoolRegistration PoolKey PoolStatus) (rs : List (PoolRegistration PoolKey PoolStatus))
      (before : Option (List Address))
      → All (λ other. r.key ≢ other.key) rs
      → tokens_after r.key (r ∷ rs) before ≡ tokens_of r
  tokens_after_first r rs before apart =
      tokens_after_step r.key r rs before
      ∙ tokens_after_others r.key rs (if r.key == r.key then tokens_of r else before) apart
      ∙ ground (arith, eq_refl r.key)

  -- The pool of a registration has its tokens.
  pub tokens_after_mem :
      (r : PoolRegistration PoolKey PoolStatus) (rs : List (PoolRegistration PoolKey PoolStatus))
      (before : Option (List Address))
      → HasDistinctKeys rs
      → Memᴰ r rs
      → tokens_after r.key rs before ≡ tokens_of r
  tokens_after_mem r [] before d m = absurd (Memᴰ.not-nil m)
  tokens_after_mem r (x ∷ rs) before d m = elim (Memᴰ.cases_cons m) [
    | inl is ↦ rw is (tokens_after_first x rs before d.0)
    | inr later ↦ tokens_after_step r.key x rs before ∙ tokens_after_mem r rs _ d.1 later
  ]

  -- A pool has its tokens from a registration, or had them before.
  pub tokens_after_known :
      (p : PoolKey) (rs : List (PoolRegistration PoolKey PoolStatus)) (tokens : List Address)
      → tokens_after p rs none ≡ some tokens
      → (r : PoolRegistration PoolKey PoolStatus) × Memᴰ r rs × (r.key ≡ p)
  unfolding tokens_after
  tokens_after_known p [] tokens k = absurd (ground (arith, k))
  tokens_after_known p (x ∷ rs) tokens k = elim (Bool-cases (x.key == p)) [
    | inl same ↦ (x, Memᴰ.head refl, (eP.eq_iff x.key p).0 same)
    | inr other ↦
        let (r, m, is) = tokens_after_known p rs tokens (rw other at k) in (r, Memᴰ.tail m, is)
  ]
