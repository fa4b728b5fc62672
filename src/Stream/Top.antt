-- ===== src/Stream/Top.antt =====
-- The retained routes of `record_top_route`: their order, and which routes are retained.
use evm_amm_search.Prelude.{
  ℕ, zero, suc, ◌≤◌, ◌<◌, ◌≡◌, refl, ◌⊎◌, inr, Bool, true, false, List, [], ◌∷◌, ◌++◌, arith,
  PartialEq, All, length, take, any-append, count_if, leb, ◌==◌, ◌∙◌,
}
use evm_amm_search.Prelude.Sort.{
  sort, sort_insert, IsSorted, sort-IsSorted, any-sort, any-sort_insert,
}
use evm_amm_search.Route.{RoutePath, RouteQuote, path_eq_iff, path_PartialEq}
use evm_amm_search.Stream.State.{pays_more, has_path}

module _ {PoolKey : Type 0} ⦃e : PartialEq PoolKey⦄ where
  -- No path stands twice.
  abbrev pub HasDistinctPaths : List (RouteQuote PoolKey) → Type 0
  HasDistinctPaths [] = Unit
  HasDistinctPaths (q ∷ qs) = (has_path q.path qs ≡ false) × HasDistinctPaths qs

  -- A route is retained, or the list is full of routes that pay as much or more.
  abbrev pub IsCovered : ℕ → List (RouteQuote PoolKey) → RouteQuote PoolKey → Type 0
  IsCovered k top q =
      (has_path q.path top ≡ true) ⊎ ((length top ≡ k) × All (λ r. q.amount_out ≤ r.amount_out) top)

  pub IsSorted-quotes : (qs : List (RouteQuote PoolKey)) → IsSorted pays_more (sort pays_more qs)
  IsSorted-quotes qs =
      sort-IsSorted pays_more (λ a b h. ground arith) (λ a b c h k. ground arith) qs

  HasDistinctPaths-sort_insert :
      (q : RouteQuote PoolKey) (qs : List (RouteQuote PoolKey))
      → has_path q.path qs ≡ false
      → HasDistinctPaths qs
      → HasDistinctPaths (sort_insert pays_more q qs)
  unfolding sort_insert
  HasDistinctPaths-sort_insert q [] h d = (refl, tt)
  HasDistinctPaths-sort_insert q (x ∷ xs) h d = ground (
    arith,
    HasDistinctPaths-sort_insert q xs,
    any-sort_insert pays_more (λ r. r.path == x.path) q xs,
    path_eq_iff q.path x.path,
    path_eq_iff x.path q.path,
  )

  pub HasDistinctPaths-sort :
      (qs : List (RouteQuote PoolKey)) → HasDistinctPaths qs → HasDistinctPaths (sort pays_more qs)
  unfolding sort
  HasDistinctPaths-sort [] d = tt
  HasDistinctPaths-sort (x ∷ xs) d =
      HasDistinctPaths-sort_insert x (sort pays_more xs)
        (any-sort pays_more (λ r. r.path == x.path) xs ∙ d.0) (HasDistinctPaths-sort xs d.1)

  pub HasDistinctPaths-append :
      (qs : List (RouteQuote PoolKey)) (q : RouteQuote PoolKey)
      → has_path q.path qs ≡ false
      → HasDistinctPaths qs
      → HasDistinctPaths (qs ++ q ∷ [])
  HasDistinctPaths-append [] q h d = (refl, tt)
  HasDistinctPaths-append (x ∷ xs) q h d = ground (
    arith,
    HasDistinctPaths-append xs q,
    any-append (λ r. r.path == x.path) xs (q ∷ []),
    path_eq_iff q.path x.path,
    path_eq_iff x.path q.path,
  )

  has_path-take :
      (p : RoutePath PoolKey) (n : ℕ) (qs : List (RouteQuote PoolKey))
      → has_path p qs ≡ false
      → has_path p (take n qs) ≡ false
  has_path-take p zero qs h = refl
  has_path-take p (suc n) [] h = refl
  has_path-take p (suc n) (x ∷ xs) h = ground (arith, has_path-take p n xs)

  pub HasDistinctPaths-take :
      (n : ℕ) (qs : List (RouteQuote PoolKey)) → HasDistinctPaths qs → HasDistinctPaths (take n qs)
  HasDistinctPaths-take zero qs d = tt
  HasDistinctPaths-take (suc n) [] d = tt
  HasDistinctPaths-take (suc n) (x ∷ xs) d =
      (has_path-take x.path n xs d.0, HasDistinctPaths-take n xs d.1)

  -- The routes of one path pay one amount.
  abbrev pub IsPriced : (RoutePath PoolKey → ℕ) → RouteQuote PoolKey → Type 0
  IsPriced payout q = q.amount_out ≡ payout q.path

  payout-le :
      (payout : RoutePath PoolKey → ℕ) (p : RoutePath PoolKey) (bound : ℕ)
      (qs : List (RouteQuote PoolKey))
      → has_path p qs ≡ true
      → All (IsPriced payout) qs
      → All (λ y. leb y.amount_out bound ≡ true) qs
      → payout p ≤ bound
  payout-le payout p bound [] h a b = cc
  payout-le payout p bound (x ∷ xs) h a b =
      ground (arith, payout-le payout p bound xs, path_eq_iff x.path p)

  pub take-covers :
      (payout : RoutePath PoolKey → ℕ) (p : RoutePath PoolKey) (n : ℕ)
      (qs : List (RouteQuote PoolKey))
      → IsSorted pays_more qs
      → has_path p qs ≡ true
      → All (IsPriced payout) qs
      → (has_path p (take n qs) ≡ true)
        ⊎ ((length (take n qs) ≡ n) × All (λ r. payout p ≤ r.amount_out) (take n qs))
  take-covers payout p zero qs s h a = inr (refl, tt)
  take-covers payout p (suc n) [] s h a = cc
  take-covers payout p (suc n) (x ∷ xs) s h a =
      ground
        (arith, take-covers payout p n xs, payout-le payout p x.amount_out xs, path_eq_iff x.path p)

  abbrev pays_at_least : ℕ → RouteQuote PoolKey → Bool
  pays_at_least amount r = leb amount r.amount_out

  none_pay :
      (amount bound : ℕ) (qs : List (RouteQuote PoolKey))
      → bound < amount
      → All (λ y. leb y.amount_out bound ≡ true) qs
      → count_if (pays_at_least amount) qs ≡ 0
  none_pay amount bound [] lt h = refl
  none_pay amount bound (x ∷ xs) lt h = ground (arith, none_pay amount bound xs)

  pub take_of_count :
      (amount n : ℕ) (qs : List (RouteQuote PoolKey))
      → IsSorted pays_more qs
      → n ≤ count_if (pays_at_least amount) qs
      → (length (take n qs) ≡ n) × All (λ r. amount ≤ r.amount_out) (take n qs)
  take_of_count amount zero qs s h = (refl, tt)
  take_of_count amount (suc n) [] s h = absurd (omega arith)
  take_of_count amount (suc n) (x ∷ xs) s h =
      ground (arith, take_of_count amount n xs, none_pay amount x.amount_out xs)
