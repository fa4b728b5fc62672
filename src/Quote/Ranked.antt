-- ===== src/Quote/Ranked.antt =====
-- What `rank_or_no_viable` returns.
use mathlib.Core.List.{Perm}
use evm_amm_search.Prelude.{
  ℕ, ◌≡◌, ◌≢◌, ap, inl, inr, List, [], arith, Result, ok, err, List-cases, length,
}
use evm_amm_search.Prelude.Sort.{sort, IsSorted, sort-IsSorted, sort-perm, length-sort}
use evm_amm_search.Route.{RouteQuote, PathFailure, SearchError, no_viable_route}
use evm_amm_search.Stream.State.{pays_more}
use evm_amm_search.Quote.{rank_or_no_viable}

module _ {PoolKey : Type 0} (quotes : List (RouteQuote PoolKey)) where
  no_quotes : sort pays_more quotes ≡ [] → quotes ≡ []
  no_quotes h = elim (List-cases quotes) [
    | inl empty ↦ empty
    | inr (quote, rest, e) ↦
        absurd (omega (arith, length-sort pays_more quotes, ap length h, ap length e))
  ]

module _ {PoolKey ProtocolId SimError Reason : Type 0} (candidates : ℕ)
    (quotes : List (RouteQuote PoolKey)) (failures : List (PathFailure PoolKey Reason)) where
  abbrev pub IsRanking :
      Result (List (RouteQuote PoolKey)) (SearchError PoolKey ProtocolId SimError Reason) → Type 0
  IsRanking (ok ranked) = Perm ranked quotes × IsSorted pays_more ranked × (ranked ≢ [])
  IsRanking (err e) = (quotes ≡ []) × (e ≡ no_viable_route candidates failures)

module _ {PoolKey : Type 0} (ProtocolId SimError : Type 0) {Reason : Type 0} (candidates : ℕ)
    (quotes : List (RouteQuote PoolKey)) (failures : List (PathFailure PoolKey Reason)) where
  -- The ranking holds the quotes that succeeded, those that pay most first; with none of them the
  -- error names the number of candidates and every failure.
  pub rank_or_no_viable_ranks :
      IsRanking {ProtocolId = ProtocolId} {SimError = SimError} candidates quotes failures
        (rank_or_no_viable candidates quotes failures)
  unfolding rank_or_no_viable
  rank_or_no_viable_ranks = ground (
    arith,
    no_quotes quotes,
    sort-perm pays_more quotes,
    sort-IsSorted pays_more (λ a b h. ground arith) (λ a b c h k. ground arith) quotes,
  )
