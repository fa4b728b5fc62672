-- ===== src/Quote.antt =====
-- src/search.rs: quoting of one path, `quote_path_with_registry`, and the ranking of quotes,
-- `rank_or_no_viable`. The registry of pools and adapters is an interface. A simulation may change
-- the cache, so it returns the cache too.
pub mod Explained
pub mod Ranked
pub mod Cache
pub mod Dag
pub mod Evaluate
pub mod Items
pub mod Together
pub mod Yields
pub mod Evaluated
pub mod Observed
use evm_amm_search.Prelude.{
  ℕ, Option, none, some, List, [], ◌∷◌, if◌then◌else◌, Result, ok, err, map_err, and_then,
}
use evm_amm_search.Prelude.Sort.{sort}
use evm_amm_search.Route.{
  Address, U256, Hop, RoutePath, HopQuote, RouteQuote, PathFailure, SearchError, path_is_empty,
  empty_path, missing_pool, missing_adapter, quote_failed, no_viable_route,
}
use evm_amm_search.Stream.State.{pays_more}

-- `AdapterRegistry::pool` and `adapter`, `PoolKey::protocol`, and the amount that an adapter's
-- `simulate_swap` pays under the fixed `SimConfig`.
pub record AdapterRegistry (PoolKey ProtocolId Pool Adapter Cache SimError : Type 0) : Type 0 where
  pub pool : PoolKey → Option Pool
  pub adapter : ProtocolId → Option Adapter
  pub protocol : PoolKey → ProtocolId
  pub simulate_swap :
      Adapter → Pool → Cache → Address → Address → U256 → Result U256 SimError × Cache

module _ {PoolKey ProtocolId Pool Adapter Cache SimError Reason : Type 0}
    (registry : AdapterRegistry PoolKey ProtocolId Pool Adapter Cache SimError) where
  -- `map_err`, with the cache that the simulation leaves.
  abbrev simulated :
      Hop PoolKey
      → Result U256 SimError × Cache
      → Result U256 (SearchError PoolKey ProtocolId SimError Reason) × Cache
  simulated hop (result, cache) = (map_err (quote_failed hop) result, cache)

  -- The body of the loop, up to the new amount.
  unfoldable pub quote_hop :
      Hop PoolKey
      → U256
      → Cache
      → Result U256 (SearchError PoolKey ProtocolId SimError Reason) × Cache
  quote_hop hop amount cache = elim (registry.pool hop.pool) [
    | none ↦ (err (missing_pool hop.pool), cache)
    | some pool ↦ elim (registry.adapter (registry.protocol hop.pool)) [
      | none ↦ (err (missing_adapter (registry.protocol hop.pool)), cache)
      | some adapter ↦
          simulated hop
            (registry.simulate_swap adapter pool cache hop.token_in hop.token_out amount)
    ]
  ]

  -- The loop: the quotes of the hops and the last amount.
  unfoldable pub quote_hops :
      List (Hop PoolKey)
      → U256
      → Cache
      → Result (List (HopQuote PoolKey) × U256) (SearchError PoolKey ProtocolId SimError Reason)
        × Cache
  quote_hops [] amount cache = (ok ([], amount), cache)
  quote_hops (hop ∷ hops) amount cache = and_then (quote_hop hop amount cache) (λ amount_out cache'.
      and_then (quote_hops hops amount_out cache') (λ rest cache''. (
        ok (record { hop = hop; amount_in = amount; amount_out = amount_out } ∷ rest.0, rest.1),
        cache'',
      )))

  unfoldable pub quote_path_with_registry :
      RoutePath PoolKey
      → U256
      → Cache
      → Result (RouteQuote PoolKey) (SearchError PoolKey ProtocolId SimError Reason) × Cache
  quote_path_with_registry path amount_in cache =
      if path_is_empty path
      then (err empty_path, cache)
      else and_then (quote_hops path.hops amount_in cache) (λ rest cache'. (
        ok (record { path = path; amount_in = amount_in; amount_out = rest.1; hops = rest.0 }),
        cache',
      ))

module _ {PoolKey ProtocolId SimError Reason : Type 0} where
  unfoldable pub rank_or_no_viable :
      ℕ
      → List (RouteQuote PoolKey)
      → List (PathFailure PoolKey Reason)
      → Result (List (RouteQuote PoolKey)) (SearchError PoolKey ProtocolId SimError Reason)
  rank_or_no_viable candidates quotes failures = elim (sort pays_more quotes) [
    | [] ↦ err (no_viable_route candidates failures)
    | best ∷ rest ↦ ok (best ∷ rest)
  ]
