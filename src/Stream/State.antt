-- ===== src/Stream/State.antt =====
-- src/search.rs: the data of a streaming search, and the routes that it retains.
use evm_amm_search.Prelude.{
  ℕ, ◌+◌, Bool, true, false, Option, none, some, List, [], ◌∷◌, ◌++◌, if◌then◌else◌, leb, ltb, ◌==◌,
  PartialEq, is_none, any, length, take,
}
use evm_amm_search.Prelude.Sort.{sort}
use evm_amm_search.Route.{RoutePath, RouteQuote, path_PartialEq}
use evm_amm_search.Config.{StreamingSearchConfig}

pub data RouteSearchPhase : Type 0 where
  heuristic exhaustive : RouteSearchPhase

pub data StreamedRouteStatus : Type 0 where
  provisional final_within_configured_search : StreamedRouteStatus

pub data SearchFinality : Type 0 where
  fast_lane_only heuristic_only exhaustive stop_policy_satisfied stopped : SearchFinality

pub data SearchControl : Type 0 where
  continue stop : SearchControl

pub record StreamingRouteState (PoolKey : Type 0) : Type 0 where
  pub config : StreamingSearchConfig
  pub best : Option (RouteQuote PoolKey)
  pub heuristic_best : Option (RouteQuote PoolKey)
  pub top_routes : List (RouteQuote PoolKey)
  pub routes_observed : ℕ
  pub failed_candidates : ℕ
  pub duplicate_paths_skipped : ℕ
  pub improvements_after_heuristic : ℕ
  pub heuristic_phase_completed : Bool
  pub progress_phase : Option RouteSearchPhase
  pub total_candidates : Option ℕ
  pub initial_results_released : Bool
  pub stop_finality : Option SearchFinality

module _ {PoolKey : Type 0} where
  unfoldable pub new_state : StreamingSearchConfig → StreamingRouteState PoolKey
  new_state config = record {
    config = config;
    best = none;
    heuristic_best = none;
    top_routes = [];
    routes_observed = 0;
    failed_candidates = 0;
    duplicate_paths_skipped = 0;
    improvements_after_heuristic = 0;
    heuristic_phase_completed = false;
    progress_phase = none;
    total_candidates = none;
    initial_results_released = is_none config.initial_result_policy;
    stop_finality = none;
  }

  unfoldable pub candidates_evaluated : StreamingRouteState PoolKey → ℕ
  candidates_evaluated s = s.routes_observed + s.failed_candidates

  unfoldable pub mark_exhaustive_complete :
      StreamingRouteState PoolKey → StreamingRouteState PoolKey
  mark_exhaustive_complete s = record s { progress_phase = some RouteSearchPhase.exhaustive }

  -- The order of `sort_by_key(|quote| Reverse(quote.amount_out))`.
  abbrev pub pays_more : RouteQuote PoolKey → RouteQuote PoolKey → Bool
  pays_more a b = leb b.amount_out a.amount_out

-- `rank.filter(|rank| *rank <= top_k)`, for the index plus one.
unfoldable pub rank_within : ℕ → Option ℕ → Option ℕ
rank_within top_k none = none
rank_within top_k (some index) = if leb (index + 1) top_k then some (index + 1) else none

module _ {PoolKey : Type 0} ⦃e : PartialEq PoolKey⦄ where
  abbrev pub has_path : RoutePath PoolKey → List (RouteQuote PoolKey) → Bool
  has_path path = any (λ existing. existing.path == path)

  -- `iter().position(|candidate| candidate.path == path)`
  unfoldable pub position : RoutePath PoolKey → List (RouteQuote PoolKey) → Option ℕ
  position path [] = none
  position path (candidate ∷ rest) = elim (candidate.path == path) [
    | true ↦ some 0
    | false ↦ elim (position path rest) [ none ↦ none | some i ↦ some (i + 1) ]
  ]

  -- The retained routes with a new one among them, and what `truncate` leaves.
  unfoldable pub ranked_with :
      RouteQuote PoolKey → List (RouteQuote PoolKey) → List (RouteQuote PoolKey)
  ranked_with quote routes = sort pays_more (routes ++ quote ∷ [])

  unfoldable pub retained : ℕ → List (RouteQuote PoolKey) → List (RouteQuote PoolKey)
  retained top_k routes = if ltb top_k (length routes) then take top_k routes else routes

  unfoldable pub record_top_route :
      RouteQuote PoolKey → StreamingRouteState PoolKey → StreamingRouteState PoolKey × Option ℕ
  unfolding ranked_with retained rank_within position
  record_top_route quote s = if has_path quote.path s.top_routes then (s, none) else (
    record s { top_routes = retained s.config.top_k (ranked_with quote s.top_routes) },
    rank_within s.config.top_k (position quote.path (ranked_with quote s.top_routes)),
  )
