-- ===== src/Stream/Progress.antt =====
-- src/search.rs: `StreamingThresholdPolicy::is_satisfied`, and the progress, the confidence and the
-- report of a streaming search. A `usize` has 64 bits: `saturating_mul` stops at `usize_max`.
use evm_amm_search.Prelude.{
  ℕ, ◌+◌, ◌*◌, ◌/◌, ◌-◌, ◌^◌, min, Bool, true, false, ◌&&◌, ◌||◌, Option, none, some, List,
  if◌then◌else◌, leb, ltb, ◌==◌, nat_PartialEq, PartialEq, is_none, is_some, is_some_and, unwrap_or,
}
use evm_amm_search.Route.{U256, RouteQuote, quote_PartialEq}
use evm_amm_search.Config.{StreamingThresholdMode, StreamingThresholdPolicy}
use evm_amm_search.Stream.State.{
  RouteSearchPhase, SearchFinality, StreamingRouteState, candidates_evaluated,
}
use mathlib.Core.Option

abbrev pub usize_max : ℕ
usize_max = 2 ^ 64 - 1

abbrev pub saturating_mul : ℕ → ℕ → ℕ
saturating_mul a b = min (a * b) usize_max

pub record RouteSearchProgress : Type 0 where
  pub phase : Option RouteSearchPhase
  pub candidates_evaluated : ℕ
  pub viable_routes_observed : ℕ
  pub failed_candidates : ℕ
  pub duplicate_paths_skipped : ℕ
  pub total_candidates : Option ℕ
  pub exhaustive_fraction_bps : Option ℕ
  pub confidence_bps : ℕ
  pub best_amount_out : Option U256

abbrev pub reaches : Option ℕ → ℕ → Bool
reaches fraction threshold = is_some_and fraction (λ f. leb threshold f)

-- `unwrap_or` gives a threshold that is not set the neutral value of the mode.
unfoldable pub is_satisfied : StreamingThresholdPolicy → RouteSearchProgress → Bool
is_satisfied policy progress =
    let confidence =
      Option.map (λ threshold. leb threshold progress.confidence_bps) policy.min_confidence_bps in
    let fraction =
      Option.map (reaches progress.exhaustive_fraction_bps) policy.min_exhaustive_fraction_bps in
    elim policy.mode [
      | StreamingThresholdMode.all ↦ unwrap_or confidence true && unwrap_or fraction true
      | StreamingThresholdMode.any ↦ unwrap_or confidence false || unwrap_or fraction false
    ]

-- `u16::try_from(bps.min(10_000)).ok()`
abbrev pub to_u16 : ℕ → Option ℕ
to_u16 n = if ltb n (2 ^ 16) then some n else none

unfoldable pub fraction_bps : ℕ → Option ℕ → Option ℕ
fraction_bps evaluated none = none
fraction_bps evaluated (some total) =
    if total == 0
    then some 10_000
    else to_u16 (min (saturating_mul (min evaluated total) 10_000 / total) 10_000)

abbrev pub is_exhaustive : SearchFinality → Bool
is_exhaustive SearchFinality.exhaustive = true
is_exhaustive _ = false

module _ {PoolKey : Type 0} where
  unfoldable pub confidence_bps : StreamingRouteState PoolKey → Option ℕ → ℕ
  unfolding candidates_evaluated
  confidence_bps s fraction =
      if is_none s.best
      then 0
      else if is_some_and s.total_candidates
          (λ total. ltb 0 total && leb total (candidates_evaluated s))
      then 9_999
      else elim fraction [
        | some f ↦ min (9_000 + f / 10) 9_999
        | none ↦ if s.heuristic_phase_completed then 9_000 else 7_000
      ]

  unfoldable pub progress : StreamingRouteState PoolKey → RouteSearchProgress
  unfolding confidence_bps fraction_bps candidates_evaluated
  progress s = record {
    phase = s.progress_phase;
    candidates_evaluated = candidates_evaluated s;
    viable_routes_observed = s.routes_observed;
    failed_candidates = s.failed_candidates;
    duplicate_paths_skipped = s.duplicate_paths_skipped;
    total_candidates = s.total_candidates;
    exhaustive_fraction_bps = fraction_bps (candidates_evaluated s) s.total_candidates;
    confidence_bps = confidence_bps s (fraction_bps (candidates_evaluated s) s.total_candidates);
    best_amount_out = Option.map (λ quote. quote.amount_out) s.best;
  }

  unfoldable pub final_progress : StreamingRouteState PoolKey → SearchFinality → RouteSearchProgress
  unfolding progress
  final_progress s finality =
      if is_exhaustive finality
      then record (progress s) {
        exhaustive_fraction_bps = some 10_000;
        confidence_bps = if is_some s.best then 10_000 else 0;
      }
      else progress s

-- The counters of the quote cache and of the liquidity pruning are passed on unread: `Counters` is
-- the pair of them.
pub record StreamingSearchReport (PoolKey Counters : Type 0) : Type 0 where
  pub best : Option (RouteQuote PoolKey)
  pub top_routes : List (RouteQuote PoolKey)
  pub heuristic_best : Option (RouteQuote PoolKey)
  pub finality : SearchFinality
  pub heuristic_was_final_best : Option Bool
  pub improvements_after_heuristic : ℕ
  pub routes_observed : ℕ
  pub duplicate_paths_skipped : ℕ
  pub counters : Counters
  pub progress : RouteSearchProgress
  pub initial_results_released : Bool

pub record StreamingPhaseStats (Counters : Type 0) : Type 0 where
  pub routes_observed : ℕ
  pub duplicate_paths_skipped : ℕ
  pub counters : Counters

module _ {PoolKey Counters : Type 0} where
  unfoldable pub phase_stats : StreamingRouteState PoolKey → Counters → StreamingPhaseStats Counters
  phase_stats s counters = record {
    routes_observed = s.routes_observed;
    duplicate_paths_skipped = s.duplicate_paths_skipped;
    counters = counters;
  }

module _ {PoolKey : Type 0} ⦃e : PartialEq PoolKey⦄ where
  abbrev pub is_best_of : Option (RouteQuote PoolKey) → RouteQuote PoolKey → Bool
  is_best_of heuristic_best best = is_some_and heuristic_best (λ quote. quote == best)

module _ {PoolKey Counters : Type 0} ⦃e : PartialEq PoolKey⦄ where
  unfoldable pub report :
      StreamingRouteState PoolKey
      → SearchFinality
      → Counters
      → StreamingSearchReport PoolKey Counters
  unfolding final_progress
  report s finality counters = record {
    best = s.best;
    top_routes = s.top_routes;
    heuristic_best = s.heuristic_best;
    finality = finality;
    heuristic_was_final_best =
        if is_exhaustive finality then Option.map (is_best_of s.heuristic_best) s.best else none;
    improvements_after_heuristic = s.improvements_after_heuristic;
    routes_observed = s.routes_observed;
    duplicate_paths_skipped = s.duplicate_paths_skipped;
    counters = counters;
    progress = final_progress s finality;
    initial_results_released = s.initial_results_released;
  }
