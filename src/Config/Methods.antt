-- ===== src/Config/Methods.antt =====
-- src/search.rs and src/liquidity.rs: the other presets and the builder methods of the configurations
-- that a search configuration holds.
use evm_amm_search.Prelude.{ℕ, Bool, true, false, Option, none}
use evm_amm_search.Config.{
  FastLaneConfig, AdaptiveEdgeShortlistConfig, UpperBoundPruningConfig, HeuristicSearchConfig,
  LiquidityPruningConfig, StreamingThresholdMode, StreamingThresholdPolicy, ParallelSearchConfig,
}

unfoldable pub fast_lane_disabled : FastLaneConfig
fast_lane_disabled = record {
  enabled = false;
  max_connectors = 8;
  direct_edges_per_pair = 1;
  connector_edges_per_pair = 1;
  evaluate_direct_best_first = true;
}

pub data FastLaneCall : Type 0 where
  with_enabled with_evaluate_direct_best_first : Bool → FastLaneCall
  with_max_connectors with_direct_edges_per_pair with_connector_edges_per_pair : ℕ → FastLaneCall

unfoldable pub apply_fast_lane_call : FastLaneConfig → FastLaneCall → FastLaneConfig
apply_fast_lane_call c (with_enabled b) = record c { enabled = b }
apply_fast_lane_call c (with_max_connectors n) = record c { max_connectors = n }
apply_fast_lane_call c (with_direct_edges_per_pair n) = record c { direct_edges_per_pair = n }
apply_fast_lane_call c (with_connector_edges_per_pair n) = record c { connector_edges_per_pair = n }
apply_fast_lane_call c (with_evaluate_direct_best_first b) = record c {
  evaluate_direct_best_first = b;
}

unfoldable pub shortlist_disabled : AdaptiveEdgeShortlistConfig
shortlist_disabled = record {
  enabled = false;
  initial_edges_per_pair = 1;
  refinement_edges_per_pair = 3;
  refine_parallel_edges = false;
  protocol_ordering = false;
}

pub data ShortlistCall : Type 0 where
  with_enabled with_refine_parallel_edges with_protocol_ordering : Bool → ShortlistCall
  with_initial_edges_per_pair with_refinement_edges_per_pair : ℕ → ShortlistCall

unfoldable pub apply_shortlist_call :
    AdaptiveEdgeShortlistConfig → ShortlistCall → AdaptiveEdgeShortlistConfig
apply_shortlist_call c (ShortlistCall.with_enabled b) = record c { enabled = b }
apply_shortlist_call c (with_initial_edges_per_pair n) = record c { initial_edges_per_pair = n }
apply_shortlist_call c (with_refinement_edges_per_pair n) = record c {
  refinement_edges_per_pair = n;
}
apply_shortlist_call c (with_refine_parallel_edges b) = record c { refine_parallel_edges = b }
apply_shortlist_call c (with_protocol_ordering b) = record c { protocol_ordering = b }

unfoldable pub bounds_disabled : UpperBoundPruningConfig
bounds_disabled = record {
  enabled = false;
  balance_cap_pruning = false;
  estimated_rate_pruning = false;
  fail_open_on_unknown = true;
}

pub data BoundsCall : Type 0 where
  with_enabled with_balance_cap_pruning with_estimated_rate_pruning with_fail_open_on_unknown :
      Bool → BoundsCall

unfoldable pub apply_bounds_call : UpperBoundPruningConfig → BoundsCall → UpperBoundPruningConfig
apply_bounds_call c (BoundsCall.with_enabled b) = record c { enabled = b }
apply_bounds_call c (with_balance_cap_pruning b) = record c { balance_cap_pruning = b }
apply_bounds_call c (with_estimated_rate_pruning b) = record c { estimated_rate_pruning = b }
apply_bounds_call c (with_fail_open_on_unknown b) = record c { fail_open_on_unknown = b }

pub data HeuristicCall : Type 0 where
  with_auto_connectors : ℕ → ℕ → HeuristicCall
  with_beam_width : Option ℕ → HeuristicCall
  with_parallel_edge_limit : ℕ → HeuristicCall
  with_finalist_simulation : Bool → ℕ → HeuristicCall
  with_target_first with_prefix_dominance : Bool → HeuristicCall
  with_fast_lane : FastLaneConfig → HeuristicCall
  with_edge_shortlist : AdaptiveEdgeShortlistConfig → HeuristicCall
  with_upper_bound_pruning : UpperBoundPruningConfig → HeuristicCall

unfoldable pub apply_heuristic_call : HeuristicSearchConfig → HeuristicCall → HeuristicSearchConfig
apply_heuristic_call c (with_auto_connectors most degree) = record c {
  max_auto_connectors = most;
  min_auto_connector_degree = degree;
}
apply_heuristic_call c (with_beam_width width) = record c { beam_width = width }
apply_heuristic_call c (with_parallel_edge_limit n) = record c { parallel_edge_limit = n }
apply_heuristic_call c (with_finalist_simulation b n) = record c {
  simulate_finalists = b;
  max_finalists = n;
}
apply_heuristic_call c (with_target_first b) = record c { target_first = b }
apply_heuristic_call c (with_prefix_dominance b) = record c { prefix_dominance = b }
apply_heuristic_call c (with_fast_lane f) = record c { fast_lane = f }
apply_heuristic_call c (with_edge_shortlist s) = record c { edge_shortlist = s }
apply_heuristic_call c (with_upper_bound_pruning u) = record c { upper_bound_pruning = u }

unfoldable pub liquidity_enabled : LiquidityPruningConfig
liquidity_enabled = record {
  enabled = true;
  min_parallel_edges = 2;
  order_by_output_balance = true;
  prune_balance_dominated = true;
  prune_unknown = false;
  rank_branches_by_liquidity = true;
}

unfoldable pub liquidity_disabled : LiquidityPruningConfig
liquidity_disabled = record {
  enabled = false;
  min_parallel_edges = 2;
  order_by_output_balance = true;
  prune_balance_dominated = true;
  prune_unknown = false;
  rank_branches_by_liquidity = false;
}

pub data LiquidityCall : Type 0 where
  with_min_parallel_edges : ℕ → LiquidityCall
  with_order_by_output_balance with_prune_balance_dominated : Bool → LiquidityCall
  with_prune_unknown with_rank_branches_by_liquidity : Bool → LiquidityCall

-- `with_min_parallel_edges` ignores its argument.
unfoldable pub apply_liquidity_call :
    LiquidityPruningConfig → LiquidityCall → LiquidityPruningConfig
apply_liquidity_call c (with_min_parallel_edges _) = record c { min_parallel_edges = 2 }
apply_liquidity_call c (with_order_by_output_balance b) = record c { order_by_output_balance = b }
apply_liquidity_call c (with_prune_balance_dominated b) = record c { prune_balance_dominated = b }
apply_liquidity_call c (with_prune_unknown b) = record c { prune_unknown = b }
apply_liquidity_call c (with_rank_branches_by_liquidity b) = record c {
  rank_branches_by_liquidity = b;
}

unfoldable pub with_workers : ParallelSearchConfig → ℕ → ParallelSearchConfig
with_workers c n = record c { workers = n }

unfoldable pub policy_any : StreamingThresholdPolicy
policy_any = record {
  mode = StreamingThresholdMode.any;
  min_confidence_bps = none;
  min_exhaustive_fraction_bps = none;
}
