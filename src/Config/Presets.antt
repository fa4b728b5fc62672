-- ===== src/Config/Presets.antt =====
-- src/search.rs: the presets of the configurations and the builder methods. A builder method of
-- `StreamingSearchConfig` is a call, and `apply_call` its effect.
use evm_amm_search.Prelude.{ℕ, Bool, true, false, Option, none, some, List, unwrap_or}
use evm_amm_search.Route.{Address}
use evm_amm_search.Config.{
  FastLaneConfig, AdaptiveEdgeShortlistConfig, UpperBoundPruningConfig, HeuristicSearchConfig,
  SearchMode, LiquidityPruningConfig, SearchConfig, StreamingCompletion, StreamingThresholdMode,
  StreamingThresholdPolicy, ParallelSearchConfig, StreamingSearchConfig,
}

unfoldable pub fast_lane_enabled : FastLaneConfig
fast_lane_enabled = record {
  enabled = true;
  max_connectors = 8;
  direct_edges_per_pair = 1;
  connector_edges_per_pair = 1;
  evaluate_direct_best_first = true;
}

unfoldable pub shortlist_ordering_only : AdaptiveEdgeShortlistConfig
shortlist_ordering_only = record {
  enabled = false;
  initial_edges_per_pair = 1;
  refinement_edges_per_pair = 3;
  refine_parallel_edges = false;
  protocol_ordering = true;
}

unfoldable pub shortlist_enabled : AdaptiveEdgeShortlistConfig
shortlist_enabled = record {
  enabled = true;
  initial_edges_per_pair = 1;
  refinement_edges_per_pair = 3;
  refine_parallel_edges = true;
  protocol_ordering = true;
}

unfoldable pub bounds_conservative : UpperBoundPruningConfig
bounds_conservative = record {
  enabled = true;
  balance_cap_pruning = true;
  estimated_rate_pruning = false;
  fail_open_on_unknown = true;
}

unfoldable pub heuristic_balanced : HeuristicSearchConfig
unfolding fast_lane_enabled shortlist_ordering_only bounds_conservative
heuristic_balanced = record {
  max_auto_connectors = 8;
  min_auto_connector_degree = 6;
  beam_width = some 64;
  parallel_edge_limit = 1;
  simulate_finalists = true;
  max_finalists = 16;
  target_first = true;
  prefix_dominance = true;
  fast_lane = fast_lane_enabled;
  edge_shortlist = shortlist_ordering_only;
  upper_bound_pruning = bounds_conservative;
}

unfoldable pub heuristic_latency_first : HeuristicSearchConfig
unfolding fast_lane_enabled shortlist_enabled bounds_conservative
heuristic_latency_first = record {
  max_auto_connectors = 8;
  min_auto_connector_degree = 6;
  beam_width = some 64;
  parallel_edge_limit = 1;
  simulate_finalists = true;
  max_finalists = 16;
  target_first = true;
  prefix_dominance = true;
  fast_lane = fast_lane_enabled;
  edge_shortlist = shortlist_enabled;
  upper_bound_pruning = bounds_conservative;
}

-- `PARALLEL_EDGE_THRESHOLD` is 2.
unfoldable pub liquidity_default : LiquidityPruningConfig
liquidity_default = record {
  enabled = false;
  min_parallel_edges = 2;
  order_by_output_balance = true;
  prune_balance_dominated = true;
  prune_unknown = false;
  rank_branches_by_liquidity = false;
}

unfoldable pub search_default : SearchConfig
unfolding liquidity_default
search_default = record {
  min_hops = 1;
  max_hops = 3;
  max_candidates = none;
  connector_tokens = none;
  mode = SearchMode.exhaustive;
  liquidity_pruning = liquidity_default;
}

-- The builder methods of `SearchConfig`.
pub data SearchCall : Type 0 where
  with_hops : ℕ → ℕ → SearchCall
  with_max_candidates : ℕ → SearchCall
  with_connector_tokens : List Address → SearchCall
  with_mode : SearchMode → SearchCall
  with_liquidity_pruning : LiquidityPruningConfig → SearchCall

-- `exhaustive()` and `heuristic()` are `with_mode` at the modes that they set.
unfoldable pub apply_search_call : SearchConfig → SearchCall → SearchConfig
apply_search_call c (with_hops lo hi) = record c { min_hops = lo; max_hops = hi }
apply_search_call c (with_max_candidates n) = record c { max_candidates = some n }
apply_search_call c (with_connector_tokens ts) = record c { connector_tokens = some ts }
apply_search_call c (with_mode m) = record c { mode = m }
apply_search_call c (with_liquidity_pruning l) = record c { liquidity_pruning = l }

abbrev pub policy_all : StreamingThresholdPolicy
policy_all = record {
  mode = StreamingThresholdMode.all;
  min_confidence_bps = none;
  min_exhaustive_fraction_bps = none;
}

abbrev pub with_min_confidence_bps : StreamingThresholdPolicy → ℕ → StreamingThresholdPolicy
with_min_confidence_bps p bps = record p { min_confidence_bps = some bps }

abbrev pub with_min_exhaustive_fraction_bps :
    StreamingThresholdPolicy → ℕ → StreamingThresholdPolicy
with_min_exhaustive_fraction_bps p bps = record p { min_exhaustive_fraction_bps = some bps }

unfoldable pub policy_with_confidence :
    Option StreamingThresholdPolicy → ℕ → StreamingThresholdPolicy
policy_with_confidence policy bps = with_min_confidence_bps (unwrap_or policy policy_all) bps

unfoldable pub policy_with_exhaustive_fraction :
    Option StreamingThresholdPolicy → ℕ → StreamingThresholdPolicy
policy_with_exhaustive_fraction policy bps =
    with_min_exhaustive_fraction_bps (unwrap_or policy policy_all) bps

-- `thread::available_parallelism()` is the argument: a positive number, or none on an error.
unfoldable pub streaming_default : Option ℕ → StreamingSearchConfig
streaming_default available = record {
  completion = StreamingCompletion.exhaustive;
  parallel = record { workers = unwrap_or available 1 };
  emit_all_viable = false;
  top_k = 1;
  stop_policy = none;
  initial_result_policy = none;
}

pub data StreamingCall : Type 0 where
  fast_lane_only heuristic_only exhaustive : StreamingCall
  with_parallel : ParallelSearchConfig → StreamingCall
  with_emit_all_viable : Bool → StreamingCall
  with_top_k : ℕ → StreamingCall
  with_stop_policy with_initial_result_policy : StreamingThresholdPolicy → StreamingCall
  stop_at_confidence_bps stop_at_exhaustive_fraction_bps : ℕ → StreamingCall
  stop_at_confidence_and_exhaustive_fraction_bps : ℕ → ℕ → StreamingCall
  emit_initial_results_at_confidence_bps : ℕ → StreamingCall
  emit_initial_results_at_exhaustive_fraction_bps : ℕ → StreamingCall
  emit_initial_results_at_confidence_and_exhaustive_fraction_bps : ℕ → ℕ → StreamingCall

abbrev pub both_thresholds : ℕ → ℕ → StreamingThresholdPolicy
both_thresholds confidence fraction =
    with_min_exhaustive_fraction_bps (with_min_confidence_bps policy_all confidence) fraction

unfoldable pub apply_call : StreamingSearchConfig → StreamingCall → StreamingSearchConfig
unfolding policy_with_confidence policy_with_exhaustive_fraction
apply_call c fast_lane_only = record c { completion = StreamingCompletion.fast_lane_exhausted }
apply_call c heuristic_only = record c { completion = StreamingCompletion.heuristic_exhausted }
apply_call c exhaustive = record c { completion = StreamingCompletion.exhaustive }
apply_call c (with_parallel p) = record c { parallel = p }
apply_call c (with_emit_all_viable b) = record c { emit_all_viable = b }
apply_call c (with_top_k k) = record c { top_k = k }
apply_call c (with_stop_policy p) = record c { stop_policy = some p }
apply_call c (with_initial_result_policy p) = record c { initial_result_policy = some p }
apply_call c (stop_at_confidence_bps bps) = record c {
  stop_policy = some (policy_with_confidence c.stop_policy bps);
}
apply_call c (stop_at_exhaustive_fraction_bps bps) = record c {
  stop_policy = some (policy_with_exhaustive_fraction c.stop_policy bps);
}
apply_call c (stop_at_confidence_and_exhaustive_fraction_bps conf frac) = record c {
  stop_policy = some (both_thresholds conf frac);
}
apply_call c (emit_initial_results_at_confidence_bps bps) = record c {
  initial_result_policy = some (policy_with_confidence c.initial_result_policy bps);
}
apply_call c (emit_initial_results_at_exhaustive_fraction_bps bps) = record c {
  initial_result_policy = some (policy_with_exhaustive_fraction c.initial_result_policy bps);
}
apply_call c (emit_initial_results_at_confidence_and_exhaustive_fraction_bps conf frac) = record c {
  initial_result_policy = some (both_thresholds conf frac);
}
