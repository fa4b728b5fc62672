-- ===== src/Config.antt =====
-- src/search.rs: the configuration of a route search and its validation.
pub mod Validate
pub mod Valid
pub mod Presets
pub mod Builders
pub mod Methods
pub mod Heuristic
use evm_amm_search.Prelude.{ℕ, Bool, Option, List}
use evm_amm_search.Route.{Address}

pub record FastLaneConfig : Type 0 where
  pub enabled : Bool
  pub max_connectors : ℕ
  pub direct_edges_per_pair : ℕ
  pub connector_edges_per_pair : ℕ
  pub evaluate_direct_best_first : Bool

pub record AdaptiveEdgeShortlistConfig : Type 0 where
  pub enabled : Bool
  pub initial_edges_per_pair : ℕ
  pub refinement_edges_per_pair : ℕ
  pub refine_parallel_edges : Bool
  pub protocol_ordering : Bool

pub record UpperBoundPruningConfig : Type 0 where
  pub enabled : Bool
  pub balance_cap_pruning : Bool
  pub estimated_rate_pruning : Bool
  pub fail_open_on_unknown : Bool

pub record HeuristicSearchConfig : Type 0 where
  pub max_auto_connectors : ℕ
  pub min_auto_connector_degree : ℕ
  pub beam_width : Option ℕ
  pub parallel_edge_limit : ℕ
  pub simulate_finalists : Bool
  pub max_finalists : ℕ
  pub target_first : Bool
  pub prefix_dominance : Bool
  pub fast_lane : FastLaneConfig
  pub edge_shortlist : AdaptiveEdgeShortlistConfig
  pub upper_bound_pruning : UpperBoundPruningConfig

pub data SearchMode : Type 0 where
  exhaustive : SearchMode
  heuristic : HeuristicSearchConfig → SearchMode

-- `liquidity_pruning` is carried along and read by the heuristic search only.
pub record LiquidityPruningConfig : Type 0 where
  pub enabled : Bool
  pub min_parallel_edges : ℕ
  pub order_by_output_balance : Bool
  pub prune_balance_dominated : Bool
  pub prune_unknown : Bool
  pub rank_branches_by_liquidity : Bool

pub record SearchConfig : Type 0 where
  pub min_hops : ℕ
  pub max_hops : ℕ
  pub max_candidates : Option ℕ
  pub connector_tokens : Option (List Address)
  pub mode : SearchMode
  pub liquidity_pruning : LiquidityPruningConfig

pub data StreamingCompletion : Type 0 where
  fast_lane_exhausted heuristic_exhausted exhaustive : StreamingCompletion

pub data StreamingThresholdMode : Type 0 where
  all any : StreamingThresholdMode

pub record StreamingThresholdPolicy : Type 0 where
  pub mode : StreamingThresholdMode
  pub min_confidence_bps : Option ℕ
  pub min_exhaustive_fraction_bps : Option ℕ

pub record ParallelSearchConfig : Type 0 where
  pub workers : ℕ

pub record StreamingSearchConfig : Type 0 where
  pub completion : StreamingCompletion
  pub parallel : ParallelSearchConfig
  pub emit_all_viable : Bool
  pub top_k : ℕ
  pub stop_policy : Option StreamingThresholdPolicy
  pub initial_result_policy : Option StreamingThresholdPolicy
