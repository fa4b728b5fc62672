-- ===== src/Config/Validate.antt =====
-- src/search.rs: the `validate` methods. The first condition that fails gives the error.
use Prim.Native.String.{String}
use evm_amm_search.Prelude.{
  ℕ, Bool, true, false, ◌&&◌, Option, none, some, leb, ltb, ◌==◌, nat_PartialEq, Result, ok, err,
  ◌>>◌, is_some_and, is_none, not,
}
use evm_amm_search.Route.{InvalidConfig}
use evm_amm_search.Config.{
  FastLaneConfig, AdaptiveEdgeShortlistConfig, HeuristicSearchConfig, SearchMode, SearchConfig,
  StreamingThresholdPolicy, ParallelSearchConfig, StreamingSearchConfig,
}

abbrev pub Checked : Type 0
Checked = Result (Unit {0}) InvalidConfig

-- `if fails { return Err(InvalidConfig { reason }) }`
abbrev pub reject_if : Bool → String → Checked
reject_if true reason = err (record { reason = reason })
reject_if false reason = ok tt

unfoldable pub validate_fast_lane : FastLaneConfig → Checked
validate_fast_lane c = do
  reject_if (c.enabled && c.direct_edges_per_pair == 0)
      "fast_lane.direct_edges_per_pair must be at least 1"
  reject_if (c.enabled && c.connector_edges_per_pair == 0)
      "fast_lane.connector_edges_per_pair must be at least 1"
  ok tt

unfoldable pub validate_shortlist : AdaptiveEdgeShortlistConfig → Checked
validate_shortlist c = do
  reject_if (c.enabled && c.initial_edges_per_pair == 0)
      "edge_shortlist.initial_edges_per_pair must be at least 1"
  reject_if (c.enabled && c.refinement_edges_per_pair == 0)
      "edge_shortlist.refinement_edges_per_pair must be at least 1"
  ok tt

unfoldable pub validate_heuristic : HeuristicSearchConfig → Checked
unfolding validate_fast_lane validate_shortlist
validate_heuristic c = do
  reject_if (c.parallel_edge_limit == 0) "parallel_edge_limit must be at least 1"
  reject_if (c.max_finalists == 0) "max_finalists must be at least 1"
  reject_if (is_some_and c.beam_width (λ width. width == 0)) "beam_width must be at least 1"
  validate_fast_lane c.fast_lane
  validate_shortlist c.edge_shortlist
  ok tt

unfoldable pub validate_mode : SearchMode → Checked
validate_mode SearchMode.exhaustive = ok tt
validate_mode (SearchMode.heuristic c) = validate_heuristic c

unfoldable pub validate_search : SearchConfig → Checked
unfolding validate_mode validate_heuristic
validate_search c = do
  reject_if (c.min_hops == 0) "min_hops must be at least 1"
  reject_if (ltb c.max_hops c.min_hops) "min_hops cannot exceed max_hops"
  reject_if (is_some_and c.max_candidates (λ n. n == 0)) "max_candidates must be at least 1"
  validate_mode c.mode
  ok tt

-- `!(1..=10_000).contains(&bps)`
abbrev pub out_of_range : ℕ → Bool
out_of_range bps = not (leb 1 bps && leb bps 10_000)

unfoldable pub validate_policy : StreamingThresholdPolicy → Checked
validate_policy p = do
  reject_if (is_none p.min_confidence_bps && is_none p.min_exhaustive_fraction_bps)
      "streaming threshold policy must configure at least one threshold"
  reject_if (is_some_and p.min_confidence_bps out_of_range)
      "streaming confidence threshold must be between 1 and 10000 bps"
  reject_if (is_some_and p.min_exhaustive_fraction_bps out_of_range)
      "streaming exhaustive fraction threshold must be between 1 and 10000 bps"
  ok tt

unfoldable pub validate_parallel : ParallelSearchConfig → Checked
validate_parallel c = reject_if (c.workers == 0) "workers must be at least 1"

-- `if let Some(policy) = policy { policy.validate()?; }`
unfoldable pub validate_policy? : Option StreamingThresholdPolicy → Checked
unfolding validate_policy
validate_policy? none = ok tt
validate_policy? (some p) = validate_policy p

unfoldable pub validate_streaming : StreamingSearchConfig → Checked
unfolding validate_policy? validate_parallel
validate_streaming c = do
  validate_parallel c.parallel
  reject_if (c.top_k == 0) "streaming top_k must be at least 1"
  validate_policy? c.stop_policy
  validate_policy? c.initial_result_policy
  ok tt
