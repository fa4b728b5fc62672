-- ===== src/Config/Heuristic.antt =====
-- Heuristic configurations made by the builder methods pass validation.
use mathlib.Core.List.{foldl}
use evm_amm_search.Prelude.{◌≤◌, ◌≡◌, List, [], ◌∷◌, ok, arith, All}
use evm_amm_search.Config.{
  FastLaneConfig, AdaptiveEdgeShortlistConfig, SearchMode, HeuristicSearchConfig,
}
use evm_amm_search.Config.Validate.{validate_search}
use evm_amm_search.Config.Valid.{IsPositive, HeuristicIsValid, validate_search_iff}
use evm_amm_search.Config.Presets.{
  fast_lane_enabled, shortlist_enabled, heuristic_balanced, search_default, with_mode,
  apply_search_call,
}
use evm_amm_search.Config.Methods.{
  FastLaneCall, with_direct_edges_per_pair, with_connector_edges_per_pair, apply_fast_lane_call,
  ShortlistCall, with_initial_edges_per_pair, with_refinement_edges_per_pair, apply_shortlist_call,
  HeuristicCall, with_beam_width, with_parallel_edge_limit, with_finalist_simulation,
  with_fast_lane, with_edge_shortlist, apply_heuristic_call,
}

abbrev pub FastLaneCallInRange : FastLaneCall → Type 0
FastLaneCallInRange (with_direct_edges_per_pair n) = 1 ≤ n
FastLaneCallInRange (with_connector_edges_per_pair n) = 1 ≤ n
FastLaneCallInRange _ = Unit

abbrev pub ShortlistCallInRange : ShortlistCall → Type 0
ShortlistCallInRange (with_initial_edges_per_pair n) = 1 ≤ n
ShortlistCallInRange (with_refinement_edges_per_pair n) = 1 ≤ n
ShortlistCallInRange _ = Unit

-- The parts that a heuristic configuration is given are themselves built from their presets.
abbrev pub HeuristicCallInRange : HeuristicCall → Type 0
HeuristicCallInRange (with_beam_width width) = IsPositive width
HeuristicCallInRange (with_parallel_edge_limit n) = 1 ≤ n
HeuristicCallInRange (with_finalist_simulation _ n) = 1 ≤ n
HeuristicCallInRange (with_fast_lane f) =
    (calls : List FastLaneCall) × All FastLaneCallInRange calls
    × (f ≡ foldl apply_fast_lane_call fast_lane_enabled calls)
HeuristicCallInRange (with_edge_shortlist s) =
    (calls : List ShortlistCall) × All ShortlistCallInRange calls
    × (s ≡ foldl apply_shortlist_call shortlist_enabled calls)
HeuristicCallInRange _ = Unit

-- The counts are positive, whether or not the part is enabled.
abbrev FastLaneCounts : FastLaneConfig → Type 0
FastLaneCounts c = (1 ≤ c.direct_edges_per_pair) × (1 ≤ c.connector_edges_per_pair)

abbrev ShortlistCounts : AdaptiveEdgeShortlistConfig → Type 0
ShortlistCounts c = (1 ≤ c.initial_edges_per_pair) × (1 ≤ c.refinement_edges_per_pair)

fast_lane_calls-FastLaneCounts :
    (c : FastLaneConfig) (calls : List FastLaneCall)
    → All FastLaneCallInRange calls
    → FastLaneCounts c
    → FastLaneCounts (foldl apply_fast_lane_call c calls)
unfolding apply_fast_lane_call
fast_lane_calls-FastLaneCounts c [] r h = h
fast_lane_calls-FastLaneCounts c (call ∷ calls) r h =
    fast_lane_calls-FastLaneCounts (apply_fast_lane_call c call) calls r.1 (ground (arith, r, h))

shortlist_calls-ShortlistCounts :
    (c : AdaptiveEdgeShortlistConfig) (calls : List ShortlistCall)
    → All ShortlistCallInRange calls
    → ShortlistCounts c
    → ShortlistCounts (foldl apply_shortlist_call c calls)
unfolding apply_shortlist_call
shortlist_calls-ShortlistCounts c [] r h = h
shortlist_calls-ShortlistCounts c (call ∷ calls) r h =
    shortlist_calls-ShortlistCounts (apply_shortlist_call c call) calls r.1 (ground (arith, r, h))

apply_heuristic_call-HeuristicIsValid :
    (c : HeuristicSearchConfig) (call : HeuristicCall)
    → HeuristicCallInRange call
    → HeuristicIsValid c
    → HeuristicIsValid (apply_heuristic_call c call)
unfolding apply_heuristic_call fast_lane_enabled shortlist_enabled
apply_heuristic_call-HeuristicIsValid c (with_fast_lane f) (calls, r, is) h = record {
  edges = h.edges;
  finalists = h.finalists;
  beam = h.beam;
  fast_lane = λ on.
      rw is (fast_lane_calls-FastLaneCounts fast_lane_enabled calls r (omega arith, omega arith));
  shortlist = h.shortlist;
}
apply_heuristic_call-HeuristicIsValid c (with_edge_shortlist s) (calls, r, is) h = record {
  edges = h.edges;
  finalists = h.finalists;
  beam = h.beam;
  fast_lane = h.fast_lane;
  shortlist = λ on.
      rw is (shortlist_calls-ShortlistCounts shortlist_enabled calls r (omega arith, omega arith));
}
apply_heuristic_call-HeuristicIsValid c _ r h = ground arith

heuristic_calls-HeuristicIsValid :
    (c : HeuristicSearchConfig) (calls : List HeuristicCall)
    → All HeuristicCallInRange calls
    → HeuristicIsValid c
    → HeuristicIsValid (foldl apply_heuristic_call c calls)
heuristic_calls-HeuristicIsValid c [] r h = h
heuristic_calls-HeuristicIsValid c (call ∷ calls) r h =
    heuristic_calls-HeuristicIsValid (apply_heuristic_call c call) calls r.1
      (apply_heuristic_call-HeuristicIsValid c call r.0 h)

-- The default search in a heuristic mode that is made from the balanced preset by builder calls passes
-- validation, if the counts given are positive and a fast lane or a shortlist that is given is made from
-- its enabled preset by builder calls whose counts are positive.
pub heuristic_builder_ok :
    (calls : List HeuristicCall)
    → All HeuristicCallInRange calls
    → validate_search (
        apply_search_call search_default
          (with_mode (SearchMode.heuristic (foldl apply_heuristic_call heuristic_balanced calls))))
      ≡ ok tt
unfolding apply_search_call search_default heuristic_balanced
heuristic_builder_ok calls r = (validate_search_iff _).1 (record {
  hops = (omega arith, omega arith);
  candidates = tt;
  mode = heuristic_calls-HeuristicIsValid heuristic_balanced calls r (ground arith);
})
