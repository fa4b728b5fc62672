-- ===== src/Tests/Config.antt =====
-- Configurations that `validate` accepts or refuses, and those that builder calls make.
use mathlib.Core.List.{foldl}
use evm_amm_search.Prelude.{◌≡◌, refl, ◌↔◌, List, [], ◌∷◌, some, ok, err, arith, false}
use evm_amm_search.Config.{FastLaneConfig, SearchMode, SearchConfig, StreamingSearchConfig}
use evm_amm_search.Config.Validate.{validate_search, validate_streaming}
use evm_amm_search.Config.Valid.{StreamingIsValid, validate_streaming_iff}
use evm_amm_search.Config.Presets.{
  fast_lane_enabled, heuristic_balanced, search_default, SearchCall, with_hops, with_max_candidates,
  with_mode, apply_search_call, streaming_default, StreamingCall, with_top_k,
  stop_at_confidence_bps, emit_initial_results_at_exhaustive_fraction_bps, apply_call,
}
use evm_amm_search.Config.Methods.{
  with_connector_edges_per_pair, apply_fast_lane_call, HeuristicCall, with_beam_width,
  with_finalist_simulation, with_fast_lane, apply_heuristic_call,
}
use evm_amm_search.Config.Heuristic.{heuristic_builder_ok}
use evm_amm_search.Config.Builders.{search_builder_ok, streaming_builder_ok}

abbrev no_hops : SearchConfig
no_hops = record search_default { min_hops = 0 }

no_hops-refused : validate_search no_hops ≡ err (record { reason = "min_hops must be at least 1" })
unfolding search_default validate_search
no_hops-refused = refl

abbrev two_hops : SearchConfig
two_hops = record search_default { min_hops = 2; max_candidates = some 10 }

abbrev eight_workers : StreamingSearchConfig
eight_workers = apply_call (streaming_default (some 8)) (stop_at_confidence_bps 9_000)

validate_streaming_iff_example :
    (validate_streaming eight_workers ≡ ok tt) ↔ StreamingIsValid eight_workers
validate_streaming_iff_example = validate_streaming_iff eight_workers

abbrev search_calls : List SearchCall
search_calls = with_hops 1 4 ∷ with_max_candidates 100 ∷ with_mode SearchMode.exhaustive ∷ []

search_builder_ok_example :
    validate_search (foldl apply_search_call search_default search_calls) ≡ ok tt
search_builder_ok_example =
    search_builder_ok search_calls ((omega arith, omega arith), (omega arith, (tt, tt)))

abbrev streaming_calls : List StreamingCall
streaming_calls =
    with_top_k 5
    ∷ stop_at_confidence_bps 9_500
    ∷ emit_initial_results_at_exhaustive_fraction_bps 2_500
    ∷ []

streaming_builder_ok_example :
    validate_streaming (foldl apply_call (streaming_default (some 8)) streaming_calls) ≡ ok tt
streaming_builder_ok_example =
    streaming_builder_ok (some 8) streaming_calls (omega arith)
      (omega arith, ((omega arith, omega arith), ((omega arith, omega arith), tt)))

abbrev narrow_fast_lane : FastLaneConfig
narrow_fast_lane =
    foldl apply_fast_lane_call fast_lane_enabled (with_connector_edges_per_pair 2 ∷ [])

abbrev heuristic_calls : List HeuristicCall
heuristic_calls =
    with_beam_width (some 8)
    ∷ with_finalist_simulation false 4
    ∷ with_fast_lane narrow_fast_lane
    ∷ []

heuristic_builder_ok_example :
    validate_search (
      apply_search_call search_default (
        with_mode
          (SearchMode.heuristic (foldl apply_heuristic_call heuristic_balanced heuristic_calls))))
    ≡ ok tt
heuristic_builder_ok_example = heuristic_builder_ok heuristic_calls (
  omega arith,
  (omega arith, ((with_connector_edges_per_pair 2 ∷ [], (omega arith, tt), refl), tt)),
)
