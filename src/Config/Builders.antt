-- ===== src/Config/Builders.antt =====
-- Configurations made by the builder methods pass validation.
use mathlib.Core.List.{foldl}
use evm_amm_search.Prelude.{ℕ, ◌≤◌, ◌≡◌, Option, some, List, [], ◌∷◌, ok, arith, All}
use evm_amm_search.Config.{SearchMode, SearchConfig, StreamingSearchConfig}
use evm_amm_search.Config.Validate.{validate_search, validate_streaming}
use evm_amm_search.Config.Valid.{
  IsPositive, IsBps, HeuristicIsValid, ModeIsValid, SearchIsValid, PolicyIsValid, StreamingIsValid,
  validate_search_iff, validate_streaming_iff,
}
use evm_amm_search.Config.Presets.{
  heuristic_balanced, heuristic_latency_first, search_default, SearchCall, with_hops,
  with_max_candidates, with_mode, apply_search_call, streaming_default, StreamingCall,
  fast_lane_only, with_parallel, with_top_k, with_stop_policy, with_initial_result_policy,
  stop_at_confidence_bps, stop_at_exhaustive_fraction_bps,
  stop_at_confidence_and_exhaustive_fraction_bps, emit_initial_results_at_confidence_bps,
  emit_initial_results_at_exhaustive_fraction_bps,
  emit_initial_results_at_confidence_and_exhaustive_fraction_bps, apply_call,
}

-- The arguments that the doc comments ask for.
abbrev pub SearchCallInRange : SearchCall → Type 0
SearchCallInRange (with_hops lo hi) = (1 ≤ lo) × (lo ≤ hi)
SearchCallInRange (with_max_candidates n) = 1 ≤ n
SearchCallInRange (with_mode m) = ModeIsValid m
SearchCallInRange _ = Unit

abbrev pub CallInRange : StreamingCall → Type 0
CallInRange (with_parallel p) = 1 ≤ p.workers
CallInRange (with_top_k k) = 1 ≤ k
CallInRange (with_stop_policy p) = PolicyIsValid p
CallInRange (with_initial_result_policy p) = PolicyIsValid p
CallInRange (stop_at_confidence_bps bps) = IsBps (some bps)
CallInRange (stop_at_exhaustive_fraction_bps bps) = IsBps (some bps)
CallInRange (stop_at_confidence_and_exhaustive_fraction_bps c f) = IsBps (some c) × IsBps (some f)
CallInRange (emit_initial_results_at_confidence_bps bps) = IsBps (some bps)
CallInRange (emit_initial_results_at_exhaustive_fraction_bps bps) = IsBps (some bps)
CallInRange (emit_initial_results_at_confidence_and_exhaustive_fraction_bps c f) =
    IsBps (some c) × IsBps (some f)
CallInRange _ = Unit

heuristic_balanced-HeuristicIsValid : HeuristicIsValid heuristic_balanced
unfolding heuristic_balanced
heuristic_balanced-HeuristicIsValid = ground arith

heuristic_latency_first-HeuristicIsValid : HeuristicIsValid heuristic_latency_first
unfolding heuristic_latency_first
heuristic_latency_first-HeuristicIsValid = ground arith

apply_search_call-SearchIsValid :
    (c : SearchConfig) (call : SearchCall)
    → SearchCallInRange call
    → SearchIsValid c
    → SearchIsValid (apply_search_call c call)
unfolding apply_search_call
apply_search_call-SearchIsValid c (with_hops lo hi) r h = ground arith
apply_search_call-SearchIsValid c _ r h = ground arith

search_calls-SearchIsValid :
    (c : SearchConfig) (calls : List SearchCall)
    → All SearchCallInRange calls
    → SearchIsValid c
    → SearchIsValid (foldl apply_search_call c calls)
search_calls-SearchIsValid c [] r h = h
search_calls-SearchIsValid c (call ∷ calls) r h =
    search_calls-SearchIsValid (apply_search_call c call) calls r.1
      (apply_search_call-SearchIsValid c call r.0 h)

search_default-SearchIsValid : SearchIsValid search_default
unfolding search_default
search_default-SearchIsValid = ground arith

-- A search configuration made from the default by builder calls passes validation, if each hop
-- range starts at one hop or more and is not empty, no candidate limit is zero and each mode that
-- is set is exhaustive or has a valid heuristic configuration.
pub search_builder_ok :
    (calls : List SearchCall)
    → All SearchCallInRange calls
    → validate_search (foldl apply_search_call search_default calls) ≡ ok tt
search_builder_ok calls r =
    (validate_search_iff _).1
      (search_calls-SearchIsValid search_default calls r search_default-SearchIsValid)

-- Both presets of the heuristic may be set by `with_mode` anywhere among the calls.
pub heuristic_presets_in_range :
    SearchCallInRange (with_mode (SearchMode.heuristic heuristic_balanced))
    × SearchCallInRange (with_mode (SearchMode.heuristic heuristic_latency_first))
heuristic_presets_in_range =
    (heuristic_balanced-HeuristicIsValid, heuristic_latency_first-HeuristicIsValid)

apply_call-StreamingIsValid :
    (c : StreamingSearchConfig) (call : StreamingCall)
    → CallInRange call
    → StreamingIsValid c
    → StreamingIsValid (apply_call c call)
unfolding apply_call
apply_call-StreamingIsValid c fast_lane_only r h = ground arith
apply_call-StreamingIsValid c _ r h = ground arith

calls-StreamingIsValid :
    (c : StreamingSearchConfig) (calls : List StreamingCall)
    → All CallInRange calls
    → StreamingIsValid c
    → StreamingIsValid (foldl apply_call c calls)
calls-StreamingIsValid c [] r h = h
calls-StreamingIsValid c (call ∷ calls) r h =
    calls-StreamingIsValid (apply_call c call) calls r.1 (apply_call-StreamingIsValid c call r.0 h)

streaming_default-StreamingIsValid :
    (available : Option ℕ) → IsPositive available → StreamingIsValid (streaming_default available)
unfolding streaming_default
streaming_default-StreamingIsValid available h = ground arith

-- A streaming configuration made from the default by builder calls passes validation, if every
-- count given is at least one and every threshold given lies between 1 and 10000 basis points. The
-- default number of workers is the machine's parallelism, which is positive where it is known.
pub streaming_builder_ok :
    (available : Option ℕ) (calls : List StreamingCall)
    → IsPositive available
    → All CallInRange calls
    → validate_streaming (foldl apply_call (streaming_default available) calls) ≡ ok tt
streaming_builder_ok available calls a r = (validate_streaming_iff _).1 (
    calls-StreamingIsValid (streaming_default available) calls r
      (streaming_default-StreamingIsValid available a))
