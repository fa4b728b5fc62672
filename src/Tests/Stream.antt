-- ===== src/Tests/Stream.antt =====
-- A streaming search with two quotes, the first of which releases the initial results.
use mathlib.Core.List.{Memᴰ}
use evm_amm_search.Prelude.{
  ℕ, ◌≤◌, ◌≡◌, ◌↔◌, ◌*◌, ◌+◌, refl, ◌⊎◌, true, false, Option, none, some, [], ◌∷◌, arith,
  nat_PartialEq, length, All, is_some, any, count_if,
}
use evm_amm_search.Prelude.Sort.{IsSorted}
use evm_amm_search.Route.{RoutePath, RouteQuote}
use evm_amm_search.Config.{
  StreamingSearchConfig, StreamingThresholdMode, StreamingThresholdPolicy, StreamingCompletion,
}
use evm_amm_search.Stream.State.{
  RouteSearchPhase, SearchControl, pays_more, new_state, record_top_route, StreamingRouteState,
  candidates_evaluated, SearchFinality,
}
use evm_amm_search.Stream.Events.{
  Callback, set_total_candidates, emit_progress_and_apply_policies, emit_search_event, emit_or_stop,
  apply_policies, apply_stop_policy, observe_quote, observe_improvement, release_initial_results,
  announce_route,
}
use evm_amm_search.Stream.Top.{HasDistinctPaths, IsCovered, IsPriced}
use evm_amm_search.Stream.TopRoutes.{Run-top_routes, Run-top_routes_complete}
use evm_amm_search.Stream.Delivery.{IsGated, is_release}
use evm_amm_search.Stream.Gate.{Run-IsGated}
use evm_amm_search.Stream.Stops.{IsAnswered, make_call-IsAnswered}
use evm_amm_search.Stream.Progress
use evm_amm_search.Stream.Progress.{
  usize_max, RouteSearchProgress, is_satisfied, fraction_bps, final_progress,
}
use evm_amm_search.Stream.Bounds.{
  progress_bounds, full_confidence_unreached, final_progress_bounds, is_satisfied_iff, ReachesAll,
  ReachesAny,
}
use evm_amm_search.Stream.Session.{
  Call, quoted, total_known, Session, make_call, begin, Run, begun, called,
}
use evm_amm_search.Stream.Best.{IsBestOf, Run-best}

abbrev route : ℕ → ℕ → RouteQuote ℕ
route pool amount_out = record {
  path = record { hops = record { pool = pool; token_in = 1; token_out = 2 } ∷ [] };
  amount_in = 100;
  amount_out = amount_out;
  hops = [];
}

abbrev config : StreamingSearchConfig
config = record {
  completion = StreamingCompletion.exhaustive;
  parallel = record { workers = 2 };
  emit_all_viable = true;
  top_k = 1;
  stop_policy = none;
  initial_result_policy = some (record {
    mode = StreamingThresholdMode.all;
    min_confidence_bps = none;
    min_exhaustive_fraction_bps = some 5_000;
  });
}

abbrev go_on : Callback ℕ Unit
go_on event before = SearchControl.continue

abbrev total : Call ℕ
total = total_known 2

abbrev first_quote : Call ℕ
first_quote = quoted RouteSearchPhase.exhaustive (route 7 90)

abbrev better_quote : Call ℕ
better_quote = quoted RouteSearchPhase.exhaustive (route 8 95)

-- The sessions after one call, two and three.
abbrev session₁ : Session ℕ Unit
session₁ = (make_call go_on total (begin go_on config)).1

abbrev session₂ : Session ℕ Unit
session₂ = (make_call go_on first_quote session₁).1

abbrev session₃ : Session ℕ Unit
session₃ = (make_call go_on better_quote session₂).1

run₁ : Run go_on config true session₁
unfolding make_call set_total_candidates emit_progress_and_apply_policies emit_search_event
    emit_or_stop apply_policies new_state apply_stop_policy
run₁ = called total begun

run₂ : Run go_on config true session₂
unfolding make_call set_total_candidates emit_progress_and_apply_policies emit_search_event
    emit_or_stop apply_policies new_state apply_stop_policy observe_quote observe_improvement
    release_initial_results record_top_route announce_route is_satisfied Progress.progress
run₂ = called first_quote run₁

run₃ : Run go_on config (make_call go_on better_quote session₂).0 session₃
run₃ = called better_quote run₂

best_pays : Option ℕ
best_pays = elim session₃.streaming.state.best [ none ↦ none | some q ↦ some q.amount_out ]

Run-best_example :
    IsBestOf session₃.observed session₃.streaming.state.best
    × (session₃.streaming.state.routes_observed ≡ length session₃.observed)
Run-best_example = Run-best go_on config run₃

Run-top_routes_example :
    IsSorted pays_more session₃.streaming.state.top_routes
    × HasDistinctPaths session₃.streaming.state.top_routes
    × (length session₃.streaming.state.top_routes ≤ 1)
    × All (λ q. Memᴰ q session₃.observed) session₃.streaming.state.top_routes
Run-top_routes_example = Run-top_routes go_on config run₃

-- Pool 7 pays 90, pool 8 pays 95.
abbrev payout : RoutePath ℕ → ℕ
payout path = elim path.hops [ [] ↦ 0 | hop ∷ _ ↦ 5 * hop.pool + 55 ]

priced : All (IsPriced payout) session₃.observed
unfolding make_call
priced = (refl, (refl, tt))

Run-top_routes_complete_example :
    All (IsCovered 1 session₃.streaming.state.top_routes) session₃.observed
Run-top_routes_complete_example = Run-top_routes_complete go_on config payout run₃ priced

Run-IsGated_example :
    IsGated session₃.streaming.events
    × (any is_release session₃.streaming.events ≡ session₃.streaming.state.initial_results_released)
    × (count_if is_release session₃.streaming.events ≤ 1)
Run-IsGated_example = Run-IsGated go_on config run₃ refl

make_call-IsAnswered_example :
    IsAnswered go_on
      (make_call go_on better_quote (begin go_on config)).0
      (make_call go_on better_quote (begin go_on config)).1.streaming
unfolding new_state
make_call-IsAnswered_example =
    make_call-IsAnswered go_on better_quote (begin go_on config) (refl, (refl, tt))

-- One candidate of four was evaluated, and gave a route.
abbrev quarter : StreamingRouteState ℕ
quarter = record (new_state config) {
  best = some (route 7 90);
  routes_observed = 1;
  total_candidates = some 4;
}

abbrev quarter_progress : RouteSearchProgress
quarter_progress = Progress.progress quarter

progress_bounds_example :
    (((quarter_progress.confidence_bps ≡ 0) × (quarter.best ≡ none))
      ⊎ ((7_000 ≤ quarter_progress.confidence_bps)
          × (quarter_progress.confidence_bps ≤ 9_999)
          × (is_some quarter.best ≡ true)))
    × ((f : ℕ) × (quarter_progress.exhaustive_fraction_bps ≡ some f)
        × (f ≤ 10_000)
        × ((f ≡ 10_000) ↔ (4 ≤ candidates_evaluated quarter)))
progress_bounds_example = progress_bounds quarter 4 refl (omega arith)

quarter-fraction : quarter_progress.exhaustive_fraction_bps ≡ some 2_500
unfolding Progress.progress fraction_bps candidates_evaluated new_state
quarter-fraction = refl

final_progress_bounds_example :
    ((final_progress quarter SearchFinality.exhaustive).confidence_bps ≡ 10_000)
    ↔ ((SearchFinality.exhaustive ≡ SearchFinality.exhaustive) × (is_some quarter.best ≡ true))
final_progress_bounds_example = final_progress_bounds quarter SearchFinality.exhaustive

abbrev fully_confident : StreamingThresholdPolicy
fully_confident = record {
  mode = StreamingThresholdMode.all;
  min_confidence_bps = some 10_000;
  min_exhaustive_fraction_bps = some 2_000;
}

full_confidence_unreached_example : is_satisfied fully_confident quarter_progress ≡ false
full_confidence_unreached_example = full_confidence_unreached quarter fully_confident refl refl

abbrev with_confidence : ℕ → RouteSearchProgress
with_confidence confidence = record {
  phase = none;
  candidates_evaluated = 1;
  viable_routes_observed = 1;
  failed_candidates = 0;
  duplicate_paths_skipped = 0;
  total_candidates = none;
  exhaustive_fraction_bps = none;
  confidence_bps = confidence;
  best_amount_out = some 90;
}

abbrev confident : StreamingThresholdPolicy
confident = record {
  mode = StreamingThresholdMode.any;
  min_confidence_bps = some 7_000;
  min_exhaustive_fraction_bps = some 9_000;
}

is_satisfied_iff_example :
    (confident.mode ≡ StreamingThresholdMode.all
      → (is_satisfied confident (with_confidence 8_000) ≡ true)
        ↔ ReachesAll confident (with_confidence 8_000))
    × (confident.mode ≡ StreamingThresholdMode.any
        → (is_satisfied confident (with_confidence 8_000) ≡ true)
          ↔ ReachesAny confident (with_confidence 8_000))
is_satisfied_iff_example = is_satisfied_iff confident (with_confidence 8_000)
