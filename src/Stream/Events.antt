-- ===== src/Stream/Events.antt =====
-- src/search.rs: the handlers of `StreamingRouteState` that emit events. A callback may keep state
-- of its own, so its answer is a function of the events that it got before, the latest first. Each
-- handler returns whether the search goes on, and the new state with the events emitted so far.
use evm_amm_search.Prelude.{
  ℕ, ◌+◌, max, Bool, true, false, not, ◌&&◌, ◌||◌, Option, none, some, List, ◌∷◌, if◌then◌else◌,
  ltb, ◌==◌, nat_PartialEq, PartialEq, is_none, is_some, is_some_and, is_none_or, unwrap_or,
}
use evm_amm_search.Route.{RouteQuote}
use evm_amm_search.Config.{StreamingCompletion}
use evm_amm_search.Stream.State.{
  RouteSearchPhase, StreamedRouteStatus, SearchFinality, SearchControl, StreamingRouteState,
  candidates_evaluated, record_top_route,
}
use evm_amm_search.Stream.Progress
use evm_amm_search.Stream.Progress.{
  RouteSearchProgress, StreamingSearchReport, StreamingPhaseStats, is_satisfied, final_progress,
  report,
}

pub data RouteSearchEvent (PoolKey Counters : Type 0) : Type 0 where
  started : StreamingCompletion → RouteSearchEvent PoolKey Counters
  route_found : RouteSearchPhase → Option ℕ → RouteQuote PoolKey → RouteSearchEvent PoolKey Counters
  best_updated :
      RouteSearchPhase
      → RouteQuote PoolKey
      → Option (RouteQuote PoolKey)
      → StreamedRouteStatus
      → RouteSearchEvent PoolKey Counters
  progress : RouteSearchProgress → RouteSearchEvent PoolKey Counters
  initial_results_ready :
      RouteSearchProgress
      → RouteQuote PoolKey
      → List (RouteQuote PoolKey)
      → RouteSearchEvent PoolKey Counters
  phase_completed :
      RouteSearchPhase → StreamingPhaseStats Counters → RouteSearchEvent PoolKey Counters
  completed : StreamingSearchReport PoolKey Counters → RouteSearchEvent PoolKey Counters

abbrev pub Callback : Type 0 → Type 0 → Type 0
Callback PoolKey Counters =
    RouteSearchEvent PoolKey Counters → List (RouteSearchEvent PoolKey Counters) → SearchControl

pub record Streaming (PoolKey Counters : Type 0) : Type 0 where
  pub state : StreamingRouteState PoolKey
  pub events : List (RouteSearchEvent PoolKey Counters)

abbrev pub is_continue : SearchControl → Bool
is_continue SearchControl.continue = true
is_continue SearchControl.stop = false

abbrev pub is_exhaustive_phase : RouteSearchPhase → Bool
is_exhaustive_phase RouteSearchPhase.exhaustive = true
is_exhaustive_phase RouteSearchPhase.heuristic = false

module _ {PoolKey Counters : Type 0} ⦃e : PartialEq PoolKey⦄
    (on_event : Callback PoolKey Counters) where
  -- The answer of the callback, and the event added to what it has got.
  unfoldable pub emit_search_event :
      RouteSearchEvent PoolKey Counters
      → Streaming PoolKey Counters
      → Bool × Streaming PoolKey Counters
  emit_search_event event r =
      (is_continue (on_event event r.events), record r { events = event ∷ r.events })

  -- `if !emit(..) { self.stop_finality = Some(Stopped); return false; }`, else go on.
  abbrev pub stop_with :
      SearchFinality → Streaming PoolKey Counters → Bool × Streaming PoolKey Counters
  stop_with finality r =
      (false, record r { state = record (r.state) { stop_finality = some finality } })

  unfoldable pub emit_or_stop :
      RouteSearchEvent PoolKey Counters
      → Streaming PoolKey Counters
      → Bool × Streaming PoolKey Counters
  unfolding emit_search_event
  emit_or_stop event r =
      let (keep_searching, r') = emit_search_event event r in
      if keep_searching then (true, r') else stop_with SearchFinality.stopped r'

  unfoldable pub release_initial_results :
      RouteSearchProgress → Streaming PoolKey Counters → Bool × Streaming PoolKey Counters
  release_initial_results p r = elim r.state.best [
    | none ↦ (true, r)
    | some best ↦
        emit_or_stop (initial_results_ready p best r.state.top_routes)
          (record r { state = record (r.state) { initial_results_released = true } })
  ]

  unfoldable pub release_initial_results_at_completion :
      SearchFinality → Streaming PoolKey Counters → Bool × Streaming PoolKey Counters
  release_initial_results_at_completion finality r =
      if r.state.initial_results_released || is_none r.state.config.initial_result_policy
      then (true, r)
      else release_initial_results (final_progress r.state finality) r

  -- The last test of `emit_progress_and_apply_policies`.
  unfoldable pub apply_stop_policy :
      RouteSearchProgress → Streaming PoolKey Counters → Bool × Streaming PoolKey Counters
  apply_stop_policy p r =
      if is_some r.state.best
        && is_some_and r.state.config.stop_policy (λ policy. is_satisfied policy p)
      then stop_with SearchFinality.stop_policy_satisfied r
      else (true, r)

  abbrev pub initial_results_due : RouteSearchProgress → StreamingRouteState PoolKey → Bool
  initial_results_due p s =
      not s.initial_results_released
      && (is_some s.best
          && is_some_and s.config.initial_result_policy (λ policy. is_satisfied policy p))

  unfoldable pub apply_policies :
      RouteSearchProgress → Streaming PoolKey Counters → Bool × Streaming PoolKey Counters
  apply_policies p r =
      if initial_results_due p r.state
      then (let (keep_searching, r') = release_initial_results p r in
          if keep_searching then apply_stop_policy p r' else (false, r'))
      else apply_stop_policy p r

  unfoldable pub emit_progress_and_apply_policies :
      RouteSearchPhase → Streaming PoolKey Counters → Bool × Streaming PoolKey Counters
  emit_progress_and_apply_policies phase r =
      let s = record (r.state) { progress_phase = some phase } in
      let p = Progress.progress s in
      let (keep_searching, r') = emit_or_stop (progress p) (record r { state = s }) in
      if keep_searching then apply_policies p r' else (false, r')

  -- The end of `observe_quote`.
  unfoldable pub announce_route :
      RouteSearchPhase
      → Option ℕ
      → RouteQuote PoolKey
      → Streaming PoolKey Counters
      → Bool × Streaming PoolKey Counters
  announce_route phase top_rank quote r =
      if r.state.config.emit_all_viable || is_some top_rank
      then emit_or_stop (route_found phase top_rank quote) r
      else (true, r)

  -- `!results_were_released || just_released_initial_results(results_were_released)`
  abbrev pub hold_back : Bool → StreamingRouteState PoolKey → Bool
  hold_back results_were_released s =
      not results_were_released || (not results_were_released && s.initial_results_released)

  abbrev pub improves : RouteQuote PoolKey → StreamingRouteState PoolKey → Bool
  improves quote s = is_none_or s.best (λ best. ltb best.amount_out quote.amount_out)

  -- `self.routes_observed += 1` and what `record_top_route` leaves.
  abbrev pub count_quote :
      RouteSearchPhase
      → RouteQuote PoolKey
      → StreamingRouteState PoolKey
      → StreamingRouteState PoolKey × Option ℕ
  count_quote phase quote s =
      record_top_route quote
        (record s { progress_phase = some phase; routes_observed = s.routes_observed + 1 })

  -- `self.best.replace(quote)`, with the count of improvements.
  abbrev pub replace_best :
      RouteSearchPhase
      → RouteQuote PoolKey
      → StreamingRouteState PoolKey
      → StreamingRouteState PoolKey
  replace_best phase quote s = record s {
    best = some quote;
    improvements_after_heuristic =
        if is_exhaustive_phase phase && is_some s.heuristic_best
        then s.improvements_after_heuristic + 1
        else s.improvements_after_heuristic;
  }

  -- The branch of `observe_quote` for a quote that improves the best.
  unfoldable pub observe_improvement :
      RouteSearchPhase
      → RouteQuote PoolKey
      → Option ℕ
      → Bool
      → Streaming PoolKey Counters
      → Bool × Streaming PoolKey Counters
  observe_improvement phase quote top_rank released r =
      let replaced = record r { state = replace_best phase quote r.state } in
      let (keep_searching, r₁) = emit_progress_and_apply_policies phase replaced in
      if not keep_searching
      then (false, r₁)
      else if hold_back released r₁.state
      then (true, r₁)
      else let (keep_searching', r₂) =
          emit_or_stop (best_updated phase quote r.state.best StreamedRouteStatus.provisional) r₁ in
        if keep_searching' then announce_route phase top_rank quote r₂ else (false, r₂)

  unfoldable pub observe_other :
      RouteSearchPhase
      → RouteQuote PoolKey
      → Option ℕ
      → Bool
      → Streaming PoolKey Counters
      → Bool × Streaming PoolKey Counters
  observe_other phase quote top_rank released r =
      let (keep_searching, r') = emit_progress_and_apply_policies phase r in
      if not keep_searching
      then (false, r')
      else if hold_back released r'.state
      then (true, r')
      else announce_route phase top_rank quote r'

  unfoldable pub observe_quote :
      RouteSearchPhase
      → RouteQuote PoolKey
      → Streaming PoolKey Counters
      → Bool × Streaming PoolKey Counters
  observe_quote phase quote r =
      let released = r.state.initial_results_released in
      let (s, top_rank) = count_quote phase quote r.state in
      let counted = record r { state = s } in
      if improves quote s
      then observe_improvement phase quote top_rank released counted
      else observe_other phase quote top_rank released counted

  unfoldable pub observe_failed_candidates :
      RouteSearchPhase → ℕ → Streaming PoolKey Counters → Bool × Streaming PoolKey Counters
  observe_failed_candidates phase count r =
      if count == 0
      then (true, r)
      else emit_progress_and_apply_policies phase (record r {
        state = record (r.state) {
          progress_phase = some phase;
          failed_candidates = r.state.failed_candidates + count;
        };
      })

  unfoldable pub finish_heuristic_phase :
      Streaming PoolKey Counters → Bool × Streaming PoolKey Counters
  finish_heuristic_phase r = emit_progress_and_apply_policies RouteSearchPhase.heuristic (record r {
    state = record (r.state) {
      heuristic_best = r.state.best;
      heuristic_phase_completed = true;
      progress_phase = some RouteSearchPhase.heuristic;
    };
  })

  unfoldable pub set_total_candidates :
      ℕ → Streaming PoolKey Counters → Bool × Streaming PoolKey Counters
  set_total_candidates total r =
      emit_progress_and_apply_policies RouteSearchPhase.exhaustive (record r {
        state = record (r.state) {
          total_candidates = some (max total (candidates_evaluated r.state));
          progress_phase = some RouteSearchPhase.exhaustive;
        };
      })

  -- The report, and the state with the events; `counters` is what the quote cache reads then.
  unfoldable pub finish_stream_report :
      SearchFinality
      → Counters
      → Bool
      → Streaming PoolKey Counters
      → StreamingSearchReport PoolKey Counters × Streaming PoolKey Counters
  unfolding release_initial_results_at_completion emit_search_event
  finish_stream_report finality counters emit_completed r =
      let (delivered, r') = release_initial_results_at_completion finality r in
      let finality' = if delivered then finality else SearchFinality.stopped in
      let final = report r'.state finality' counters in
      if emit_completed then (final, (emit_search_event (completed final) r').1) else (final, r')

module _ {PoolKey : Type 0} where
  unfoldable pub final_stop : StreamingRouteState PoolKey → SearchFinality
  final_stop s = unwrap_or s.stop_finality SearchFinality.stopped

  unfoldable pub should_emit_completion_for_stop : StreamingRouteState PoolKey → Bool
  should_emit_completion_for_stop s = elim s.stop_finality [
    | none ↦ false
    | some finality ↦ elim finality [ SearchFinality.stop_policy_satisfied ↦ true | _ ↦ false ]
  ]
