-- ===== src/Stream/Frame.antt =====
-- Emitting events and applying the policies leaves the results of the search as they are.
use evm_amm_search.Prelude.{
  true, ◌+◌, max, if◌then◌else◌, ℕ, ◌≡◌, Bool, Option, some, arith, PartialEq,
}
use evm_amm_search.Route.{RouteQuote}
use evm_amm_search.Stream.State.{
  candidates_evaluated, record_top_route, RouteSearchPhase, StreamingRouteState,
  StreamedRouteStatus, SearchFinality,
}
use evm_amm_search.Stream.Progress
use evm_amm_search.Stream.Progress.{RouteSearchProgress, final_progress}
use evm_amm_search.Stream.Events.{
  count_quote, improves, observe_quote, observe_failed_candidates, finish_heuristic_phase,
  set_total_candidates, RouteSearchEvent, Callback, Streaming, emit_or_stop,
  release_initial_results, apply_stop_policy, apply_policies, emit_progress_and_apply_policies,
  announce_route, observe_improvement, observe_other, replace_best, progress, route_found,
  best_updated, finish_stream_report, release_initial_results_at_completion, emit_search_event,
}

-- `t` differs from `s` in the phase, the release of results and the reason to stop at most.
pub record Same {PoolKey : Type 0} (s t : StreamingRouteState PoolKey) : Type 0 where
  pub config : t.config ≡ s.config
  pub best : t.best ≡ s.best
  pub heuristic_best : t.heuristic_best ≡ s.heuristic_best
  pub top_routes : t.top_routes ≡ s.top_routes
  pub routes_observed : t.routes_observed ≡ s.routes_observed
  pub failed_candidates : t.failed_candidates ≡ s.failed_candidates
  pub duplicates : t.duplicate_paths_skipped ≡ s.duplicate_paths_skipped
  pub improvements : t.improvements_after_heuristic ≡ s.improvements_after_heuristic
  pub completed : t.heuristic_phase_completed ≡ s.heuristic_phase_completed
  pub total : t.total_candidates ≡ s.total_candidates

abbrev in_phase :
    {PoolKey : Type 0}
    → RouteSearchPhase
    → StreamingRouteState PoolKey
    → StreamingRouteState PoolKey
in_phase phase s = record s { progress_phase = some phase }

module _ {PoolKey Counters : Type 0} ⦃e : PartialEq PoolKey⦄
    (on_event : Callback PoolKey Counters) where
  emit_or_stop-Same :
      (event : RouteSearchEvent PoolKey Counters) (r : Streaming PoolKey Counters)
      → Same r.state (emit_or_stop on_event event r).1.state
  unfolding emit_or_stop
  emit_or_stop-Same event r = ground arith

  release-Same :
      (p : RouteSearchProgress) (r : Streaming PoolKey Counters)
      → Same r.state (release_initial_results on_event p r).1.state
  unfolding release_initial_results emit_or_stop
  release-Same p r = ground arith

  apply_stop-Same :
      (p : RouteSearchProgress) (r : Streaming PoolKey Counters)
      → Same r.state (apply_stop_policy on_event p r).1.state
  unfolding apply_stop_policy
  apply_stop-Same p r = ground arith

  apply_policies-Same :
      (p : RouteSearchProgress) (r : Streaming PoolKey Counters)
      → Same r.state (apply_policies on_event p r).1.state
  unfolding apply_policies
  apply_policies-Same p r = ground (
    arith,
    release-Same p r,
    apply_stop-Same p r,
    apply_stop-Same p (release_initial_results on_event p r).1,
  )

  pub emit_progress-Same :
      (phase : RouteSearchPhase) (r : Streaming PoolKey Counters)
      → Same r.state (emit_progress_and_apply_policies on_event phase r).1.state
  unfolding emit_progress_and_apply_policies
  emit_progress-Same phase r = ground (
    arith,
    emit_or_stop-Same (progress (Progress.progress (in_phase phase r.state)))
        (record r { state = in_phase phase r.state }),
    apply_policies-Same (Progress.progress (in_phase phase r.state))
        (emit_or_stop on_event (progress (Progress.progress (in_phase phase r.state)))
          (record r { state = in_phase phase r.state })).1,
  )

  announce-Same :
      (phase : RouteSearchPhase) (rank : Option ℕ) (quote : RouteQuote PoolKey)
      (r : Streaming PoolKey Counters)
      → Same r.state (announce_route on_event phase rank quote r).1.state
  unfolding announce_route
  announce-Same phase rank quote r =
      ground (arith, emit_or_stop-Same (route_found phase rank quote) r)

  -- An improving quote becomes the best, whatever the callback answers.
  pub observe_improvement-Same :
      (phase : RouteSearchPhase) (quote : RouteQuote PoolKey) (rank : Option ℕ) (released : Bool)
      (r : Streaming PoolKey Counters)
      → Same
          (replace_best on_event phase quote r.state)
          (observe_improvement on_event phase quote rank released r).1.state
  unfolding observe_improvement
  observe_improvement-Same phase quote rank released r =
      let replaced = record r { state = replace_best on_event phase quote r.state } in
      let r₁ = (emit_progress_and_apply_policies on_event phase replaced).1 in
      let event : RouteSearchEvent PoolKey Counters =
        best_updated phase quote r.state.best StreamedRouteStatus.provisional in
      ground (
        arith,
        emit_progress-Same phase replaced,
        emit_or_stop-Same event r₁,
        announce-Same phase rank quote (emit_or_stop on_event event r₁).1,
      )

  pub observe_other-Same :
      (phase : RouteSearchPhase) (quote : RouteQuote PoolKey) (rank : Option ℕ) (released : Bool)
      (r : Streaming PoolKey Counters)
      → Same r.state (observe_other on_event phase quote rank released r).1.state
  unfolding observe_other
  observe_other-Same phase quote rank released r = ground (
    arith,
    emit_progress-Same phase r,
    announce-Same phase rank quote (emit_progress_and_apply_policies on_event phase r).1,
  )

  -- What a quote changes of the results, on every branch of `observe_quote`.
  abbrev pub observed_results :
      RouteSearchPhase
      → RouteQuote PoolKey
      → StreamingRouteState PoolKey
      → StreamingRouteState PoolKey
  observed_results phase quote s =
      let counted = (count_quote on_event phase quote s).0 in
      if improves on_event quote s then replace_best on_event phase quote counted else counted

  pub observe_quote-Same :
      (phase : RouteSearchPhase) (quote : RouteQuote PoolKey) (r : Streaming PoolKey Counters)
      → Same (observed_results phase quote r.state) (observe_quote on_event phase quote r).1.state
  unfolding observe_quote record_top_route
  observe_quote-Same phase quote r =
      let (counted, rank) = count_quote on_event phase quote r.state in
      let released = r.state.initial_results_released in
      ground (
        arith,
        observe_improvement-Same phase quote rank released (record r { state = counted }),
        observe_other-Same phase quote rank released (record r { state = counted }),
      )

  pub observe_failed-Same :
      (phase : RouteSearchPhase) (count : ℕ) (r : Streaming PoolKey Counters)
      → Same
          (record (r.state) { failed_candidates = r.state.failed_candidates + count })
          (observe_failed_candidates on_event phase count r).1.state
  unfolding observe_failed_candidates
  observe_failed-Same phase count r =
      let s = record (r.state) {
        progress_phase = some phase;
        failed_candidates = r.state.failed_candidates + count;
      } in
      ground (arith, emit_progress-Same phase (record r { state = s }))

  pub finish_heuristic-Same :
      (r : Streaming PoolKey Counters)
      → Same
          (record (r.state) { heuristic_best = r.state.best; heuristic_phase_completed = true })
          (finish_heuristic_phase on_event r).1.state
  unfolding finish_heuristic_phase
  finish_heuristic-Same r =
      let s = record (r.state) {
        heuristic_best = r.state.best;
        heuristic_phase_completed = true;
        progress_phase = some RouteSearchPhase.heuristic;
      } in
      ground (arith, emit_progress-Same RouteSearchPhase.heuristic (record r { state = s }))

  pub set_total-Same :
      (total : ℕ) (r : Streaming PoolKey Counters)
      → Same
          (record (r.state) { total_candidates = some (max total (candidates_evaluated r.state)) })
          (set_total_candidates on_event total r).1.state
  unfolding set_total_candidates
  set_total-Same total r =
      let s = record (r.state) {
        total_candidates = some (max total (candidates_evaluated r.state));
        progress_phase = some RouteSearchPhase.exhaustive;
      } in
      ground (arith, emit_progress-Same RouteSearchPhase.exhaustive (record r { state = s }))

  pub finish-Same :
      (finality : SearchFinality) (counters : Counters) (emit_completed : Bool)
      (r : Streaming PoolKey Counters)
      → Same r.state (finish_stream_report on_event finality counters emit_completed r).1.state
  unfolding finish_stream_report release_initial_results_at_completion emit_search_event
  finish-Same finality counters emit_completed r =
      ground (arith, release-Same (final_progress r.state finality) r)
