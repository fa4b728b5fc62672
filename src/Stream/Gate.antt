-- ===== src/Stream/Gate.antt =====
-- The gate of the initial results, over a whole streaming search.
use evm_amm_search.Prelude.{
  ◌+◌, ◌≤◌, ◌≡◌, refl, Bool, true, some, arith, PartialEq, any, count_if, is_some,
}
use evm_amm_search.Route.{RouteQuote}
use evm_amm_search.Config.{StreamingSearchConfig}
use evm_amm_search.Stream.State.{
  RouteSearchPhase, StreamingRouteState, SearchFinality, new_state, record_top_route,
  mark_exhaustive_complete,
}
use evm_amm_search.Stream.Progress.{final_progress}
use evm_amm_search.Stream.Events.{
  Callback, Streaming, count_quote, observe_quote, observe_failed_candidates,
  finish_heuristic_phase, set_total_candidates, emit_search_event, finish_stream_report,
  release_initial_results_at_completion,
}
use evm_amm_search.Stream.Session.{
  Call, quoted, failed, heuristic_done, duplicates, total_known, exhaustive_done, Session,
  make_call, complete_phase, finish, phase_done, finished, Run, begun, called,
}
use evm_amm_search.Stream.Frame.{
  observe_quote-Same, observe_failed-Same, finish_heuristic-Same, set_total-Same, finish-Same,
}
use evm_amm_search.Stream.Delivery.{
  is_release, IsGated, is_gated_state, GateHolds, release-GateHolds, emit_progress-GateHolds,
  observe_improvement-GateHolds, observe_other-GateHolds,
}

module _ {PoolKey Counters : Type 0} ⦃e : PartialEq PoolKey⦄
    (on_event : Callback PoolKey Counters) where
  -- The gate reads three fields of a session.
  moved-GateHolds :
      (s : StreamingRouteState PoolKey) (r : Streaming PoolKey Counters)
      → s.config ≡ r.state.config
      → s.initial_results_released ≡ r.state.initial_results_released
      → GateHolds r
      → GateHolds (record r { state = s })
  moved-GateHolds s r c i g = ground arith

  counted_fields :
      (phase : RouteSearchPhase) (quote : RouteQuote PoolKey) (s : StreamingRouteState PoolKey)
      → ((count_quote on_event phase quote s).0.config ≡ s.config)
        × ((count_quote on_event phase quote s).0.initial_results_released
            ≡ s.initial_results_released)
  unfolding record_top_route
  counted_fields phase quote s = ground arith

  observe_quote-GateHolds :
      (phase : RouteSearchPhase) (quote : RouteQuote PoolKey) (r : Streaming PoolKey Counters)
      → GateHolds r
      → GateHolds (observe_quote on_event phase quote r).1
  unfolding observe_quote
  observe_quote-GateHolds phase quote r g =
      let counted = (count_quote on_event phase quote r.state).0 in
      let rank = (count_quote on_event phase quote r.state).1 in
      let (c, i) = counted_fields phase quote r.state in
      let g' = moved-GateHolds counted r c i g in
      ground (
        arith,
        c,
        i,
        observe_improvement-GateHolds on_event phase quote rank (record r { state = counted }) g',
        observe_other-GateHolds on_event phase quote rank (record r { state = counted }) g',
      )

  make_call-GateHolds :
      (call : Call PoolKey) (d : Session PoolKey Counters)
      → GateHolds d.streaming
      → GateHolds (make_call on_event call d).1.streaming
  unfolding make_call observe_failed_candidates finish_heuristic_phase set_total_candidates
      mark_exhaustive_complete
  make_call-GateHolds (quoted phase quote) d g = observe_quote-GateHolds phase quote d.streaming g
  make_call-GateHolds (failed phase count) d g =
      let s = record (d.streaming.state) {
        progress_phase = some phase;
        failed_candidates = d.streaming.state.failed_candidates + count;
      } in
      ground (
        arith,
        emit_progress-GateHolds on_event phase (record (d.streaming) { state = s })
            (moved-GateHolds s d.streaming refl refl g),
      )
  make_call-GateHolds heuristic_done d g =
      emit_progress-GateHolds on_event _ _ (moved-GateHolds _ d.streaming refl refl g)
  make_call-GateHolds (duplicates count) d g = moved-GateHolds _ d.streaming refl refl g
  make_call-GateHolds (total_known total) d g =
      emit_progress-GateHolds on_event _ _ (moved-GateHolds _ d.streaming refl refl g)
  make_call-GateHolds exhaustive_done d g = moved-GateHolds _ d.streaming refl refl g

  complete_phase-GateHolds :
      (phase : RouteSearchPhase) (counters : Counters) (d : Session PoolKey Counters)
      → GateHolds d.streaming
      → GateHolds (complete_phase on_event phase counters d).1.streaming
  unfolding complete_phase emit_search_event
  complete_phase-GateHolds phase counters d g = ground arith

  finish-GateHolds :
      (finality : SearchFinality) (counters : Counters) (emit_completed : Bool)
      (d : Session PoolKey Counters)
      → GateHolds d.streaming
      → GateHolds (finish on_event finality counters emit_completed d).streaming
  unfolding finish finish_stream_report release_initial_results_at_completion emit_search_event
  finish-GateHolds finality counters emit_completed d g =
      let p = final_progress d.streaming.state finality in
      ground (arith, release-GateHolds on_event p d.streaming)

  module _ (config : StreamingSearchConfig) where
    Run-GateHolds :
        {going : Bool} {d : Session PoolKey Counters}
        → Run on_event config going d
        → GateHolds d.streaming
    unfolding new_state
    Run-GateHolds begun = ground arith
    Run-GateHolds (called {d = d} call r) = make_call-GateHolds call d (Run-GateHolds r)
    Run-GateHolds (phase_done {d = d} phase counters r) =
        complete_phase-GateHolds phase counters d (Run-GateHolds r)
    Run-GateHolds (finished {d = d} finality counters emit_completed r) =
        finish-GateHolds finality counters emit_completed d (Run-GateHolds r)

    Run-config :
        {going : Bool} {d : Session PoolKey Counters}
        → Run on_event config going d
        → d.streaming.state.config ≡ config
    unfolding new_state make_call record_top_route mark_exhaustive_complete complete_phase finish
        emit_search_event
    Run-config begun = refl
    Run-config (called {d = d} (quoted phase quote) r) =
        ground (arith, Run-config r, observe_quote-Same on_event phase quote d.streaming)
    Run-config (called {d = d} (failed phase count) r) =
        ground (arith, Run-config r, observe_failed-Same on_event phase count d.streaming)
    Run-config (called {d = d} heuristic_done r) =
        ground (arith, Run-config r, finish_heuristic-Same on_event d.streaming)
    Run-config (called {d = d} (duplicates count) r) = Run-config r
    Run-config (called {d = d} (total_known total) r) =
        ground (arith, Run-config r, set_total-Same on_event total d.streaming)
    Run-config (called exhaustive_done r) = Run-config r
    Run-config (phase_done phase counters r) = Run-config r
    Run-config (finished {d = d} finality counters emit_completed r) =
        ground
          (arith, Run-config r, finish-Same on_event finality counters emit_completed d.streaming)

    -- With a policy for the initial results, no route and no improvement is shown before the event
    -- that releases them; the state is marked as released exactly when that event was sent, and it
    -- is sent at most once, also when the search is finished.
    pub Run-IsGated :
        {going : Bool} {d : Session PoolKey Counters}
        → Run on_event config going d
        → is_some config.initial_result_policy ≡ true
        → IsGated d.streaming.events
          × (any is_release d.streaming.events ≡ d.streaming.state.initial_results_released)
          × (count_if is_release d.streaming.events ≤ 1)
    Run-IsGated {d} r policy =
        let g = Run-GateHolds r in
        let same = Run-config r in
        let here : is_gated_state d.streaming.state ≡ true = rw same policy in
        (g.gated here, g.released here, ground (arith, g.releases))
