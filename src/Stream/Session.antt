-- ===== src/Stream/Session.antt =====
-- src/search.rs: what `stream_routes_parallel_with_cache` does to its state, as steps in any order: the
-- handlers, `PhaseCompleted` and `finish_stream_report`. A quote is pushed to `observed_quotes` before it
-- is handled. A step may follow whatever the one before answered, since the source, too, calls
-- `observe_failed_candidates` after a quote of the heuristic was answered by a stop. A search that ends
-- earlier, on a limit, on an error or by `should_continue`, has made fewer steps.
use evm_amm_search.Prelude.{ℕ, ◌+◌, min, Bool, true, false, List, [], ◌∷◌, ◌++◌, PartialEq}
use evm_amm_search.Route.{RouteQuote}
use evm_amm_search.Config.{StreamingSearchConfig}
use evm_amm_search.Stream.State.{
  RouteSearchPhase, SearchFinality, new_state, mark_exhaustive_complete,
}
use evm_amm_search.Stream.Progress.{usize_max, phase_stats}
use evm_amm_search.Stream.Events.{
  Callback, Streaming, started, phase_completed, emit_search_event, finish_stream_report,
  observe_quote, observe_failed_candidates, finish_heuristic_phase, set_total_candidates,
}

pub data Call (PoolKey : Type 0) : Type 0 where
  quoted : RouteSearchPhase → RouteQuote PoolKey → Call PoolKey
  failed : RouteSearchPhase → ℕ → Call PoolKey
  heuristic_done : Call PoolKey
  duplicates : ℕ → Call PoolKey
  total_known : ℕ → Call PoolKey
  exhaustive_done : Call PoolKey

pub record Session (PoolKey Counters : Type 0) : Type 0 where
  pub observed : List (RouteQuote PoolKey)
  pub streaming : Streaming PoolKey Counters

module _ {PoolKey Counters : Type 0} ⦃e : PartialEq PoolKey⦄
    (on_event : Callback PoolKey Counters) where
  abbrev pub with_streaming :
      Session PoolKey Counters → Bool × Streaming PoolKey Counters → Bool × Session PoolKey Counters
  with_streaming d (keep_searching, r) = (keep_searching, record d { streaming = r })

  unfoldable pub make_call :
      Call PoolKey → Session PoolKey Counters → Bool × Session PoolKey Counters
  make_call (quoted phase quote) d =
      with_streaming (record d { observed = d.observed ++ quote ∷ [] })
        (observe_quote on_event phase quote d.streaming)
  make_call (failed phase count) d =
      with_streaming d (observe_failed_candidates on_event phase count d.streaming)
  make_call heuristic_done d = with_streaming d (finish_heuristic_phase on_event d.streaming)
  make_call (duplicates count) d = with_streaming d (
    true,
    record (d.streaming) {
      state = record (d.streaming.state) {
        duplicate_paths_skipped = min (d.streaming.state.duplicate_paths_skipped + count) usize_max;
      };
    },
  )
  make_call (total_known total) d =
      with_streaming d (set_total_candidates on_event total d.streaming)
  make_call exhaustive_done d =
      with_streaming d
        (true, record (d.streaming) { state = mark_exhaustive_complete d.streaming.state })

  -- The state after `Started` was delivered and answered by `Continue`.
  abbrev pub begin : StreamingSearchConfig → Session PoolKey Counters
  begin config = record {
    observed = [];
    streaming = record { state = new_state config; events = started config.completion ∷ [] };
  }

  -- `PhaseCompleted`, with what the quote cache counts then.
  unfoldable pub complete_phase :
      RouteSearchPhase → Counters → Session PoolKey Counters → Bool × Session PoolKey Counters
  complete_phase phase counters d = with_streaming d (
      emit_search_event on_event (phase_completed phase (phase_stats d.streaming.state counters))
        d.streaming)

  unfoldable pub finish :
      SearchFinality → Counters → Bool → Session PoolKey Counters → Session PoolKey Counters
  finish finality counters emit_completed d = record d {
    streaming = (finish_stream_report on_event finality counters emit_completed d.streaming).1;
  }

  -- The sessions that these steps can lead to, each with what the latest step answered.
  pub data Run (config : StreamingSearchConfig) : Bool → Session PoolKey Counters → Type 0 where
    begun : Run config true (begin config)
    called :
        {going : Bool} {d : Session PoolKey Counters} (call : Call PoolKey)
        → Run config going d
        → Run config (make_call call d).0 (make_call call d).1
    phase_done :
        {going : Bool} {d : Session PoolKey Counters} (phase : RouteSearchPhase)
        (counters : Counters)
        → Run config going d
        → Run config (complete_phase phase counters d).0 (complete_phase phase counters d).1
    finished :
        {going : Bool} {d : Session PoolKey Counters} (finality : SearchFinality)
        (counters : Counters) (emit_completed : Bool)
        → Run config going d
        → Run config false (finish finality counters emit_completed d)
