-- ===== src/Stream/Stops.antt =====
-- When a handler of a streaming search answers that it stops, and why.
use evm_amm_search.Prelude.{
  Bool-cases, ℕ, ◌+◌, ◌≡◌, refl, ◌⊎◌, inl, inr, Bool, true, false, ◌&&◌, Option, none, some, List,
  [], ◌∷◌, arith, PartialEq, is_some, is_some_and,
}
use evm_amm_search.Route.{RouteQuote}
use evm_amm_search.Stream.State.{
  RouteSearchPhase, StreamedRouteStatus, SearchFinality, StreamingRouteState, record_top_route,
  mark_exhaustive_complete,
}
use evm_amm_search.Stream.Progress
use evm_amm_search.Stream.Progress.{RouteSearchProgress, is_satisfied}
use evm_amm_search.Stream.Events.{
  RouteSearchEvent, route_found, best_updated, progress, Callback, Streaming, is_continue,
  emit_or_stop, release_initial_results, apply_stop_policy, apply_policies,
  emit_progress_and_apply_policies, announce_route, observe_improvement, observe_other,
  replace_best, count_quote, observe_quote, observe_failed_candidates, finish_heuristic_phase,
  set_total_candidates,
}
use evm_amm_search.Stream.Session.{
  Call, quoted, failed, heuristic_done, duplicates, total_known, exhaustive_done, Session,
  make_call,
}

-- The condition of the stop policy, for the progress of the state itself.
abbrev pub stop_policy_met : {PoolKey : Type 0} → StreamingRouteState PoolKey → Bool
stop_policy_met s =
    is_some s.best
    && is_some_and s.config.stop_policy (λ policy. is_satisfied policy (Progress.progress s))

module _ {PoolKey Counters : Type 0} ⦃e : PartialEq PoolKey⦄
    (on_event : Callback PoolKey Counters) where
  -- The callback answered every event by `Continue`.
  abbrev pub AllContinue : List (RouteSearchEvent PoolKey Counters) → Type 0
  AllContinue [] = Unit
  AllContinue (event ∷ older) = (is_continue (on_event event older) ≡ true) × AllContinue older

  -- The callback answered the latest event, and no other, by `Stop`.
  abbrev pub LastStops : List (RouteSearchEvent PoolKey Counters) → Type 0
  LastStops [] = ⊥
  LastStops (event ∷ older) = (is_continue (on_event event older) ≡ false) × AllContinue older

  abbrev pub IsRunning : Streaming PoolKey Counters → Type 0
  IsRunning r = (r.state.stop_finality ≡ none) × AllContinue r.events

  abbrev pub IsStopped : Streaming PoolKey Counters → Type 0
  IsStopped r =
      ((r.state.stop_finality ≡ some SearchFinality.stopped) × LastStops r.events)
      ⊎ ((r.state.stop_finality ≡ some SearchFinality.stop_policy_satisfied)
          × AllContinue r.events
          × (stop_policy_met r.state ≡ true))

  -- A handler's answer says which of the two holds.
  abbrev Agrees : Bool × Streaming PoolKey Counters → Type 0
  Agrees p = (p.0 ≡ true → IsRunning p.1) × (p.0 ≡ false → IsStopped p.1)

  emit_or_stop-Agrees :
      (event : RouteSearchEvent PoolKey Counters) (r : Streaming PoolKey Counters)
      → IsRunning r
      → Agrees (emit_or_stop on_event event r)
  unfolding emit_or_stop
  emit_or_stop-Agrees event r h = ground arith

  emit_or_stop-progress :
      (event : RouteSearchEvent PoolKey Counters) (r : Streaming PoolKey Counters)
      → Progress.progress (emit_or_stop on_event event r).1.state ≡ Progress.progress r.state
  unfolding emit_or_stop Progress.progress
  emit_or_stop-progress event r = ground arith

  release-Agrees :
      (p : RouteSearchProgress) (r : Streaming PoolKey Counters)
      → IsRunning r
      → Agrees (release_initial_results on_event p r)
  unfolding release_initial_results emit_or_stop
  release-Agrees p r h = ground arith

  release-progress :
      (p : RouteSearchProgress) (r : Streaming PoolKey Counters)
      → Progress.progress (release_initial_results on_event p r).1.state ≡ Progress.progress r.state
  unfolding release_initial_results emit_or_stop Progress.progress
  release-progress p r = ground arith

  stop_finality-progress :
      (f : Option SearchFinality) (s : StreamingRouteState PoolKey)
      → Progress.progress (record s { stop_finality = f }) ≡ Progress.progress s
  unfolding Progress.progress
  stop_finality-progress f s = refl

  apply_stop-Agrees :
      (r : Streaming PoolKey Counters)
      → IsRunning r
      → Agrees (apply_stop_policy on_event (Progress.progress r.state) r)
  unfolding apply_stop_policy
  apply_stop-Agrees r h =
      ground (arith, stop_finality-progress (some SearchFinality.stop_policy_satisfied) r.state)

  apply_policies-Agrees :
      (r : Streaming PoolKey Counters)
      → IsRunning r
      → Agrees (apply_policies on_event (Progress.progress r.state) r)
  unfolding apply_policies
  apply_policies-Agrees r h =
      let p = Progress.progress r.state in
      let r' = (release_initial_results on_event p r).1 in
      ground (
        arith,
        release-Agrees p r h,
        release-progress p r,
        apply_stop-Agrees r h,
        apply_stop-Agrees r',
      )

  pub emit_progress-Agrees :
      (phase : RouteSearchPhase) (r : Streaming PoolKey Counters)
      → IsRunning r
      → Agrees (emit_progress_and_apply_policies on_event phase r)
  unfolding emit_progress_and_apply_policies
  emit_progress-Agrees phase r h =
      let s = record (r.state) { progress_phase = some phase } in
      let event : RouteSearchEvent PoolKey Counters = progress (Progress.progress s) in
      let r' = (emit_or_stop on_event event (record r { state = s })).1 in
      ground (
        arith,
        emit_or_stop-Agrees event (record r { state = s }) h,
        emit_or_stop-progress event (record r { state = s }),
        apply_policies-Agrees r',
      )

  announce-Agrees :
      (phase : RouteSearchPhase) (rank : Option ℕ) (quote : RouteQuote PoolKey)
      (r : Streaming PoolKey Counters)
      → IsRunning r
      → Agrees (announce_route on_event phase rank quote r)
  unfolding announce_route
  announce-Agrees phase rank quote r h =
      ground (arith, emit_or_stop-Agrees (route_found phase rank quote) r h)

  observe_other-Agrees :
      (phase : RouteSearchPhase) (quote : RouteQuote PoolKey) (rank : Option ℕ) (released : Bool)
      (r : Streaming PoolKey Counters)
      → IsRunning r
      → Agrees (observe_other on_event phase quote rank released r)
  unfolding observe_other
  observe_other-Agrees phase quote rank released r h = ground (
    arith,
    emit_progress-Agrees phase r h,
    announce-Agrees phase rank quote (emit_progress_and_apply_policies on_event phase r).1,
  )

  observe_improvement-Agrees :
      (phase : RouteSearchPhase) (quote : RouteQuote PoolKey) (rank : Option ℕ) (released : Bool)
      (r : Streaming PoolKey Counters)
      → IsRunning r
      → Agrees (observe_improvement on_event phase quote rank released r)
  unfolding observe_improvement
  observe_improvement-Agrees phase quote rank released r h =
      let replaced = record r { state = replace_best on_event phase quote r.state } in
      let r₁ = (emit_progress_and_apply_policies on_event phase replaced).1 in
      let event : RouteSearchEvent PoolKey Counters =
        best_updated phase quote r.state.best StreamedRouteStatus.provisional in
      ground (
        arith,
        emit_progress-Agrees phase replaced h,
        emit_or_stop-Agrees event r₁,
        announce-Agrees phase rank quote (emit_or_stop on_event event r₁).1,
      )

  counted_finality :
      (phase : RouteSearchPhase) (quote : RouteQuote PoolKey) (s : StreamingRouteState PoolKey)
      → (count_quote on_event phase quote s).0.stop_finality ≡ s.stop_finality
  unfolding record_top_route
  counted_finality phase quote s = ground arith

  observe_quote-Agrees :
      (phase : RouteSearchPhase) (quote : RouteQuote PoolKey) (r : Streaming PoolKey Counters)
      → IsRunning r
      → Agrees (observe_quote on_event phase quote r)
  unfolding observe_quote
  observe_quote-Agrees phase quote r h =
      let counted = (count_quote on_event phase quote r.state).0 in
      let rank = (count_quote on_event phase quote r.state).1 in
      let released = r.state.initial_results_released in
      let r' = record r { state = counted } in
      let same = counted_finality phase quote r.state in
      ground (
        arith,
        same,
        observe_improvement-Agrees phase quote rank released r',
        observe_other-Agrees phase quote rank released r',
      )

  make_call-Agrees :
      (call : Call PoolKey) (d : Session PoolKey Counters)
      → IsRunning d.streaming
      → Agrees ((make_call on_event call d).0, (make_call on_event call d).1.streaming)
  unfolding make_call observe_failed_candidates finish_heuristic_phase set_total_candidates
      mark_exhaustive_complete
  make_call-Agrees (quoted phase quote) d h = observe_quote-Agrees phase quote d.streaming h
  make_call-Agrees (failed phase count) d h =
      let s = record (d.streaming.state) {
        progress_phase = some phase;
        failed_candidates = d.streaming.state.failed_candidates + count;
      } in
      ground (arith, emit_progress-Agrees phase (record (d.streaming) { state = s }) h)
  make_call-Agrees heuristic_done d h = emit_progress-Agrees _ _ h
  make_call-Agrees (duplicates count) d h = ground arith
  make_call-Agrees (total_known total) d h = emit_progress-Agrees _ _ h
  make_call-Agrees exhaustive_done d h = ground arith

  abbrev pub IsAnswered : Bool → Streaming PoolKey Counters → Type 0
  IsAnswered going r = ((going ≡ true) × IsRunning r) ⊎ ((going ≡ false) × IsStopped r)

  -- A handler is called while the callback answered every event by `Continue` and no reason to stop is
  -- noted. Then either it answers that the search goes on, and both are so still; or it answers that the
  -- search stops, for one of two reasons that it notes: the callback answered the latest event, and no
  -- other one before, by `Stop`; or the stop policy holds of the progress reached, with a best route
  -- known, and the callback never asked to stop.
  pub make_call-IsAnswered :
      (call : Call PoolKey) (d : Session PoolKey Counters)
      → IsRunning d.streaming
      → IsAnswered (make_call on_event call d).0 (make_call on_event call d).1.streaming
  make_call-IsAnswered call d h =
      let (running, stopped) = make_call-Agrees call d h in
      elim (Bool-cases (make_call on_event call d).0) [
        | inl on ↦ inl (on, running on)
        | inr off ↦ inr (off, stopped off)
      ]
