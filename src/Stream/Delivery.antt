-- ===== src/Stream/Delivery.antt =====
-- How each handler keeps to the gate: no quote is shown before the initial results are released.
use evm_amm_search.Prelude.{
  ℕ, ◌≡◌, Bool, true, false, ◌&&◌, Option, some, List, [], ◌∷◌, arith, PartialEq, any, count_if,
  is_some, if◌then◌else◌,
}
use evm_amm_search.Route.{RouteQuote}
use evm_amm_search.Stream.State.{RouteSearchPhase, StreamedRouteStatus, StreamingRouteState}
use evm_amm_search.Stream.Progress
use evm_amm_search.Stream.Progress.{RouteSearchProgress, is_satisfied}
use evm_amm_search.Stream.Events.{
  RouteSearchEvent, route_found, best_updated, progress, initial_results_ready, Callback, Streaming,
  emit_or_stop, release_initial_results, apply_stop_policy, apply_policies,
  emit_progress_and_apply_policies, announce_route, observe_improvement, observe_other,
  replace_best,
}

abbrev pub is_gated_state : {PoolKey : Type 0} → StreamingRouteState PoolKey → Bool
is_gated_state s = is_some s.config.initial_result_policy

module _ {PoolKey Counters : Type 0} where
  -- The events that show a quote one by one.
  abbrev pub bears_quote : RouteSearchEvent PoolKey Counters → Bool
  bears_quote (route_found _ _ _) = true
  bears_quote (best_updated _ _ _ _) = true
  bears_quote _ = false

  abbrev pub is_release : RouteSearchEvent PoolKey Counters → Bool
  is_release (initial_results_ready _ _ _) = true
  is_release _ = false

  -- Each quote was shown after the release of the initial results. The latest event stands first.
  abbrev pub IsGated : List (RouteSearchEvent PoolKey Counters) → Type 0
  IsGated [] = Unit
  IsGated (event ∷ older) = (bears_quote event ≡ true → any is_release older ≡ true) × IsGated older

  -- What the release flag says of the events.
  pub record GateHolds (r : Streaming PoolKey Counters) : Type 0 where
    pub open_without_policy :
        is_gated_state r.state ≡ false → r.state.initial_results_released ≡ true
    pub gated : is_gated_state r.state ≡ true → IsGated r.events
    pub released :
        is_gated_state r.state ≡ true → any is_release r.events ≡ r.state.initial_results_released
    pub releases :
        count_if is_release r.events
        ≡ (if is_gated_state r.state && r.state.initial_results_released then 1 else 0)

module _ {PoolKey Counters : Type 0} ⦃e : PartialEq PoolKey⦄
    (on_event : Callback PoolKey Counters) where
  emit_or_stop-GateHolds :
      (event : RouteSearchEvent PoolKey Counters) (r : Streaming PoolKey Counters)
      → is_release event ≡ false
      → (bears_quote event ≡ true → r.state.initial_results_released ≡ true)
      → GateHolds r
      → GateHolds (emit_or_stop on_event event r).1
  unfolding emit_or_stop
  emit_or_stop-GateHolds event r plain allowed g = ground arith

  pub release-GateHolds :
      (p : RouteSearchProgress) (r : Streaming PoolKey Counters)
      → r.state.initial_results_released ≡ false
      → GateHolds r
      → GateHolds (release_initial_results on_event p r).1
  unfolding release_initial_results emit_or_stop
  release-GateHolds p r closed g = ground arith

  apply_stop-GateHolds :
      (p : RouteSearchProgress) (r : Streaming PoolKey Counters)
      → GateHolds r
      → GateHolds (apply_stop_policy on_event p r).1
  unfolding apply_stop_policy
  apply_stop-GateHolds p r g = ground arith

  apply_policies-GateHolds :
      (p : RouteSearchProgress) (r : Streaming PoolKey Counters)
      → GateHolds r
      → GateHolds (apply_policies on_event p r).1
  unfolding apply_policies
  apply_policies-GateHolds p r g = ground (
    arith,
    release-GateHolds p r,
    apply_stop-GateHolds p r,
    apply_stop-GateHolds p (release_initial_results on_event p r).1,
  )

  -- The start of `emit_progress_and_apply_policies`.
  abbrev reported : RouteSearchPhase → Streaming PoolKey Counters → Streaming PoolKey Counters
  reported phase r =
      let s = record (r.state) { progress_phase = some phase } in
      (emit_or_stop on_event (progress (Progress.progress s)) (record r { state = s })).1

  reported-GateHolds :
      (phase : RouteSearchPhase) (r : Streaming PoolKey Counters)
      → GateHolds r
      → GateHolds (reported phase r)
  unfolding emit_or_stop
  reported-GateHolds phase r g = ground arith

  pub emit_progress-GateHolds :
      (phase : RouteSearchPhase) (r : Streaming PoolKey Counters)
      → GateHolds r
      → GateHolds (emit_progress_and_apply_policies on_event phase r).1
  unfolding emit_progress_and_apply_policies
  emit_progress-GateHolds phase r g =
      let s = record (r.state) { progress_phase = some phase } in
      ground (
        arith,
        reported-GateHolds phase r g,
        apply_policies-GateHolds (Progress.progress s) (reported phase r),
      )

  -- Once released, the initial results stay released.
  emit_progress_released :
      (phase : RouteSearchPhase) (r : Streaming PoolKey Counters)
      → r.state.initial_results_released ≡ true
      → (emit_progress_and_apply_policies on_event phase r).1.state.initial_results_released ≡ true
  unfolding emit_progress_and_apply_policies emit_or_stop apply_policies apply_stop_policy
  emit_progress_released phase r h = ground arith

  announce-GateHolds :
      (phase : RouteSearchPhase) (rank : Option ℕ) (quote : RouteQuote PoolKey)
      (r : Streaming PoolKey Counters)
      → r.state.initial_results_released ≡ true
      → GateHolds r
      → GateHolds (announce_route on_event phase rank quote r).1
  unfolding announce_route
  announce-GateHolds phase rank quote r open_now g =
      ground (arith, emit_or_stop-GateHolds (route_found phase rank quote) r)

  pub observe_other-GateHolds :
      (phase : RouteSearchPhase) (quote : RouteQuote PoolKey) (rank : Option ℕ)
      (r : Streaming PoolKey Counters)
      → GateHolds r
      → GateHolds (observe_other on_event phase quote rank r.state.initial_results_released r).1
  unfolding observe_other
  observe_other-GateHolds phase quote rank r g = ground (
    arith,
    emit_progress-GateHolds phase r g,
    emit_progress_released phase r,
    announce-GateHolds phase rank quote (emit_progress_and_apply_policies on_event phase r).1,
  )

  emit_or_stop_released :
      (event : RouteSearchEvent PoolKey Counters) (r : Streaming PoolKey Counters)
      → (emit_or_stop on_event event r).1.state.initial_results_released
        ≡ r.state.initial_results_released
  unfolding emit_or_stop
  emit_or_stop_released event r = ground arith

  replaced-GateHolds :
      (phase : RouteSearchPhase) (quote : RouteQuote PoolKey) (r : Streaming PoolKey Counters)
      → GateHolds r
      → GateHolds (record r { state = replace_best on_event phase quote r.state })
  replaced-GateHolds phase quote r g = ground arith

  pub observe_improvement-GateHolds :
      (phase : RouteSearchPhase) (quote : RouteQuote PoolKey) (rank : Option ℕ)
      (r : Streaming PoolKey Counters)
      → GateHolds r
      → GateHolds
          (observe_improvement on_event phase quote rank r.state.initial_results_released r).1
  unfolding observe_improvement
  observe_improvement-GateHolds phase quote rank r g =
      let replaced = record r { state = replace_best on_event phase quote r.state } in
      let r₁ = (emit_progress_and_apply_policies on_event phase replaced).1 in
      let event : RouteSearchEvent PoolKey Counters =
        best_updated phase quote r.state.best StreamedRouteStatus.provisional in
      ground (
        arith,
        emit_progress-GateHolds phase replaced (replaced-GateHolds phase quote r g),
        emit_progress_released phase replaced,
        emit_or_stop-GateHolds event r₁,
        emit_or_stop_released event r₁,
        announce-GateHolds phase rank quote (emit_or_stop on_event event r₁).1,
      )
