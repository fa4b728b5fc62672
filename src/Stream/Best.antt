-- ===== src/Stream/Best.antt =====
-- The best route of a streaming search, against the list of all quotes that it was given.
use evm_amm_search.Prelude.{
  ℕ, ◌≤◌, ◌<◌, ◌≡◌, refl, ◌∙◌, Bool, true, false, Option, none, some, List, [], ◌∷◌, ◌++◌, arith,
  PartialEq, Bool-cases, inl, inr, All, All-append, All-map, length, length-append, is_none_or, ltb,
  if◌then◌else◌,
}
use mathlib.Core.List.{append_assoc}
use evm_amm_search.Route.{RouteQuote}
use evm_amm_search.Config.{StreamingSearchConfig}
use evm_amm_search.Stream.State.{
  RouteSearchPhase, new_state, mark_exhaustive_complete, SearchFinality, record_top_route,
}
use evm_amm_search.Stream.Events.{emit_search_event, Callback, Streaming, observe_quote}
use evm_amm_search.Stream.Session.{
  Call, quoted, failed, heuristic_done, duplicates, total_known, exhaustive_done, Session,
  make_call, complete_phase, finish, phase_done, finished, Run, begun, called,
}
use evm_amm_search.Stream.Frame.{
  observe_quote-Same, observe_failed-Same, finish_heuristic-Same, set_total-Same, finish-Same,
}

module _ {PoolKey : Type 0} where
  -- The best is the first of the quotes that pay most.
  abbrev pub IsBestOf : List (RouteQuote PoolKey) → Option (RouteQuote PoolKey) → Type 0
  IsBestOf observed none = observed ≡ []
  IsBestOf observed (some b) =
      (before after : List (RouteQuote PoolKey)) × (observed ≡ before ++ b ∷ after)
      × All (λ q. q.amount_out < b.amount_out) before
      × All (λ q. q.amount_out ≤ b.amount_out) after

  abbrev beats : RouteQuote PoolKey → Option (RouteQuote PoolKey) → Bool
  beats quote best = is_none_or best (λ b. ltb b.amount_out quote.amount_out)

  All-below :
      (observed before after : List (RouteQuote PoolKey)) (b : RouteQuote PoolKey) (bound : ℕ)
      → observed ≡ before ++ b ∷ after
      → All (λ q. q.amount_out < b.amount_out) before
      → All (λ q. q.amount_out ≤ b.amount_out) after
      → b.amount_out < bound
      → All (λ q. q.amount_out < bound) observed
  All-below observed before after b bound split lo hi lt = rw split (
      All-append (λ q. q.amount_out < bound) before (b ∷ after)
        (All-map (λ q (h : q.amount_out < b.amount_out). omega arith) before lo)
        (lt, All-map (λ q (h : q.amount_out ≤ b.amount_out). omega arith) after hi))

  IsBestOf-beats :
      (observed : List (RouteQuote PoolKey)) (best : Option (RouteQuote PoolKey))
      (quote : RouteQuote PoolKey)
      → IsBestOf observed best
      → beats quote best ≡ true
      → IsBestOf (observed ++ quote ∷ []) (some quote)
  IsBestOf-beats observed none quote h e = ([], [], rw h, tt, tt)
  IsBestOf-beats observed (some b) quote (before, after, split, lo, hi) e = (
    observed,
    [],
    refl,
    All-below observed before after b quote.amount_out split lo hi (ground arith),
    tt,
  )

  IsBestOf-stays :
      (observed : List (RouteQuote PoolKey)) (best : Option (RouteQuote PoolKey))
      (quote : RouteQuote PoolKey)
      → IsBestOf observed best
      → beats quote best ≡ false
      → IsBestOf (observed ++ quote ∷ []) best
  IsBestOf-stays observed none quote h e = cc
  IsBestOf-stays observed (some b) quote (before, after, split, lo, hi) e = (
    before,
    after ++ quote ∷ [],
    rw split (append_assoc before (b ∷ after) (quote ∷ [])),
    lo,
    All-append (λ q. q.amount_out ≤ b.amount_out) after (quote ∷ []) hi (ground arith, tt),
  )

  IsBestOf-next :
      (observed : List (RouteQuote PoolKey)) (best : Option (RouteQuote PoolKey))
      (quote : RouteQuote PoolKey)
      → IsBestOf observed best
      → IsBestOf (observed ++ quote ∷ []) (if beats quote best then some quote else best)
  IsBestOf-next observed best quote h = elim (Bool-cases (beats quote best)) [
    | inl e ↦ rw e (IsBestOf-beats observed best quote h e)
    | inr e ↦ rw e (IsBestOf-stays observed best quote h e)
  ]

module _ {PoolKey Counters : Type 0} ⦃e : PartialEq PoolKey⦄
    (on_event : Callback PoolKey Counters) where
  observe_quote-best :
      (phase : RouteSearchPhase) (quote : RouteQuote PoolKey) (r : Streaming PoolKey Counters)
      → (observe_quote on_event phase quote r).1.state.best
        ≡ (if beats quote r.state.best then some quote else r.state.best)
  unfolding record_top_route
  observe_quote-best phase quote r = ground (arith, observe_quote-Same on_event phase quote r)

  -- Whatever the callback answers, a call keeps the count of the quotes and the best among them.
  record IsTracked (d : Session PoolKey Counters) : Type 0 where
    best : IsBestOf d.observed d.streaming.state.best
    counted : d.streaming.state.routes_observed ≡ length d.observed

  make_call-IsTracked :
      (call : Call PoolKey) (d : Session PoolKey Counters)
      → IsTracked d
      → IsTracked (make_call on_event call d).1
  unfolding make_call record_top_route mark_exhaustive_complete
  make_call-IsTracked (quoted phase quote) d h = record {
    best =
        rw (observe_quote-best phase quote d.streaming)
          (IsBestOf-next d.observed d.streaming.state.best quote h.best);
    counted = ground (
      arith,
      observe_quote-Same on_event phase quote d.streaming,
      h.counted,
      length-append d.observed (quote ∷ []),
    );
  }
  make_call-IsTracked (failed phase count) d h = record {
    best = rw ((observe_failed-Same on_event phase count d.streaming).best) h.best;
    counted = (observe_failed-Same on_event phase count d.streaming).routes_observed ∙ h.counted;
  }
  make_call-IsTracked heuristic_done d h = record {
    best = rw ((finish_heuristic-Same on_event d.streaming).best) h.best;
    counted = (finish_heuristic-Same on_event d.streaming).routes_observed ∙ h.counted;
  }
  make_call-IsTracked (duplicates count) d h = record { best = h.best; counted = h.counted }
  make_call-IsTracked (total_known total) d h = record {
    best = rw ((set_total-Same on_event total d.streaming).best) h.best;
    counted = (set_total-Same on_event total d.streaming).routes_observed ∙ h.counted;
  }
  make_call-IsTracked exhaustive_done d h = record { best = h.best; counted = h.counted }

  finish-IsTracked :
      (finality : SearchFinality) (counters : Counters) (emit_completed : Bool)
      (d : Session PoolKey Counters)
      → IsTracked d
      → IsTracked (finish on_event finality counters emit_completed d)
  unfolding finish
  finish-IsTracked finality counters emit_completed d h =
      let same = finish-Same on_event finality counters emit_completed d.streaming in
      record { best = rw (same.best) h.best; counted = same.routes_observed ∙ h.counted }

  Run-IsTracked :
      (config : StreamingSearchConfig) {going : Bool} {d : Session PoolKey Counters}
      → Run on_event config going d
      → IsTracked d
  unfolding new_state complete_phase emit_search_event
  Run-IsTracked config begun = record { best = refl; counted = refl }
  Run-IsTracked config (called {d = d} call r) = make_call-IsTracked call d (Run-IsTracked config r)
  Run-IsTracked config (phase_done phase counters r) =
      let h = Run-IsTracked config r in record { best = h.best; counted = h.counted }
  Run-IsTracked config (finished {d = d} finality counters emit_completed r) =
      finish-IsTracked finality counters emit_completed d (Run-IsTracked config r)

  -- At every point of a streaming search, also after it was stopped, the best route is the first of
  -- the observed quotes that pay most (none if no quote was observed), and the number of routes
  -- observed is the number of quotes.
  pub Run-best :
      (config : StreamingSearchConfig) {going : Bool} {d : Session PoolKey Counters}
      → Run on_event config going d
      → IsBestOf d.observed d.streaming.state.best
        × (d.streaming.state.routes_observed ≡ length d.observed)
  Run-best config r = let t = Run-IsTracked config r in (t.best, t.counted)
