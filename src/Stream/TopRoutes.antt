-- ===== src/Stream/TopRoutes.antt =====
-- The routes that a streaming search retains, against the list of all quotes that it was given.
use mathlib.Core.List.{Memᴰ}
use mathlib.Core.List.Memᴰ
use mathlib.Core.Path.{subst}
use evm_amm_search.Prelude.{
  ℕ, ◌≤◌, ◌≡◌, refl, sym, ◌∙◌, inl, inr, Bool, true, false, List, [], ◌∷◌, ◌++◌, arith, PartialEq,
  ◌==◌, Bool-cases, All, All-append, All-map, All-map₂, le→leb, All-take, All-mem, length,
  length-take, take, take_of_length-le, any-append, count_if-append, count_if-eq-length, leb,
}
use evm_amm_search.Prelude.Sort.{sort, IsSorted, IsSorted-take, All-sort, any-sort, count_if-sort}
use evm_amm_search.Route.{RoutePath, RouteQuote, path_eq_iff, path_PartialEq}
use evm_amm_search.Config.{StreamingSearchConfig}
use evm_amm_search.Stream.State.{
  RouteSearchPhase, StreamingRouteState, new_state, mark_exhaustive_complete, SearchFinality,
  pays_more, has_path, ranked_with, retained, record_top_route,
}
use evm_amm_search.Stream.Events.{emit_search_event, Callback, Streaming, observe_quote}
use evm_amm_search.Stream.Session.{
  Call, quoted, failed, heuristic_done, duplicates, total_known, exhaustive_done, Session,
  make_call, complete_phase, finish, phase_done, finished, Run, begun, called,
}
use evm_amm_search.Stream.Frame.{
  observe_quote-Same, observe_failed-Same, finish_heuristic-Same, set_total-Same, finish-Same,
}
use evm_amm_search.Stream.Top.{
  HasDistinctPaths, IsCovered, IsPriced, IsSorted-quotes, HasDistinctPaths-sort,
  HasDistinctPaths-append, HasDistinctPaths-take, take-covers, take_of_count,
}

module _ {PoolKey : Type 0} ⦃e : PartialEq PoolKey⦄ where
  retained-take : (k : ℕ) (qs : List (RouteQuote PoolKey)) → retained k qs ≡ take k qs
  unfolding retained
  retained-take k qs = ground (arith, take_of_length-le k qs)

  record Retains (k : ℕ) (observed top : List (RouteQuote PoolKey)) : Type 0 where
    sorted : IsSorted pays_more top
    distinct : HasDistinctPaths top
    bounded : length top ≤ k
    given : All (λ q. Memᴰ q observed) top
    covered :
        (payout : RoutePath PoolKey → ℕ)
        → All (IsPriced payout) observed
        → All (IsCovered k top) observed

  given-next :
      (observed top : List (RouteQuote PoolKey)) (quote : RouteQuote PoolKey)
      → All (λ q. Memᴰ q observed) top
      → All (λ q. Memᴰ q (observed ++ quote ∷ [])) top
  given-next observed top quote = All-map (λ q m. Memᴰ.append_left (quote ∷ []) m) top

  IsPriced-before :
      (payout : RoutePath PoolKey → ℕ) (observed : List (RouteQuote PoolKey))
      (quote : RouteQuote PoolKey)
      → All (IsPriced payout) (observed ++ quote ∷ [])
      → All (IsPriced payout) observed × IsPriced payout quote
  IsPriced-before payout [] quote h = (tt, h.0)
  IsPriced-before payout (x ∷ xs) quote h =
      let (rest, last) = IsPriced-before payout xs quote h.1 in ((h.0, rest), last)

  -- A quote whose path is retained already changes nothing.
  Retains-known :
      (k : ℕ) (observed top : List (RouteQuote PoolKey)) (quote : RouteQuote PoolKey)
      → Retains k observed top
      → has_path quote.path top ≡ true
      → Retains k (observed ++ quote ∷ []) top
  Retains-known k observed top quote r known = record {
    sorted = r.sorted;
    distinct = r.distinct;
    bounded = r.bounded;
    given = given-next observed top quote r.given;
    covered = λ payout priced.
        let (before, _) = IsPriced-before payout observed quote priced in
        All-append (IsCovered k top) observed (quote ∷ []) (r.covered payout before)
          (inl known, tt);
  }

  module _ (k : ℕ) (observed top : List (RouteQuote PoolKey)) (quote : RouteQuote PoolKey)
      (r : Retains k observed top) (new : has_path quote.path top ≡ false) where
    ranked : List (RouteQuote PoolKey)
    ranked = sort pays_more (top ++ quote ∷ [])

    given-ranked : All (λ q. Memᴰ q (observed ++ quote ∷ [])) ranked
    unfolding ranked
    given-ranked =
        All-sort pays_more (λ q. Memᴰ q (observed ++ quote ∷ [])) (top ++ quote ∷ [])
          (All-append (λ q. Memᴰ q (observed ++ quote ∷ [])) top (quote ∷ [])
            (given-next observed top quote r.given)
            (Memᴰ.append_right observed (Memᴰ.head refl), tt))

    -- A route whose path is among the ranked ones is covered by what is kept of them.
    IsCovered-ranked :
        (payout : RoutePath PoolKey → ℕ) (q : RouteQuote PoolKey)
        → All (IsPriced payout) (observed ++ quote ∷ [])
        → IsPriced payout q
        → has_path q.path (top ++ quote ∷ []) ≡ true
        → IsCovered k (take k ranked) q
    unfolding ranked
    IsCovered-ranked payout q priced p m = rw p (
        take-covers payout q.path k ranked (IsSorted-quotes (top ++ quote ∷ []))
          (any-sort pays_more (λ x. x.path == q.path) (top ++ quote ∷ []) ∙ m)
          (All-map (λ x m'. All-mem (IsPriced payout) (observed ++ quote ∷ []) x priced m') ranked
            given-ranked))

    -- A route that was covered before is covered after.
    IsCovered-next :
        (payout : RoutePath PoolKey → ℕ) (q : RouteQuote PoolKey)
        → All (IsPriced payout) (observed ++ quote ∷ [])
        → IsPriced payout q
        → IsCovered k top q
        → IsCovered k (take k ranked) q
    unfolding ranked
    IsCovered-next payout q priced p (inl m) =
        IsCovered-ranked payout q priced p
          (any-append (λ x. x.path == q.path) top (quote ∷ []) ∙ rw m)
    IsCovered-next payout q priced p (inr (full, more)) =
        let amount : ℕ = q.amount_out in
        let pays : RouteQuote PoolKey → Bool = λ x. leb amount x.amount_out in
        inr (
          take_of_count amount k ranked (IsSorted-quotes (top ++ quote ∷ [])) (
            omega (
              arith,
              count_if-sort pays_more pays (top ++ quote ∷ []),
              count_if-append pays top (quote ∷ []),
              count_if-eq-length pays top (
                  All-map (λ x (h : amount ≤ x.amount_out). le→leb amount x.amount_out h) top more),
            )))

    IsCovered-All :
        (payout : RoutePath PoolKey → ℕ)
        → All (IsPriced payout) (observed ++ quote ∷ [])
        → All (IsCovered k (take k ranked)) (observed ++ quote ∷ [])
    unfolding ranked
    IsCovered-All payout priced =
        let (before, last) = IsPriced-before payout observed quote priced in
        All-append (IsCovered k (take k ranked)) observed (quote ∷ [])
          (All-map₂ (λ q p c. IsCovered-next payout q priced p c) observed before
            (r.covered payout before))
          (
            IsCovered-ranked payout quote priced last (
                any-append (λ x. x.path == quote.path) top (quote ∷ [])
                ∙ rw (new, (path_eq_iff quote.path quote.path).1 refl)),
            tt,
          )

    Retains-new : Retains k (observed ++ quote ∷ []) (take k ranked)
    unfolding ranked
    Retains-new = record {
      sorted = IsSorted-take pays_more k ranked (IsSorted-quotes (top ++ quote ∷ []));
      distinct = HasDistinctPaths-take k ranked (
          HasDistinctPaths-sort (top ++ quote ∷ [])
            (HasDistinctPaths-append top quote new r.distinct));
      bounded = omega (arith, length-take k ranked);
      given = All-take (λ q. Memᴰ q (observed ++ quote ∷ [])) k ranked given-ranked;
      covered = IsCovered-All;
    }

  record_top_route-Retains :
      (observed : List (RouteQuote PoolKey)) (quote : RouteQuote PoolKey)
      (s : StreamingRouteState PoolKey)
      → Retains s.config.top_k observed s.top_routes
      → Retains s.config.top_k (observed ++ quote ∷ []) (record_top_route quote s).0.top_routes
  unfolding record_top_route ranked_with ranked
  record_top_route-Retains observed quote s r =
      elim (Bool-cases (has_path quote.path s.top_routes)) [
        | inl known ↦
            rw (known, record_top_route)
              (Retains-known s.config.top_k observed s.top_routes quote r known)
        | inr new ↦
            rw (new, record_top_route)
              (rw retained-take (Retains-new s.config.top_k observed s.top_routes quote r new))
      ]

module _ {PoolKey Counters : Type 0} ⦃e : PartialEq PoolKey⦄ (on_event : Callback PoolKey Counters)
    (config : StreamingSearchConfig) where
  observe_quote-top :
      (phase : RouteSearchPhase) (quote : RouteQuote PoolKey) (r : Streaming PoolKey Counters)
      → ((observe_quote on_event phase quote r).1.state.config ≡ r.state.config)
        × ((observe_quote on_event phase quote r).1.state.top_routes
            ≡ (record_top_route quote r.state).0.top_routes)
  unfolding record_top_route
  observe_quote-top phase quote r = ground (arith, observe_quote-Same on_event phase quote r)

  abbrev RetainsTop : Session PoolKey Counters → Type 0
  RetainsTop d =
      (d.streaming.state.config ≡ config)
      × Retains config.top_k d.observed d.streaming.state.top_routes

  make_call-RetainsTop :
      (call : Call PoolKey) (d : Session PoolKey Counters)
      → RetainsTop d
      → RetainsTop (make_call on_event call d).1
  unfolding make_call mark_exhaustive_complete
  make_call-RetainsTop (quoted phase quote) d h =
      let (config_same, top_same) = observe_quote-top phase quote d.streaming in
      let before =
        subst (λ c. Retains c.top_k d.observed d.streaming.state.top_routes) (sym h.0) h.1 in
      let after = record_top_route-Retains d.observed quote d.streaming.state before in
      (
        config_same ∙ h.0,
        rw top_same (
            subst
              (λ c.
                Retains c.top_k (d.observed ++ quote ∷ [])
                  (record_top_route quote d.streaming.state).0.top_routes)
              h.0 after),
      )
  make_call-RetainsTop (failed phase count) d h =
      let same = observe_failed-Same on_event phase count d.streaming in
      (same.config ∙ h.0, rw (same.top_routes) h.1)
  make_call-RetainsTop heuristic_done d h =
      let same = finish_heuristic-Same on_event d.streaming in
      (same.config ∙ h.0, rw (same.top_routes) h.1)
  make_call-RetainsTop (duplicates count) d h = h
  make_call-RetainsTop (total_known total) d h =
      let same = set_total-Same on_event total d.streaming in
      (same.config ∙ h.0, rw (same.top_routes) h.1)
  make_call-RetainsTop exhaustive_done d h = h

  finish-RetainsTop :
      (finality : SearchFinality) (counters : Counters) (emit_completed : Bool)
      (d : Session PoolKey Counters)
      → RetainsTop d
      → RetainsTop (finish on_event finality counters emit_completed d)
  unfolding finish
  finish-RetainsTop finality counters emit_completed d h =
      let same = finish-Same on_event finality counters emit_completed d.streaming in
      (same.config ∙ h.0, rw (same.top_routes) h.1)

  Run-RetainsTop :
      {going : Bool} {d : Session PoolKey Counters} → Run on_event config going d → RetainsTop d
  unfolding new_state complete_phase emit_search_event
  Run-RetainsTop begun = (
    refl,
    record {
      sorted = tt;
      distinct = tt;
      bounded = omega arith;
      given = tt;
      covered = λ payout priced. tt;
    },
  )
  Run-RetainsTop (called {d = d} call r) = make_call-RetainsTop call d (Run-RetainsTop r)
  Run-RetainsTop (phase_done phase counters r) = Run-RetainsTop r
  Run-RetainsTop (finished {d = d} finality counters emit_completed r) =
      finish-RetainsTop finality counters emit_completed d (Run-RetainsTop r)

  -- At every point of a streaming search the retained routes are sorted by output, best first, stand
  -- for distinct paths, are at most `top_k`, and were all observed.
  pub Run-top_routes :
      {going : Bool} {d : Session PoolKey Counters}
      → Run on_event config going d
      → IsSorted pays_more d.streaming.state.top_routes
        × HasDistinctPaths d.streaming.state.top_routes
        × (length d.streaming.state.top_routes ≤ config.top_k)
        × All (λ q. Memᴰ q d.observed) d.streaming.state.top_routes
  Run-top_routes r = let (_, t) = Run-RetainsTop r in (t.sorted, t.distinct, t.bounded, t.given)

  -- If quotes of one path always pay one amount, no observed route is missed: the path of each is
  -- retained, or `top_k` routes are retained and each pays as much or more.
  pub Run-top_routes_complete :
      {going : Bool} {d : Session PoolKey Counters} (payout : RoutePath PoolKey → ℕ)
      → Run on_event config going d
      → All (IsPriced payout) d.observed
      → All (IsCovered config.top_k d.streaming.state.top_routes) d.observed
  Run-top_routes_complete payout r priced = (Run-RetainsTop r).1.covered payout priced
