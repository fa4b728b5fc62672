-- ===== src/Enumerate/Short.antt =====
-- What `AmmSearcher::enumerate_routes_filtered` returns, also when a limit or a callback cuts it
-- short.
use evm_amm_search.Prelude.{
  ◌≡◌, ap, inl, inr, false, some, [], arith, PartialEq, Bool-cases, All, length, is_some_and,
  nat_PartialEq, ◌==◌, Result, ok, err,
}
use evm_amm_search.Route.{SearchError}
use evm_amm_search.Config.Validate.{validate_search}
use evm_amm_search.Enumerate.{TokenGraph, IsTokenGraph, RouteEnumeration, Query, Frontier}
use evm_amm_search.Enumerate.Loop.{
  first_frontier, enumerate_between, enumerate_routes_filtered, finish,
}
use evm_amm_search.Enumerate.Ends.{search_returns}
use evm_amm_search.Enumerate.Found.{endpoints_known}
use evm_amm_search.Enumerate.Sound.{IsNewRoute, IsSound, search_loop-IsSound}

module _ {PoolKey NodeIndex : Type 0} ⦃eP : PartialEq PoolKey⦄ ⦃eN : PartialEq NodeIndex⦄
    (g : TokenGraph PoolKey NodeIndex) (q : Query PoolKey) (source target : NodeIndex)
    (source_known : g.node_index q.token_in ≡ some source) where
  first_frontier-IsSound : IsSound g q (first_frontier g q source target)
  first_frontier-IsSound = record {
    queued = (
      record {
        token = q.token_in;
        at_token = source_known;
        routes = λ path c. record {
          simple = rw (← c.whole) at c.simple;
          enough = c.enough;
          within = omega (arith, c.within, ap length c.whole);
        };
      },
      tt,
    );
    found = tt;
  }

module _ {PoolKey NodeIndex : Type 0} (ProtocolId SimError Reason : Type 0) ⦃eP : PartialEq PoolKey⦄
    ⦃eN : PartialEq NodeIndex⦄ (g : TokenGraph PoolKey NodeIndex) (q : Query PoolKey) where
  abbrev pub IsSoundResult :
      Result (RouteEnumeration PoolKey) (SearchError PoolKey ProtocolId SimError Reason) → Type 0
  IsSoundResult (ok found) = All (IsNewRoute g q) found.paths
  IsSoundResult (err e) = Unit

  finish-IsSoundResult :
      (f : Frontier PoolKey NodeIndex) → IsSound g q f → IsSoundResult (finish g q f)
  unfolding finish
  finish-IsSoundResult f s = ground (arith, s.found)

  between-IsSoundResult :
      (fits : IsTokenGraph g) (source target : NodeIndex)
      → g.node_index q.token_in ≡ some source
      → g.node_index q.token_out ≡ some target
      → (r : Result (RouteEnumeration PoolKey) (SearchError PoolKey ProtocolId SimError Reason))
        × (enumerate_between g q source target ≡ some r)
        × IsSoundResult r
  unfolding enumerate_between
  between-IsSoundResult fits source target source_known target_known =
      let (f, ends) = search_returns g q source target in
      let s =
        search_loop-IsSound g q fits source target source_known target_known _
          (first_frontier g q source target) f ends
          (first_frontier-IsSound g q source target source_known) in
      elim (Bool-cases (is_some_and q.max_new_paths (λ limit. limit == 0))) [
        | inl none_wanted ↦ (
          ok (record { paths = []; duplicates_skipped = 0; stopped = false }),
          rw none_wanted,
          tt,
        )
        | inr some_wanted ↦ (finish g q f, rw (some_wanted, ends), finish-IsSoundResult f s)
      ]

  -- Whatever limit is set and whatever the callback answers: with a valid configuration and known
  -- tokens the enumeration ends, and the paths it returns, if any, are simple routes of the query
  -- that are not excluded.
  pub enumerate_is_sound :
      (fits : IsTokenGraph g) (source target : NodeIndex)
      → g.node_index q.token_in ≡ some source
      → g.node_index q.token_out ≡ some target
      → validate_search q.config ≡ ok tt
      → (r : Result (RouteEnumeration PoolKey) (SearchError PoolKey ProtocolId SimError Reason))
        × (enumerate_routes_filtered g q ≡ some r)
        × IsSoundResult r
  unfolding enumerate_routes_filtered
  enumerate_is_sound fits source target source_known target_known valid =
      let (r, returns, sound) =
        between-IsSoundResult fits source target source_known target_known in
      (
        r,
        rw
            (
              endpoints_known ProtocolId SimError Reason g q source target source_known target_known
                  valid,
              enumerate_routes_filtered,
            )
            returns,
        sound,
      )
