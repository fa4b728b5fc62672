-- ===== src/Enumerate/Found.antt =====
-- What `AmmSearcher::enumerate_routes_filtered` returns, when no limit and no callback cut it short.
use mathlib.Core.List.{Mem, Memᴰ, Perm, append-nil}
use mathlib.Core.List.Perm
use mathlib.Core.Logic.{∥∥₁_elim, ∥∥₁_map}
use mathlib.Core.List.Memᴰ
use evm_amm_search.Prelude.Members.{mem_of_keep, mem-keep}
use evm_amm_search.Prelude.{
  ◌-◌, ◌≡◌, refl, ap, ◌↔◌, inl, inr, true, false, none, some, List, [], arith, PartialEq,
  List-cases, keep, contains, Result, ok, err, is_some_and, ◌==◌, nat_PartialEq, length,
}
use evm_amm_search.Route.{RoutePath, SearchError, no_path, path_PartialEq}
use evm_amm_search.Config.Validate.{validate_search}
use evm_amm_search.Enumerate.{TokenGraph, IsTokenGraph, RouteEnumeration, Query, Frontier}
use evm_amm_search.Enumerate.Loop.{
  search_loop, first_state, first_frontier, state_count, enumerate_between, finish,
  enumerate_routes_filtered, endpoints,
}
use evm_amm_search.Enumerate.Spec.{routes_below, IsSimpleRoute}
use evm_amm_search.Enumerate.Complete.{Tracks, is_new}
use evm_amm_search.Enumerate.Hits.{search_loop_hits}
use evm_amm_search.Enumerate.Ends.{search_returns}
use evm_amm_search.Enumerate.Routes.{routes-Continues, continuations_found}

module _ {PoolKey NodeIndex : Type 0} ⦃eP : PartialEq PoolKey⦄ ⦃eN : PartialEq NodeIndex⦄
    (g : TokenGraph PoolKey NodeIndex) (fits : IsTokenGraph g) (q : Query PoolKey)
    (source target : NodeIndex) (source_known : g.node_index q.token_in ≡ some source)
    (target_known : g.node_index q.token_out ≡ some target) where
  routes_simple :
      (path : RoutePath PoolKey)
      → Memᴰ path (routes_below g q source target (first_state g q source target))
        ↔ IsSimpleRoute g q path
  unfolding routes_below
  routes_simple path =
      let start = first_state g q source target in
      (
        λ m.
            let c =
              routes-Continues g fits q source target source_known target_known
                (q.config.max_hops - 0) q.token_in start path source_known m in
            record {
              simple = rw (← c.whole) at c.simple;
              enough = c.enough;
              within = omega (arith, c.within, ap length c.whole);
            },
        λ r.
            continuations_found g fits q source target source_known target_known
              (q.config.max_hops - 0) q.token_in start path path.hops source_known refl r.simple
              (omega (arith, r.within)) r.enough,
      )

  mem_simple :
      (hits : List (RoutePath PoolKey))
      → Perm hits (routes_below g q source target (first_state g q source target))
      → (path : RoutePath PoolKey) → Mem path hits ↔ ∥ IsSimpleRoute g q path ∥₁
  mem_simple hits perm path =
      let same = routes_simple path in
      (λ m. ∥∥₁_map ((Perm.mem_iff perm).0 m) same.0, λ r. (Perm.mem_iff perm).1 (∥∥₁_map r same.1))

  mem_paths :
      (hits : List (RoutePath PoolKey)) (f : Frontier PoolKey NodeIndex)
      → Tracks g q source target hits f
      → Perm hits (routes_below g q source target (first_state g q source target))
      → (path : RoutePath PoolKey)
      → Mem path f.paths ↔ (∥ IsSimpleRoute g q path ∥₁ × (contains q.excluded path ≡ false))
  mem_paths hits f t perm path = rw t.paths (found, kept)
    where
      found :
          Mem path (keep (is_new g q source target) hits)
          → ∥ IsSimpleRoute g q path ∥₁ × (contains q.excluded path ≡ false)
      found m = (
        (mem_simple hits perm path).0
            (∥∥₁_map m (λ d. (mem_of_keep (is_new g q source target) path hits d).0)),
        ∥∥₁_elim {P = contains q.excluded path ≡ false} m (hlevel)
            (λ d. ground (arith, (mem_of_keep (is_new g q source target) path hits d).1)),
      )

      kept :
          ∥ IsSimpleRoute g q path ∥₁ × (contains q.excluded path ≡ false)
          → Mem path (keep (is_new g q source target) hits)
      kept r =
          ∥∥₁_map ((mem_simple hits perm path).1 r.0)
            (λ d. mem-keep (is_new g q source target) path hits d (ground (arith, r.1)))

module _ {PoolKey NodeIndex ProtocolId SimError Reason : Type 0} ⦃eP : PartialEq PoolKey⦄
    ⦃eN : PartialEq NodeIndex⦄ (g : TokenGraph PoolKey NodeIndex) (q : Query PoolKey) where
  -- A result that says exactly which simple routes there are, those excluded left out.
  abbrev pub IsCompleteResult :
      Result (RouteEnumeration PoolKey) (SearchError PoolKey ProtocolId SimError Reason) → Type 0
  IsCompleteResult (ok found) =
      (found.stopped ≡ false)
      × ∥ ((path : RoutePath PoolKey) × IsSimpleRoute g q path) ∥₁
      × ((path : RoutePath PoolKey)
          → Mem path found.paths
            ↔ (∥ IsSimpleRoute g q path ∥₁ × (contains q.excluded path ≡ false)))
  IsCompleteResult (err e) =
      (e ≡ no_path q.token_in q.token_out) × ((path : RoutePath PoolKey) → ¬ IsSimpleRoute g q path)

module _ {PoolKey NodeIndex : Type 0} (ProtocolId SimError Reason : Type 0) ⦃eP : PartialEq PoolKey⦄
    ⦃eN : PartialEq NodeIndex⦄ (g : TokenGraph PoolKey NodeIndex) (q : Query PoolKey) where
  abbrev finish' :
      Frontier PoolKey NodeIndex
      → Result (RouteEnumeration PoolKey) (SearchError PoolKey ProtocolId SimError Reason)
  finish' = finish g q

  abbrev pub endpoints' :
      Result (NodeIndex × NodeIndex) (SearchError PoolKey ProtocolId SimError Reason)
  endpoints' = endpoints g q

  finish_some :
      (f : Frontier PoolKey NodeIndex)
      → f.found_path ≡ true
      → finish' f ≡ (
          ok (record {
            paths = f.paths;
            duplicates_skipped = f.duplicates_skipped;
            stopped = f.stopped;
          }))
  unfolding finish
  finish_some f h = rw h refl

  finish_none :
      (f : Frontier PoolKey NodeIndex)
      → f.found_path ≡ false
      → f.stopped ≡ false
      → finish' f ≡ err (no_path q.token_in q.token_out)
  unfolding finish
  finish_none f h h' = rw (h, h') refl

  finish-IsCompleteResult :
      (fits : IsTokenGraph g) (source target : NodeIndex)
      → g.node_index q.token_in ≡ some source
      → g.node_index q.token_out ≡ some target
      → (hits : List (RoutePath PoolKey)) (f : Frontier PoolKey NodeIndex)
      → Tracks g q source target hits f
      → Perm hits (routes_below g q source target (first_state g q source target))
      → IsCompleteResult g q (finish' f)
  finish-IsCompleteResult fits source target source_known target_known hits f t perm =
      let simple = mem_simple g fits q source target source_known target_known hits perm in
      elim (List-cases hits) [
        | inl empty ↦ rw (finish_none f (ground (arith, t.found, empty)) t.going.1) (
          refl,
          λ path r.
              ∥∥₁_elim (rw empty at ((simple path).1 (∣ r ∣₁))) (hlevel)
                (λ d. absurd (Memᴰ.not-nil d)),
        )
        | inr (path, rest, e) ↦ rw (finish_some f (ground (arith, t.found, e))) (
          t.going.1,
          ∥∥₁_map ((simple path).0 (rw e (∣ Memᴰ.head refl ∣₁))) (λ r. (path, r)),
          mem_paths g fits q source target source_known target_known hits f t perm,
        )
      ]

  pub endpoints_known :
      (source target : NodeIndex)
      → g.node_index q.token_in ≡ some source
      → g.node_index q.token_out ≡ some target
      → validate_search q.config ≡ ok tt
      → endpoints' ≡ ok (source, target)
  unfolding endpoints
  endpoints_known source target source_known target_known valid =
      rw (valid, source_known, target_known) refl

  enumerates_between :
      (source target : NodeIndex) (f : Frontier PoolKey NodeIndex)
      → q.max_new_paths ≡ none
      → search_loop g q source target
          (state_count g q source target q.config.max_hops (first_state g q source target))
          (first_frontier g q source target)
        ≡ some f
      → enumerate_between g q source target ≡ some (finish' f)
  unfolding enumerate_between
  enumerates_between source target f no_limit ends =
      let some_wanted : is_some_and q.max_new_paths (λ limit. limit == 0) ≡ false =
        ground (arith, no_limit) in
      rw (some_wanted, ends) refl

  -- With a valid configuration, known tokens, no limit on new paths and no callback, the enumeration
  -- returns exactly the simple routes of the query that are not excluded; and the error for no path
  -- exactly if there is no simple route at all.
  pub enumerate_finds_simple_routes :
      (fits : IsTokenGraph g) (source target : NodeIndex)
      → g.node_index q.token_in ≡ some source
      → g.node_index q.token_out ≡ some target
      → validate_search q.config ≡ ok tt
      → q.max_new_paths ≡ none
      → q.should_continue ≡ none
      → (r : Result (RouteEnumeration PoolKey) (SearchError PoolKey ProtocolId SimError Reason))
        × (enumerate_routes_filtered g q ≡ some r)
        × IsCompleteResult g q r
  unfolding enumerate_routes_filtered
  enumerate_finds_simple_routes fits source target source_known target_known valid no_limit
        no_callback =
      let (f, ends) = search_returns g q source target in
      let (hits, t, perm) =
        search_loop_hits g q source target no_limit no_callback _ []
          (first_frontier g q source target) f
          (record { paths = refl; found = refl; going = (refl, refl) }) ends in
      (
        finish' f,
        rw
            (
              endpoints_known source target source_known target_known valid,
              enumerate_routes_filtered,
            )
            (enumerates_between source target f no_limit ends),
        finish-IsCompleteResult fits source target source_known target_known hits f t
            (rw append-nil at perm),
      )
