-- ===== src/Enumerate/Ends.antt =====
-- The enumeration ends: its fuel is the number of states that it can meet.
use evm_amm_search.Prelude.{
  ℕ, zero, suc, ◌+◌, ◌-◌, ◌≤◌, ◌≡◌, refl, inl, inr, false, some, List, [], ◌∷◌, arith, PartialEq,
  Bool-cases, List-cases, is_some_and, ◌==◌, nat_PartialEq, ok, err, ap, Result, length-append,
  sum_by, sum_by-append,
}
use evm_amm_search.Route.{path_len, SearchError}
use evm_amm_search.Enumerate.{
  CachedOutgoingEdge, TokenGraph, SearchState, RouteEnumeration, Query, Frontier, extended,
  next_state, record_path, polled, visit_edge, visit_edges,
}
use evm_amm_search.Enumerate.Loop.{
  expand, search_loop, first_state, first_frontier, edge_states, state_count, enumerate_between,
  finish, enumerate_routes_filtered, endpoints,
}

module _ {PoolKey NodeIndex : Type 0} ⦃eP : PartialEq PoolKey⦄ ⦃eN : PartialEq NodeIndex⦄
    (g : TokenGraph PoolKey NodeIndex) (q : Query PoolKey) (source target : NodeIndex) where
  -- The states still to come from a state of the queue.
  pub weight : SearchState PoolKey NodeIndex → ℕ
  weight state = state_count g q source target (q.config.max_hops - path_len state.path) state

  below : ℕ → SearchState PoolKey NodeIndex → List (CachedOutgoingEdge PoolKey NodeIndex) → ℕ
  below hops state =
      sum_by (edge_states g q source target (state_count g q source target hops) state)

  length-extended :
      (state : SearchState PoolKey NodeIndex) (edge : CachedOutgoingEdge PoolKey NodeIndex)
      → path_len (extended state edge) ≡ suc (path_len state.path)
  length-extended state edge = omega (arith, length-append state.path.hops _)

  weight-next_state :
      (hops : ℕ) (state : SearchState PoolKey NodeIndex)
      (edge : CachedOutgoingEdge PoolKey NodeIndex)
      → q.config.max_hops - path_len state.path ≡ suc hops
      → weight (next_state state edge) ≡ state_count g q source target hops (next_state state edge)
  unfolding weight
  weight-next_state hops state edge h =
      ap (λ n. state_count g q source target n (next_state state edge))
        (omega (arith, length-extended state edge))

  visit_edge-weight :
      (hops : ℕ) (state : SearchState PoolKey NodeIndex)
      (edge : CachedOutgoingEdge PoolKey NodeIndex) (f : Frontier PoolKey NodeIndex)
      → q.config.max_hops - path_len state.path ≡ suc hops
      → sum_by weight (visit_edge q source target state edge f).queue
        ≤ sum_by weight f.queue + below hops state (edge ∷ [])
  unfolding below visit_edge record_path
  visit_edge-weight hops state edge f h = ground (
    arith,
    weight-next_state hops state edge h,
    sum_by-append weight f.queue (next_state state edge ∷ []),
  )

  visit_edges-weight :
      (hops : ℕ) (state : SearchState PoolKey NodeIndex)
      (edges : List (CachedOutgoingEdge PoolKey NodeIndex)) (f : Frontier PoolKey NodeIndex)
      → q.config.max_hops - path_len state.path ≡ suc hops
      → sum_by weight (visit_edges q source target state edges f).queue
        ≤ sum_by weight f.queue + below hops state edges
  unfolding below visit_edges
  visit_edges-weight hops state [] f h = omega arith
  visit_edges-weight hops state (edge ∷ edges) f h = ground (
    arith,
    visit_edge-weight hops state edge (polled f) h,
    visit_edges-weight hops state edges (visit_edge q source target state edge (polled f)) h,
  )

  weight_pos : (state : SearchState PoolKey NodeIndex) → 1 ≤ weight state
  unfolding weight state_count
  weight_pos state =
      elim (q.config.max_hops - path_len state.path)
        as (λ n. 1 ≤ state_count g q source target n state) [
          | zero ↦ omega arith
          | suc n ↦ omega arith
        ]

  expand-weight :
      (state : SearchState PoolKey NodeIndex) (f : Frontier PoolKey NodeIndex)
      → sum_by weight (expand g q source target state f).queue + 1
        ≤ sum_by weight f.queue + weight state
  unfolding expand weight below state_count
  expand-weight state f = go (q.config.max_hops - path_len state.path) refl
    where
      go :
          (n : ℕ)
          → q.config.max_hops - path_len state.path ≡ n
          → sum_by weight (expand g q source target state f).queue + 1
            ≤ sum_by weight f.queue + state_count g q source target n state
      go zero e = ground arith
      go (suc hops) e =
          ground (arith, visit_edges-weight hops state (g.outgoing_edges state.node) (polled f) e)

  pub search_loop_ends :
      (fuel : ℕ) (f : Frontier PoolKey NodeIndex)
      → sum_by weight f.queue ≤ fuel
      → (f' : Frontier PoolKey NodeIndex) × (search_loop g q source target fuel f ≡ some f')
  unfolding search_loop
  search_loop_ends zero f h = elim (Bool-cases f.ended) [
    | inl e ↦ (f, ground arith)
    | inr e ↦ elim (List-cases f.queue) [
      | inl empty ↦ (f, ground arith)
      | inr (state, rest, more) ↦ absurd (omega (arith, weight_pos state, ap (sum_by weight) more))
    ]
  ]
  search_loop_ends (suc fuel) f h = elim (Bool-cases f.ended) [
    | inl e ↦ (f, ground arith)
    | inr e ↦ elim (List-cases f.queue) [
      | inl empty ↦ (f, ground arith)
      | inr (state, rest, more) ↦
          let f₁ = expand g q source target state (record f { queue = rest }) in
          let (f', ends) = search_loop_ends fuel f₁ (
            omega
              (arith, expand-weight state (record f { queue = rest }), ap (sum_by weight) more)) in
          (f', ground (arith, ends))
    ]
  ]

  first_weight :
      sum_by weight (first_frontier g q source target).queue
      ≡ state_count g q source target q.config.max_hops (first_state g q source target)
  unfolding weight
  first_weight =
      let start = first_state g q source target in
      let same : q.config.max_hops - 0 ≡ q.config.max_hops = omega arith in
      omega (arith, ap (λ n. state_count g q source target n start) same)

  pub search_returns :
      (f : Frontier PoolKey NodeIndex) × (search_loop g q source target
          (state_count g q source target q.config.max_hops (first_state g q source target))
          (first_frontier g q source target)
        ≡ some f)
  search_returns =
      search_loop_ends _ (first_frontier g q source target) (omega (arith, first_weight))

module _ {PoolKey NodeIndex ProtocolId SimError Reason : Type 0} ⦃eP : PartialEq PoolKey⦄
    ⦃eN : PartialEq NodeIndex⦄ (g : TokenGraph PoolKey NodeIndex) (q : Query PoolKey) where
  enumerate_between_returns :
      (source target : NodeIndex)
      → (r : Result (RouteEnumeration PoolKey) (SearchError PoolKey ProtocolId SimError Reason))
        × (enumerate_between g q source target ≡ some r)
  unfolding enumerate_between
  enumerate_between_returns source target =
      let (f, ends) = search_returns g q source target in
      elim (Bool-cases (is_some_and q.max_new_paths (λ limit. limit == 0))) [
        | inl none_wanted ↦
            (ok (record { paths = []; duplicates_skipped = 0; stopped = false }), rw none_wanted)
        | inr some_wanted ↦ (finish g q f, rw (some_wanted, ends))
      ]

  -- The enumeration of routes ends, and returns its paths or an error, whatever the callback answers
  -- and whatever the graph is: the fuel, the number of states that the hop limit allows, is enough.
  pub enumerate_routes_filtered_returns :
      (r : Result (RouteEnumeration PoolKey) (SearchError PoolKey ProtocolId SimError Reason))
      × (enumerate_routes_filtered g q ≡ some r)
  unfolding enumerate_routes_filtered
  enumerate_routes_filtered_returns = go endpoints' refl
    where
      endpoints' : Result (NodeIndex × NodeIndex) (SearchError PoolKey ProtocolId SimError Reason)
      endpoints' = endpoints g q

      go :
          (ends : Result (NodeIndex × NodeIndex) (SearchError PoolKey ProtocolId SimError Reason))
          → endpoints g q ≡ ends
          → (r : Result (RouteEnumeration PoolKey) (SearchError PoolKey ProtocolId SimError Reason))
            × (enumerate_routes_filtered g q ≡ some r)
      go (err e) h = (err e, rw (h, enumerate_routes_filtered))
      go (ok (source, target)) h =
          let (r, returns) = enumerate_between_returns source target in
          (r, rw (h, enumerate_routes_filtered) returns)
