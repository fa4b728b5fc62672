-- ===== src/Enumerate/Spec.antt =====
-- What the enumeration should find: the routes below a state, by recursion on the hops left, with no
-- queue; and which hop lists are simple routes, with no search at all.
use mathlib.Core.List.{Memᴰ}
use evm_amm_search.Prelude.{
  ℕ, zero, suc, ◌-◌, ◌≤◌, ◌≡◌, ◌≢◌, ◌⊎◌, true, false, ◌&&◌, not, some, List, [], ◌∷◌, PartialEq,
  nat_PartialEq, if◌then◌else◌, leb, ltb, contains, insert, flat,
}
use evm_amm_search.Route.{Address, Hop, RoutePath, path_len}
use evm_amm_search.Enumerate.{
  CachedOutgoingEdge, TokenGraph, SearchState, Query, extended, next_state, may_take, closes_target,
  connector_allowed,
}

module _ {PoolKey NodeIndex : Type 0} ⦃eP : PartialEq PoolKey⦄ ⦃eN : PartialEq NodeIndex⦄
    (g : TokenGraph PoolKey NodeIndex) (q : Query PoolKey) (source target : NodeIndex) where
  -- The complete path that an edge gives, if it gives one.
  abbrev pub edge_hits :
      SearchState PoolKey NodeIndex
      → CachedOutgoingEdge PoolKey NodeIndex
      → List (RoutePath PoolKey)
  edge_hits state edge =
      if may_take q source target state edge
        && closes_target q source target edge
        && leb q.config.min_hops (path_len (extended state edge))
      then extended state edge ∷ []
      else []

  -- The state that an edge leads on to, if it leads on.
  abbrev pub edge_next :
      SearchState PoolKey NodeIndex
      → CachedOutgoingEdge PoolKey NodeIndex
      → List (SearchState PoolKey NodeIndex)
  edge_next state edge =
      if may_take q source target state edge
        && not (closes_target q source target edge)
        && ltb (path_len (extended state edge)) q.config.max_hops
      then next_state state edge ∷ []
      else []

  abbrev pub edge_routes :
      (SearchState PoolKey NodeIndex → List (RoutePath PoolKey))
      → SearchState PoolKey NodeIndex
      → CachedOutgoingEdge PoolKey NodeIndex
      → List (RoutePath PoolKey)
  edge_routes routes state edge =
      if may_take q source target state edge
      then if closes_target q source target edge
        then if leb q.config.min_hops (path_len (extended state edge))
          then extended state edge ∷ []
          else []
        else routes (next_state state edge)
      else []

  -- The routes below a state of at most so many further hops.
  unfoldable pub routes_within : ℕ → SearchState PoolKey NodeIndex → List (RoutePath PoolKey)
  routes_within zero state = []
  routes_within (suc hops) state =
      flat (edge_routes (routes_within hops) state) (g.outgoing_edges state.node)

  unfoldable pub routes_below : SearchState PoolKey NodeIndex → List (RoutePath PoolKey)
  routes_below state = routes_within (q.config.max_hops - path_len state.path) state

module _ {PoolKey NodeIndex : Type 0} ⦃eP : PartialEq PoolKey⦄ ⦃eN : PartialEq NodeIndex⦄
    (g : TokenGraph PoolKey NodeIndex) (q : Query PoolKey) where
  -- Some edge of the graph is this hop.
  abbrev pub HasEdge : Hop PoolKey → Type 0
  HasEdge hop =
      (n : NodeIndex) × (g.node_index hop.token_in ≡ some n)
      × (edge : CachedOutgoingEdge PoolKey NodeIndex) × Memᴰ edge (g.outgoing_edges n)
      × (hop ≡ record { pool = edge.pool; token_in = edge.token_in; token_out = edge.token_out })

  -- The hops lead from a token to `token_out`, and reach it by the last hop only. No pool is used
  -- twice, and no token is visited twice, but for a cycle that ends where it began. Each token
  -- between is an allowed connector. The lists hold the tokens and pools met before.
  abbrev pub IsSimpleFrom : Address → List Address → List PoolKey → List (Hop PoolKey) → Type 0
  IsSimpleFrom token visited used [] = ⊥
  IsSimpleFrom token visited used (hop ∷ []) =
      HasEdge hop
      × (hop.token_in ≡ token)
      × (hop.token_out ≡ q.token_out)
      × (contains used hop.pool ≡ false)
      × ((contains visited hop.token_out ≡ false)
          ⊎ ((q.allow_final_source_revisit ≡ true) × (q.token_in ≡ q.token_out)))
  IsSimpleFrom token visited used (hop ∷ hop' ∷ hops) =
      HasEdge hop
      × (hop.token_in ≡ token)
      × (hop.token_out ≢ q.token_out)
      × (contains used hop.pool ≡ false)
      × (contains visited hop.token_out ≡ false)
      × (connector_allowed hop.token_out q.token_in q.token_out q.config ≡ true)
      × IsSimpleFrom hop.token_out (insert hop.token_out visited) (insert hop.pool used)
          (hop' ∷ hops)

  -- A simple route of the query, with a number of hops in the configured range.
  pub record IsSimpleRoute (path : RoutePath PoolKey) : Type 0 where
    pub simple : IsSimpleFrom q.token_in (q.token_in ∷ []) [] path.hops
    pub enough : q.config.min_hops ≤ path_len path
    pub within : path_len path ≤ q.config.max_hops
