-- ===== src/Enumerate/Simple.antt =====
-- The routes of the recursive description are the simple routes.
use mathlib.Core.List.{Memᴰ}
use evm_amm_search.Prelude.{
  ℕ, ◌≤◌, ◌≡◌, refl, sym, ap, ◌∙◌, ◌⊎◌, ◌↔◌, true, false, some, List, [], ◌∷◌, ◌++◌, arith,
  PartialEq, nat_PartialEq, All-mem, length, contains, insert, ◌==◌,
}
use evm_amm_search.Route.{Address, Hop, RoutePath, path_len}
use evm_amm_search.Enumerate.{
  CachedOutgoingEdge, TokenGraph, IsTokenGraph, SearchState, Query, may_take, closes_target,
  closes_source_cycle, connector_allowed,
}
use evm_amm_search.Enumerate.Spec.{HasEdge, IsSimpleFrom}

abbrev pub hop_of :
    {PoolKey NodeIndex : Type 0} → CachedOutgoingEdge PoolKey NodeIndex → Hop PoolKey
hop_of edge = record { pool = edge.pool; token_in = edge.token_in; token_out = edge.token_out }

module _ {PoolKey NodeIndex : Type 0} ⦃eP : PartialEq PoolKey⦄ ⦃eN : PartialEq NodeIndex⦄
    (g : TokenGraph PoolKey NodeIndex) (q : Query PoolKey) where
  -- A path that continues that of a state, which has reached a token, by at most so many hops.
  pub record Continues (hops : ℕ) (token : Address) (state : SearchState PoolKey NodeIndex)
      (path : RoutePath PoolKey) : Type 0 where
    pub rest : List (Hop PoolKey)
    pub whole : path.hops ≡ state.path.hops ++ rest
    pub simple : IsSimpleFrom g q token state.visited_tokens state.used_pools rest
    pub within : length rest ≤ hops
    pub enough : q.config.min_hops ≤ path_len path

module _ {PoolKey NodeIndex : Type 0} ⦃eP : PartialEq PoolKey⦄ ⦃eN : PartialEq NodeIndex⦄
    (g : TokenGraph PoolKey NodeIndex) (fits : IsTokenGraph g) (q : Query PoolKey)
    (source target : NodeIndex) (source_known : g.node_index q.token_in ≡ some source)
    (target_known : g.node_index q.token_out ≡ some target) where
  ends_iff : ((source == target) ≡ true) ↔ (q.token_in ≡ q.token_out)
  ends_iff = (
    λ c.
        fits.injective q.token_in q.token_out target
          (source_known ∙ ap some ((eN.eq_iff source target).0 c)) target_known,
    λ same. (eN.eq_iff source target).1 (ground (arith, source_known, target_known)),
  )

  module _ (token : Address) (state : SearchState PoolKey NodeIndex)
      (edge : CachedOutgoingEdge PoolKey NodeIndex)
      (at_token : g.node_index token ≡ some state.node)
      (has : Memᴰ edge (g.outgoing_edges state.node)) where
    pub edge_fits : (edge.token_in ≡ token) × (g.node_index edge.token_out ≡ some edge.target)
    edge_fits =
        All-mem _ (g.outgoing_edges state.node) edge (fits.edges_fit token state.node at_token) has

    has_edge : HasEdge g q (hop_of edge)
    has_edge = (state.node, rw (edge_fits.0) at_token, edge, has, refl)

    closes_iff : (closes_target q source target edge ≡ true) ↔ (edge.token_out ≡ q.token_out)
    closes_iff = (
      λ c.
          fits.injective edge.token_out q.token_out target
            (edge_fits.1 ∙ ap some ((eN.eq_iff edge.target target).0 c)) target_known,
      λ same. (eN.eq_iff edge.target target).1 (ground (arith, edge_fits.1, target_known)),
    )

    cycle_iff :
        (closes_target q source target edge ≡ true)
        → (closes_source_cycle q source target edge ≡ true)
          ↔ ((q.allow_final_source_revisit ≡ true) × (q.token_in ≡ q.token_out))
    cycle_iff c = ground (
      arith,
      ends_iff,
      eN.eq_iff source target,
      eN.eq_iff edge.target source,
      eN.eq_iff edge.target target,
    )

    no_cycle :
        closes_target q source target edge ≡ false
        → closes_source_cycle q source target edge ≡ false
    no_cycle c =
        ground (
          arith,
          eN.eq_iff source target,
          eN.eq_iff edge.target source,
          eN.eq_iff edge.target target,
        )

    guards :
        may_take q source target state edge ≡ true
        → (contains state.used_pools edge.pool ≡ false)
          × ((contains state.visited_tokens edge.token_out ≡ false)
              ⊎ (closes_source_cycle q source target edge ≡ true))
          × ((closes_target q source target edge ≡ true)
              ⊎ (connector_allowed edge.token_out q.token_in q.token_out q.config ≡ true))
    unfolding may_take
    guards = ground arith

    -- An edge that ends a route is a simple continuation of one hop.
    pub closing_simple :
        may_take q source target state edge ≡ true
        → closes_target q source target edge ≡ true
        → IsSimpleFrom g q token state.visited_tokens state.used_pools (hop_of edge ∷ [])
    closing_simple taken closes =
        let (unused, fresh, _) = guards taken in
        (
          has_edge,
          edge_fits.0,
          closes_iff.0 closes,
          unused,
          ground (arith, fresh, cycle_iff closes),
        )

    pub closing_taken :
        IsSimpleFrom g q token state.visited_tokens state.used_pools (hop_of edge ∷ [])
        → (may_take q source target state edge ≡ true) × (closes_target q source target edge ≡ true)
    unfolding may_take
    closing_taken s = ground (arith, closes_iff, cycle_iff)

    pub leading_simple :
        (hop : Hop PoolKey) (hops : List (Hop PoolKey))
        → may_take q source target state edge ≡ true
        → closes_target q source target edge ≡ false
        → IsSimpleFrom g q edge.token_out
            (insert edge.token_out state.visited_tokens)
            (insert edge.pool state.used_pools)
            (hop ∷ hops)
        → IsSimpleFrom g q token state.visited_tokens state.used_pools (hop_of edge ∷ hop ∷ hops)
    leading_simple hop hops taken open_end later =
        let (unused, fresh, allowed) = guards taken in
        (
          has_edge,
          edge_fits.0,
          λ same. cc (sym open_end ∙ closes_iff.1 same),
          unused,
          ground (arith, fresh, no_cycle open_end),
          ground (arith, allowed, open_end),
          later,
        )

    pub leading_taken :
        (hop : Hop PoolKey) (hops : List (Hop PoolKey))
        → IsSimpleFrom g q token state.visited_tokens state.used_pools (hop_of edge ∷ hop ∷ hops)
        → (may_take q source target state edge ≡ true)
          × (closes_target q source target edge ≡ false)
    unfolding may_take
    leading_taken hop hops (_, _, elsewhere, unused, fresh, allowed, _) =
        ground (arith, closes_iff, elsewhere, unused, fresh, allowed)
