-- ===== src/Graph/Hops.antt =====
-- src/graph.rs with src/search.rs: the valid graph as the route enumeration sees it.
use evm_amm_search.Prelude.{◌↔◌, refl, PartialEq, nat_PartialEq}
use evm_amm_search.Prelude.Members.{All-of_mem}
use evm_amm_search.Route.{Hop}
use evm_amm_search.Enumerate.{IsTokenGraph, Query}
use evm_amm_search.Enumerate.Spec.{HasEdge}
use evm_amm_search.Graph.{AmmGraph, StableDiGraph, outgoing_edges, token_graph}
use evm_amm_search.Graph.Held.{node_injective}
use evm_amm_search.Graph.Added.{PoolLinks}
use evm_amm_search.Graph.Valid.{IsValid}

module _ {PoolKey NodeIndex EdgeIndex Store : Type 0} ⦃eP : PartialEq PoolKey⦄
    ⦃eN : PartialEq NodeIndex⦄ (S : StableDiGraph PoolKey NodeIndex EdgeIndex Store)
    (g : AmmGraph PoolKey NodeIndex EdgeIndex Store) (v : IsValid S g) where
  pub token_graph-IsTokenGraph : IsTokenGraph (token_graph g)
  token_graph-IsTokenGraph = record {
    injective = node_injective S (PoolLinks g.pool_tokens) g v.holds;
    edges_fit = λ a n known. All-of_mem _ (outgoing_edges g n) (λ edge m.
        let (link, from, to) = v.holds.sound n edge m in
        (node_injective S (PoolLinks g.pool_tokens) g v.holds edge.token_in a n from known, to));
  }

  -- The hops that the graph offers are those from a token of a pool to another token of it.
  pub HasEdge-iff :
      (q : Query PoolKey) (hop : Hop PoolKey)
      → HasEdge (token_graph g) q hop ↔ PoolLinks g.pool_tokens hop.pool hop.token_in hop.token_out
  HasEdge-iff q hop = (
    λ (n, known, edge, m, is). rw is (v.holds.sound n edge m).0,
    λ l.
        let s = v.holds.complete hop.pool hop.token_in hop.token_out l in
        (s.from, s.from_node, _, s.cached, refl),
  )
