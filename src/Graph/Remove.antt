-- ===== src/Graph/Remove.antt =====
-- src/graph.rs: the edges and the links that are left without a pool.
use mathlib.Core.List.{Memᴰ}
use evm_amm_search.Prelude.{
  ◌≡◌, refl, ◌∙◌, inl, inr, false, List, [], ◌∷◌, arith, PartialEq, nat_PartialEq, pair_PartialEq,
  ◌==◌, Bool-cases,
}
use evm_amm_search.Prelude.Maps.{map_remove, lookup-map_remove}
use evm_amm_search.Route.{Address}
use evm_amm_search.Graph.{AmmGraph, StableDiGraph}
use evm_amm_search.Graph.Edges.{remove_edges, remove_pool_pairs}
use evm_amm_search.Graph.Held.{IsStableDiGraph}
use evm_amm_search.Graph.Added.{PoolLinks}

module _ {PoolKey NodeIndex EdgeIndex Store : Type 0} ⦃eP : PartialEq PoolKey⦄
    ⦃eN : PartialEq NodeIndex⦄ ⦃eE : PartialEq EdgeIndex⦄
    (S : StableDiGraph PoolKey NodeIndex EdgeIndex Store) (stable : IsStableDiGraph S)
    (pool : PoolKey) where
  abbrev G : Type 0
  G = AmmGraph PoolKey NodeIndex EdgeIndex Store

  pub record IsSameButGraph (g g' : G) : Type 0 where
    pub nodes : g'.node_map ≡ g.node_map
    pub listed : g'.edge_map ≡ g.edge_map
    pub tokens : g'.pool_tokens ≡ g.pool_tokens
    pub outgoing : g'.outgoing ≡ g.outgoing
    pub version : g'.version ≡ g.version
    pub weights : (n : NodeIndex) → S.node_weight n g'.graph ≡ S.node_weight n g.graph

  pub remove_edges-IsSameButGraph :
      (edges : List EdgeIndex) (g : G) → IsSameButGraph g (remove_edges S edges g)
  unfolding remove_edges
  remove_edges-IsSameButGraph [] g = record {
    nodes = refl;
    listed = refl;
    tokens = refl;
    outgoing = refl;
    version = refl;
    weights = λ n. refl;
  }
  remove_edges-IsSameButGraph (edge ∷ edges) g =
      let r = remove_edges-IsSameButGraph edges (record g { graph = S.remove_edge edge g.graph }) in
      record {
        nodes = r.nodes;
        listed = r.listed;
        tokens = r.tokens;
        outgoing = r.outgoing;
        version = r.version;
        weights = λ n. r.weights n ∙ stable.node_weight-remove_edge edge g.graph n;
      }

  pub remove_edges_edge :
      (edges : List EdgeIndex) (g : G) (e : EdgeIndex)
      → ¬ Memᴰ e edges
      → S.edge e (remove_edges S edges g).graph ≡ S.edge e g.graph
  unfolding remove_edges
  remove_edges_edge [] g e out = refl
  remove_edges_edge (edge ∷ edges) g e out =
      remove_edges_edge edges (record g { graph = S.remove_edge edge g.graph }) e
        (λ later. out (Memᴰ.tail later))
      ∙ stable.edge-remove_edge edge g.graph e
      ∙ ground (arith, eE.eq_iff edge e, λ (is : e ≡ edge). out (Memᴰ.head is))

  -- Without the links of the pool.
  pub without_link :
      (g : G) (p : PoolKey) (t u : Address)
      → PoolLinks (map_remove pool g.pool_tokens) p t u
      → (pool == p ≡ false) × PoolLinks g.pool_tokens p t u
  without_link g p t u (tokens, known, at_t, at_u, apart) = elim (Bool-cases (pool == p)) [
    | inl same ↦ absurd (ground (arith, known, same, lookup-map_remove p pool g.pool_tokens))
    | inr other ↦ (
      other,
      (
        tokens,
        ground (arith, known, other, lookup-map_remove p pool g.pool_tokens),
        at_t,
        at_u,
        apart,
      ),
    )
  ]

  pub other_link :
      (g : G) (p : PoolKey) (t u : Address)
      → pool == p ≡ false
      → PoolLinks g.pool_tokens p t u
      → PoolLinks (map_remove pool g.pool_tokens) p t u
  other_link g p t u other (tokens, known, at_t, at_u, apart) = (
    tokens,
    ground (arith, known, other, lookup-map_remove p pool g.pool_tokens),
    at_t,
    at_u,
    apart,
  )

  -- Only the pools of the pairs change.
  pub remove_pool_pairs_only :
      (pairs : List (Address × Address)) (g : G)
      → remove_pool_pairs S pool pairs g
        ≡ record g { pair_pools = (remove_pool_pairs S pool pairs g).pair_pools }
  unfolding remove_pool_pairs
  remove_pool_pairs_only [] g = refl
  remove_pool_pairs_only (pair ∷ pairs) g = remove_pool_pairs_only pairs _
