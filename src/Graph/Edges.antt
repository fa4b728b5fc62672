-- ===== src/Graph/Edges.antt =====
-- src/graph.rs: the private methods of `AmmGraph` that add the edges of a pool, remove them and drop
-- tokens without edges.
use evm_amm_search.Prelude.{
  ℕ, ◌-◌, ◌*◌, min, not, ◌||◌, none, some, List, [], ◌∷◌, ◌++◌, map, if◌then◌else◌, PartialEq, ◌==◌,
  nat_PartialEq, pair_PartialEq, keep, insert, flat, length,
}
use evm_amm_search.Prelude.Maps.{lookup, lookup_or, map_insert, map_remove}
use evm_amm_search.Route.{Address}
use evm_amm_search.Enumerate.{CachedOutgoingEdge}
use evm_amm_search.Graph.{AmmGraph, StableDiGraph}
use evm_amm_search.Stream.Progress.{usize_max}
use evm_amm_search.Work.{indexed}

-- `tokens.saturating_mul(tokens.saturating_sub(1))`
abbrev pub directed_edge_count : ℕ → ℕ
directed_edge_count tokens = min (tokens * (tokens - 1)) usize_max

-- The pairs that `for_each_token_pair` passes on, in order.
unfoldable pub token_pairs : List Address → List (Address × Address)
token_pairs [] = []
token_pairs (left ∷ rest) = map (λ right. (left, right)) rest ++ token_pairs rest

module _ {A : Type 0} where
  -- The pairs of different positions, by the first and then by the second.
  unfoldable pub directed_pairs : List (ℕ × A) → List (A × A)
  directed_pairs items =
      flat (λ from. map (λ to. (from.1, to.1)) (keep (λ to. not (from.0 == to.0)) items)) items

module _ {PoolKey NodeIndex EdgeIndex Store : Type 0} ⦃eP : PartialEq PoolKey⦄
    ⦃eN : PartialEq NodeIndex⦄ (S : StableDiGraph PoolKey NodeIndex EdgeIndex Store) where
  abbrev pub Graph : Type 0
  Graph = AmmGraph PoolKey NodeIndex EdgeIndex Store

  unfoldable pub get_or_create_node : Address → Graph → NodeIndex × Graph
  get_or_create_node token g = elim (lookup token g.node_map) [
    | some node ↦ (node, g)
    | none ↦
        let (node, graph) = S.add_node token g.graph in
        (node, record g { graph = graph; node_map = map_insert token node g.node_map })
  ]

  -- The nodes of the tokens, each beside its token.
  unfoldable pub create_nodes : List Address → Graph → List (Address × NodeIndex) × Graph
  create_nodes [] g = ([], g)
  create_nodes (token ∷ tokens) g =
      let (node, g') = get_or_create_node token g in
      let (nodes, g'') = create_nodes tokens g' in ((token, node) ∷ nodes, g'')

  -- The body of the two loops over the nodes.
  unfoldable pub add_directed_edge :
      PoolKey → (Address × NodeIndex) × (Address × NodeIndex) → Graph → Graph
  add_directed_edge pool ((token_in, from), (token_out, to)) g =
      let (edge, graph) = S.add_edge from to (record { pool = pool }) g.graph in
      let cached : CachedOutgoingEdge PoolKey NodeIndex = record {
        target = to;
        token_in = token_in;
        token_out = token_out;
        pool = pool;
      } in
      record g {
        graph = graph;
        outgoing = map_insert from (cached ∷ lookup_or from [] g.outgoing) g.outgoing;
        edge_map = map_insert pool (lookup_or pool [] g.edge_map ++ edge ∷ []) g.edge_map;
      }

  unfoldable pub add_directed_edges :
      PoolKey → List ((Address × NodeIndex) × (Address × NodeIndex)) → Graph → Graph
  add_directed_edges pool [] g = g
  add_directed_edges pool (pair ∷ pairs) g =
      add_directed_edges pool pairs (add_directed_edge pool pair g)

  -- `pair_pools.entry(pair).or_default().insert(pool)` for each pair.
  unfoldable pub add_pool_pairs : PoolKey → List (Address × Address) → Graph → Graph
  add_pool_pairs pool [] g = g
  add_pool_pairs pool (pair ∷ pairs) g = add_pool_pairs pool pairs (record g {
    pair_pools = map_insert pair (insert pool (lookup_or pair [] g.pair_pools)) g.pair_pools;
  })

  unfoldable pub add_pool_edges : PoolKey → List Address → Graph → Graph
  add_pool_edges pool tokens g =
      let (nodes, g') = create_nodes tokens g in
      let g'' =
        add_pool_pairs pool (token_pairs tokens)
          (add_directed_edges pool (directed_pairs (indexed 0 nodes)) g') in
      record g'' { pool_tokens = map_insert pool tokens g''.pool_tokens }

  -- A pair without pools is dropped.
  unfoldable pub remove_pool_pairs : PoolKey → List (Address × Address) → Graph → Graph
  remove_pool_pairs pool [] g = g
  remove_pool_pairs pool (pair ∷ pairs) g = remove_pool_pairs pool pairs (record g {
    pair_pools = elim (lookup pair g.pair_pools) [
      | none ↦ g.pair_pools
      | some pools ↦ elim (keep (λ other. not (other == pool)) pools) [
        | [] ↦ map_remove pair g.pair_pools
        | other ∷ others ↦ map_insert pair (other ∷ others) g.pair_pools
      ]
    ];
  })

  unfoldable pub remove_edges : List EdgeIndex → Graph → Graph
  remove_edges [] g = g
  remove_edges (edge ∷ edges) g =
      remove_edges edges (record g { graph = S.remove_edge edge g.graph })

  -- `edges.retain(|edge| edge.pool != *pool)` at the node of a token.
  unfoldable pub forget_at : PoolKey → Address → Graph → Graph
  forget_at pool token g = elim (lookup token g.node_map) [
    | none ↦ g
    | some node ↦ elim (lookup node g.outgoing) [
      | none ↦ g
      | some edges ↦ record g {
        outgoing = map_insert node (keep (λ edge. not (edge.pool == pool)) edges) g.outgoing;
      }
    ]
  ]

  unfoldable pub forget_outgoing : PoolKey → List Address → Graph → Graph
  forget_outgoing pool [] g = g
  forget_outgoing pool (token ∷ tokens) g = forget_outgoing pool tokens (forget_at pool token g)

  -- What `remove_pool_edges` does after the tokens and the pairs of the pool.
  unfoldable pub remove_listed_edges : PoolKey → List Address → Graph → (ℕ × List Address) × Graph
  remove_listed_edges pool tokens g = elim (lookup pool g.edge_map) [
    | none ↦ ((0, tokens), g)
    | some edges ↦ (
      (length edges, tokens),
      forget_outgoing pool tokens
          (remove_edges edges (record g { edge_map = map_remove pool g.edge_map })),
    )
  ]

  unfoldable pub remove_pool_edges : PoolKey → Graph → (ℕ × List Address) × Graph
  remove_pool_edges pool g =
      let tokens = lookup_or pool [] g.pool_tokens in
      remove_listed_edges pool tokens (
        remove_pool_pairs pool (token_pairs tokens)
          (record g { pool_tokens = map_remove pool g.pool_tokens }))

  -- The body of the loop of `prune_orphan_tokens`.
  unfoldable pub prune_token : Address → Graph → Graph
  prune_token token g = elim (lookup token g.node_map) [
    | none ↦ g
    | some node ↦
        if S.has_outgoing node g.graph || S.has_incoming node g.graph then g else record g {
          graph = S.remove_node node g.graph;
          outgoing = map_remove node g.outgoing;
          node_map = map_remove token g.node_map;
        }
  ]

  unfoldable pub prune_orphan_tokens : List Address → Graph → Graph
  prune_orphan_tokens [] g = g
  prune_orphan_tokens (token ∷ tokens) g = prune_orphan_tokens tokens (prune_token token g)
