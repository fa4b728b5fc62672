-- ===== src/Graph/Added.antt =====
-- What `add_pool_edges` leaves: the links of the pool's tokens, beside those before.
use mathlib.Core.List.{Memᴰ}
use evm_amm_search.Prelude.{
  pair_PartialEq, ◌≡◌, ◌≢◌, sym, ap, ◌∙◌, inl, inr, false, none, some, List, map, All, All-mem,
  arith, Bool-cases, ◌==◌, PartialEq, nat_PartialEq,
}
use evm_amm_search.Prelude.Maps.{
  HashMap, lookup, map_insert, lookup-map_insert, lookup-map_insert_self,
}
use evm_amm_search.Prelude.Members.{mem-map, mem_of_map, All-of_mem}
use evm_amm_search.Route.{Address}
use evm_amm_search.Work.{indexed}
use evm_amm_search.Graph.{AmmGraph, StableDiGraph, node_index}
use evm_amm_search.Graph.Edges.{
  create_nodes, directed_pairs, token_pairs, add_directed_edges, add_pool_pairs, add_pool_edges,
}
use evm_amm_search.Graph.Held.{IsStableDiGraph, Links, Holds, Holds-same, same_parts-Holds}
use evm_amm_search.Graph.Insert.{Grows, create_nodes-Holds}
use evm_amm_search.Graph.Pairs.{HasDistinct, mem_of_directed_pairs, mem-directed_pairs}
use evm_amm_search.Graph.Directed.{
  and_pairs, AreNodes, add_directed_edges-SameTokens, add_directed_edges-Holds,
  add_pool_pairs_parts, with_pairs-Holds, add_directed_edges_listed,
}

-- The links of the pools: each pool leads from any of its tokens to any other one.
abbrev pub PoolLinks :
    {PoolKey : Type 0} ⦃e : PartialEq PoolKey⦄ → HashMap PoolKey (List Address) → Links PoolKey
PoolLinks pools p t u =
    (tokens : List Address) × (lookup p pools ≡ some tokens)
    × Memᴰ t tokens
    × Memᴰ u tokens
    × (t ≢ u)

module _ {PoolKey NodeIndex EdgeIndex Store : Type 0} ⦃eP : PartialEq PoolKey⦄
    ⦃eN : PartialEq NodeIndex⦄ ⦃eE : PartialEq EdgeIndex⦄
    (S : StableDiGraph PoolKey NodeIndex EdgeIndex Store) (stable : IsStableDiGraph S)
    (pool : PoolKey) (tokens : List Address) (distinct : HasDistinct tokens)
    (g : AmmGraph PoolKey NodeIndex EdgeIndex Store) (new : lookup pool g.pool_tokens ≡ none)
    (h : Holds S (PoolLinks g.pool_tokens) g) where
  nodes : List (Address × NodeIndex)
  nodes = (create_nodes S tokens g).0

  with_nodes : AmmGraph PoolKey NodeIndex EdgeIndex Store
  with_nodes = (create_nodes S tokens g).1

  ends : List ((Address × NodeIndex) × (Address × NodeIndex))
  unfolding nodes
  ends = directed_pairs (indexed 0 nodes)

  created :
      Holds S (PoolLinks g.pool_tokens) with_nodes
      × Grows S stable g with_nodes
      × (map (λ z. z.0) nodes ≡ tokens)
      × All (λ z. node_index with_nodes z.0 ≡ some z.1) nodes
  unfolding nodes with_nodes
  created = create_nodes-Holds S stable (PoolLinks g.pool_tokens) tokens g h

  ends_nodes : All (AreNodes S stable pool with_nodes) ends
  unfolding ends
  ends_nodes =
      All-of_mem (AreNodes S stable pool with_nodes) (directed_pairs (indexed 0 nodes)) (λ x m.
        let (at_from, at_to, _) = mem_of_directed_pairs nodes x (rw (created.2) distinct) m in
        (All-mem _ nodes x.0 created.3 at_from, All-mem _ nodes x.1 created.3 at_to))

  -- The links of the pairs are those of the pool's tokens.
  pair_links :
      (p : PoolKey) (t u : Address)
      → and_pairs S stable pool (PoolLinks g.pool_tokens) ends p t u
      → PoolLinks (map_insert pool tokens g.pool_tokens) p t u
  unfolding ends
  pair_links p t u (inl (ts, known, at_t, at_u, apart)) = (
    ts,
    ground (arith, known, new, lookup-map_insert p pool tokens g.pool_tokens, eP.eq_iff pool p),
    at_t,
    at_u,
    apart,
  )
  pair_links p t u (inr (is, x, m, from, to)) =
      let (at_from, at_to, apart) = mem_of_directed_pairs nodes x (rw (created.2) distinct) m in
      rw (is, from, to)
        (
          tokens,
          lookup-map_insert_self pool tokens g.pool_tokens,
          rw (created.2) at (mem-map (λ z. z.0) x.0 nodes at_from),
          rw (created.2) at (mem-map (λ z. z.0) x.1 nodes at_to),
          apart,
        )

  links_paired :
      (p : PoolKey) (t u : Address)
      → PoolLinks (map_insert pool tokens g.pool_tokens) p t u
      → and_pairs S stable pool (PoolLinks g.pool_tokens) ends p t u
  unfolding ends
  links_paired p t u (ts, known, at_t, at_u, apart) = elim (Bool-cases (pool == p)) [
    | inr other ↦ inl (
      ts,
      ground (arith, known, other, lookup-map_insert p pool tokens g.pool_tokens),
      at_t,
      at_u,
      apart,
    )
    | inl same ↦
        let is : tokens ≡ ts =
          ground (arith, known, same, lookup-map_insert p pool tokens g.pool_tokens) in
        let (z, at_z, t_is) = mem_of_map (λ z. z.0) t nodes (rw (created.2, is) at_t) in
        let (w, at_w, u_is) = mem_of_map (λ z. z.0) u nodes (rw (created.2, is) at_u) in
        inr (
          sym ((eP.eq_iff pool p).0 same),
          (z, w),
          mem-directed_pairs nodes z w (rw (created.2) distinct) at_z at_w
              (λ e. apart (t_is ∙ e ∙ sym u_is)),
          t_is,
          u_is,
        )
  ]

  pub add_pool_edges_tokens :
      (add_pool_edges S pool tokens g).pool_tokens ≡ map_insert pool tokens g.pool_tokens
  unfolding add_pool_edges nodes with_nodes ends
  add_pool_edges_tokens = ap (map_insert pool tokens) (
      (add_pool_pairs_parts S stable pool (token_pairs tokens)
        (add_directed_edges S pool ends with_nodes)).tokens
      ∙ (add_directed_edges-SameTokens S stable pool ends with_nodes).tokens
      ∙ created.1.same_tokens)

  pub add_pool_edges-Holds :
      Holds S (PoolLinks (map_insert pool tokens g.pool_tokens)) (add_pool_edges S pool tokens g)
  unfolding add_pool_edges nodes with_nodes ends
  add_pool_edges-Holds =
      let g' = add_directed_edges S pool ends with_nodes in
      let g'' = add_pool_pairs S pool (token_pairs tokens) g' in
      let h' =
        add_directed_edges-Holds S stable pool ends (PoolLinks g.pool_tokens) with_nodes ends_nodes
          created.0 in
      let h'' = (with_pairs-Holds S stable pool (token_pairs tokens) _ g' h') in
      same_parts-Holds S _ g'' g''.pair_pools (map_insert pool tokens g''.pool_tokens) g''.version (
        Holds-same S (and_pairs S stable pool (PoolLinks g.pool_tokens) ends)
          (PoolLinks (map_insert pool tokens g.pool_tokens)) g'' pair_links links_paired h'')

  pub add_pool_edges_version : (add_pool_edges S pool tokens g).version ≡ g.version
  unfolding add_pool_edges nodes with_nodes ends
  add_pool_edges_version =
      (add_pool_pairs_parts S stable pool (token_pairs tokens)
        (add_directed_edges S pool ends with_nodes)).version
      ∙ (add_directed_edges-SameTokens S stable pool ends with_nodes).version
      ∙ created.1.same_version

  pub add_pool_edges_listed :
      (p : PoolKey)
      → pool == p ≡ false
      → lookup p (add_pool_edges S pool tokens g).edge_map ≡ lookup p g.edge_map
  unfolding add_pool_edges nodes with_nodes ends
  add_pool_edges_listed p other =
      ap (lookup p)
        (add_pool_pairs_parts S stable pool (token_pairs tokens)
          (add_directed_edges S pool ends with_nodes)).listed
      ∙ add_directed_edges_listed S stable pool p other ends with_nodes
      ∙ ap (lookup p) created.1.same_edges
