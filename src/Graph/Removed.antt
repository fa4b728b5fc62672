-- ===== src/Graph/Removed.antt =====
-- src/graph.rs: what `remove_pool_edges` leaves, the links of the other pools.
use mathlib.Core.List.{Memᴰ}
use mathlib.Core.List.Memᴰ
use evm_amm_search.Prelude.{
  ◌≡◌, refl, ap, ◌∙◌, inl, inr, false, none, some, List, [], arith, PartialEq, nat_PartialEq,
  pair_PartialEq, ◌==◌, if◌then◌else◌, Bool-cases, Option-cases, length,
}
use evm_amm_search.Prelude.Maps.{HashMap, lookup, lookup_or, map_remove, lookup-map_remove}
use evm_amm_search.Route.{Address}
use evm_amm_search.Graph.{AmmGraph, StableDiGraph}
use evm_amm_search.Graph.Edges.{
  remove_pool_pairs, remove_pool_edges, remove_listed_edges, token_pairs,
}
use evm_amm_search.Graph.Held.{IsStableDiGraph, Holds, Holds-same, same_parts-Holds}
use evm_amm_search.Graph.Remove.{remove_pool_pairs_only, without_link, other_link}
use evm_amm_search.Graph.Without.{without_pool, without_pool-Holds, removal, forgetting}
use evm_amm_search.Graph.Added.{PoolLinks}

module _ {PoolKey NodeIndex EdgeIndex Store : Type 0} ⦃eP : PartialEq PoolKey⦄
    ⦃eN : PartialEq NodeIndex⦄ ⦃eE : PartialEq EdgeIndex⦄
    (S : StableDiGraph PoolKey NodeIndex EdgeIndex Store) (stable : IsStableDiGraph S)
    (pool : PoolKey) (g : AmmGraph PoolKey NodeIndex EdgeIndex Store) where
  pub pairs_after : HashMap (Address × Address) (List PoolKey)
  pairs_after =
      (remove_pool_pairs S pool (token_pairs (lookup_or pool [] g.pool_tokens))
        (record g { pool_tokens = map_remove pool g.pool_tokens })).pair_pools

  removal_only :
      remove_pool_edges S pool g
      ≡ remove_listed_edges S pool
          (lookup_or pool [] g.pool_tokens)
          (record g { pool_tokens = map_remove pool g.pool_tokens; pair_pools = pairs_after })
  unfolding remove_pool_edges pairs_after
  removal_only = ap (remove_listed_edges S pool (lookup_or pool [] g.pool_tokens)) (
      remove_pool_pairs_only S stable pool (token_pairs (lookup_or pool [] g.pool_tokens))
        (record g { pool_tokens = map_remove pool g.pool_tokens }))

  remove_unlisted :
      lookup pool g.edge_map ≡ none
      → remove_pool_edges S pool g ≡ (
        (0, lookup_or pool [] g.pool_tokens),
        record g { pool_tokens = map_remove pool g.pool_tokens; pair_pools = pairs_after },
      )
  unfolding remove_listed_edges
  remove_unlisted unlisted = removal_only ∙ rw (remove_listed_edges, unlisted) refl

  pub remove_listed :
      (edges : List EdgeIndex)
      → lookup pool g.edge_map ≡ some edges
      → remove_pool_edges S pool g ≡ (
        (length edges, lookup_or pool [] g.pool_tokens),
        without_pool S stable pool g pairs_after edges,
      )
  unfolding remove_listed_edges
  remove_listed edges listed = removal_only ∙ rw (remove_listed_edges, listed) refl

  module _ (h : Holds S (PoolLinks g.pool_tokens) g) where
    -- A pool without listed edges has no links.
    unlisted_link :
        lookup pool g.edge_map ≡ none
        → (p : PoolKey) (t u : Address) → PoolLinks g.pool_tokens p t u
        → pool == p ≡ false
    unlisted_link unlisted p t u l = elim (Bool-cases (pool == p)) [
      | inr other ↦ other
      | inl same ↦
          let listed : Memᴰ (h.complete p t u l).edge (lookup_or p [] g.edge_map) =
            (h.complete p t u l).listed in
          let is : lookup_or p [] g.edge_map ≡ [] =
            ground (arith, unlisted, same, eP.eq_iff pool p) in
          absurd (Memᴰ.not-nil (rw is at listed))
    ]

    pub remove_pool_edges-Holds :
        Holds S (PoolLinks (map_remove pool g.pool_tokens)) (remove_pool_edges S pool g).1
    remove_pool_edges-Holds = elim (Option-cases (lookup pool g.edge_map)) [
      | inl unlisted ↦ rw (remove_unlisted unlisted) (
          same_parts-Holds S (PoolLinks (map_remove pool g.pool_tokens)) g pairs_after
            (map_remove pool g.pool_tokens) g.version
            (Holds-same S (PoolLinks g.pool_tokens) (PoolLinks (map_remove pool g.pool_tokens)) g
              (λ p t u l. other_link S stable pool g p t u (unlisted_link unlisted p t u l) l)
              (λ p t u l. (without_link S stable pool g p t u l).1) h))
      | inr (edges, listed) ↦
          rw (remove_listed edges listed)
            (without_pool-Holds S stable pool g pairs_after edges h listed)
    ]

  pub remove_pool_edges_tokens :
      (remove_pool_edges S pool g).1.pool_tokens ≡ map_remove pool g.pool_tokens
  remove_pool_edges_tokens = elim (Option-cases (lookup pool g.edge_map)) [
    | inl unlisted ↦ rw (remove_unlisted unlisted) refl
    | inr (edges, listed) ↦ rw (remove_listed edges listed) (
        (forgetting S stable pool g pairs_after edges).tokens
        ∙ (removal S stable pool g pairs_after edges).tokens)
  ]

  pub remove_pool_edges_version : (remove_pool_edges S pool g).1.version ≡ g.version
  remove_pool_edges_version = elim (Option-cases (lookup pool g.edge_map)) [
    | inl unlisted ↦ rw (remove_unlisted unlisted) refl
    | inr (edges, listed) ↦ rw (remove_listed edges listed) (
        (forgetting S stable pool g pairs_after edges).version
        ∙ (removal S stable pool g pairs_after edges).version)
  ]

  pub remove_pool_edges_listed :
      (p : PoolKey)
      → lookup_or p [] (remove_pool_edges S pool g).1.edge_map
        ≡ (if pool == p then [] else lookup_or p [] g.edge_map)
  remove_pool_edges_listed p = elim (Option-cases (lookup pool g.edge_map)) [
    | inl unlisted ↦ rw (remove_unlisted unlisted) (ground (arith, unlisted, eP.eq_iff pool p))
    | inr (edges, listed) ↦ rw (remove_listed edges listed) (
        ap (lookup_or p []) (
          (forgetting S stable pool g pairs_after edges).listed
          ∙ (removal S stable pool g pairs_after edges).listed)
        ∙ ground (arith, lookup-map_remove p pool g.edge_map))
  ]

  -- The outcome: how many edges the pool had, and its tokens.
  pub remove_pool_edges_outcome :
      (remove_pool_edges S pool g).0
      ≡ (length (lookup_or pool [] g.edge_map), lookup_or pool [] g.pool_tokens)
  remove_pool_edges_outcome = elim (Option-cases (lookup pool g.edge_map)) [
    | inl unlisted ↦ rw (remove_unlisted unlisted, unlisted) refl
    | inr (edges, listed) ↦ rw (remove_listed edges listed, listed) refl
  ]
