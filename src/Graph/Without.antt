-- ===== src/Graph/Without.antt =====
-- src/graph.rs: what `remove_pool_edges` leaves, the links of the other pools.
use mathlib.Core.List.{Memᴰ}
use mathlib.Core.List.Memᴰ
use evm_amm_search.Prelude.{
  ◌≡◌, sym, ap, ◌∙◌, inl, inr, true, false, some, List, [], arith, PartialEq, nat_PartialEq,
  pair_PartialEq, ◌==◌, if◌then◌else◌, Bool-cases,
}
use evm_amm_search.Prelude.Maps.{HashMap, lookup, lookup_or, map_remove, lookup-map_remove}
use evm_amm_search.Route.{Address}
use evm_amm_search.Enumerate.{CachedOutgoingEdge}
use evm_amm_search.Graph.{AmmGraph, StableDiGraph, node_index, outgoing_edges}
use evm_amm_search.Graph.Edges.{forget_outgoing, remove_edges}
use evm_amm_search.Graph.Held.{IsStableDiGraph, IsStored, Holds}
use evm_amm_search.Graph.Forget.{
  is_other, IsSameBut, forget_outgoing-IsSameBut, mem_of_forget_outgoing, mem-forget_outgoing,
  forgotten,
}
use evm_amm_search.Graph.Remove.{
  IsSameButGraph, remove_edges-IsSameButGraph, remove_edges_edge, without_link, other_link,
}
use evm_amm_search.Graph.Added.{PoolLinks}

module _ {PoolKey NodeIndex EdgeIndex Store : Type 0} ⦃eP : PartialEq PoolKey⦄
    ⦃eN : PartialEq NodeIndex⦄ ⦃eE : PartialEq EdgeIndex⦄
    (S : StableDiGraph PoolKey NodeIndex EdgeIndex Store) (stable : IsStableDiGraph S)
    (pool : PoolKey) (g : AmmGraph PoolKey NodeIndex EdgeIndex Store)
    (pairs : HashMap (Address × Address) (List PoolKey)) (edges : List EdgeIndex) where
  abbrev pub tokens : List Address
  tokens = lookup_or pool [] g.pool_tokens

  abbrev without_listed : AmmGraph PoolKey NodeIndex EdgeIndex Store
  without_listed = record g {
    pool_tokens = map_remove pool g.pool_tokens;
    pair_pools = pairs;
    edge_map = map_remove pool g.edge_map;
  }

  abbrev without_edges : AmmGraph PoolKey NodeIndex EdgeIndex Store
  without_edges = remove_edges S edges without_listed

  abbrev pub without_pool : AmmGraph PoolKey NodeIndex EdgeIndex Store
  without_pool = forget_outgoing S pool tokens without_edges

  pub removal : IsSameButGraph S stable pool without_listed without_edges
  removal = remove_edges-IsSameButGraph S stable pool edges without_listed

  pub forgetting : IsSameBut S pool without_edges without_pool
  forgetting = forget_outgoing-IsSameBut S pool tokens without_edges

  same_nodes : (t : Address) → node_index without_pool t ≡ node_index g t
  unfolding node_index
  same_nodes t = ap (lookup t) (forgetting.nodes ∙ removal.nodes)

  edges_nodes : (t : Address) → node_index without_edges t ≡ node_index g t
  unfolding node_index
  edges_nodes t = ap (lookup t) removal.nodes

  same_edges : (n : NodeIndex) → outgoing_edges without_edges n ≡ outgoing_edges g n
  unfolding outgoing_edges
  same_edges n = ap (lookup_or n []) removal.outgoing

  listed_after :
      (p : PoolKey)
      → lookup_or p [] without_pool.edge_map ≡ (if pool == p then [] else lookup_or p [] g.edge_map)
  listed_after p =
      ap (lookup_or p []) (forgetting.listed ∙ removal.listed)
      ∙ ground (arith, lookup-map_remove p pool g.edge_map)

  module _ (h : Holds S (PoolLinks g.pool_tokens) g)
      (found : lookup pool g.edge_map ≡ some edges) where
    -- The edges of other pools are not among those removed.
    edge_kept :
        (p : PoolKey) (e : EdgeIndex) (a b : NodeIndex)
        → pool == p ≡ false
        → S.edge e g.graph ≡ some (a, b, record { pool = p })
        → S.edge e without_pool.graph ≡ some (a, b, record { pool = p })
    edge_kept p e a b other k =
        ap (S.edge e) forgetting.graph
        ∙ remove_edges_edge S stable pool edges without_listed e (λ m.
          let (c, d, k') = h.owned pool e (ground (arith, found, m)) in
          ground (arith, k, k', other, eP.eq_iff pool p))
        ∙ k

    cached_kept :
        (n : NodeIndex) (edge : CachedOutgoingEdge PoolKey NodeIndex)
        → pool == edge.pool ≡ false
        → Memᴰ edge (outgoing_edges g n)
        → Memᴰ edge (outgoing_edges without_pool n)
    cached_kept n edge other m =
        mem-forget_outgoing S pool tokens without_edges n edge (rw (same_edges n) m)
          (ground (arith, other, eP.eq_iff pool edge.pool, eP.eq_iff edge.pool pool))

    own_tokens :
        (p : PoolKey) (ts : List Address)
        → lookup p g.pool_tokens ≡ some ts
        → pool == p ≡ true
        → tokens ≡ ts
    own_tokens p ts known same = ground (arith, known, same, eP.eq_iff pool p)

    -- An edge that is left belongs to another pool.
    other_pool :
        (n : NodeIndex) (edge : CachedOutgoingEdge PoolKey NodeIndex)
        → Memᴰ edge (outgoing_edges without_pool n)
        → (ts : List Address) → lookup edge.pool g.pool_tokens ≡ some ts
        → Memᴰ edge.token_in ts
        → node_index g edge.token_in ≡ some n
        → pool == edge.pool ≡ false
    other_pool n edge m ts known at_t from = elim (Bool-cases (pool == edge.pool)) [
      | inr other ↦ other
      | inl same ↦
          let gone : is_other pool edge ≡ true =
            forgotten S pool tokens without_edges n edge edge.token_in m
              (rw (own_tokens edge.pool ts known same) at_t) (edges_nodes edge.token_in ∙ from) in
          absurd (ground (arith, gone, same, eP.eq_iff pool edge.pool, eP.eq_iff edge.pool pool))
    ]

    sound_after :
        (n : NodeIndex) (edge : CachedOutgoingEdge PoolKey NodeIndex)
        → Memᴰ edge (outgoing_edges without_pool n)
        → PoolLinks (map_remove pool g.pool_tokens) edge.pool edge.token_in edge.token_out
          × (node_index without_pool edge.token_in ≡ some n)
          × (node_index without_pool edge.token_out ≡ some edge.target)
    sound_after n edge m =
        let old = mem_of_forget_outgoing S pool tokens without_edges n edge m in
        let (link, from, to) = h.sound n edge (rw (same_edges n) at old) in
        let (ts, known, at_t, at_u, apart) = link in
        let other : pool == edge.pool ≡ false = other_pool n edge m ts known at_t from in
        (
          other_link S stable pool g edge.pool edge.token_in edge.token_out other link,
          same_nodes edge.token_in ∙ from,
          same_nodes edge.token_out ∙ to,
        )

    kept_link :
        (p : PoolKey) (t u : Address)
        → pool == p ≡ false
        → IsStored S g p t u
        → IsStored S without_pool p t u
    kept_link p t u other s = record {
      from = s.from;
      to = s.to;
      from_node = same_nodes t ∙ s.from_node;
      to_node = same_nodes u ∙ s.to_node;
      cached = cached_kept s.from _ other s.cached;
      edge = s.edge;
      listed = rw (listed_after p, other) s.listed;
      in_graph = edge_kept p s.edge s.from s.to other s.in_graph;
    }

    owned_after :
        (p : PoolKey) (e : EdgeIndex)
        → Memᴰ e (lookup_or p [] without_pool.edge_map)
        → (a : NodeIndex) × (b : NodeIndex) × (S.edge e without_pool.graph
            ≡ some (a, b, record { pool = p }))
    owned_after p e m = elim (Bool-cases (pool == p)) [
      | inl same ↦ absurd (Memᴰ.not-nil (rw (listed_after p, same) at m))
      | inr other ↦
          let (a, b, k) = h.owned p e (rw (listed_after p, other) at m) in
          (a, b, edge_kept p e a b other k)
    ]

    pub without_pool-Holds : Holds S (PoolLinks (map_remove pool g.pool_tokens)) without_pool
    without_pool-Holds = record {
      nodes = λ t n k.
          ap (S.node_weight n) forgetting.graph
          ∙ removal.weights n
          ∙ h.nodes t n (sym (same_nodes t) ∙ k);
      owned = owned_after;
      sound = sound_after;
      complete = λ p t u l.
          let (other, old) = without_link S stable pool g p t u l in
          kept_link p t u other (h.complete p t u old);
    }
