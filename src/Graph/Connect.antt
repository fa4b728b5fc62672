-- ===== src/Graph/Connect.antt =====
-- Adding a directed edge keeps what the graph holds, and adds its link.
use mathlib.Core.List.{Memᴰ}
use mathlib.Core.List.Memᴰ
use evm_amm_search.Prelude.{
  ◌≡◌, refl, sym, ◌∙◌, ◌⊎◌, inl, inr, none, some, [], ◌∷◌, ◌++◌, arith, PartialEq, nat_PartialEq,
  ◌==◌, eq_refl, if◌then◌else◌, Bool-cases,
}
use evm_amm_search.Prelude.Maps.{lookup_or}
use evm_amm_search.Route.{Address}
use evm_amm_search.Enumerate.{CachedOutgoingEdge}
use evm_amm_search.Graph.{AmmGraph, StableDiGraph, EdgeData, node_index, outgoing_edges}
use evm_amm_search.Graph.Edges.{add_directed_edge}
use evm_amm_search.Graph.Held.{IsStableDiGraph, Links, IsStored, Holds}
use evm_amm_search.Graph.Insert.{lookup_or-insert}

module _ {PoolKey NodeIndex EdgeIndex Store : Type 0} ⦃eP : PartialEq PoolKey⦄
    ⦃eN : PartialEq NodeIndex⦄ ⦃eE : PartialEq EdgeIndex⦄
    (S : StableDiGraph PoolKey NodeIndex EdgeIndex Store) (stable : IsStableDiGraph S)
    (pool : PoolKey) (token_in token_out : Address) (from to : NodeIndex)
    (g : AmmGraph PoolKey NodeIndex EdgeIndex Store) (from_node : node_index g token_in ≡ some from)
    (to_node : node_index g token_out ≡ some to) (links : Links PoolKey) (h : Holds S links g) where
  abbrev connected : AmmGraph PoolKey NodeIndex EdgeIndex Store
  connected = add_directed_edge S pool ((token_in, from), (token_out, to)) g

  abbrev new_edge : EdgeIndex
  new_edge = (S.add_edge from to (record { pool = pool }) g.graph).0

  abbrev new_cached : CachedOutgoingEdge PoolKey NodeIndex
  new_cached = record { target = to; token_in = token_in; token_out = token_out; pool = pool }

  -- The links before, and the new one.
  abbrev pub and_link : Links PoolKey
  and_link p t u = links p t u ⊎ ((p ≡ pool) × (t ≡ token_in) × (u ≡ token_out))

  outgoing_after :
      (n : NodeIndex)
      → outgoing_edges connected n
        ≡ (if from == n then new_cached ∷ outgoing_edges g n else outgoing_edges g n)
  unfolding add_directed_edge outgoing_edges
  outgoing_after n = ground (
    arith,
    lookup_or-insert n from (new_cached ∷ lookup_or from [] g.outgoing) [] g.outgoing,
    eN.eq_iff from n,
  )

  listed_after :
      (p : PoolKey)
      → lookup_or p [] connected.edge_map ≡ (
          if pool == p
          then lookup_or p [] g.edge_map ++ new_edge ∷ []
          else lookup_or p [] g.edge_map)
  unfolding add_directed_edge
  listed_after p = ground (
    arith,
    lookup_or-insert p pool (lookup_or pool [] g.edge_map ++ new_edge ∷ []) [] g.edge_map,
    eP.eq_iff pool p,
  )

  same_nodes : (t : Address) → node_index connected t ≡ node_index g t
  unfolding add_directed_edge node_index
  same_nodes t = refl

  edge_after :
      (e : EdgeIndex)
      → S.edge e connected.graph
        ≡ (if new_edge == e then some (from, to, record { pool = pool }) else S.edge e g.graph)
  unfolding add_directed_edge
  edge_after e =
      stable.edge-add_edge from to (record { pool = pool }) g.graph token_in token_out e
        (h.nodes token_in from from_node) (h.nodes token_out to to_node)

  fresh : S.edge new_edge g.graph ≡ none
  fresh =
      stable.fresh_edge from to (record { pool = pool }) g.graph token_in token_out
        (h.nodes token_in from from_node) (h.nodes token_out to to_node)

  edge_kept :
      (e : EdgeIndex) (a b : NodeIndex) (w : EdgeData PoolKey)
      → S.edge e g.graph ≡ some (a, b, w)
      → S.edge e connected.graph ≡ some (a, b, w)
  edge_kept e a b w k = ground (arith, k, edge_after e, fresh, eE.eq_iff new_edge e)

  cached_kept :
      (n : NodeIndex) (edge : CachedOutgoingEdge PoolKey NodeIndex)
      → Memᴰ edge (outgoing_edges g n)
      → Memᴰ edge (outgoing_edges connected n)
  cached_kept n edge m = elim (Bool-cases (from == n)) [
    | inl same ↦ rw (outgoing_after n, same) (Memᴰ.tail m)
    | inr other ↦ rw (outgoing_after n, other) m
  ]

  listed_kept :
      (p : PoolKey) (e : EdgeIndex)
      → Memᴰ e (lookup_or p [] g.edge_map)
      → Memᴰ e (lookup_or p [] connected.edge_map)
  listed_kept p e m = elim (Bool-cases (pool == p)) [
    | inl same ↦ rw (listed_after p, same) (Memᴰ.append_left (new_edge ∷ []) m)
    | inr other ↦ rw (listed_after p, other) m
  ]

  kept_link : (p : PoolKey) (t u : Address) → IsStored S g p t u → IsStored S connected p t u
  kept_link p t u s = record {
    from = s.from;
    to = s.to;
    from_node = same_nodes t ∙ s.from_node;
    to_node = same_nodes u ∙ s.to_node;
    cached = cached_kept s.from _ s.cached;
    edge = s.edge;
    listed = listed_kept p s.edge s.listed;
    in_graph = edge_kept s.edge s.from s.to _ s.in_graph;
  }

  new_link : IsStored S connected pool token_in token_out
  new_link = record {
    from = from;
    to = to;
    from_node = same_nodes token_in ∙ from_node;
    to_node = same_nodes token_out ∙ to_node;
    cached = rw (outgoing_after from, eq_refl from) (Memᴰ.head refl);
    edge = new_edge;
    listed =
        rw (listed_after pool, eq_refl pool)
          (Memᴰ.append_right (lookup_or pool [] g.edge_map) (Memᴰ.head refl));
    in_graph = ground (arith, edge_after new_edge, eq_refl new_edge);
  }

  owned_after :
      (p : PoolKey) (e : EdgeIndex)
      → Memᴰ e (lookup_or p [] connected.edge_map)
      → (a : NodeIndex) × (b : NodeIndex) × (S.edge e connected.graph
          ≡ some (a, b, record { pool = p }))
  owned_after p e m = elim (Bool-cases (pool == p)) [
    | inl same ↦
        elim (Memᴰ.append_cases (lookup_or p [] g.edge_map) (rw (listed_after p, same) at m)) [
          | inl old ↦ let (a, b, k) = h.owned p e old in (a, b, edge_kept e a b _ k)
          | inr new ↦ elim (Memᴰ.cases_cons new) [
            | inl is ↦ (
              from,
              to,
              ground (arith, edge_after e, eE.eq_iff new_edge e, is, eP.eq_iff pool p, same),
            )
            | inr none_left ↦ absurd (Memᴰ.not-nil none_left)
          ]
        ]
    | inr other ↦
        let (a, b, k) = h.owned p e (rw (listed_after p, other) at m) in (a, b, edge_kept e a b _ k)
  ]

  sound_after :
      (n : NodeIndex) (edge : CachedOutgoingEdge PoolKey NodeIndex)
      → Memᴰ edge (outgoing_edges connected n)
      → and_link edge.pool edge.token_in edge.token_out
        × (node_index connected edge.token_in ≡ some n)
        × (node_index connected edge.token_out ≡ some edge.target)
  sound_after n edge m = elim (Bool-cases (from == n)) [
    | inl same ↦ elim (Memᴰ.cases_cons (rw (outgoing_after n, same) at m)) [
      | inl is ↦ rw is (
        inr (refl, refl, refl),
        ground (arith, same_nodes token_in, from_node, eN.eq_iff from n, same),
        same_nodes token_out ∙ to_node,
      )
      | inr old ↦ let (l, a, b) = h.sound n edge old in (inl l, same_nodes _ ∙ a, same_nodes _ ∙ b)
    ]
    | inr other ↦
        let (l, a, b) = h.sound n edge (rw (outgoing_after n, other) at m) in
        (inl l, same_nodes _ ∙ a, same_nodes _ ∙ b)
  ]

  nodes_after :
      (t : Address) (n : NodeIndex)
      → node_index g t ≡ some n
      → S.node_weight n connected.graph ≡ some t
  unfolding add_directed_edge
  nodes_after t n k =
      stable.node_weight-add_edge from to (record { pool = pool }) g.graph token_in token_out n
        (h.nodes token_in from from_node) (h.nodes token_out to to_node)
      ∙ h.nodes t n k

  pub add_directed_edge-Holds : Holds S and_link connected
  add_directed_edge-Holds = record {
    nodes = λ t n k. nodes_after t n (sym (same_nodes t) ∙ k);
    owned = owned_after;
    sound = sound_after;
    complete = λ p t u l. elim l [
      | inl old ↦ kept_link p t u (h.complete p t u old)
      | inr (p_is, t_is, u_is) ↦ rw (p_is, t_is, u_is) new_link
    ];
  }
