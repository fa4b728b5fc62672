-- ===== src/Graph/Prune.antt =====
-- src/graph.rs: dropping the tokens without edges loses no link.
use mathlib.Core.List.{Memᴰ}
use mathlib.Core.List.Memᴰ
use evm_amm_search.Prelude.{
  ◌≡◌, refl, ◌∙◌, inl, inr, false, ◌||◌, none, some, List, [], ◌∷◌, arith, PartialEq, nat_PartialEq,
  ◌==◌, eq_refl, if◌then◌else◌, Bool-cases, Option-cases,
}
use evm_amm_search.Prelude.Maps.{lookup, map_remove, lookup-map_remove}
use evm_amm_search.Route.{Address}
use evm_amm_search.Enumerate.{CachedOutgoingEdge}
use evm_amm_search.Graph.{AmmGraph, StableDiGraph, EdgeData, node_index, outgoing_edges}
use evm_amm_search.Graph.Edges.{prune_token, prune_orphan_tokens}
use evm_amm_search.Graph.Held.{IsStableDiGraph, Links, IsStored, Holds}

module _ {PoolKey NodeIndex EdgeIndex Store : Type 0} ⦃eP : PartialEq PoolKey⦄
    ⦃eN : PartialEq NodeIndex⦄ ⦃eE : PartialEq EdgeIndex⦄
    (S : StableDiGraph PoolKey NodeIndex EdgeIndex Store) (stable : IsStableDiGraph S)
    (links : Links PoolKey) where
  abbrev G : Type 0
  G = AmmGraph PoolKey NodeIndex EdgeIndex Store

  module _ (token : Address) (g : G) (node : NodeIndex) (known : node_index g token ≡ some node)
      (no_outgoing : S.has_outgoing node g.graph ≡ false)
      (no_incoming : S.has_incoming node g.graph ≡ false) (h : Holds S links g) where
    abbrev pruned : G
    pruned = record g {
      graph = S.remove_node node g.graph;
      outgoing = map_remove node g.outgoing;
      node_map = map_remove token g.node_map;
    }

    node_after : (t : Address) → node_index pruned t ≡ (if token == t then none else node_index g t)
    unfolding node_index
    node_after t = lookup-map_remove t token g.node_map

    edges_after :
        (n : NodeIndex) → outgoing_edges pruned n ≡ (if node == n then [] else outgoing_edges g n)
    unfolding outgoing_edges
    edges_after n = ground (arith, lookup-map_remove n node g.outgoing)

    edge_kept :
        (e : EdgeIndex) (a b : NodeIndex) (w : EdgeData PoolKey)
        → S.edge e g.graph ≡ some (a, b, w)
        → S.edge e pruned.graph ≡ some (a, b, w)
    edge_kept e a b w k =
        stable.edge-remove_node node a b w g.graph e k
          (λ is. ground (arith, stable.outgoing-edge g.graph e a b w k, no_outgoing, is))
          (λ is. ground (arith, stable.incoming-edge g.graph e a b w k, no_incoming, is))

    -- The token with the node is at neither end of a link.
    token_kept :
        (p : PoolKey) (t u : Address) → links p t u → (token == t ≡ false) × (token == u ≡ false)
    token_kept p t u l =
        let s = h.complete p t u l in
        let out =
          stable.outgoing-edge g.graph s.edge s.from s.to (record { pool = p }) s.in_graph in
        let into =
          stable.incoming-edge g.graph s.edge s.from s.to (record { pool = p }) s.in_graph in
        let from_node = s.from_node in
        let to_node = s.to_node in
        (
          ground (arith, out, from_node, known, no_outgoing),
          ground (arith, into, to_node, known, no_incoming),
        )

    kept_link : (p : PoolKey) (t u : Address) → links p t u → IsStored S pruned p t u
    kept_link p t u l =
        let s = h.complete p t u l in
        let (keeps_t, keeps_u) = token_kept p t u l in
        let from_node = s.from_node in
        let to_node = s.to_node in
        let out =
          stable.outgoing-edge g.graph s.edge s.from s.to (record { pool = p }) s.in_graph in
        let other : node == s.from ≡ false =
          ground (arith, out, no_outgoing, eN.eq_iff node s.from) in
        record {
          from = s.from;
          to = s.to;
          from_node = ground (arith, node_after t, keeps_t, from_node);
          to_node = ground (arith, node_after u, keeps_u, to_node);
          cached = rw (edges_after s.from, other) s.cached;
          edge = s.edge;
          listed = s.listed;
          in_graph = edge_kept s.edge s.from s.to _ s.in_graph;
        }

    sound_kept :
        (n : NodeIndex) (edge : CachedOutgoingEdge PoolKey NodeIndex)
        → Memᴰ edge (outgoing_edges pruned n)
        → links edge.pool edge.token_in edge.token_out
          × (node_index pruned edge.token_in ≡ some n)
          × (node_index pruned edge.token_out ≡ some edge.target)
    sound_kept n edge m = elim (Bool-cases (node == n)) [
      | inl same ↦ absurd (Memᴰ.not-nil (rw (edges_after n, same) at m))
      | inr other ↦
          let (l, from, to) = h.sound n edge (rw (edges_after n, other) at m) in
          let (keeps_t, keeps_u) = token_kept edge.pool edge.token_in edge.token_out l in
          (
            l,
            ground (arith, node_after edge.token_in, keeps_t, from),
            ground (arith, node_after edge.token_out, keeps_u, to),
          )
    ]

    nodes_kept :
        (t : Address) (n : NodeIndex)
        → node_index pruned t ≡ some n
        → S.node_weight n pruned.graph ≡ some t
    nodes_kept t n k =
        let old : node_index g t ≡ some n = ground (arith, node_after t, k) in
        let apart : token == t ≡ false = ground (arith, node_after t, k) in
        ground (
          arith,
          stable.node_weight-remove_node node g.graph n,
          h.nodes t n old,
          h.nodes token node known,
          apart,
          eN.eq_iff node n,
          eq_refl t,
        )

    pruned-Holds : Holds S links pruned
    pruned-Holds = record {
      nodes = nodes_kept;
      owned = λ p e m. let (a, b, k) = h.owned p e m in (a, b, edge_kept e a b _ k);
      sound = sound_kept;
      complete = kept_link;
    }

  prune_token-Holds :
      (token : Address) (g : G) → Holds S links g → Holds S links (prune_token S token g)
  unfolding prune_token node_index
  prune_token-Holds token g h = elim (Option-cases (lookup token g.node_map)) [
    | inl unknown ↦ rw (prune_token, unknown) h
    | inr (node, known) ↦
        elim (Bool-cases (S.has_outgoing node g.graph || S.has_incoming node g.graph)) [
          | inl linked ↦ rw (prune_token, known, linked) h
          | inr alone ↦
              rw (prune_token, known, alone)
                (pruned-Holds token g node known (ground (arith, alone)) (ground (arith, alone)) h)
        ]
  ]

  pub prune_orphan_tokens-Holds :
      (tokens : List Address) (g : G)
      → Holds S links g
      → Holds S links (prune_orphan_tokens S tokens g)
  unfolding prune_orphan_tokens
  prune_orphan_tokens-Holds [] g h = h
  prune_orphan_tokens-Holds (token ∷ tokens) g h =
      prune_orphan_tokens-Holds tokens (prune_token S token g) (prune_token-Holds token g h)

module _ {PoolKey NodeIndex EdgeIndex Store : Type 0} ⦃eP : PartialEq PoolKey⦄
    ⦃eN : PartialEq NodeIndex⦄ (S : StableDiGraph PoolKey NodeIndex EdgeIndex Store) where
  pub record IsSameTokens (g g' : AmmGraph PoolKey NodeIndex EdgeIndex Store) : Type 0 where
    pub listed : g'.edge_map ≡ g.edge_map
    pub tokens : g'.pool_tokens ≡ g.pool_tokens
    pub version : g'.version ≡ g.version

  prune_token-IsSameTokens :
      (token : Address) (g : AmmGraph PoolKey NodeIndex EdgeIndex Store)
      → IsSameTokens g (prune_token S token g)
  unfolding prune_token
  prune_token-IsSameTokens token g = record {
    listed = ground arith;
    tokens = ground arith;
    version = ground arith;
  }

  pub prune_orphan_tokens-IsSameTokens :
      (tokens : List Address) (g : AmmGraph PoolKey NodeIndex EdgeIndex Store)
      → IsSameTokens g (prune_orphan_tokens S tokens g)
  unfolding prune_orphan_tokens
  prune_orphan_tokens-IsSameTokens [] g = record { listed = refl; tokens = refl; version = refl }
  prune_orphan_tokens-IsSameTokens (token ∷ tokens) g =
      let s = prune_token-IsSameTokens token g in
      let r = prune_orphan_tokens-IsSameTokens tokens (prune_token S token g) in
      record {
        listed = r.listed ∙ s.listed;
        tokens = r.tokens ∙ s.tokens;
        version = r.version ∙ s.version;
      }
