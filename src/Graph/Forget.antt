-- ===== src/Graph/Forget.antt =====
-- src/graph.rs: what the removal of the cached outgoing edges of a pool leaves.
use mathlib.Core.List.{Memᴰ}
use mathlib.Core.List.Memᴰ
use evm_amm_search.Prelude.{
  ◌≡◌, refl, ap, ◌∙◌, inl, inr, Bool, true, not, some, List, [], ◌∷◌, arith, PartialEq,
  nat_PartialEq, pair_PartialEq, ◌==◌, eq_refl, if◌then◌else◌, Bool-cases, Option-cases, keep,
  is_some_and,
}
use evm_amm_search.Prelude.Maps.{lookup}
use evm_amm_search.Prelude.Members.{mem_of_keep, mem-keep}
use evm_amm_search.Route.{Address}
use evm_amm_search.Enumerate.{CachedOutgoingEdge}
use evm_amm_search.Graph.{AmmGraph, StableDiGraph, node_index, outgoing_edges}
use evm_amm_search.Graph.Edges.{forget_at, forget_outgoing}
use evm_amm_search.Graph.Insert.{lookup_or-insert}

module _ {PoolKey NodeIndex : Type 0} ⦃eP : PartialEq PoolKey⦄ (pool : PoolKey) where
  abbrev pub is_other : CachedOutgoingEdge PoolKey NodeIndex → Bool
  is_other edge = not (edge.pool == pool)

module _ {PoolKey NodeIndex EdgeIndex Store : Type 0} ⦃eP : PartialEq PoolKey⦄
    ⦃eN : PartialEq NodeIndex⦄ (S : StableDiGraph PoolKey NodeIndex EdgeIndex Store)
    (pool : PoolKey) where
  -- All but the outgoing edges.
  pub record IsSameBut (g g' : AmmGraph PoolKey NodeIndex EdgeIndex Store) : Type 0 where
    pub graph : g'.graph ≡ g.graph
    pub nodes : g'.node_map ≡ g.node_map
    pub listed : g'.edge_map ≡ g.edge_map
    pub tokens : g'.pool_tokens ≡ g.pool_tokens
    pub version : g'.version ≡ g.version

  forget_at-IsSameBut :
      (token : Address) (g : AmmGraph PoolKey NodeIndex EdgeIndex Store)
      → IsSameBut g (forget_at S pool token g)
  unfolding forget_at
  forget_at-IsSameBut token g = record {
    graph = ground arith;
    nodes = ground arith;
    listed = ground arith;
    tokens = ground arith;
    version = ground arith;
  }

  forget_at_outgoing :
      (token : Address) (g : AmmGraph PoolKey NodeIndex EdgeIndex Store) (n : NodeIndex)
      → outgoing_edges (forget_at S pool token g) n ≡ (
          if is_some_and (node_index g token) (λ node. node == n)
          then keep (is_other pool) (outgoing_edges g n)
          else outgoing_edges g n)
  unfolding forget_at outgoing_edges node_index
  forget_at_outgoing token g n = elim (Option-cases (lookup token g.node_map)) [
    | inl unknown ↦ ground (arith, unknown)
    | inr (node, known) ↦ elim (Option-cases (lookup node g.outgoing)) [
      | inl empty ↦ ground (arith, known, empty, eN.eq_iff node n)
      | inr (edges, listed) ↦ ground (
        arith,
        known,
        listed,
        eN.eq_iff node n,
        lookup_or-insert n node (keep (is_other pool) edges) [] g.outgoing,
      )
    ]
  ]

  pub forget_outgoing-IsSameBut :
      (tokens : List Address) (g : AmmGraph PoolKey NodeIndex EdgeIndex Store)
      → IsSameBut g (forget_outgoing S pool tokens g)
  unfolding forget_outgoing
  forget_outgoing-IsSameBut [] g = record {
    graph = refl;
    nodes = refl;
    listed = refl;
    tokens = refl;
    version = refl;
  }
  forget_outgoing-IsSameBut (token ∷ tokens) g =
      let s = forget_at-IsSameBut token g in
      let r = forget_outgoing-IsSameBut tokens (forget_at S pool token g) in
      record {
        graph = r.graph ∙ s.graph;
        nodes = r.nodes ∙ s.nodes;
        listed = r.listed ∙ s.listed;
        tokens = r.tokens ∙ s.tokens;
        version = r.version ∙ s.version;
      }

  mem_of_forget_at :
      (token : Address) (g : AmmGraph PoolKey NodeIndex EdgeIndex Store) (n : NodeIndex)
      (edge : CachedOutgoingEdge PoolKey NodeIndex)
      → Memᴰ edge (outgoing_edges (forget_at S pool token g) n)
      → Memᴰ edge (outgoing_edges g n) × ((node_index g token ≡ some n) → is_other pool edge ≡ true)
  mem_of_forget_at token g n edge m =
      elim (Bool-cases (is_some_and (node_index g token) (λ node. node == n))) [
        | inl at_node ↦
            let (m', other) =
              mem_of_keep (is_other pool) edge (outgoing_edges g n)
                (rw (forget_at_outgoing token g n, at_node) at m) in
            (m', λ _. other)
        | inr elsewhere ↦ (
          rw (forget_at_outgoing token g n, elsewhere) at m,
          λ known. absurd (ground (arith, known, elsewhere, eq_refl n)),
        )
      ]

  mem-forget_at :
      (token : Address) (g : AmmGraph PoolKey NodeIndex EdgeIndex Store) (n : NodeIndex)
      (edge : CachedOutgoingEdge PoolKey NodeIndex)
      → Memᴰ edge (outgoing_edges g n)
      → is_other pool edge ≡ true
      → Memᴰ edge (outgoing_edges (forget_at S pool token g) n)
  mem-forget_at token g n edge m other =
      elim (Bool-cases (is_some_and (node_index g token) (λ node. node == n))) [
        | inl at_node ↦
            rw (forget_at_outgoing token g n, at_node)
              (mem-keep (is_other pool) edge (outgoing_edges g n) m other)
        | inr elsewhere ↦ rw (forget_at_outgoing token g n, elsewhere) m
      ]

  forget_at_nodes :
      (token : Address) (g : AmmGraph PoolKey NodeIndex EdgeIndex Store) (t : Address)
      → node_index (forget_at S pool token g) t ≡ node_index g t
  unfolding node_index
  forget_at_nodes token g t = ap (lookup t) (forget_at-IsSameBut token g).nodes

  pub mem_of_forget_outgoing :
      (tokens : List Address) (g : AmmGraph PoolKey NodeIndex EdgeIndex Store) (n : NodeIndex)
      (edge : CachedOutgoingEdge PoolKey NodeIndex)
      → Memᴰ edge (outgoing_edges (forget_outgoing S pool tokens g) n)
      → Memᴰ edge (outgoing_edges g n)
  unfolding forget_outgoing
  mem_of_forget_outgoing [] g n edge m = m
  mem_of_forget_outgoing (token ∷ tokens) g n edge m =
      (mem_of_forget_at token g n edge
        (mem_of_forget_outgoing tokens (forget_at S pool token g) n edge m)).0

  pub mem-forget_outgoing :
      (tokens : List Address) (g : AmmGraph PoolKey NodeIndex EdgeIndex Store) (n : NodeIndex)
      (edge : CachedOutgoingEdge PoolKey NodeIndex)
      → Memᴰ edge (outgoing_edges g n)
      → is_other pool edge ≡ true
      → Memᴰ edge (outgoing_edges (forget_outgoing S pool tokens g) n)
  unfolding forget_outgoing
  mem-forget_outgoing [] g n edge m other = m
  mem-forget_outgoing (token ∷ tokens) g n edge m other =
      mem-forget_outgoing tokens (forget_at S pool token g) n edge
        (mem-forget_at token g n edge m other) other

  -- At the node of one of the tokens no edge of the pool is left.
  pub forgotten :
      (tokens : List Address) (g : AmmGraph PoolKey NodeIndex EdgeIndex Store) (n : NodeIndex)
      (edge : CachedOutgoingEdge PoolKey NodeIndex) (token : Address)
      → Memᴰ edge (outgoing_edges (forget_outgoing S pool tokens g) n)
      → Memᴰ token tokens
      → node_index g token ≡ some n
      → is_other pool edge ≡ true
  unfolding forget_outgoing
  forgotten [] g n edge token m at known = absurd (Memᴰ.not-nil at)
  forgotten (first ∷ tokens) g n edge token m at known = elim (Memᴰ.cases_cons at) [
    | inl is ↦
        (mem_of_forget_at first g n edge
            (mem_of_forget_outgoing tokens (forget_at S pool first g) n edge m)).1
          (rw is at known)
    | inr later ↦
        forgotten tokens (forget_at S pool first g) n edge token m later
          (forget_at_nodes first g token ∙ known)
  ]
