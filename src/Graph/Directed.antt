-- ===== src/Graph/Directed.antt =====
-- What adding the directed edges of a pool leaves: their links, beside those before.
use mathlib.Core.List.{Memᴰ}
use mathlib.Core.List.Memᴰ
use evm_amm_search.Prelude.{
  insert, pair_PartialEq, ◌++◌, ◌≡◌, refl, ap, ◌∙◌, ◌⊎◌, inl, inr, false, some, List, [], ◌∷◌, All,
  arith, ◌==◌, PartialEq, nat_PartialEq,
}
use evm_amm_search.Prelude.Maps.{lookup, lookup_or, map_insert, lookup-map_insert}
use evm_amm_search.Route.{Address}
use evm_amm_search.Graph.{AmmGraph, StableDiGraph, node_index}
use evm_amm_search.Graph.Edges.{add_directed_edge, add_directed_edges, add_pool_pairs}
use evm_amm_search.Graph.Held.{IsStableDiGraph, Links, Holds, Holds-same, same_parts-Holds}
use evm_amm_search.Graph.Connect.{add_directed_edge-Holds}

module _ {PoolKey NodeIndex EdgeIndex Store : Type 0} ⦃eP : PartialEq PoolKey⦄
    ⦃eN : PartialEq NodeIndex⦄ ⦃eE : PartialEq EdgeIndex⦄
    (S : StableDiGraph PoolKey NodeIndex EdgeIndex Store) (stable : IsStableDiGraph S)
    (pool : PoolKey) where
  abbrev Ends : Type 0
  Ends = (Address × NodeIndex) × (Address × NodeIndex)

  -- The links before, and those of the pairs.
  abbrev pub and_pairs : Links PoolKey → List Ends → Links PoolKey
  and_pairs links ends p t u =
      links p t u ⊎ ((p ≡ pool) × (x : Ends) × Memᴰ x ends × (t ≡ x.0.0) × (u ≡ x.1.0))

  abbrev pub AreNodes : AmmGraph PoolKey NodeIndex EdgeIndex Store → Ends → Type 0
  AreNodes g x = (node_index g x.0.0 ≡ some x.0.1) × (node_index g x.1.0 ≡ some x.1.1)

  -- The edges leave the tokens, and the nodes of tokens, alone.
  pub record SameTokens (g g' : AmmGraph PoolKey NodeIndex EdgeIndex Store) : Type 0 where
    pub nodes : g'.node_map ≡ g.node_map
    pub tokens : g'.pool_tokens ≡ g.pool_tokens
    pub version : g'.version ≡ g.version

  pub add_directed_edges-SameTokens :
      (ends : List Ends) (g : AmmGraph PoolKey NodeIndex EdgeIndex Store)
      → SameTokens g (add_directed_edges S pool ends g)
  unfolding add_directed_edges add_directed_edge
  add_directed_edges-SameTokens [] g = record { nodes = refl; tokens = refl; version = refl }
  add_directed_edges-SameTokens (x ∷ ends) g =
      let s = add_directed_edges-SameTokens ends (add_directed_edge S pool x g) in
      record { nodes = s.nodes; tokens = s.tokens; version = s.version }

  nodes_after :
      (x : Ends) (ends : List Ends) (g : AmmGraph PoolKey NodeIndex EdgeIndex Store)
      → All (AreNodes g) ends
      → All (AreNodes (add_directed_edge S pool x g)) ends
  unfolding add_directed_edge node_index
  nodes_after x ends g nodes = nodes

  first_link :
      (links : Links PoolKey) (x : Ends) (ends : List Ends) (p : PoolKey) (t u : Address)
      → and_pairs (λ p t u. links p t u ⊎ ((p ≡ pool) × (t ≡ x.0.0) × (u ≡ x.1.0))) ends p t u
      → and_pairs links (x ∷ ends) p t u
  first_link links x ends p t u (inl (inl old)) = inl old
  first_link links x ends p t u (inl (inr (e, f, k))) = inr (e, x, Memᴰ.head refl, f, k)
  first_link links x ends p t u (inr (e, y, m, f, k)) = inr (e, y, Memᴰ.tail m, f, k)

  later_link :
      (links : Links PoolKey) (x : Ends) (ends : List Ends) (p : PoolKey) (t u : Address)
      → and_pairs links (x ∷ ends) p t u
      → and_pairs (λ p t u. links p t u ⊎ ((p ≡ pool) × (t ≡ x.0.0) × (u ≡ x.1.0))) ends p t u
  later_link links x ends p t u (inl old) = inl (inl old)
  later_link links x ends p t u (inr (e, y, m, f, k)) = elim (Memᴰ.cases_cons m) [
    | inl is ↦ inl (inr (e, f ∙ ap (λ z. z.0.0) is, k ∙ ap (λ z. z.1.0) is))
    | inr later ↦ inr (e, y, later, f, k)
  ]

  pub add_directed_edges-Holds :
      (ends : List Ends) (links : Links PoolKey) (g : AmmGraph PoolKey NodeIndex EdgeIndex Store)
      → All (AreNodes g) ends
      → Holds S links g
      → Holds S (and_pairs links ends) (add_directed_edges S pool ends g)
  unfolding add_directed_edges
  add_directed_edges-Holds [] links g nodes h =
      Holds-same S links (and_pairs links []) g (λ p t u l. inl l)
        (λ p t u l. elim l [ inl old ↦ old | inr (_, x, m, _, _) ↦ absurd (Memᴰ.not-nil m) ]) h
  add_directed_edges-Holds (x ∷ ends) links g nodes h =
      let links' : Links PoolKey =
        λ p t u. links p t u ⊎ ((p ≡ pool) × (t ≡ x.0.0) × (u ≡ x.1.0)) in
      let g' = add_directed_edge S pool x g in
      let h' : Holds S links' g' =
        add_directed_edge-Holds S stable pool x.0.0 x.1.0 x.0.1 x.1.1 g nodes.0.0 nodes.0.1 links
          h in
      Holds-same S (and_pairs links' ends) (and_pairs links (x ∷ ends))
        (add_directed_edges S pool ends g') (first_link links x ends) (later_link links x ends)
        (add_directed_edges-Holds ends links' g' (nodes_after x ends g nodes.1) h')

  -- `add_pool_pairs` changes the pools of the pairs only.
  pub record SameParts (g g' : AmmGraph PoolKey NodeIndex EdgeIndex Store) : Type 0 where
    pub graph : g'.graph ≡ g.graph
    pub nodes : g'.node_map ≡ g.node_map
    pub listed : g'.edge_map ≡ g.edge_map
    pub tokens : g'.pool_tokens ≡ g.pool_tokens
    pub version : g'.version ≡ g.version
    pub outgoing : g'.outgoing ≡ g.outgoing

  pub add_pool_pairs_parts :
      (pairs : List (Address × Address)) (g : AmmGraph PoolKey NodeIndex EdgeIndex Store)
      → SameParts g (add_pool_pairs S pool pairs g)
  unfolding add_pool_pairs
  add_pool_pairs_parts [] g = record {
    graph = refl;
    nodes = refl;
    listed = refl;
    tokens = refl;
    outgoing = refl;
    version = refl;
  }
  add_pool_pairs_parts (pair ∷ pairs) g =
      let s = add_pool_pairs_parts pairs (record g {
        pair_pools = map_insert pair (insert pool (lookup_or pair [] g.pair_pools)) g.pair_pools;
      }) in
      record {
        graph = s.graph;
        nodes = s.nodes;
        listed = s.listed;
        tokens = s.tokens;
        outgoing = s.outgoing;
        version = s.version;
      }

  pub with_pairs-Holds :
      (pairs : List (Address × Address)) (links : Links PoolKey)
      (g : AmmGraph PoolKey NodeIndex EdgeIndex Store)
      → Holds S links g
      → Holds S links (add_pool_pairs S pool pairs g)
  unfolding add_pool_pairs
  with_pairs-Holds [] links g h = h
  with_pairs-Holds (pair ∷ pairs) links g h =
      let pools = map_insert pair (insert pool (lookup_or pair [] g.pair_pools)) g.pair_pools in
      with_pairs-Holds pairs links (record g { pair_pools = pools })
        (same_parts-Holds S links g pools g.pool_tokens g.version h)

  pub add_directed_edges_listed :
      (p : PoolKey)
      → pool == p ≡ false
      → (ends : List Ends) (g : AmmGraph PoolKey NodeIndex EdgeIndex Store)
      → lookup p (add_directed_edges S pool ends g).edge_map ≡ lookup p g.edge_map
  unfolding add_directed_edges add_directed_edge
  add_directed_edges_listed p other [] g = refl
  add_directed_edges_listed p other (x ∷ ends) g =
      add_directed_edges_listed p other ends (add_directed_edge S pool x g)
      ∙ ground (
        arith,
        other,
        lookup-map_insert p pool
            (lookup_or pool [] g.edge_map
              ++ (S.add_edge x.0.1 x.1.1 (record { pool = pool }) g.graph).0 ∷ [])
            g.edge_map,
      )
