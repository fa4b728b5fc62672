-- ===== src/Graph/Insert.antt =====
-- Adding nodes and edges keeps what the graph holds, and adds the links of the new edges.
use evm_amm_search.Prelude.{
  ◌≡◌, refl, ap, ◌∙◌, inl, inr, none, some, List, [], ◌∷◌, map, All, arith, PartialEq,
  nat_PartialEq, ◌==◌, eq_refl, if◌then◌else◌, Option-cases,
}
use evm_amm_search.Prelude.Maps.{lookup_or, map_insert, lookup-map_insert}
use evm_amm_search.Route.{Address}
use evm_amm_search.Graph.{AmmGraph, StableDiGraph, node_index, outgoing_edges}
use evm_amm_search.Graph.Edges.{get_or_create_node, create_nodes}
use evm_amm_search.Graph.Held.{IsStableDiGraph, Links, IsStored, Holds}

-- Reading a map at the key that was written, and at another one.
module _ {ℓ κ} {K : Type ℓ} {V : Type κ} ⦃e : PartialEq K⦄ where
  pub lookup_or-insert :
      (j k : K) (v d : V) (m : List (K × V))
      → lookup_or j d (map_insert k v m) ≡ (if k == j then v else lookup_or j d m)
  lookup_or-insert j k v d m = ground (arith, lookup-map_insert j k v m)

module _ {PoolKey NodeIndex EdgeIndex Store : Type 0} ⦃eP : PartialEq PoolKey⦄
    ⦃eN : PartialEq NodeIndex⦄ ⦃eE : PartialEq EdgeIndex⦄
    (S : StableDiGraph PoolKey NodeIndex EdgeIndex Store) (stable : IsStableDiGraph S) where
  -- The node of a token that has none yet.
  with_node :
      Address
      → AmmGraph PoolKey NodeIndex EdgeIndex Store
      → AmmGraph PoolKey NodeIndex EdgeIndex Store
  with_node token g = record g {
    graph = (S.add_node token g.graph).1;
    node_map = map_insert token (S.add_node token g.graph).0 g.node_map;
  }

  with_node_index :
      (token : Address) (g : AmmGraph PoolKey NodeIndex EdgeIndex Store) (t : Address)
      (n : NodeIndex)
      → node_index g token ≡ none
      → node_index g t ≡ some n
      → node_index (with_node token g) t ≡ some n
  unfolding with_node node_index
  with_node_index token g t n new h =
      ground (arith, lookup-map_insert t token (S.add_node token g.graph).0 g.node_map, new, h)

  with_node-IsStored :
      (token : Address) (g : AmmGraph PoolKey NodeIndex EdgeIndex Store) (p : PoolKey)
      (t u : Address)
      → node_index g token ≡ none
      → IsStored S g p t u
      → IsStored S (with_node token g) p t u
  unfolding with_node
  with_node-IsStored token g p t u new s = record {
    from = s.from;
    to = s.to;
    from_node = with_node_index token g t s.from new s.from_node;
    to_node = with_node_index token g u s.to new s.to_node;
    cached = unfold outgoing_edges in s.cached;
    edge = s.edge;
    listed = s.listed;
    in_graph = stable.edge-add_node token g.graph s.edge ∙ s.in_graph;
  }

  with_node_all :
      (token : Address) (g : AmmGraph PoolKey NodeIndex EdgeIndex Store) (t : Address)
      → node_index (with_node token g) t
        ≡ (if token == t then some (S.add_node token g.graph).0 else node_index g t)
  unfolding with_node node_index
  with_node_all token g t = lookup-map_insert t token (S.add_node token g.graph).0 g.node_map

  with_node_weight :
      (links : Links PoolKey) (token : Address) (g : AmmGraph PoolKey NodeIndex EdgeIndex Store)
      → Holds S links g
      → (t : Address) (n : NodeIndex) → node_index (with_node token g) t ≡ some n
      → S.node_weight n (S.add_node token g.graph).1 ≡ some t
  with_node_weight links token g h t n k =
      let new_index = (S.add_node token g.graph).0 in
      ground (
        arith,
        k,
        with_node_all token g t,
        stable.node_weight-add_node token g.graph n,
        stable.fresh_node token g.graph,
        h.nodes t n,
        nat_PartialEq.eq_iff token t,
        eN.eq_iff new_index n,
      )

  with_node-Holds :
      (links : Links PoolKey) (token : Address) (g : AmmGraph PoolKey NodeIndex EdgeIndex Store)
      → node_index g token ≡ none
      → Holds S links g
      → Holds S links (with_node token g)
  unfolding with_node
  with_node-Holds links token g new h = record {
    nodes = λ t n k. with_node_weight links token g h t n k;
    owned =
        λ p e m. let (a, b, k) = h.owned p e m in (a, b, stable.edge-add_node token g.graph e ∙ k);
    sound = λ n edge m.
        let (l, from, to) = h.sound n edge (unfold outgoing_edges in m) in
        (
          l,
          with_node_index token g edge.token_in n new from,
          with_node_index token g edge.token_out edge.target new to,
        );
    complete = λ p t u l. with_node-IsStored token g p t u new (h.complete p t u l);
  }

  -- What adding nodes leaves alone.
  pub record Grows (g g' : AmmGraph PoolKey NodeIndex EdgeIndex Store) : Type 0 where
    pub kept : (t : Address) (n : NodeIndex) → node_index g t ≡ some n → node_index g' t ≡ some n
    pub same_tokens : g'.pool_tokens ≡ g.pool_tokens
    pub same_edges : g'.edge_map ≡ g.edge_map
    pub same_pairs : g'.pair_pools ≡ g.pair_pools
    pub same_version : g'.version ≡ g.version

  pub Grows-refl : (g : AmmGraph PoolKey NodeIndex EdgeIndex Store) → Grows g g
  Grows-refl g = record {
    kept = λ t n h. h;
    same_tokens = refl;
    same_edges = refl;
    same_pairs = refl;
    same_version = refl;
  }

  Grows-trans :
      (g g' g'' : AmmGraph PoolKey NodeIndex EdgeIndex Store)
      → Grows g g'
      → Grows g' g''
      → Grows g g''
  Grows-trans g g' g'' h k = record {
    kept = λ t n i. k.kept t n (h.kept t n i);
    same_tokens = k.same_tokens ∙ h.same_tokens;
    same_edges = k.same_edges ∙ h.same_edges;
    same_pairs = k.same_pairs ∙ h.same_pairs;
    same_version = k.same_version ∙ h.same_version;
  }

  get_or_create_known :
      (token : Address) (g : AmmGraph PoolKey NodeIndex EdgeIndex Store) (node : NodeIndex)
      → node_index g token ≡ some node
      → get_or_create_node S token g ≡ (node, g)
  unfolding get_or_create_node node_index
  get_or_create_known token g node known = ground (arith, known)

  get_or_create_new :
      (token : Address) (g : AmmGraph PoolKey NodeIndex EdgeIndex Store)
      → node_index g token ≡ none
      → get_or_create_node S token g ≡ ((S.add_node token g.graph).0, with_node token g)
  unfolding get_or_create_node node_index with_node
  get_or_create_new token g new = ground (arith, new)

  with_node-Grows :
      (token : Address) (g : AmmGraph PoolKey NodeIndex EdgeIndex Store)
      → node_index g token ≡ none
      → Grows g (with_node token g)
  unfolding with_node
  with_node-Grows token g new = record {
    kept = λ t n k. with_node_index token g t n new k;
    same_tokens = refl;
    same_edges = refl;
    same_pairs = refl;
    same_version = refl;
  }

  get_or_create_node-Holds :
      (links : Links PoolKey) (token : Address) (g : AmmGraph PoolKey NodeIndex EdgeIndex Store)
      → Holds S links g
      → Holds S links (get_or_create_node S token g).1
        × Grows g (get_or_create_node S token g).1
        × (node_index (get_or_create_node S token g).1 token
            ≡ some (get_or_create_node S token g).0)
  get_or_create_node-Holds links token g h = elim (Option-cases (node_index g token)) [
    | inr (node, known) ↦ rw (get_or_create_known token g node known) (h, Grows-refl g, known)
    | inl new ↦ rw (get_or_create_new token g new) (
      with_node-Holds links token g new h,
      with_node-Grows token g new,
      ground (arith, with_node_all token g token, eq_refl token),
    )
  ]

  pub create_nodes-Holds :
      (links : Links PoolKey) (tokens : List Address)
      (g : AmmGraph PoolKey NodeIndex EdgeIndex Store)
      → Holds S links g
      → Holds S links (create_nodes S tokens g).1
        × Grows g (create_nodes S tokens g).1
        × (map (λ z. z.0) (create_nodes S tokens g).0 ≡ tokens)
        × All
            (λ z. node_index (create_nodes S tokens g).1 z.0 ≡ some z.1)
            (create_nodes S tokens g).0
  unfolding create_nodes
  create_nodes-Holds links [] g h = (h, Grows-refl g, refl, tt)
  create_nodes-Holds links (token ∷ tokens) g h =
      let (node, g') = get_or_create_node S token g in
      let (h', grows, known) = get_or_create_node-Holds links token g h in
      let (h'', grows', names, nodes) = create_nodes-Holds links tokens g' h' in
      (
        h'',
        Grows-trans g g' (create_nodes S tokens g').1 grows grows',
        ap (λ rest. token ∷ rest) names,
        (grows'.kept token node known, nodes),
      )
