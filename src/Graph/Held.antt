-- ===== src/Graph/Held.antt =====
-- What the stable graph promises, and what the maps of `AmmGraph` say of the directed edges that it
-- holds.
use mathlib.Core.List.{Memᴰ}
use evm_amm_search.Prelude.{
  ◌≡◌, ◌≢◌, true, false, none, some, List, [], arith, PartialEq, nat_PartialEq, ◌==◌, if◌then◌else◌,
}
use evm_amm_search.Prelude.Maps.{HashMap, lookup_or}
use evm_amm_search.Route.{Address}
use evm_amm_search.Enumerate.{CachedOutgoingEdge}
use evm_amm_search.Graph.{
  GraphVersion, AmmGraph, StableDiGraph, EdgeData, node_index, outgoing_edges,
}

-- The documented behaviour of the methods: new indices are fresh (an edge needs nodes at its ends),
-- other nodes and edges keep their indices, `edges_directed` yields every edge at the node, and
-- removing a node adds no edge, removes no edge of other nodes, and takes none from another node if
-- it has none itself.
pub record IsStableDiGraph {PoolKey NodeIndex EdgeIndex Store : Type 0} ⦃eN : PartialEq NodeIndex⦄
    ⦃eE : PartialEq EdgeIndex⦄ (S : StableDiGraph PoolKey NodeIndex EdgeIndex Store) : Type 0 where
  pub fresh_node : (t : Address) (g : Store) → S.node_weight (S.add_node t g).0 g ≡ none
  pub node_weight-add_node :
      (t : Address) (g : Store) (n : NodeIndex)
      → S.node_weight n (S.add_node t g).1
        ≡ (if (S.add_node t g).0 == n then some t else S.node_weight n g)
  pub edge-add_node :
      (t : Address) (g : Store) (e : EdgeIndex) → S.edge e (S.add_node t g).1 ≡ S.edge e g
  pub fresh_edge :
      (a b : NodeIndex) (w : EdgeData PoolKey) (g : Store) (t u : Address)
      → S.node_weight a g ≡ some t
      → S.node_weight b g ≡ some u
      → S.edge (S.add_edge a b w g).0 g ≡ none
  pub edge-add_edge :
      (a b : NodeIndex) (w : EdgeData PoolKey) (g : Store) (t u : Address) (e : EdgeIndex)
      → S.node_weight a g ≡ some t
      → S.node_weight b g ≡ some u
      → S.edge e (S.add_edge a b w g).1
        ≡ (if (S.add_edge a b w g).0 == e then some (a, b, w) else S.edge e g)
  pub node_weight-add_edge :
      (a b : NodeIndex) (w : EdgeData PoolKey) (g : Store) (t u : Address) (n : NodeIndex)
      → S.node_weight a g ≡ some t
      → S.node_weight b g ≡ some u
      → S.node_weight n (S.add_edge a b w g).1 ≡ S.node_weight n g
  pub edge-remove_edge :
      (e : EdgeIndex) (g : Store) (e' : EdgeIndex)
      → S.edge e' (S.remove_edge e g) ≡ (if e == e' then none else S.edge e' g)
  pub node_weight-remove_edge :
      (e : EdgeIndex) (g : Store) (n : NodeIndex)
      → S.node_weight n (S.remove_edge e g) ≡ S.node_weight n g
  pub node_weight-remove_node :
      (n : NodeIndex) (g : Store) (n' : NodeIndex)
      → S.node_weight n' (S.remove_node n g) ≡ (if n == n' then none else S.node_weight n' g)
  pub edge-remove_node :
      (n a b : NodeIndex) (w : EdgeData PoolKey) (g : Store) (e : EdgeIndex)
      → S.edge e g ≡ some (a, b, w)
      → a ≢ n
      → b ≢ n
      → S.edge e (S.remove_node n g) ≡ some (a, b, w)
  pub no_edge-remove_node :
      (n : NodeIndex) (g : Store) (e : EdgeIndex)
      → S.edge e g ≡ none
      → S.edge e (S.remove_node n g) ≡ none
  pub outgoing-remove_node :
      (n : NodeIndex) (g : Store) (m : NodeIndex)
      → S.has_outgoing n g ≡ false
      → S.has_incoming n g ≡ false
      → S.has_outgoing m (S.remove_node n g) ≡ S.has_outgoing m g
  pub incoming-remove_node :
      (n : NodeIndex) (g : Store) (m : NodeIndex)
      → S.has_outgoing n g ≡ false
      → S.has_incoming n g ≡ false
      → S.has_incoming m (S.remove_node n g) ≡ S.has_incoming m g
  pub outgoing-edge :
      (g : Store) (e : EdgeIndex) (a b : NodeIndex) (w : EdgeData PoolKey)
      → S.edge e g ≡ some (a, b, w)
      → S.has_outgoing a g ≡ true
  pub incoming-edge :
      (g : Store) (e : EdgeIndex) (a b : NodeIndex) (w : EdgeData PoolKey)
      → S.edge e g ≡ some (a, b, w)
      → S.has_incoming b g ≡ true

-- Which pool leads from which token to which.
abbrev pub Links : Type 0 → Type 1
Links PoolKey = PoolKey → Address → Address → Type 0

module _ {PoolKey NodeIndex EdgeIndex Store : Type 0} ⦃eP : PartialEq PoolKey⦄
    ⦃eN : PartialEq NodeIndex⦄ (S : StableDiGraph PoolKey NodeIndex EdgeIndex Store) where
  -- A link in all three places that keep it.
  pub record IsStored (g : AmmGraph PoolKey NodeIndex EdgeIndex Store) (pool : PoolKey)
      (token_in token_out : Address) : Type 0 where
    pub from : NodeIndex
    pub to : NodeIndex
    pub from_node : node_index g token_in ≡ some from
    pub to_node : node_index g token_out ≡ some to
    pub cached :
        Memᴰ
          (record { target = to; token_in = token_in; token_out = token_out; pool = pool })
          (outgoing_edges g from)
    pub edge : EdgeIndex
    pub listed : Memᴰ edge (lookup_or pool [] g.edge_map)
    pub in_graph : S.edge edge g.graph ≡ some (from, to, record { pool = pool })

  pub record Holds (links : Links PoolKey) (g : AmmGraph PoolKey NodeIndex EdgeIndex Store)
      : Type 0 where
    pub nodes :
        (t : Address) (n : NodeIndex) → node_index g t ≡ some n → S.node_weight n g.graph ≡ some t
    pub owned :
        (p : PoolKey) (e : EdgeIndex)
        → Memᴰ e (lookup_or p [] g.edge_map)
        → (a : NodeIndex) × (b : NodeIndex) × (S.edge e g.graph ≡ some (a, b, record { pool = p }))
    pub sound :
        (n : NodeIndex) (edge : CachedOutgoingEdge PoolKey NodeIndex)
        → Memᴰ edge (outgoing_edges g n)
        → links edge.pool edge.token_in edge.token_out
          × (node_index g edge.token_in ≡ some n)
          × (node_index g edge.token_out ≡ some edge.target)
    pub complete : (p : PoolKey) (t u : Address) → links p t u → IsStored g p t u

  -- The same links, described otherwise.
  pub Holds-same :
      (links links' : Links PoolKey) (g : AmmGraph PoolKey NodeIndex EdgeIndex Store)
      → ((p : PoolKey) (t u : Address) → links p t u → links' p t u)
      → ((p : PoolKey) (t u : Address) → links' p t u → links p t u)
      → Holds links g
      → Holds links' g
  Holds-same links links' g there back h = record {
    nodes = h.nodes;
    owned = h.owned;
    sound = λ n edge m.
        let (l, from, to) = h.sound n edge m in
        (there edge.pool edge.token_in edge.token_out l, from, to);
    complete = λ p t u l. h.complete p t u (back p t u l);
  }

  pub node_injective :
      (links : Links PoolKey) (g : AmmGraph PoolKey NodeIndex EdgeIndex Store)
      → Holds links g
      → (t u : Address) (n : NodeIndex) → node_index g t ≡ some n
      → node_index g u ≡ some n
      → t ≡ u
  node_injective links g h t u n k l = ground (arith, h.nodes t n k, h.nodes u n l)

  -- The pools of the pairs, the tokens of the pools and the version play no part.
  pub same_parts-Holds :
      (links : Links PoolKey) (g : AmmGraph PoolKey NodeIndex EdgeIndex Store)
      (pairs : HashMap (Address × Address) (List PoolKey)) (tokens : HashMap PoolKey (List Address))
      (version : GraphVersion)
      → Holds links g
      → Holds links (record g { pair_pools = pairs; pool_tokens = tokens; version = version })
  same_parts-Holds links g pairs tokens version h = record {
    nodes = unfold node_index in h.nodes;
    owned = h.owned;
    sound = unfold node_index outgoing_edges in h.sound;
    complete = λ p t u l.
        let s = h.complete p t u l in
        record {
          from = s.from;
          to = s.to;
          from_node = unfold node_index in s.from_node;
          to_node = unfold node_index in s.to_node;
          cached = unfold outgoing_edges in s.cached;
          edge = s.edge;
          listed = s.listed;
          in_graph = s.in_graph;
        };
  }
