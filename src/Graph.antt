-- ===== src/Graph.antt =====
-- src/graph.rs: the data of the token graph. The petgraph storage is an interface: node and edge
-- indices are its types. `PoolStatus` and `PoolKey` are types of the adapter crate.
pub mod Tokens
pub mod Edges
pub mod Update
pub mod Held
pub mod Insert
pub mod Connect
pub mod Pairs
pub mod Directed
pub mod Added
pub mod Forget
pub mod Remove
pub mod Without
pub mod Removed
pub mod Prune
pub mod Normalized
pub mod Valid
pub mod Applied
pub mod Compact
pub mod Orphans
pub mod Refine
pub mod Registered
pub mod Registry
pub mod Hops
pub mod Routes
use Prim.Native.String.{String}
use evm_amm_search.Prelude.{
  ℕ, ◌+◌, ◌-◌, ◌*◌, ◌^◌, Bool, false, true, ◌&&◌, ◌||◌, Option, none, some, List, [], ◌∷◌,
  if◌then◌else◌, ltb, PartialEq, ◌==◌, nat_PartialEq,
}
use evm_amm_search.Prelude.Maps.{HashMap, lookup, lookup_or}
use evm_amm_search.Route.{Address}
use evm_amm_search.Enumerate.{CachedOutgoingEdge, TokenGraph}

abbrev pub u64_max : ℕ
u64_max = 2 ^ 64 - 1

pub record GraphVersion : Type 0 where
  pub lineage : ℕ
  pub revision : ℕ

-- From the counter of the process; `none` is the panic when it is exhausted.
unfoldable pub initial_version : ℕ → Option (GraphVersion × ℕ)
initial_version next_lineage =
    if ltb next_lineage u64_max
    then some (record { lineage = next_lineage; revision = 0 }, next_lineage + 1)
    else none

unfoldable pub checked_next : GraphVersion → Option GraphVersion
checked_next v =
    if ltb v.revision u64_max
    then some (record { lineage = v.lineage; revision = v.revision + 1 })
    else none

pub data SkippedPoolReason (PoolStatus : Type 0) : Type 0 where
  status : PoolStatus → SkippedPoolReason PoolStatus
  missing_metadata : String → SkippedPoolReason PoolStatus
  unsupported_metadata : SkippedPoolReason PoolStatus
  too_few_tokens : ℕ → SkippedPoolReason PoolStatus

pub data GraphPoolMutation (PoolStatus : Type 0) : Type 0 where
  unchanged : GraphPoolMutation PoolStatus
  added : ℕ → GraphPoolMutation PoolStatus
  updated : ℕ → ℕ → GraphPoolMutation PoolStatus
  removed : ℕ → GraphPoolMutation PoolStatus
  skipped : SkippedPoolReason PoolStatus → GraphPoolMutation PoolStatus

abbrev pub topology_changed : {PoolStatus : Type 0} → GraphPoolMutation PoolStatus → Bool
topology_changed unchanged = false
topology_changed (added _) = true
topology_changed (updated _ _) = true
topology_changed (removed _) = true
topology_changed (skipped _) = false

pub record EdgeData (PoolKey : Type 0) : Type 0 where
  pub pool : PoolKey

-- The methods of `StableDiGraph<Address, EdgeData>` that the source calls. `edge` gives the two ends
-- of an edge and its weight, `has_outgoing` and `has_incoming` say whether `edges_directed` yields
-- an edge.
pub record StableDiGraph (PoolKey NodeIndex EdgeIndex Store : Type 0) : Type 0 where
  pub empty : Store
  pub add_node : Address → Store → NodeIndex × Store
  pub add_edge : NodeIndex → NodeIndex → EdgeData PoolKey → Store → EdgeIndex × Store
  pub remove_edge : EdgeIndex → Store → Store
  pub remove_node : NodeIndex → Store → Store
  pub node_weight : NodeIndex → Store → Option Address
  pub edge : EdgeIndex → Store → Option (NodeIndex × NodeIndex × EdgeData PoolKey)
  pub has_outgoing : NodeIndex → Store → Bool
  pub has_incoming : NodeIndex → Store → Bool

pub record AmmGraph (PoolKey NodeIndex EdgeIndex Store : Type 0) : Type 0 where
  pub graph : Store
  pub node_map : HashMap Address NodeIndex
  pub edge_map : HashMap PoolKey (List EdgeIndex)
  pub pool_tokens : HashMap PoolKey (List Address)
  pub pair_pools : HashMap (Address × Address) (List PoolKey)
  pub outgoing : HashMap NodeIndex (List (CachedOutgoingEdge PoolKey NodeIndex))
  pub version : GraphVersion

module _ {PoolKey NodeIndex EdgeIndex Store : Type 0} ⦃eN : PartialEq NodeIndex⦄ where
  unfoldable pub node_index :
      AmmGraph PoolKey NodeIndex EdgeIndex Store → Address → Option NodeIndex
  node_index g token = lookup token g.node_map

  unfoldable pub outgoing_edges :
      AmmGraph PoolKey NodeIndex EdgeIndex Store
      → NodeIndex
      → List (CachedOutgoingEdge PoolKey NodeIndex)
  outgoing_edges g node = lookup_or node [] g.outgoing

  -- The two methods that the route enumeration calls.
  abbrev pub token_graph : AmmGraph PoolKey NodeIndex EdgeIndex Store → TokenGraph PoolKey NodeIndex
  token_graph g = record { node_index = node_index g; outgoing_edges = outgoing_edges g }

module _ {PoolKey NodeIndex EdgeIndex Store : Type 0}
    (S : StableDiGraph PoolKey NodeIndex EdgeIndex Store) where
  -- `AmmGraph::new`, with the version that `GraphVersion::initial` gives.
  abbrev pub new_graph : GraphVersion → AmmGraph PoolKey NodeIndex EdgeIndex Store
  new_graph version = record {
    graph = S.empty;
    node_map = [];
    edge_map = [];
    pool_tokens = [];
    pair_pools = [];
    outgoing = [];
    version = version;
  }
