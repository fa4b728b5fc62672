-- ===== src/Graph/Orphans.antt =====
-- src/graph.rs: what the removal of a pool takes out of the stored graph.
use mathlib.Core.List.{Memᴰ}
use mathlib.Core.List.Memᴰ
use evm_amm_search.Prelude.{◌≡◌, ◌⊎◌, true, ◌||◌, none, some, List, PartialEq, nat_PartialEq}
use evm_amm_search.Route.{Address}
use evm_amm_search.Graph.{AmmGraph, StableDiGraph, node_index}
use evm_amm_search.Graph.Held.{IsStableDiGraph}

module _ {PoolKey NodeIndex EdgeIndex Store : Type 0} ⦃eP : PartialEq PoolKey⦄
    ⦃eN : PartialEq NodeIndex⦄ ⦃eE : PartialEq EdgeIndex⦄
    (S : StableDiGraph PoolKey NodeIndex EdgeIndex Store) (stable : IsStableDiGraph S) where
  abbrev G : Type 0
  G = AmmGraph PoolKey NodeIndex EdgeIndex Store

  -- The token has no node, or one with edges.
  abbrev pub IsLinkedOrGone : G → Address → Type 0
  IsLinkedOrGone g token =
      (node_index g token ≡ none)
      ⊎ ((node : NodeIndex) × (node_index g token ≡ some node)
          × ((S.has_outgoing node g.graph || S.has_incoming node g.graph) ≡ true))
