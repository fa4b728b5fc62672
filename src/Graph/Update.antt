-- ===== src/Graph/Update.antt =====
-- src/graph.rs: the public methods of `AmmGraph` that change it. A change of the topology advances the
-- version; `none` is the panic when the revisions are exhausted.
use mathlib.Core.Option
use evm_amm_search.Prelude.{
  ℕ, Bool, ◌&&◌, Option, none, some, List, [], ◌∷◌, ◌++◌, if◌then◌else◌, PartialEq, ◌==◌,
  nat_PartialEq, list_PartialEq, all, is_some, is_some_and, length, ok, err,
}
use evm_amm_search.Prelude.Sort.{sort}
use evm_amm_search.Prelude.Maps.{HashMap, lookup}
use evm_amm_search.Route.{Address}
use evm_amm_search.Graph.{
  AmmGraph, StableDiGraph, GraphVersion, checked_next, new_graph, SkippedPoolReason,
  GraphPoolMutation, status, unchanged, added, updated, removed, skipped,
}
use evm_amm_search.Graph.Tokens.{
  GraphBuildOptions, Statuses, PoolRegistration, tokens_for_pool, is_indexable_status,
  indexable_tokens,
}
use evm_amm_search.Graph.Edges.{
  directed_edge_count, add_pool_edges, remove_pool_edges, prune_orphan_tokens,
}

pub record SkippedPool (PoolKey PoolStatus : Type 0) : Type 0 where
  pub pool : PoolKey
  pub reason : SkippedPoolReason PoolStatus

pub record GraphBuildSummary (PoolKey PoolStatus : Type 0) : Type 0 where
  pub indexed_pools : List PoolKey
  pub skipped_pools : List (SkippedPool PoolKey PoolStatus)

pub record GraphBuildReport (PoolKey PoolStatus NodeIndex EdgeIndex Store : Type 0) : Type 0 where
  pub graph : AmmGraph PoolKey NodeIndex EdgeIndex Store
  pub indexed_pools : List PoolKey
  pub skipped_pools : List (SkippedPool PoolKey PoolStatus)

-- `==` of two maps: as many keys, and each key of the one has an equal value in the other.
unfoldable pub map_eq {ℓ κ} :
    {K : Type ℓ} {V : Type κ} ⦃eK : PartialEq K⦄ ⦃eV : PartialEq V⦄
    → HashMap K V
    → HashMap K V
    → Bool
map_eq m m' =
    length m == length m'
    && all (λ entry. is_some_and (lookup entry.0 m') (λ value. entry.1 == value)) m

module _ {PoolKey NodeIndex EdgeIndex Store : Type 0} ⦃eP : PartialEq PoolKey⦄
    ⦃eN : PartialEq NodeIndex⦄ where
  -- `self.version = self.version.next()`
  unfoldable pub advance :
      AmmGraph PoolKey NodeIndex EdgeIndex Store
      → Option (AmmGraph PoolKey NodeIndex EdgeIndex Store)
  advance g = Option.map (λ v. record g { version = v }) (checked_next g.version)

  unfoldable pub set_version :
      GraphVersion
      → AmmGraph PoolKey NodeIndex EdgeIndex Store
      → AmmGraph PoolKey NodeIndex EdgeIndex Store
  set_version version g = record g { version = version }

  unfoldable pub same_observable_topology :
      AmmGraph PoolKey NodeIndex EdgeIndex Store → AmmGraph PoolKey NodeIndex EdgeIndex Store → Bool
  same_observable_topology g g' =
      map_eq g.pool_tokens g'.pool_tokens
      && (length g.node_map == length g'.node_map
          && all (λ entry. is_some (lookup entry.0 g'.node_map)) g.node_map)

module _ {PoolKey NodeIndex EdgeIndex Store : Type 0} ⦃eP : PartialEq PoolKey⦄
    ⦃eN : PartialEq NodeIndex⦄ (S : StableDiGraph PoolKey NodeIndex EdgeIndex Store) where
  unfoldable pub remove_pool :
      PoolKey
      → AmmGraph PoolKey NodeIndex EdgeIndex Store
      → Option (ℕ × AmmGraph PoolKey NodeIndex EdgeIndex Store)
  remove_pool pool g =
      let removal = remove_pool_edges S pool g in
      if removal.0.0 == 0
      then some (0, removal.1)
      else Option.map (λ g'. (removal.0.0, g')) (advance removal.1)

module _ {PoolKey PoolStatus NodeIndex EdgeIndex Store : Type 0} ⦃eP : PartialEq PoolKey⦄
    ⦃eN : PartialEq NodeIndex⦄ (S : StableDiGraph PoolKey NodeIndex EdgeIndex Store) where
  unfoldable pub remove_pool_compacting :
      PoolKey
      → AmmGraph PoolKey NodeIndex EdgeIndex Store
      → Option (GraphPoolMutation PoolStatus × AmmGraph PoolKey NodeIndex EdgeIndex Store)
  remove_pool_compacting pool g =
      let removal = remove_pool_edges S pool g in
      if removal.0.0 == 0
      then some (unchanged, removal.1)
      else Option.map (λ g'. (removed removal.0.0, g'))
          (advance (prune_orphan_tokens S removal.0.1 removal.1))

  -- The arm for the other outcomes of a removal is unreachable in the source.
  unfoldable pub remove_or_skip :
      PoolKey
      → SkippedPoolReason PoolStatus
      → AmmGraph PoolKey NodeIndex EdgeIndex Store
      → Option (GraphPoolMutation PoolStatus × AmmGraph PoolKey NodeIndex EdgeIndex Store)
  remove_or_skip pool reason g = elim (remove_pool_compacting pool g) [
    | none ↦ none
    | some outcome ↦ elim (outcome.0) [
      | removed edges ↦ some (removed edges, outcome.1)
      | unchanged ↦ some (skipped reason, outcome.1)
      | _ ↦ none
    ]
  ]

  unfoldable pub replace_pool :
      PoolKey
      → List Address
      → AmmGraph PoolKey NodeIndex EdgeIndex Store
      → Option (GraphPoolMutation PoolStatus × AmmGraph PoolKey NodeIndex EdgeIndex Store)
  replace_pool pool tokens g =
      let removal = remove_pool_edges S pool g in
      Option.map (λ g'. (updated removal.0.0 (directed_edge_count (length tokens)), g'))
        (advance (add_pool_edges S pool tokens (prune_orphan_tokens S removal.0.1 removal.1)))

  unfoldable pub add_pool :
      PoolKey
      → List Address
      → AmmGraph PoolKey NodeIndex EdgeIndex Store
      → Option (GraphPoolMutation PoolStatus × AmmGraph PoolKey NodeIndex EdgeIndex Store)
  add_pool pool tokens g =
      Option.map (λ g'. (added (directed_edge_count (length tokens)), g'))
        (advance (add_pool_edges S pool tokens g))

  -- A pool that is indexable, with its tokens.
  unfoldable pub apply_tokens :
      PoolKey
      → List Address
      → AmmGraph PoolKey NodeIndex EdgeIndex Store
      → Option (GraphPoolMutation PoolStatus × AmmGraph PoolKey NodeIndex EdgeIndex Store)
  apply_tokens pool tokens g = elim (lookup pool g.pool_tokens) [
    | none ↦ add_pool pool tokens g
    | some current ↦ if current == tokens then some (unchanged, g) else replace_pool pool tokens g
  ]

  module _ ⦃eT : PartialEq PoolStatus⦄ (statuses : Statuses PoolStatus)
      (options : GraphBuildOptions) where
    unfoldable pub apply_pool :
        PoolRegistration PoolKey PoolStatus
        → AmmGraph PoolKey NodeIndex EdgeIndex Store
        → Option (GraphPoolMutation PoolStatus × AmmGraph PoolKey NodeIndex EdgeIndex Store)
    apply_pool registration g =
        if is_indexable_status statuses registration.status options
        then elim (tokens_for_pool registration) [
          | err reason ↦ remove_or_skip registration.key reason g
          | ok tokens ↦ apply_tokens registration.key tokens g
        ]
        else remove_or_skip registration.key (status registration.status) g

    abbrev pub Report : Type 0
    Report = GraphBuildReport PoolKey PoolStatus NodeIndex EdgeIndex Store

    -- The body of the loop of `from_registry`.
    unfoldable pub index_pool : PoolRegistration PoolKey PoolStatus → Report → Report
    index_pool registration r = elim (indexable_tokens statuses options registration) [
      | err reason ↦ record r {
        skipped_pools = r.skipped_pools ++ record { pool = registration.key; reason = reason } ∷ [];
      }
      | ok tokens ↦ record r {
        graph = add_pool_edges S registration.key tokens r.graph;
        indexed_pools = r.indexed_pools ++ registration.key ∷ [];
      }
    ]

    unfoldable pub index_pools : List (PoolRegistration PoolKey PoolStatus) → Report → Report
    index_pools [] r = r
    index_pools (registration ∷ registrations) r =
        index_pools registrations (index_pool registration r)

    module _ (key_before : PoolKey → PoolKey → Bool) where
      -- `registry.pools()` sorted by `pool_key_sort_key`, the debug text of the key.
      unfoldable pub from_registry :
          List (PoolRegistration PoolKey PoolStatus) → GraphVersion → Report
      from_registry pools version =
          index_pools (sort (λ a b. key_before a.key b.key) pools)
            (record { graph = new_graph S version; indexed_pools = []; skipped_pools = [] })

      unfoldable pub rebuild_from_registry :
          List (PoolRegistration PoolKey PoolStatus)
          → GraphVersion
          → AmmGraph PoolKey NodeIndex EdgeIndex Store
          → Option
              (GraphBuildSummary PoolKey PoolStatus × AmmGraph PoolKey NodeIndex EdgeIndex Store)
      rebuild_from_registry pools version g =
          let report = from_registry pools version in
          let summary : GraphBuildSummary PoolKey PoolStatus = record {
            indexed_pools = report.indexed_pools;
            skipped_pools = report.skipped_pools;
          } in
          if same_observable_topology g report.graph
          then some (summary, record (report.graph) { version = g.version })
          else Option.map (λ v. (summary, record (report.graph) { version = v }))
              (checked_next g.version)
