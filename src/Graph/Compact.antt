-- ===== src/Graph/Compact.antt =====
-- src/graph.rs: the removal of a pool, as a change of a map from pools to tokens.
use evm_amm_search.Prelude.{
  ℕ, ◌<◌, ◌≡◌, refl, ap, inl, inr, false, Option, none, some, List, [], arith, PartialEq,
  nat_PartialEq, list_PartialEq, Option-cases, length,
}
use evm_amm_search.Prelude.Maps.{lookup, lookup_or}
use evm_amm_search.Route.{Address}
use evm_amm_search.Graph.{
  AmmGraph, StableDiGraph, GraphPoolMutation, SkippedPoolReason, unchanged, removed, skipped,
  topology_changed, u64_max,
}
use evm_amm_search.Graph.Edges.{remove_pool_edges}
use evm_amm_search.Graph.Update.{remove_pool_compacting, remove_or_skip, advance}
use evm_amm_search.Graph.Held.{IsStableDiGraph}
use evm_amm_search.Graph.Removed.{remove_pool_edges_outcome, remove_pool_edges_version}
use evm_amm_search.Graph.Valid.{IsValid, remove_pool_edges-IsValid}
use evm_amm_search.Graph.Applied.{
  following, IsApplied, advanced-IsApplied, known_edges, unknown_edges, removed_pools, compacted,
  compacted-IsValid, compacted_pools, compacted_version,
}

module _ {PoolKey PoolStatus NodeIndex EdgeIndex Store : Type 0} ⦃eP : PartialEq PoolKey⦄
    ⦃eN : PartialEq NodeIndex⦄ (S : StableDiGraph PoolKey NodeIndex EdgeIndex Store)
    (g : AmmGraph PoolKey NodeIndex EdgeIndex Store) (pool : PoolKey) where
  -- The call returns, after a change of the pool to the wanted tokens.
  abbrev pub Applies :
      Option (List Address)
      → Option (GraphPoolMutation PoolStatus × AmmGraph PoolKey NodeIndex EdgeIndex Store)
      → Type 0
  Applies wanted none = ⊥
  Applies wanted (some (outcome, g')) = IsApplied S pool wanted g g' outcome

module _ (PoolStatus : Type 0) {PoolKey NodeIndex EdgeIndex Store : Type 0} ⦃eP : PartialEq PoolKey⦄
    ⦃eN : PartialEq NodeIndex⦄ ⦃eE : PartialEq EdgeIndex⦄
    (S : StableDiGraph PoolKey NodeIndex EdgeIndex Store) (stable : IsStableDiGraph S)
    (g : AmmGraph PoolKey NodeIndex EdgeIndex Store) (v : IsValid S g)
    (less : g.version.revision < u64_max) (pool : PoolKey) where
  pub count_of : (remove_pool_edges S pool g).0.0 ≡ length (lookup_or pool [] g.edge_map)
  count_of = ap (λ r. r.0) (remove_pool_edges_outcome S stable pool g)

  unchanged-IsApplied :
      (outcome : GraphPoolMutation PoolStatus)
      → topology_changed outcome ≡ false
      → lookup pool g.pool_tokens ≡ none
      → IsApplied S pool none g (remove_pool_edges S pool g).1 outcome
  unchanged-IsApplied outcome same unknown = record {
    valid = remove_pool_edges-IsValid S stable g v pool;
    pools = removed_pools S stable g v pool;
    version = rw same (remove_pool_edges_version S stable pool g);
    changed = (λ _. unknown, λ _. same);
  }

  -- Nothing is removed of a pool that is not indexed.
  remove_unknown :
      lookup pool g.pool_tokens ≡ none
      → remove_pool_compacting {PoolStatus = PoolStatus} S pool g
        ≡ some (unchanged, (remove_pool_edges S pool g).1)
  unfolding remove_pool_compacting
  remove_unknown unknown = ground (arith, count_of, unknown_edges S stable g v pool unknown)

  abbrev pub gone : AmmGraph PoolKey NodeIndex EdgeIndex Store
  gone = compacted S stable g v pool (remove_pool_edges S pool g).0.1

  pub removed-IsApplied :
      (tokens : List Address)
      → lookup pool g.pool_tokens ≡ some tokens
      → (count : ℕ)
      → (advance gone ≡ some (record gone { version = following gone.version }))
        × IsApplied {PoolStatus = PoolStatus} S pool none g
            (record gone { version = following gone.version })
            (removed count)
  removed-IsApplied tokens known count =
      advanced-IsApplied S pool none g gone (removed count) less
        (compacted-IsValid S stable g v pool _) (compacted_pools S stable g v pool _)
        (compacted_version S stable g v pool _) refl (λ e. ground (arith, e, known))

  pub remove_known :
      (tokens : List Address)
      → lookup pool g.pool_tokens ≡ some tokens
      → remove_pool_compacting {PoolStatus = PoolStatus} S pool g
        ≡ some (
          removed (remove_pool_edges S pool g).0.0,
          record gone { version = following gone.version },
        )
  unfolding remove_pool_compacting
  remove_known tokens known = ground (
    arith,
    count_of,
    known_edges S stable g v pool tokens known,
    (removed-IsApplied tokens known 0).0,
  )

  -- Removing a pool from a valid graph whose revisions are not exhausted returns a valid graph in which
  -- that pool has no tokens and the other pools keep theirs; the version advances by one exactly if the
  -- pool had tokens.
  pub remove_pool_compacting-Applies :
      Applies {PoolStatus = PoolStatus} S g pool none (remove_pool_compacting S pool g)
  remove_pool_compacting-Applies = elim (Option-cases (lookup pool g.pool_tokens)) [
    | inl unknown ↦ rw (remove_unknown unknown) (unchanged-IsApplied unchanged refl unknown)
    | inr (tokens, known) ↦
        rw (remove_known tokens known)
          (removed-IsApplied tokens known (remove_pool_edges S pool g).0.0).1
  ]

  pub remove_or_skip-Applies :
      (reason : SkippedPoolReason PoolStatus)
      → Applies {PoolStatus = PoolStatus} S g pool none (remove_or_skip S pool reason g)
  unfolding remove_or_skip
  remove_or_skip-Applies reason = elim (Option-cases (lookup pool g.pool_tokens)) [
    | inl unknown ↦
        rw (remove_or_skip, remove_unknown unknown)
          (unchanged-IsApplied (skipped reason) refl unknown)
    | inr (tokens, known) ↦
        rw (remove_or_skip, remove_known tokens known)
          (removed-IsApplied tokens known (remove_pool_edges S pool g).0.0).1
  ]
