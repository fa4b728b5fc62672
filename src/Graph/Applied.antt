-- ===== src/Graph/Applied.antt =====
-- src/graph.rs: what a change of one pool leaves, for any of the methods that make one.
use mathlib.Core.List.{Memᴰ}
use mathlib.Core.List.Memᴰ
use evm_amm_search.Prelude.{
  ◌+◌, ◌<◌, ◌≤◌, ◌≡◌, ◌≢◌, ◌↔◌, refl, ap, ◌∙◌, inl, inr, true, false, Option, none, some, List, [],
  ◌∷◌, arith, PartialEq, nat_PartialEq, ◌==◌, if◌then◌else◌, List-cases, length,
}
use evm_amm_search.Prelude.Maps.{lookup, lookup_or, lookup-map_insert, lookup-map_remove}
use evm_amm_search.Route.{Address}
use evm_amm_search.Graph.{
  AmmGraph, StableDiGraph, GraphVersion, GraphPoolMutation, topology_changed, u64_max, checked_next,
}
use evm_amm_search.Graph.Edges.{remove_pool_edges, add_pool_edges, prune_orphan_tokens}
use evm_amm_search.Graph.Update.{advance}
use evm_amm_search.Graph.Held.{IsStableDiGraph}
use evm_amm_search.Graph.Pairs.{HasDistinct}
use evm_amm_search.Graph.Added.{add_pool_edges_tokens, add_pool_edges_version}
use evm_amm_search.Graph.Removed.{remove_pool_edges_tokens, remove_pool_edges_version}
use evm_amm_search.Graph.Prune.{prune_orphan_tokens-IsSameTokens}
use evm_amm_search.Graph.Valid.{
  IsValid, with_version-IsValid, remove_pool_edges-IsValid, prune_orphan_tokens-IsValid,
}

abbrev pub following : GraphVersion → GraphVersion
following version = record { lineage = version.lineage; revision = version.revision + 1 }

module _ {PoolKey NodeIndex EdgeIndex Store : Type 0} ⦃eP : PartialEq PoolKey⦄
    ⦃eN : PartialEq NodeIndex⦄ where
  advance_lem :
      (g : AmmGraph PoolKey NodeIndex EdgeIndex Store)
      → g.version.revision < u64_max
      → advance g ≡ some (record g { version = following g.version })
  unfolding advance checked_next
  advance_lem g less = ground (arith, less)

module _ {PoolKey PoolStatus NodeIndex EdgeIndex Store : Type 0} ⦃eP : PartialEq PoolKey⦄
    ⦃eN : PartialEq NodeIndex⦄ (S : StableDiGraph PoolKey NodeIndex EdgeIndex Store) where
  -- After the change the pool has the wanted tokens, or none, and the other pools have theirs; the
  -- version is the next one exactly if the tokens changed, and the outcome says so.
  pub record IsApplied (pool : PoolKey) (wanted : Option (List Address))
      (g g' : AmmGraph PoolKey NodeIndex EdgeIndex Store) (outcome : GraphPoolMutation PoolStatus)
      : Type 0 where
    pub valid : IsValid S g'
    pub pools :
        (p : PoolKey)
        → lookup p g'.pool_tokens ≡ (if pool == p then wanted else lookup p g.pool_tokens)
    pub version : g'.version ≡ (if topology_changed outcome then following g.version else g.version)
    pub changed : (topology_changed outcome ≡ false) ↔ (lookup pool g.pool_tokens ≡ wanted)

  pub advanced-IsApplied :
      (pool : PoolKey) (wanted : Option (List Address))
      (g g' : AmmGraph PoolKey NodeIndex EdgeIndex Store) (outcome : GraphPoolMutation PoolStatus)
      → g.version.revision < u64_max
      → IsValid S g'
      → ((p : PoolKey)
          → lookup p g'.pool_tokens ≡ (if pool == p then wanted else lookup p g.pool_tokens))
      → g'.version ≡ g.version
      → topology_changed outcome ≡ true
      → lookup pool g.pool_tokens ≢ wanted
      → (advance g' ≡ some (record g' { version = following g'.version }))
        × IsApplied pool wanted g (record g' { version = following g'.version }) outcome
  advanced-IsApplied pool wanted g g' outcome less valid pools same changes differs = (
    advance_lem g' (rw same less),
    record {
      valid = with_version-IsValid S g' (following g'.version) valid;
      pools = pools;
      version = rw changes (ap following same);
      changed = (λ e. absurd (ground (arith, e, changes)), λ e. absurd (differs e));
    },
  )

module _ {PoolKey NodeIndex EdgeIndex Store : Type 0} ⦃eP : PartialEq PoolKey⦄
    ⦃eN : PartialEq NodeIndex⦄ ⦃eE : PartialEq EdgeIndex⦄
    (S : StableDiGraph PoolKey NodeIndex EdgeIndex Store) (stable : IsStableDiGraph S)
    (g : AmmGraph PoolKey NodeIndex EdgeIndex Store) (v : IsValid S g) (pool : PoolKey) where
  edges_of :
      (tokens : List Address)
      → lookup pool g.pool_tokens ≡ some tokens
      → HasDistinct tokens
      → 2 ≤ length tokens
      → length (lookup_or pool [] g.edge_map) == 0 ≡ false
  edges_of [] known distinct enough = absurd (omega (arith, enough))
  edges_of (a ∷ []) known distinct enough = absurd (omega (arith, enough))
  edges_of (a ∷ b ∷ tokens) known distinct enough =
      let s =
        v.holds.complete pool a b
          (a ∷ b ∷ tokens, known, Memᴰ.head refl, Memᴰ.tail (Memᴰ.head refl), distinct.0.0) in
      elim (List-cases (lookup_or pool [] g.edge_map)) [
        | inl empty ↦ absurd (Memᴰ.not-nil (rw empty at (s.listed)))
        | inr (edge, edges, is) ↦ rw is (ground arith)
      ]

  pub known_edges :
      (tokens : List Address)
      → lookup pool g.pool_tokens ≡ some tokens
      → length (lookup_or pool [] g.edge_map) == 0 ≡ false
  known_edges tokens known =
      let (distinct, enough) = v.distinct pool tokens known in edges_of tokens known distinct enough

  pub unknown_edges :
      lookup pool g.pool_tokens ≡ none → length (lookup_or pool [] g.edge_map) == 0 ≡ true
  unknown_edges unknown = rw (v.owners pool unknown) (ground arith)

  pub removed_pools :
      (p : PoolKey)
      → lookup p (remove_pool_edges S pool g).1.pool_tokens
        ≡ (if pool == p then none else lookup p g.pool_tokens)
  removed_pools p =
      ap (lookup p) (remove_pool_edges_tokens S stable pool g)
      ∙ lookup-map_remove p pool g.pool_tokens

  module _ (tokens' : List Address) where
    abbrev pub compacted : AmmGraph PoolKey NodeIndex EdgeIndex Store
    compacted = prune_orphan_tokens S tokens' (remove_pool_edges S pool g).1

    pub compacted-IsValid : IsValid S compacted
    compacted-IsValid =
        prune_orphan_tokens-IsValid S stable (remove_pool_edges S pool g).1
          (remove_pool_edges-IsValid S stable g v pool) tokens'

    pub compacted_pools :
        (p : PoolKey)
        → lookup p compacted.pool_tokens ≡ (if pool == p then none else lookup p g.pool_tokens)
    compacted_pools p =
        ap (lookup p)
          (prune_orphan_tokens-IsSameTokens S tokens' (remove_pool_edges S pool g).1).tokens
        ∙ removed_pools p

    pub compacted_version : compacted.version ≡ g.version
    compacted_version =
        (prune_orphan_tokens-IsSameTokens S tokens' (remove_pool_edges S pool g).1).version
        ∙ remove_pool_edges_version S stable pool g

module _ {PoolKey NodeIndex EdgeIndex Store : Type 0} ⦃eP : PartialEq PoolKey⦄
    ⦃eN : PartialEq NodeIndex⦄ ⦃eE : PartialEq EdgeIndex⦄
    (S : StableDiGraph PoolKey NodeIndex EdgeIndex Store) (stable : IsStableDiGraph S)
    (g : AmmGraph PoolKey NodeIndex EdgeIndex Store) (v : IsValid S g) (pool : PoolKey)
    (tokens : List Address) (distinct : HasDistinct tokens)
    (new : lookup pool g.pool_tokens ≡ none) where
  pub extended_pools :
      (p : PoolKey)
      → lookup p (add_pool_edges S pool tokens g).pool_tokens
        ≡ (if pool == p then some tokens else lookup p g.pool_tokens)
  extended_pools p =
      ap (lookup p) (add_pool_edges_tokens S stable pool tokens distinct g new v.holds)
      ∙ lookup-map_insert p pool tokens g.pool_tokens

  pub extended_version : (add_pool_edges S pool tokens g).version ≡ g.version
  extended_version = add_pool_edges_version S stable pool tokens distinct g new v.holds
