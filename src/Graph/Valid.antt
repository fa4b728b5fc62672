-- ===== src/Graph/Valid.antt =====
-- src/graph.rs: the invariant of `AmmGraph`, kept by the private methods.
use mathlib.Core.List.Memᴰ
use mathlib.Core.Path.{subst}
use evm_amm_search.Prelude.{
  ◌≤◌, ◌≡◌, refl, sym, ap, inl, inr, none, some, List, [], arith, PartialEq, nat_PartialEq, ◌==◌,
  Bool-cases, length,
}
use evm_amm_search.Prelude.Maps.{HashMap, lookup, lookup_or, lookup-map_insert, lookup-map_remove}
use evm_amm_search.Route.{Address}
use evm_amm_search.Graph.{
  AmmGraph, StableDiGraph, GraphVersion, new_graph, node_index, outgoing_edges,
}
use evm_amm_search.Graph.Edges.{remove_pool_edges, add_pool_edges, prune_orphan_tokens}
use evm_amm_search.Graph.Held.{IsStableDiGraph, Holds, same_parts-Holds}
use evm_amm_search.Graph.Pairs.{HasDistinct}
use evm_amm_search.Graph.Added.{
  PoolLinks, add_pool_edges-Holds, add_pool_edges_tokens, add_pool_edges_listed,
}
use evm_amm_search.Graph.Removed.{
  remove_pool_edges-Holds, remove_pool_edges_tokens, remove_pool_edges_listed,
}
use evm_amm_search.Graph.Prune.{prune_orphan_tokens-Holds, prune_orphan_tokens-IsSameTokens}

module _ {PoolKey NodeIndex EdgeIndex Store : Type 0} ⦃eP : PartialEq PoolKey⦄
    ⦃eN : PartialEq NodeIndex⦄ (S : StableDiGraph PoolKey NodeIndex EdgeIndex Store) where
  -- The parts hold the links of the pools, each pool has two or more distinct tokens, and `edge_map`
  -- lists edges only for pools that have tokens. Stored edges that no pool lists, and nodes without
  -- edges, are not ruled out.
  pub record IsValid (g : AmmGraph PoolKey NodeIndex EdgeIndex Store) : Type 0 where
    pub holds : Holds S (PoolLinks g.pool_tokens) g
    pub distinct :
        (p : PoolKey) (tokens : List Address)
        → lookup p g.pool_tokens ≡ some tokens
        → HasDistinct tokens × (2 ≤ length tokens)
    pub owners : (p : PoolKey) → lookup p g.pool_tokens ≡ none → lookup_or p [] g.edge_map ≡ []

  pub new_graph-IsValid : (version : GraphVersion) → IsValid (new_graph S version)
  unfolding lookup node_index outgoing_edges
  new_graph-IsValid version = record {
    holds = record {
      nodes = λ t n k. absurd (ground (arith, k));
      owned = λ p e m. absurd (Memᴰ.not-nil m);
      sound = λ n edge m. absurd (Memᴰ.not-nil m);
      complete = λ p t u l. absurd (ground (arith, l.1));
    };
    distinct = λ p tokens k. absurd (ground (arith, k));
    owners = λ p k. refl;
  }

  by_tokens :
      (g : AmmGraph PoolKey NodeIndex EdgeIndex Store) (tokens : HashMap PoolKey (List Address))
      → g.pool_tokens ≡ tokens
      → Holds S (PoolLinks tokens) g
      → Holds S (PoolLinks g.pool_tokens) g
  by_tokens g tokens is h = subst (λ m. Holds S (PoolLinks m) g) (sym is) h

  pub with_version-IsValid :
      (g : AmmGraph PoolKey NodeIndex EdgeIndex Store) (version : GraphVersion)
      → IsValid g
      → IsValid (record g { version = version })
  with_version-IsValid g version v = record {
    holds =
        same_parts-Holds S (PoolLinks g.pool_tokens) g g.pair_pools g.pool_tokens version v.holds;
    distinct = v.distinct;
    owners = v.owners;
  }

module _ {PoolKey NodeIndex EdgeIndex Store : Type 0} ⦃eP : PartialEq PoolKey⦄
    ⦃eN : PartialEq NodeIndex⦄ ⦃eE : PartialEq EdgeIndex⦄
    (S : StableDiGraph PoolKey NodeIndex EdgeIndex Store) (stable : IsStableDiGraph S)
    (g : AmmGraph PoolKey NodeIndex EdgeIndex Store) (v : IsValid S g) where
  pub remove_pool_edges-IsValid : (pool : PoolKey) → IsValid S (remove_pool_edges S pool g).1
  remove_pool_edges-IsValid pool = record {
    holds =
        by_tokens S (remove_pool_edges S pool g).1 _ (remove_pool_edges_tokens S stable pool g)
          (remove_pool_edges-Holds S stable pool g v.holds);
    distinct = λ p tokens k. v.distinct p tokens (
        ground (
          arith,
          k,
          ap (lookup p) (remove_pool_edges_tokens S stable pool g),
          lookup-map_remove p pool g.pool_tokens,
        ));
    owners = λ p k. ground (
      arith,
      k,
      ap (lookup p) (remove_pool_edges_tokens S stable pool g),
      lookup-map_remove p pool g.pool_tokens,
      remove_pool_edges_listed S stable pool g p,
      v.owners p,
    );
  }

  pub prune_orphan_tokens-IsValid :
      (tokens : List Address) → IsValid S (prune_orphan_tokens S tokens g)
  prune_orphan_tokens-IsValid tokens =
      let same = prune_orphan_tokens-IsSameTokens S tokens g in
      record {
        holds =
            by_tokens S (prune_orphan_tokens S tokens g) _ (same.tokens)
              (prune_orphan_tokens-Holds S stable (PoolLinks g.pool_tokens) tokens g v.holds);
        distinct = rw (same.tokens) v.distinct;
        owners = rw (same.tokens, same.listed) v.owners;
      }

  pub add_pool_edges-IsValid :
      (pool : PoolKey) (tokens : List Address)
      → HasDistinct tokens
      → 2 ≤ length tokens
      → lookup pool g.pool_tokens ≡ none
      → IsValid S (add_pool_edges S pool tokens g)
  add_pool_edges-IsValid pool tokens distinct enough new =
      let is = add_pool_edges_tokens S stable pool tokens distinct g new v.holds in
      record {
        holds =
            by_tokens S (add_pool_edges S pool tokens g) _ is
              (add_pool_edges-Holds S stable pool tokens distinct g new v.holds);
        distinct = λ p ts k. elim (Bool-cases (pool == p)) [
          | inl same ↦
              let e : tokens ≡ ts =
                ground (
                  arith,
                  k,
                  same,
                  ap (lookup p) is,
                  lookup-map_insert p pool tokens g.pool_tokens,
                ) in
              rw (← e) (distinct, enough)
          | inr other ↦ v.distinct p ts (
              ground
                (arith, k, other, ap (lookup p) is, lookup-map_insert p pool tokens g.pool_tokens))
        ];
        owners = λ p k. elim (Bool-cases (pool == p)) [
          | inl same ↦ absurd (
              ground
                (arith, k, same, ap (lookup p) is, lookup-map_insert p pool tokens g.pool_tokens))
          | inr other ↦ ground (
            arith,
            k,
            other,
            ap (lookup p) is,
            lookup-map_insert p pool tokens g.pool_tokens,
            add_pool_edges_listed S stable pool tokens distinct g new v.holds p other,
            v.owners p,
          )
        ];
      }
