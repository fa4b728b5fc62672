-- ===== src/Graph/Registry.antt =====
-- src/graph.rs: what `AmmGraph::from_registry` builds from the registered pools.
use mathlib.Core.List.{Memᴰ}
use evm_amm_search.Prelude.{
  ◌≤◌, ◌≡◌, ◌≢◌, refl, sym, ap, ◌∙◌, inl, inr, Bool, Option, none, some, List, [], ◌∷◌, arith,
  PartialEq, nat_PartialEq, ◌==◌, if◌then◌else◌, All, All-mem, length, Result-cases, result_ok, ok,
}
use evm_amm_search.Prelude.Sort.{sort, mem_of_sort, mem-sort}
use evm_amm_search.Prelude.Maps.{lookup}
use evm_amm_search.Prelude.Members.{All-of_mem}
use evm_amm_search.Route.{Address}
use evm_amm_search.Graph.{AmmGraph, StableDiGraph, GraphVersion, new_graph}
use evm_amm_search.Graph.Tokens.{GraphBuildOptions, Statuses, PoolRegistration, indexable_tokens}
use evm_amm_search.Graph.Update.{GraphBuildReport, index_pool, index_pools, from_registry}
use evm_amm_search.Graph.Held.{IsStableDiGraph}
use evm_amm_search.Graph.Pairs.{HasDistinct}
use evm_amm_search.Graph.Normalized.{tokens_for_pool-HasDistinct}
use evm_amm_search.Graph.Valid.{IsValid, new_graph-IsValid, add_pool_edges-IsValid}
use evm_amm_search.Graph.Applied.{extended_pools, extended_version}
use evm_amm_search.Graph.Registered.{
  HasDistinctKeys, sort-HasDistinctKeys, tokens_of, tokens_after, tokens_after_mem,
  tokens_after_known,
}

module _ {PoolKey PoolStatus : Type 0} ⦃eT : PartialEq PoolStatus⦄ (statuses : Statuses PoolStatus)
    (options : GraphBuildOptions) where
  pub indexed_distinct :
      (x : PoolRegistration PoolKey PoolStatus) (tokens : List Address)
      → indexable_tokens statuses options x ≡ ok tokens
      → HasDistinct tokens × (2 ≤ length tokens)
  unfolding indexable_tokens
  indexed_distinct x tokens k =
      tokens_for_pool-HasDistinct PoolStatus PoolKey x tokens (ground (arith, k))

module _ {PoolKey PoolStatus NodeIndex EdgeIndex Store : Type 0} ⦃eP : PartialEq PoolKey⦄
    ⦃eN : PartialEq NodeIndex⦄ ⦃eT : PartialEq PoolStatus⦄
    (S : StableDiGraph PoolKey NodeIndex EdgeIndex Store) (statuses : Statuses PoolStatus)
    (options : GraphBuildOptions) where
  -- The graph indexes what is registered, and nothing else.
  pub record IsIndex (registered : List (PoolRegistration PoolKey PoolStatus))
      (g : AmmGraph PoolKey NodeIndex EdgeIndex Store) : Type 0 where
    pub valid : IsValid S g
    pub listed :
        (r : PoolRegistration PoolKey PoolStatus)
        → Memᴰ r registered
        → lookup r.key g.pool_tokens ≡ result_ok (indexable_tokens statuses options r)
    pub only :
        (p : PoolKey) (tokens : List Address)
        → lookup p g.pool_tokens ≡ some tokens
        → (r : PoolRegistration PoolKey PoolStatus) × Memᴰ r registered × (r.key ≡ p)

module _ {PoolKey PoolStatus NodeIndex EdgeIndex Store : Type 0} ⦃eP : PartialEq PoolKey⦄
    ⦃eN : PartialEq NodeIndex⦄ ⦃eE : PartialEq EdgeIndex⦄ ⦃eT : PartialEq PoolStatus⦄
    (S : StableDiGraph PoolKey NodeIndex EdgeIndex Store) (stable : IsStableDiGraph S)
    (statuses : Statuses PoolStatus) (options : GraphBuildOptions) where
  abbrev Report : Type 0
  Report = GraphBuildReport PoolKey PoolStatus NodeIndex EdgeIndex Store

  record IsStep (r r' : Report) (expected : PoolKey → Option (List Address)) : Type 0 where
    valid : IsValid S r'.graph
    pools : (p : PoolKey) → lookup p r'.graph.pool_tokens ≡ expected p
    version : r'.graph.version ≡ r.graph.version

  index_pool-IsStep :
      (x : PoolRegistration PoolKey PoolStatus) (r : Report)
      → IsValid S r.graph
      → lookup x.key r.graph.pool_tokens ≡ none
      → IsStep r
          (index_pool S statuses options x r)
          (λ p. if x.key == p then tokens_of statuses options x else lookup p r.graph.pool_tokens)
  unfolding index_pool
  index_pool-IsStep x r v new = elim (Result-cases (indexable_tokens statuses options x)) [
    | inl (tokens, is) ↦
        let (distinct, enough) = indexed_distinct statuses options x tokens is in
        rw (index_pool, is)
          (record {
            valid = add_pool_edges-IsValid S stable r.graph v x.key tokens distinct enough new;
            pools = extended_pools S stable r.graph v x.key tokens distinct new;
            version = extended_version S stable r.graph v x.key tokens distinct new;
          })
    | inr (reason, is) ↦
        rw (index_pool, is)
          (record {
            valid = v;
            pools = λ p. ground (arith, new, eP.eq_iff x.key p);
            version = refl;
          })
  ]

  index_pools-IsStep :
      (rs : List (PoolRegistration PoolKey PoolStatus)) (r : Report)
      → IsValid S r.graph
      → All (λ x. lookup x.key r.graph.pool_tokens ≡ none) rs
      → HasDistinctKeys rs
      → IsStep r
          (index_pools S statuses options rs r)
          (λ p. tokens_after statuses options p rs (lookup p r.graph.pool_tokens))
  unfolding index_pools tokens_after
  index_pools-IsStep [] r v new d = record { valid = v; pools = λ p. refl; version = refl }
  index_pools-IsStep (x ∷ rs) r v new d =
      let first = index_pool-IsStep x r v new.0 in
      let rest =
        index_pools-IsStep rs (index_pool S statuses options x r) first.valid
          (All-of_mem _ rs (λ y m.
            let before : lookup y.key r.graph.pool_tokens ≡ none = All-mem _ rs y new.1 m in
            let apart : x.key ≢ y.key = All-mem (λ other. x.key ≢ other.key) rs y d.0 m in
            ground (arith, first.pools y.key, before, apart, eP.eq_iff x.key y.key)))
          d.1 in
      record {
        valid = rest.valid;
        pools = λ p. rest.pools p ∙ ap (tokens_after statuses options p rs) (first.pools p);
        version = rest.version ∙ first.version;
      }

  -- The graph that is built from registered pools with distinct keys is valid, has the version that is
  -- given, and maps each pool to the tokens that its registration gives it, if it is indexable, and no
  -- other key.
  pub from_registry-IsIndex :
      (key_before : PoolKey → PoolKey → Bool)
      (registered : List (PoolRegistration PoolKey PoolStatus)) (version : GraphVersion)
      → HasDistinctKeys registered
      → IsIndex S statuses options registered
          (from_registry S statuses options key_before registered version).graph
        × ((from_registry S statuses options key_before registered version).graph.version ≡ version)
  unfolding from_registry lookup
  from_registry-IsIndex key_before registered version distinct =
      let before : PoolRegistration PoolKey PoolStatus
          → PoolRegistration PoolKey PoolStatus
          → Bool =
        λ a b. key_before a.key b.key in
      let pools = sort before registered in
      let d = sort-HasDistinctKeys before registered distinct in
      let start : Report = record {
        graph = new_graph S version;
        indexed_pools = [];
        skipped_pools = [];
      } in
      let s =
        index_pools-IsStep pools start (new_graph-IsValid S version)
          (All-of_mem _ pools (λ y m. refl)) d in
      (
        record {
          valid = s.valid;
          listed = λ r m.
              s.pools r.key
              ∙ tokens_after_mem statuses options r pools none d (mem-sort before r registered m);
          only = λ p tokens k.
              let (r, m, is) =
                tokens_after_known statuses options p pools tokens (sym (s.pools p) ∙ k) in
              (r, mem_of_sort before r registered m, is);
        },
        s.version,
      )
