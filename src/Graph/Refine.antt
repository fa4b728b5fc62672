-- ===== src/Graph/Refine.antt =====
-- src/graph.rs: the public methods that change one pool, as changes of a map from pools to tokens.
use evm_amm_search.Prelude.{
  ◌<◌, ◌≤◌, ◌≡◌, ◌≢◌, refl, ap, ◌∙◌, inl, inr, true, false, none, some, List, arith, PartialEq,
  nat_PartialEq, list_PartialEq, list_eq_iff, ◌==◌, eq_refl, Bool-cases, Option-cases, length,
  Result-cases, result_ok,
}
use evm_amm_search.Prelude.Maps.{lookup}
use evm_amm_search.Route.{Address}
use evm_amm_search.Graph.{AmmGraph, StableDiGraph, unchanged, added, updated, status, u64_max}
use evm_amm_search.Graph.Tokens.{
  GraphBuildOptions, Statuses, PoolRegistration, tokens_for_pool, is_indexable_status,
  indexable_tokens,
}
use evm_amm_search.Graph.Edges.{remove_pool_edges, add_pool_edges, directed_edge_count}
use evm_amm_search.Graph.Update.{replace_pool, add_pool, apply_tokens, apply_pool, advance}
use evm_amm_search.Graph.Held.{IsStableDiGraph}
use evm_amm_search.Graph.Pairs.{HasDistinct}
use evm_amm_search.Graph.Normalized.{tokens_for_pool-HasDistinct}
use evm_amm_search.Graph.Valid.{IsValid, add_pool_edges-IsValid}
use evm_amm_search.Graph.Applied.{
  following, IsApplied, advanced-IsApplied, compacted-IsValid, compacted_pools, compacted_version,
  extended_pools, extended_version,
}
use evm_amm_search.Graph.Compact.{Applies, gone, remove_or_skip-Applies}

module _ (PoolStatus : Type 0) {PoolKey NodeIndex EdgeIndex Store : Type 0} ⦃eP : PartialEq PoolKey⦄
    ⦃eN : PartialEq NodeIndex⦄ ⦃eE : PartialEq EdgeIndex⦄
    (S : StableDiGraph PoolKey NodeIndex EdgeIndex Store) (stable : IsStableDiGraph S)
    (g : AmmGraph PoolKey NodeIndex EdgeIndex Store) (v : IsValid S g)
    (less : g.version.revision < u64_max) (pool : PoolKey) where
  module _ (tokens : List Address) (distinct : HasDistinct tokens)
      (enough : 2 ≤ length tokens) where
    add_new :
        lookup pool g.pool_tokens ≡ none
        → (advance (add_pool_edges S pool tokens g)
            ≡ some (record (add_pool_edges S pool tokens g) {
              version = following (add_pool_edges S pool tokens g).version;
            }))
          × IsApplied {PoolStatus = PoolStatus} S pool
              (some tokens)
              g
              (record (add_pool_edges S pool tokens g) {
                version = following (add_pool_edges S pool tokens g).version;
              })
              (added (directed_edge_count (length tokens)))
    add_new new =
        advanced-IsApplied S pool (some tokens) g (add_pool_edges S pool tokens g) _ less
          (add_pool_edges-IsValid S stable g v pool tokens distinct enough new)
          (extended_pools S stable g v pool tokens distinct new)
          (extended_version S stable g v pool tokens distinct new) refl
          (λ e. ground (arith, e, new))

    replaced : AmmGraph PoolKey NodeIndex EdgeIndex Store
    replaced = add_pool_edges S pool tokens (gone PoolStatus S stable g v less pool)

    replace_old :
        (current : List Address)
        → lookup pool g.pool_tokens ≡ some current
        → current ≢ tokens
        → (advance replaced ≡ some (record replaced { version = following replaced.version }))
          × IsApplied {PoolStatus = PoolStatus} S pool
              (some tokens)
              g
              (record replaced { version = following replaced.version })
              (updated (remove_pool_edges S pool g).0.0 (directed_edge_count (length tokens)))
    unfolding replaced
    replace_old current known differs =
        let valid = compacted-IsValid S stable g v pool (remove_pool_edges S pool g).0.1 in
        let pools = compacted_pools S stable g v pool (remove_pool_edges S pool g).0.1 in
        let new : lookup pool (gone PoolStatus S stable g v less pool).pool_tokens ≡ none =
          ground (arith, pools pool, eq_refl pool) in
        advanced-IsApplied S pool (some tokens) g replaced _ less
          (add_pool_edges-IsValid S stable (gone PoolStatus S stable g v less pool) valid pool
            tokens distinct enough new)
          (λ p. ground (
            arith,
            extended_pools S stable (gone PoolStatus S stable g v less pool) valid pool tokens
                distinct new p,
            pools p,
          ))
          (extended_version S stable (gone PoolStatus S stable g v less pool) valid pool tokens
              distinct new
            ∙ compacted_version S stable g v pool (remove_pool_edges S pool g).0.1)
          refl (λ e. ground (arith, e, known, differs))

    apply_new :
        lookup pool g.pool_tokens ≡ none
        → apply_tokens {PoolStatus = PoolStatus} S pool tokens g
          ≡ some (
            added (directed_edge_count (length tokens)),
            record (add_pool_edges S pool tokens g) {
              version = following (add_pool_edges S pool tokens g).version;
            },
          )
    unfolding apply_tokens add_pool
    apply_new new = ground (arith, new, (add_new new).0)

    apply_old :
        (current : List Address)
        → lookup pool g.pool_tokens ≡ some current
        → current == tokens ≡ false
        → current ≢ tokens
        → apply_tokens {PoolStatus = PoolStatus} S pool tokens g
          ≡ some (
            updated (remove_pool_edges S pool g).0.0 (directed_edge_count (length tokens)),
            record replaced { version = following replaced.version },
          )
    unfolding apply_tokens replace_pool replaced
    apply_old current known other differs =
        ground (arith, known, other, (replace_old current known differs).0)

    apply_same :
        (current : List Address)
        → lookup pool g.pool_tokens ≡ some current
        → current == tokens ≡ true
        → apply_tokens {PoolStatus = PoolStatus} S pool tokens g ≡ some (unchanged, g)
    unfolding apply_tokens
    apply_same current known same = ground (arith, known, same)

    kept-IsApplied :
        lookup pool g.pool_tokens ≡ some tokens
        → IsApplied {PoolStatus = PoolStatus} S pool (some tokens) g g unchanged
    kept-IsApplied known = record {
      valid = v;
      pools = λ p. ground (arith, known, eP.eq_iff pool p);
      version = refl;
      changed = (λ _. known, λ _. refl);
    }

    pub apply_tokens-Applies :
        Applies {PoolStatus = PoolStatus} S g pool (some tokens) (apply_tokens S pool tokens g)
    apply_tokens-Applies = elim (Option-cases (lookup pool g.pool_tokens)) [
      | inl new ↦ rw (apply_new new) (add_new new).1
      | inr (current, known) ↦ elim (Bool-cases (current == tokens)) [
        | inl same ↦
            rw (apply_same current known same)
              (kept-IsApplied (known ∙ ap some ((list_eq_iff current tokens).0 same)))
        | inr other ↦
            let differs : current ≢ tokens =
              λ e. ground (arith, other, list_eq_iff current tokens, e) in
            rw (apply_old current known other differs) (replace_old current known differs).1
      ]
    ]

module _ {PoolKey PoolStatus NodeIndex EdgeIndex Store : Type 0} ⦃eP : PartialEq PoolKey⦄
    ⦃eN : PartialEq NodeIndex⦄ ⦃eE : PartialEq EdgeIndex⦄ ⦃eT : PartialEq PoolStatus⦄
    (S : StableDiGraph PoolKey NodeIndex EdgeIndex Store) (stable : IsStableDiGraph S)
    (statuses : Statuses PoolStatus) (options : GraphBuildOptions) where
  -- Applying a pool to a valid graph whose revisions are not exhausted returns a valid graph in which
  -- the pool has the tokens that its registration gives it, or none if it is not indexable, while the
  -- other pools keep theirs; the version advances by one exactly if the tokens of the pool changed.
  pub apply_pool-Applies :
      (g : AmmGraph PoolKey NodeIndex EdgeIndex Store)
      → IsValid S g
      → g.version.revision < u64_max
      → (registration : PoolRegistration PoolKey PoolStatus)
      → Applies S g registration.key
          (result_ok (indexable_tokens statuses options registration))
          (apply_pool S statuses options registration g)
  unfolding apply_pool indexable_tokens
  apply_pool-Applies g v less registration =
      elim (Bool-cases (is_indexable_status statuses registration.status options)) [
        | inr excluded ↦
            rw (apply_pool, indexable_tokens, excluded)
              (remove_or_skip-Applies PoolStatus S stable g v less registration.key
                (status registration.status))
        | inl indexable ↦ elim (Result-cases (tokens_for_pool registration)) [
          | inl (tokens, is) ↦
              let (distinct, enough) =
                tokens_for_pool-HasDistinct PoolStatus PoolKey registration tokens is in
              rw (apply_pool, indexable_tokens, indexable, is)
                (apply_tokens-Applies PoolStatus S stable g v less registration.key tokens distinct
                  enough)
          | inr (reason, is) ↦
              rw (apply_pool, indexable_tokens, indexable, is)
                (remove_or_skip-Applies PoolStatus S stable g v less registration.key reason)
        ]
      ]
