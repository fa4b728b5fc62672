-- ===== src/Quote/Evaluate.antt =====
-- src/search.rs: `QuoteDagEvaluator` and `quote_paths_with_registry_observed`, which quotes paths
-- through the tree. How a hop is quoted, through the shared cache of quotes, is a parameter here.
use evm_amm_search.Prelude.{
  false, not, none, List, [], ◌∷◌, ◌++◌, if◌then◌else◌, PartialEq, Result, ok, err,
}
use evm_amm_search.Route.{U256, Hop, RoutePath, HopQuote, RouteQuote, PathFailure, path_is_empty}
use evm_amm_search.Quote.Dag.{
  QuoteDagNode, QuoteDagChildren, no_child, dag_child, empty_node, dag_insert, collect_failures,
  Observer, Evaluation, asked, failed_with,
}

-- `QuoteDagEvaluator::quote_hop`
abbrev pub HopQuoter : Type 0 → Type 0 → Type 0 → Type 0
HopQuoter PoolKey Reason Cache = Hop PoolKey → U256 → Cache → Result U256 Reason × Cache

module _ {PoolKey Reason Captured Cache : Type 0}
    (observer : Observer PoolKey Reason Captured) where
  -- The callback is asked, and stops the evaluation or not.
  unfoldable pub push_quote :
      RouteQuote PoolKey
      → Evaluation PoolKey Reason Captured Cache
      → Evaluation PoolKey Reason Captured Cache
  push_quote quote s =
      let answer = asked observer.on_quote quote s.captured in
      record s { quotes = s.quotes ++ quote ∷ []; stopped = not answer.0; captured = answer.1 }

  unfoldable pub push_failure :
      PathFailure PoolKey Reason
      → Evaluation PoolKey Reason Captured Cache
      → Evaluation PoolKey Reason Captured Cache
  push_failure failure s =
      let answer = asked observer.on_failure failure s.captured in
      record s {
        failures = s.failures ++ failure ∷ [];
        stopped = not answer.0;
        captured = answer.1;
      }

  -- The loop over the failures below a hop.
  unfoldable pub push_failures :
      List (PathFailure PoolKey Reason)
      → Evaluation PoolKey Reason Captured Cache
      → Evaluation PoolKey Reason Captured Cache
  push_failures [] s = s
  push_failures (failure ∷ failures) s =
      let s' = push_failure failure s in if s'.stopped then s' else push_failures failures s'

  module _ (quote_hop : HopQuoter PoolKey Reason Cache) (amount_in : U256) where
    unfoldable pub evaluate_terminals :
        List (RoutePath PoolKey)
        → U256
        → List (HopQuote PoolKey)
        → Evaluation PoolKey Reason Captured Cache
        → Evaluation PoolKey Reason Captured Cache
    evaluate_terminals [] amount hop_quotes s = s
    evaluate_terminals (path ∷ paths) amount hop_quotes s =
        if s.stopped
        then s
        else evaluate_terminals paths amount hop_quotes (
            push_quote
              (record {
                path = path;
                amount_in = amount_in;
                amount_out = amount;
                hops = hop_quotes;
              })
              s)

    -- The loop over the children. A child that is quoted is evaluated as a node.
    unfoldable pub evaluate_children :
        QuoteDagChildren PoolKey
        → U256
        → List (HopQuote PoolKey)
        → Evaluation PoolKey Reason Captured Cache
        → Evaluation PoolKey Reason Captured Cache
    evaluate_children no_child amount hop_quotes s = s
    evaluate_children (dag_child hop below paths rest) amount hop_quotes s =
        if s.stopped
        then s
        else let (quoted, cache) = quote_hop hop amount s.cache in
          let s' = record s { cache = cache } in
          evaluate_children rest amount hop_quotes (elim quoted [
            | ok amount_out ↦
                let hop_quotes' =
                  hop_quotes
                  ++ record { hop = hop; amount_in = amount; amount_out = amount_out } ∷ [] in
                evaluate_children below amount_out hop_quotes'
                  (evaluate_terminals paths amount_out hop_quotes' s')
            | err reason ↦
                push_failures
                  (collect_failures reason (record { children = below; terminals = paths })) s'
          ])

    unfoldable pub evaluate :
        QuoteDagNode PoolKey
        → U256
        → List (HopQuote PoolKey)
        → Evaluation PoolKey Reason Captured Cache
        → Evaluation PoolKey Reason Captured Cache
    evaluate n amount hop_quotes s =
        evaluate_children n.children amount hop_quotes
          (evaluate_terminals n.terminals amount hop_quotes s)

    module _ ⦃e : PartialEq PoolKey⦄ (empty_reason : Reason) where
      -- The loop over the paths, which makes the tree.
      unfoldable pub insert_paths :
          List (RoutePath PoolKey)
          → QuoteDagNode PoolKey × Evaluation PoolKey Reason Captured Cache
          → QuoteDagNode PoolKey × Evaluation PoolKey Reason Captured Cache
      insert_paths [] (dag, s) = (dag, s)
      insert_paths (path ∷ paths) (dag, s) =
          if path_is_empty path
          then (let s' = push_failure (failed_with empty_reason path) s in
              if s'.stopped then (dag, s') else insert_paths paths (dag, s'))
          else insert_paths paths (dag_insert path dag, s)

      -- `empty_reason` is the text of `SearchError::EmptyPath`. The report is the state at the end.
      unfoldable pub quote_paths_with_registry_observed :
          List (RoutePath PoolKey) → Cache → Captured → Evaluation PoolKey Reason Captured Cache
      quote_paths_with_registry_observed paths cache captured =
          let (dag, s) = insert_paths paths (
            empty_node,
            record {
              cache = cache;
              quotes = [];
              failures = [];
              stopped = false;
              captured = captured;
            },
          ) in
          if s.stopped then s else evaluate dag amount_in [] s

module _ {PoolKey Reason Cache : Type 0} ⦃e : PartialEq PoolKey⦄
    (quote_hop : HopQuoter PoolKey Reason Cache) (amount_in : U256) (empty_reason : Reason) where
  abbrev pub no_callbacks : Observer PoolKey Reason Unit
  no_callbacks = record { on_quote = none; on_failure = none }

  unfoldable pub quote_paths_with_registry :
      List (RoutePath PoolKey)
      → Cache
      → List (RouteQuote PoolKey) × List (PathFailure PoolKey Reason)
  quote_paths_with_registry paths cache =
      let report =
        quote_paths_with_registry_observed no_callbacks quote_hop amount_in empty_reason paths cache
          tt in
      (report.quotes, report.failures)
