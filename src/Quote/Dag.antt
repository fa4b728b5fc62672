-- ===== src/Quote/Dag.antt =====
-- src/search.rs: `QuoteDag`, the tree in which paths with common first hops are quoted together, and
-- its evaluation. Where the source moves a reference down the tree, a function changes the node that
-- it reaches.
use evm_amm_search.Prelude.{
  Bool, true, Option, none, some, List, [], ◌∷◌, ◌++◌, map, if◌then◌else◌, PartialEq, ◌==◌,
}
use evm_amm_search.Route.{Hop, RoutePath, RouteQuote, PathFailure, hop_PartialEq}

-- The children of a node in order. A child is the hop that leads to it and its node, given by its
-- children and its terminals.
pub data QuoteDagChildren (PoolKey : Type 0) : Type 0 where
  no_child : QuoteDagChildren PoolKey
  dag_child :
      Hop PoolKey
      → QuoteDagChildren PoolKey
      → List (RoutePath PoolKey)
      → QuoteDagChildren PoolKey
      → QuoteDagChildren PoolKey

pub record QuoteDagNode (PoolKey : Type 0) : Type 0 where
  pub children : QuoteDagChildren PoolKey
  pub terminals : List (RoutePath PoolKey)

module _ {PoolKey : Type 0} ⦃e : PartialEq PoolKey⦄ where
  abbrev pub empty_node : QuoteDagNode PoolKey
  empty_node = record { children = no_child; terminals = [] }

  abbrev pub child_of :
      Hop PoolKey → QuoteDagNode PoolKey → QuoteDagChildren PoolKey → QuoteDagChildren PoolKey
  child_of hop n rest = dag_child hop n.children n.terminals rest

  -- The change of the first child with that hop, or of a new one.
  unfoldable pub child_for_hop :
      Hop PoolKey
      → (QuoteDagNode PoolKey → QuoteDagNode PoolKey)
      → QuoteDagChildren PoolKey
      → QuoteDagChildren PoolKey
  child_for_hop hop change no_child = child_of hop (change empty_node) no_child
  child_for_hop hop change (dag_child h below paths rest) =
      let rest' = child_for_hop hop change rest in
      if h == hop
      then child_of h (change (record { children = below; terminals = paths })) rest
      else dag_child h below paths rest'

  -- The loop over the hops, then the push to the terminals.
  unfoldable pub insert_below :
      RoutePath PoolKey → List (Hop PoolKey) → QuoteDagNode PoolKey → QuoteDagNode PoolKey
  insert_below path [] n = record n { terminals = n.terminals ++ path ∷ [] }
  insert_below path (hop ∷ hops) n = record n {
    children = child_for_hop hop (insert_below path hops) n.children;
  }

  unfoldable pub dag_insert : RoutePath PoolKey → QuoteDagNode PoolKey → QuoteDagNode PoolKey
  dag_insert path root = insert_below path path.hops root

module _ {PoolKey Reason : Type 0} where
  abbrev pub failed_with : Reason → RoutePath PoolKey → PathFailure PoolKey Reason
  failed_with reason path = record { path = path; reason = reason }

  unfoldable pub collect_child_failures :
      Reason → QuoteDagChildren PoolKey → List (PathFailure PoolKey Reason)
  collect_child_failures reason no_child = []
  collect_child_failures reason (dag_child hop below paths rest) =
      (map (failed_with reason) paths ++ collect_child_failures reason below)
      ++ collect_child_failures reason rest

  unfoldable pub collect_failures :
      Reason → QuoteDagNode PoolKey → List (PathFailure PoolKey Reason)
  collect_failures reason n =
      map (failed_with reason) n.terminals ++ collect_child_failures reason n.children

-- The two callbacks, which may change what they captured.
pub record Observer (PoolKey Reason Captured : Type 0) : Type 0 where
  pub on_quote : Option (RouteQuote PoolKey → Captured → Bool × Captured)
  pub on_failure : Option (PathFailure PoolKey Reason → Captured → Bool × Captured)

-- The fields of `QuoteDagEvaluator` that change, and what the callbacks captured.
pub record Evaluation (PoolKey Reason Captured Cache : Type 0) : Type 0 where
  pub cache : Cache
  pub quotes : List (RouteQuote PoolKey)
  pub failures : List (PathFailure PoolKey Reason)
  pub stopped : Bool
  pub captured : Captured

-- `as_deref_mut().is_none_or(...)`
abbrev pub asked :
    {A Captured : Type 0} → Option (A → Captured → Bool × Captured) → A → Captured → Bool × Captured
asked none a captured = (true, captured)
asked (some callback) a captured = callback a captured
