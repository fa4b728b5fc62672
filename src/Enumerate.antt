-- ===== src/Enumerate.antt =====
-- src/search.rs: exhaustive enumeration of simple routes, `AmmSearcher::enumerate_routes_filtered`,
-- a breadth-first search over search states. The graph is seen through two of its methods, as an
-- interface. A `should_continue` callback may read shared state, so its answer is a function of the
-- number of polls before.
pub mod Loop
pub mod Spec
pub mod Ends
pub mod Complete
pub mod Hits
pub mod Simple
pub mod Routes
pub mod Found
pub mod Sound
pub mod Short
use mathlib.Core.List.{Memᴰ}
use evm_amm_search.Prelude.{
  ℕ, zero, suc, ◌+◌, ◌≡◌, min, Bool, true, false, not, ◌&&◌, ◌||◌, Option, none, some, List, [],
  ◌∷◌, ◌++◌, if◌then◌else◌, leb, ltb, ◌==◌, nat_PartialEq, PartialEq, is_none_or, is_some_and,
  contains, insert, All, length, Result, ok, err, map_err, ◌>>=◌, ◌>>◌,
}
use evm_amm_search.Route.{
  Address, Hop, RoutePath, new_path, path_len, push_hop, path_PartialEq, SearchError,
  invalid_config, token_not_found, no_path,
}
use evm_amm_search.Config.{SearchConfig}
use evm_amm_search.Config.Validate.{validate_search}
use evm_amm_search.Stream.Progress.{usize_max}

pub record CachedOutgoingEdge (PoolKey NodeIndex : Type 0) : Type 0 where
  pub target : NodeIndex
  pub token_in : Address
  pub token_out : Address
  pub pool : PoolKey

-- `AmmGraph::node_index` and `AmmGraph::outgoing_edges`.
pub record TokenGraph (PoolKey NodeIndex : Type 0) : Type 0 where
  pub node_index : Address → Option NodeIndex
  pub outgoing_edges : NodeIndex → List (CachedOutgoingEdge PoolKey NodeIndex)

-- The edges of a token's node start at the token and lead to the node of the token that they name.
pub record IsTokenGraph {PoolKey NodeIndex : Type 0} (g : TokenGraph PoolKey NodeIndex)
    : Type 0 where
  pub injective :
      (a b : Address) (n : NodeIndex) → g.node_index a ≡ some n → g.node_index b ≡ some n → a ≡ b
  pub edges_fit :
      (a : Address) (n : NodeIndex)
      → g.node_index a ≡ some n
      → All
          (λ edge. (edge.token_in ≡ a) × (g.node_index edge.token_out ≡ some edge.target))
          (g.outgoing_edges n)

pub record SearchState (PoolKey NodeIndex : Type 0) : Type 0 where
  pub node : NodeIndex
  pub path : RoutePath PoolKey
  pub visited_tokens : List Address
  pub used_pools : List PoolKey

pub record RouteEnumeration (PoolKey : Type 0) : Type 0 where
  pub paths : List (RoutePath PoolKey)
  pub duplicates_skipped : ℕ
  pub stopped : Bool

-- The arguments of `enumerate_routes_filtered`.
pub record Query (PoolKey : Type 0) : Type 0 where
  pub token_in : Address
  pub token_out : Address
  pub config : SearchConfig
  pub allow_final_source_revisit : Bool
  pub excluded : List (RoutePath PoolKey)
  pub max_new_paths : Option ℕ
  pub should_continue : Option (ℕ → Bool)

-- The local variables of the search; `ended` after `break 'search`.
pub record Frontier (PoolKey NodeIndex : Type 0) : Type 0 where
  pub queue : List (SearchState PoolKey NodeIndex)
  pub paths : List (RoutePath PoolKey)
  pub duplicates_skipped : ℕ
  pub found_path : Bool
  pub stopped : Bool
  pub ended : Bool
  pub polls : ℕ

abbrev pub connector_allowed : Address → Address → Address → SearchConfig → Bool
connector_allowed token token_in token_out config =
    token == token_in
    || token == token_out
    || is_none_or config.connector_tokens (λ tokens. contains tokens token)

abbrev pub saturating_suc : ℕ → ℕ
saturating_suc n = min (n + 1) usize_max

module _ {PoolKey NodeIndex : Type 0} where
  abbrev pub polled : Frontier PoolKey NodeIndex → Frontier PoolKey NodeIndex
  polled f = record f { polls = f.polls + 1 }

  abbrev pub cancelled : Frontier PoolKey NodeIndex → Frontier PoolKey NodeIndex
  cancelled f = record f { stopped = true; ended = true }

  -- `should_continue.is_some_and(|should_continue| !should_continue())`
  abbrev pub is_cancelled : Query PoolKey → Frontier PoolKey NodeIndex → Bool
  is_cancelled q f =
      is_some_and q.should_continue (λ should_continue. not (should_continue f.polls))

module _ {PoolKey NodeIndex : Type 0} ⦃eP : PartialEq PoolKey⦄ where
  abbrev pub extended :
      SearchState PoolKey NodeIndex → CachedOutgoingEdge PoolKey NodeIndex → RoutePath PoolKey
  extended state edge =
      push_hop state.path
        (record { pool = edge.pool; token_in = edge.token_in; token_out = edge.token_out })

  abbrev pub next_state :
      SearchState PoolKey NodeIndex
      → CachedOutgoingEdge PoolKey NodeIndex
      → SearchState PoolKey NodeIndex
  next_state state edge = record {
    node = edge.target;
    path = extended state edge;
    visited_tokens = insert edge.token_out state.visited_tokens;
    used_pools = insert edge.pool state.used_pools;
  }

  -- A complete path of enough hops.
  unfoldable pub record_path :
      Query PoolKey → RoutePath PoolKey → Frontier PoolKey NodeIndex → Frontier PoolKey NodeIndex
  record_path q path f =
      let f' =
        if contains q.excluded path
        then record f {
          duplicates_skipped = saturating_suc f.duplicates_skipped;
          found_path = true;
        }
        else record f { paths = f.paths ++ path ∷ []; found_path = true } in
      record f' { ended = is_some_and q.max_new_paths (λ limit. leb limit (length f'.paths)) }

module _ {PoolKey NodeIndex : Type 0} ⦃eP : PartialEq PoolKey⦄ ⦃eN : PartialEq NodeIndex⦄
    (q : Query PoolKey) (source target : NodeIndex) where
  abbrev pub closes_target : CachedOutgoingEdge PoolKey NodeIndex → Bool
  closes_target edge = edge.target == target

  abbrev pub closes_source_cycle : CachedOutgoingEdge PoolKey NodeIndex → Bool
  closes_source_cycle edge =
      q.allow_final_source_revisit && (source == target && edge.target == source)

  -- The edges that none of the three `continue` guards skips.
  unfoldable pub may_take :
      SearchState PoolKey NodeIndex → CachedOutgoingEdge PoolKey NodeIndex → Bool
  may_take state edge =
      not (contains state.used_pools edge.pool)
      && (not (contains state.visited_tokens edge.token_out && not (closes_source_cycle edge))
          && (closes_target edge
              || connector_allowed edge.token_out q.token_in q.token_out q.config))

  -- The body of the loop over the edges, after the poll.
  unfoldable pub visit_edge :
      SearchState PoolKey NodeIndex
      → CachedOutgoingEdge PoolKey NodeIndex
      → Frontier PoolKey NodeIndex
      → Frontier PoolKey NodeIndex
  visit_edge state edge f =
      if may_take state edge
      then if closes_target edge
        then if leb q.config.min_hops (path_len (extended state edge))
          then record_path q (extended state edge) f
          else f
        else if ltb (path_len (extended state edge)) q.config.max_hops
        then record f { queue = f.queue ++ next_state state edge ∷ [] }
        else f
      else f

  unfoldable pub visit_edges :
      SearchState PoolKey NodeIndex
      → List (CachedOutgoingEdge PoolKey NodeIndex)
      → Frontier PoolKey NodeIndex
      → Frontier PoolKey NodeIndex
  visit_edges state [] f = f
  visit_edges state (edge ∷ edges) f =
      let rest = visit_edges state edges (visit_edge state edge (polled f)) in
      if is_cancelled q f
      then cancelled (polled f)
      else if (visit_edge state edge (polled f)).ended
      then visit_edge state edge (polled f)
      else rest
