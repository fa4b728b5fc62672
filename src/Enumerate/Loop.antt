-- ===== src/Enumerate/Loop.antt =====
-- src/search.rs: the `while` loop of `AmmSearcher::enumerate_routes_filtered` and its results. The
-- fuel is the number of search states that the graph lets the queue hold in all.
use mathlib.Core.Option
use evm_amm_search.Prelude.{
  ℕ, zero, suc, true, false, not, ◌&&◌, Option, none, some, [], ◌∷◌, if◌then◌else◌, leb, ◌==◌,
  nat_PartialEq, PartialEq, is_some_and, sum_by, Result, ok, err, map_err, ◌>>=◌, ◌>>◌,
}
use evm_amm_search.Route.{new_path, path_len, SearchError, invalid_config, token_not_found, no_path}
use evm_amm_search.Config.Validate.{validate_search}
use evm_amm_search.Enumerate.{
  CachedOutgoingEdge, TokenGraph, SearchState, RouteEnumeration, Query, Frontier, may_take,
  closes_target, next_state, is_cancelled, polled, cancelled, visit_edges,
}

module _ {PoolKey NodeIndex : Type 0} ⦃eP : PartialEq PoolKey⦄ ⦃eN : PartialEq NodeIndex⦄
    (g : TokenGraph PoolKey NodeIndex) (q : Query PoolKey) (source target : NodeIndex) where
  -- One round of the `while` loop, after `state` left the queue.
  unfoldable pub expand :
      SearchState PoolKey NodeIndex → Frontier PoolKey NodeIndex → Frontier PoolKey NodeIndex
  expand state f =
      if is_cancelled q f
      then cancelled (polled f)
      else if leb q.config.max_hops (path_len state.path)
      then polled f
      else visit_edges q source target state (g.outgoing_edges state.node) (polled f)

  -- `none` means that the fuel ran out.
  unfoldable pub search_loop : ℕ → Frontier PoolKey NodeIndex → Option (Frontier PoolKey NodeIndex)
  search_loop zero f = if f.ended then some f else elim f.queue [ [] ↦ some f | _ ∷ _ ↦ none ]
  search_loop (suc fuel) f = elim f.ended [
    | true ↦ some f
    | false ↦ elim f.queue [
      | [] ↦ some f
      | state ∷ rest ↦ search_loop fuel (expand state (record f { queue = rest }))
    ]
  ]

  abbrev pub first_state : SearchState PoolKey NodeIndex
  first_state = record {
    node = source;
    path = new_path;
    visited_tokens = q.token_in ∷ [];
    used_pools = [];
  }

  abbrev pub first_frontier : Frontier PoolKey NodeIndex
  first_frontier = record {
    queue = first_state ∷ [];
    paths = [];
    duplicates_skipped = 0;
    found_path = false;
    stopped = false;
    ended = false;
    polls = 0;
  }

  -- The states below an edge, given the count for the next state.
  abbrev pub edge_states :
      (SearchState PoolKey NodeIndex → ℕ)
      → SearchState PoolKey NodeIndex
      → CachedOutgoingEdge PoolKey NodeIndex
      → ℕ
  edge_states count state edge =
      if may_take q source target state edge && not (closes_target q source target edge)
      then count (next_state state edge)
      else 0

  -- The states that a state can lead to within some number of hops, itself among them.
  unfoldable pub state_count : ℕ → SearchState PoolKey NodeIndex → ℕ
  state_count zero state = 1
  state_count (suc hops) state =
      suc (sum_by (edge_states (state_count hops) state) (g.outgoing_edges state.node))

abbrev pub ok_or {ℓ κ} : {A : Type ℓ} {E : Type κ} → Option A → E → Result A E
ok_or none e = err e
ok_or (some a) e = ok a

module _ {PoolKey NodeIndex ProtocolId SimError Reason : Type 0} ⦃eP : PartialEq PoolKey⦄
    ⦃eN : PartialEq NodeIndex⦄ (g : TokenGraph PoolKey NodeIndex) (q : Query PoolKey) where
  unfoldable pub finish :
      Frontier PoolKey NodeIndex
      → Result (RouteEnumeration PoolKey) (SearchError PoolKey ProtocolId SimError Reason)
  finish f =
      if not f.found_path && not f.stopped
      then err (no_path q.token_in q.token_out)
      else ok (record {
        paths = f.paths;
        duplicates_skipped = f.duplicates_skipped;
        stopped = f.stopped;
      })

  -- The search between two nodes; `none` means that the fuel ran out.
  unfoldable pub enumerate_between :
      NodeIndex
      → NodeIndex
      → Option (Result (RouteEnumeration PoolKey) (SearchError PoolKey ProtocolId SimError Reason))
  enumerate_between source target =
      if is_some_and q.max_new_paths (λ limit. limit == 0)
      then some (ok (record { paths = []; duplicates_skipped = 0; stopped = false }))
      else Option.map finish (
          search_loop g q source target
            (state_count g q source target q.config.max_hops (first_state g q source target))
            (first_frontier g q source target))

  -- The checks before the search, and its two ends.
  unfoldable pub endpoints :
      Result (NodeIndex × NodeIndex) (SearchError PoolKey ProtocolId SimError Reason)
  endpoints = do
    map_err invalid_config (validate_search q.config)
    source ← ok_or (g.node_index q.token_in) (token_not_found q.token_in)
    target ← ok_or (g.node_index q.token_out) (token_not_found q.token_out)
    ok (source, target)

  unfoldable pub enumerate_routes_filtered :
      Option (Result (RouteEnumeration PoolKey) (SearchError PoolKey ProtocolId SimError Reason))
  enumerate_routes_filtered = elim endpoints [
    | err e ↦ some (err e)
    | ok (source, target) ↦ enumerate_between source target
  ]
