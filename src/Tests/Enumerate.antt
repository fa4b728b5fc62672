-- ===== src/Tests/Enumerate.antt =====
-- An enumeration over three tokens: 1 has a pool with 2 and one with 3, which has a pool with 2.
use evm_amm_search.Prelude.{
  ℕ, ◌≡◌, refl, ◌&&◌, false, Option, none, some, List, [], ◌∷◌, arith, nat_PartialEq, ◌==◌, leb,
  if◌then◌else◌, Result, ok,
}
use evm_amm_search.Route.{Address, SearchError}
use evm_amm_search.Config.Presets.{search_default}
use evm_amm_search.Config.Validate.{validate_search}
use evm_amm_search.Enumerate.{CachedOutgoingEdge, TokenGraph, IsTokenGraph, RouteEnumeration, Query}
use evm_amm_search.Enumerate.Loop.{enumerate_routes_filtered}
use evm_amm_search.Enumerate.Ends.{enumerate_routes_filtered_returns}
use evm_amm_search.Enumerate.Short.{IsSoundResult, enumerate_is_sound}
use evm_amm_search.Enumerate.Found.{IsCompleteResult, enumerate_finds_simple_routes}

abbrev edge : ℕ → Address → Address → CachedOutgoingEdge ℕ ℕ
edge pool token_in token_out = record {
  target = token_out;
  token_in = token_in;
  token_out = token_out;
  pool = pool;
}

abbrev edges_of : ℕ → List (CachedOutgoingEdge ℕ ℕ)
edges_of node =
    if node == 1 then edge 10 1 2 ∷ edge 11 1 3 ∷ [] else if node == 3 then edge 12 3 2 ∷ [] else []

abbrev triangle : TokenGraph ℕ ℕ
triangle = record {
  node_index = λ token. if leb 1 token && leb token 3 then some token else none;
  outgoing_edges = edges_of;
}

triangle-IsTokenGraph : IsTokenGraph triangle
triangle-IsTokenGraph = record {
  injective = λ a b n h h'. ground (arith, h, h');
  edges_fit = λ a n h. ground (arith, h);
}

abbrev query : Query ℕ
query = record {
  token_in = 1;
  token_out = 2;
  config = search_default;
  allow_final_source_revisit = false;
  excluded = [];
  max_new_paths = none;
  should_continue = none;
}

abbrev Outcome : Type 0
Outcome = Result (RouteEnumeration ℕ) (SearchError ℕ Unit Unit Unit)

enumerate_routes_filtered_returns_example :
    (r : Outcome) × (enumerate_routes_filtered triangle query ≡ some r)
enumerate_routes_filtered_returns_example = enumerate_routes_filtered_returns triangle query

query-valid : validate_search query.config ≡ ok tt
unfolding validate_search search_default
query-valid = refl

enumerate_finds_simple_routes_example :
    (r : Outcome) × (enumerate_routes_filtered triangle query ≡ some r)
    × IsCompleteResult triangle query r
enumerate_finds_simple_routes_example =
    enumerate_finds_simple_routes Unit Unit Unit triangle query triangle-IsTokenGraph 1 2 refl refl
      query-valid refl refl

outcome : Option Outcome
outcome = enumerate_routes_filtered triangle query

-- At most one path, and no answer to go on after four polls.
abbrev short_query : Query ℕ
short_query = record query { max_new_paths = some 1; should_continue = some (λ polls. leb polls 4) }

enumerate_is_sound_example :
    (r : Outcome) × (enumerate_routes_filtered triangle short_query ≡ some r)
    × IsSoundResult Unit Unit Unit triangle short_query r
enumerate_is_sound_example =
    enumerate_is_sound Unit Unit Unit triangle short_query triangle-IsTokenGraph 1 2 refl refl
      query-valid
