-- ===== src/Tests/Graph.antt =====
-- A registry of four pools, two of them indexable, and changes of the graph that is built from it.
use mathlib.Core.List.{Memᴰ}
use evm_amm_search.Prelude.{
  ℕ, ◌≡◌, ◌<◌, ◌↔◌, refl, false, true, none, some, List, [], ◌∷◌, arith, nat_PartialEq, ltb, Result,
  ok, result_ok,
}
use evm_amm_search.Prelude.Sort.{sort}
use evm_amm_search.Route.{Hop, SearchError}
use evm_amm_search.Config.Presets.{search_default}
use evm_amm_search.Config.Validate.{validate_search}
use evm_amm_search.Enumerate.{Query, RouteEnumeration}
use evm_amm_search.Enumerate.Loop.{enumerate_routes_filtered}
use evm_amm_search.Enumerate.Found.{IsCompleteResult}
use evm_amm_search.Enumerate.Spec.{HasEdge}
use evm_amm_search.Graph.{AmmGraph, GraphVersion, token_graph, u64_max}
use evm_amm_search.Graph.Tokens.{
  GraphBuildOptions, Statuses, PoolRegistration, uniswap_v2, curve, unknown, dedup,
  normalize_tokens, metadata_tokens, tokens_for_pool, is_indexable_status, indexable_tokens,
  pair_tokens,
}
use evm_amm_search.Graph.Update.{from_registry, apply_pool}
use evm_amm_search.Graph.Normalized.{IsNormalized, normalize_tokens-IsNormalized}
use evm_amm_search.Graph.Valid.{IsValid}
use evm_amm_search.Graph.Compact.{Applies}
use evm_amm_search.Graph.Refine.{apply_pool-Applies}
use evm_amm_search.Graph.Registered.{HasDistinctKeys}
use evm_amm_search.Graph.Registry.{IsIndex, from_registry-IsIndex}
use evm_amm_search.Graph.Routes.{IsTradable, IsRegisteredHop, registry_routes}
use evm_amm_search.Tests.Store.{Slots, slots, slots-IsStableDiGraph}

abbrev statuses : Statuses ℕ
statuses = record { ready = 0; degraded = 1 }

abbrev options : GraphBuildOptions
options = record { include_degraded = true }

abbrev registration_a : PoolRegistration ℕ ℕ
registration_a = record { key = 10; status = 0; metadata = uniswap_v2 (some 2) (some 1) }

abbrev registration_b : PoolRegistration ℕ ℕ
registration_b = record { key = 11; status = 1; metadata = curve (3 ∷ 2 ∷ 3 ∷ []) }

abbrev registered : List (PoolRegistration ℕ ℕ)
registered =
    registration_b
    ∷ registration_a
    ∷ record { key = 12; status = 0; metadata = unknown }
    ∷ record { key = 13; status = 2; metadata = uniswap_v2 (some 1) (some 3) }
    ∷ []

abbrev version : GraphVersion
version = record { lineage = 1; revision = 0 }

abbrev built : AmmGraph ℕ ℕ ℕ Slots
built = (from_registry slots statuses options ltb registered version).graph

registered-HasDistinctKeys : HasDistinctKeys registered
registered-HasDistinctKeys = (
  (omega arith, (omega arith, (omega arith, tt))),
  ((omega arith, (omega arith, tt)), ((omega arith, tt), (tt, tt))),
)

from_registry-IsIndex_example :
    IsIndex slots statuses options registered built × (built.version ≡ version)
from_registry-IsIndex_example =
    from_registry-IsIndex slots slots-IsStableDiGraph statuses options ltb registered version
      registered-HasDistinctKeys

built-IsValid : IsValid slots built
built-IsValid =
    (from_registry-IsIndex slots slots-IsStableDiGraph statuses options ltb registered version
      registered-HasDistinctKeys).0.valid

built_version : built.version ≡ version
built_version =
    (from_registry-IsIndex slots slots-IsStableDiGraph statuses options ltb registered version
      registered-HasDistinctKeys).1

built_less : built.version.revision < u64_max
built_less = rw built_version (ground arith)

-- The pool moves to other tokens.
abbrev moved : PoolRegistration ℕ ℕ
moved = record { key = 10; status = 0; metadata = uniswap_v2 (some 3) (some 1) }

apply_pool-Applies_example :
    Applies slots built 10
      (result_ok (indexable_tokens statuses options moved))
      (apply_pool slots statuses options moved built)
apply_pool-Applies_example =
    apply_pool-Applies slots slots-IsStableDiGraph statuses options built built-IsValid built_less
      moved

normalize_tokens-IsNormalized_example :
    IsNormalized ℕ (3 ∷ 2 ∷ 3 ∷ []) (normalize_tokens (3 ∷ 2 ∷ 3 ∷ []))
normalize_tokens-IsNormalized_example = normalize_tokens-IsNormalized ℕ (3 ∷ 2 ∷ 3 ∷ [])

abbrev query : Query ℕ
query = record {
  token_in = 1;
  token_out = 3;
  config = search_default;
  allow_final_source_revisit = false;
  excluded = [];
  max_new_paths = none;
  should_continue = none;
}

query-valid : validate_search query.config ≡ ok tt
unfolding validate_search search_default
query-valid = refl

tokens_a : indexable_tokens statuses options registration_a ≡ ok (1 ∷ 2 ∷ [])
unfolding indexable_tokens is_indexable_status tokens_for_pool metadata_tokens pair_tokens
    normalize_tokens sort dedup
tokens_a = refl

tokens_b : indexable_tokens statuses options registration_b ≡ ok (2 ∷ 3 ∷ [])
unfolding indexable_tokens is_indexable_status tokens_for_pool metadata_tokens normalize_tokens sort
    dedup
tokens_b = refl

first_token : IsTradable statuses options registered 1
first_token = (registration_a, 1 ∷ 2 ∷ [], Memᴰ.tail (Memᴰ.head refl), tokens_a, Memᴰ.head refl)

last_token : IsTradable statuses options registered 3
last_token = (registration_b, 2 ∷ 3 ∷ [], Memᴰ.head refl, tokens_b, Memᴰ.tail (Memᴰ.head refl))

registry_routes_example :
    ((r : Result (RouteEnumeration ℕ) (SearchError ℕ Unit Unit Unit)) × (enumerate_routes_filtered
          (token_graph built)
          query
        ≡ some r)
      × IsCompleteResult (token_graph built) query r)
    × ((hop : Hop ℕ)
        → HasEdge (token_graph built) query hop ↔ IsRegisteredHop statuses options registered hop)
registry_routes_example =
    registry_routes Unit Unit Unit slots slots-IsStableDiGraph statuses options registered
      registered-HasDistinctKeys ltb version query first_token last_token query-valid refl refl
