-- ===== src/Tests/Quote.antt =====
-- Quotes of a path with an adapter that pays twice the amount and counts its simulations.
use evm_amm_search.Prelude.{ℕ, ◌+◌, ◌*◌, some, List, [], ◌∷◌, ok}
use evm_amm_search.Route.{RoutePath, RouteQuote, PathFailure}
use evm_amm_search.Quote.{AdapterRegistry, quote_path_with_registry, rank_or_no_viable}
use evm_amm_search.Quote.Explained.{PathExplained, quote_path_with_registry-PathExplained}
use evm_amm_search.Quote.Ranked.{IsRanking, rank_or_no_viable_ranks}

-- The cache is the number of simulations.
abbrev doubling : AdapterRegistry ℕ ℕ ℕ ℕ ℕ ℕ
doubling = record {
  pool = λ pool. some pool;
  adapter = λ protocol. some protocol;
  protocol = λ pool. 1;
  simulate_swap = λ adapter pool count token_in token_out amount. (ok (2 * amount), count + 1);
}

abbrev two_hops : RoutePath ℕ
two_hops = record {
  hops =
      record { pool = 7; token_in = 1; token_out = 3 }
      ∷ record { pool = 8; token_in = 3; token_out = 2 }
      ∷ [];
}

quote_path_with_registry-PathExplained_example :
    PathExplained Unit doubling two_hops 100 0 (quote_path_with_registry doubling two_hops 100 0)
quote_path_with_registry-PathExplained_example =
    quote_path_with_registry-PathExplained Unit doubling two_hops 100 0

abbrev quote_of : ℕ → RouteQuote ℕ
quote_of amount_out = record {
  path = two_hops;
  amount_in = 100;
  amount_out = amount_out;
  hops = [];
}

abbrev no_failures : List (PathFailure ℕ Unit)
no_failures = []

rank_or_no_viable_ranks_example :
    IsRanking {ProtocolId = ℕ} {SimError = ℕ} 2
      (quote_of 90 ∷ quote_of 95 ∷ [])
      no_failures
      (rank_or_no_viable 2 (quote_of 90 ∷ quote_of 95 ∷ []) no_failures)
rank_or_no_viable_ranks_example =
    rank_or_no_viable_ranks ℕ ℕ 2 (quote_of 90 ∷ quote_of 95 ∷ []) no_failures
