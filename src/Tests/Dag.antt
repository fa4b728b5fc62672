-- ===== src/Tests/Dag.antt =====
-- Three paths that share a first hop, an empty one, and one over a pool that always fails.
use mathlib.Core.List.{Perm}
use evm_amm_search.Prelude.{
  ℕ, ◌+◌, refl, List, [], ◌∷◌, flat, nat_PartialEq, ◌==◌, if◌then◌else◌, Result, ok, err,
}
use evm_amm_search.Route.{U256, Hop, RoutePath}
use evm_amm_search.Quote.Evaluate.{HopQuoter, quote_paths_with_registry}
use evm_amm_search.Quote.Together.{ok_list, err_list}
use evm_amm_search.Quote.Observed.{report_alone, quote_paths_with_registry-perm}

abbrev hop : ℕ → ℕ → ℕ → Hop ℕ
hop pool token_in token_out = record { pool = pool; token_in = token_in; token_out = token_out }

abbrev paths : List (RoutePath ℕ)
paths =
    record { hops = hop 10 1 2 ∷ hop 11 2 3 ∷ [] }
    ∷ record { hops = [] }
    ∷ record { hops = hop 10 1 2 ∷ hop 12 2 3 ∷ [] }
    ∷ record { hops = hop 13 1 2 ∷ hop 11 2 3 ∷ [] }
    ∷ record { hops = hop 10 1 2 ∷ [] }
    ∷ []

-- The pool's number is paid on top; pool 13 fails with reason 1.
abbrev quoted : Hop ℕ → U256 → Result U256 ℕ
quoted h amount = if h.pool == 13 then err 1 else ok (amount + h.pool)

-- The cache counts the calls.
abbrev counted : HopQuoter ℕ ℕ ℕ
counted h amount calls = (quoted h amount, calls + 1)

quote_paths_with_registry-perm_example :
    Perm
      (quote_paths_with_registry counted 100 0 paths 0).0
      (flat (λ path. ok_list (report_alone quoted 100 0 path)) paths)
    × Perm
        (quote_paths_with_registry counted 100 0 paths 0).1
        (flat (λ path. err_list (report_alone quoted 100 0 path)) paths)
quote_paths_with_registry-perm_example =
    quote_paths_with_registry-perm quoted counted (λ h amount calls. refl) 100 0 paths 0
