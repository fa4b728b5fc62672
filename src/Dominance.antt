-- ===== src/Dominance.antt =====
-- src/search.rs: `PrefixDominanceIndex`, by which the heuristic search drops a prefix of a route that
-- an earlier prefix to the same token makes pointless. A `HashMap` is a function from tokens to their
-- labels, none for a missing key.
pub mod Kept
use evm_amm_search.Prelude.{
  ℕ, Bool, true, false, not, ◌&&◌, ◌||◌, List, [], ◌∷◌, ◌++◌, if◌then◌else◌, leb, ltb, ◌==◌,
  nat_PartialEq, PartialEq, any, keep, is_subset, length,
}
use evm_amm_search.Route.{Address, U256}

pub record PrefixLabel (PoolKey : Type 0) : Type 0 where
  pub amount : U256
  pub visited_tokens : List Address
  pub used_pools : List PoolKey

pub record PrefixDominanceIndex (PoolKey : Type 0) : Type 0 where
  pub labels : Address → List (PrefixLabel PoolKey)

module _ {PoolKey : Type 0} ⦃e : PartialEq PoolKey⦄ where
  -- A prefix with as much or more that has met no other tokens and pools.
  unfoldable pub dominates : PrefixLabel PoolKey → PrefixLabel PoolKey → Bool
  dominates a b =
      leb b.amount a.amount
      && (is_subset a.visited_tokens b.visited_tokens && is_subset a.used_pools b.used_pools)

  abbrev pub no_labels : PrefixDominanceIndex PoolKey
  no_labels = record { labels = λ token. [] }

  -- `labels.retain(…)` and `labels.push(…)`
  unfoldable pub with_label :
      PrefixLabel PoolKey → List (PrefixLabel PoolKey) → List (PrefixLabel PoolKey)
  with_label label labels = keep (λ old. not (dominates label old)) labels ++ label ∷ []

  unfoldable pub insert_or_dominated :
      Address
      → PrefixLabel PoolKey
      → PrefixDominanceIndex PoolKey
      → Bool × PrefixDominanceIndex PoolKey
  insert_or_dominated token label index =
      if any (λ old. dominates old label) (index.labels token) then (true, index) else (
        false,
        record {
          labels = λ other.
              if other == token then with_label label (index.labels token) else index.labels other;
        },
      )

  unfoldable pub is_strictly_dominated :
      Address → PrefixLabel PoolKey → PrefixDominanceIndex PoolKey → Bool
  is_strictly_dominated token label index =
      any
        (λ old.
          dominates old label
          && (ltb label.amount old.amount
              || (ltb (length old.visited_tokens) (length label.visited_tokens)
                  || ltb (length old.used_pools) (length label.used_pools))))
        (index.labels token)

  -- The index after some prefixes were offered, the latest first.
  unfoldable pub offer_all : List (Address × PrefixLabel PoolKey) → PrefixDominanceIndex PoolKey
  offer_all [] = no_labels
  offer_all (offered ∷ before) = (insert_or_dominated offered.0 offered.1 (offer_all before)).1
