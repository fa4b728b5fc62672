-- ===== src/Tests/Heuristic.antt =====
-- Prefixes offered to the dominance index, and work dealt to threads.
use mathlib.Core.List.{Perm}
use mathlib.Core.List.Perm
use native.Mathlib.Nat.{ℕ_set}
use evm_amm_search.Prelude.{ℕ, ◌+◌, map, ◌≡◌, refl, true, List, [], ◌∷◌, nat_PartialEq, All, arith}
use evm_amm_search.Dominance.{PrefixLabel, offer_all}
use evm_amm_search.Dominance.Kept.{IsAntichain, covers, offer_all_keeps}
use evm_amm_search.Work.{
  deal, push_at, empty_chunks, split_paths, split_indexed_items, indexed, collect_ordered_results,
}
use evm_amm_search.Work.Dealt.{IsDealing, dealt, split_deals}
use evm_amm_search.Work.Ordered.{collect_ordered_results-split_indexed_items}

abbrev prefix_with : ℕ → List ℕ → PrefixLabel ℕ
prefix_with amount pools = record {
  amount = amount;
  visited_tokens = 1 ∷ 3 ∷ [];
  used_pools = pools;
}

-- The last prefix offered makes the first one pointless.
abbrev offers : List (ℕ × PrefixLabel ℕ)
offers =
    (3, prefix_with 95 (7 ∷ [])) ∷ (3, prefix_with 99 (9 ∷ [])) ∷ (3, prefix_with 90 (7 ∷ [])) ∷ []

offer_all_keeps_example :
    ((token : ℕ) → IsAntichain ((offer_all offers).labels token))
    × All (λ offer. covers ((offer_all offers).labels offer.0) offer.1 ≡ true) offers
offer_all_keeps_example = offer_all_keeps offers

abbrev five : List ℕ
five = 10 ∷ 11 ∷ 12 ∷ 13 ∷ 14 ∷ []

split_deals_example :
    IsDealing 2 five (split_paths five 2)
    × IsDealing 2 (indexed 0 five) (split_indexed_items five 2)
split_deals_example = split_deals five 2 (omega arith)

split_five : split_paths five 2 ≡ (10 ∷ 12 ∷ 14 ∷ []) ∷ (11 ∷ 13 ∷ []) ∷ []
unfolding split_paths deal push_at empty_chunks
split_five = refl

-- The first thread is done before the second.
abbrev results_of_five : List (ℕ × ℕ)
results_of_five = (0, 11) ∷ (2, 13) ∷ (4, 15) ∷ (1, 12) ∷ (3, 14) ∷ []

dealt_five : Perm results_of_five (map (λ r. (r.0, r.1 + 1)) (dealt (split_indexed_items five 2)))
unfolding split_indexed_items deal push_at empty_chunks indexed
dealt_five = Perm.refl _

collect_ordered_results-split_indexed_items_example :
    collect_ordered_results results_of_five ≡ map (λ n. n + 1) five
collect_ordered_results-split_indexed_items_example =
    collect_ordered_results-split_indexed_items (λ n. n + 1) five 2 results_of_five ℕ_set
      (omega arith) dealt_five
