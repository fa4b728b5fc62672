-- ===== src/Work.antt =====
-- src/search.rs: how the parallel searches deal their work to threads, and how the heuristic search
-- chooses its passes.
pub mod Dealt
pub mod Ordered
use evm_amm_search.Prelude.{
  ℕ, zero, suc, ◌+◌, Bool, true, false, ◌&&◌, not, List, [], ◌∷◌, ◌++◌, if◌then◌else◌, ltb, leb,
  keep, map,
}
use evm_amm_search.Config.{HeuristicSearchConfig}
use evm_amm_search.Stream.Progress.{usize_max}
use evm_amm_search.Prelude.Sort.{sort}
use Prim.Native.Nat.{◌%◌}

module _ {ℓ} {A : Type ℓ} where
  -- `chunks[i].push(item)`, for an index in range.
  unfoldable pub push_at : ℕ → A → List (List A) → List (List A)
  push_at i item [] = []
  push_at zero item (chunk ∷ chunks) = (chunk ++ item ∷ []) ∷ chunks
  push_at (suc i) item (chunk ∷ chunks) = chunk ∷ push_at i item chunks

  -- The loop over the items, from the index of the first.
  unfoldable pub deal : ℕ → ℕ → List A → List (List A) → List (List A)
  deal workers index [] chunks = chunks
  deal workers index (item ∷ items) chunks =
      deal workers (index + 1) items (push_at (index % workers) item chunks)

  abbrev pub is_filled : List A → Bool
  is_filled [] = false
  is_filled (_ ∷ _) = true

  unfoldable pub empty_chunks : ℕ → List (List A)
  empty_chunks zero = []
  empty_chunks (suc workers) = [] ∷ empty_chunks workers

  unfoldable pub split_paths : List A → ℕ → List (List A)
  split_paths paths workers = keep is_filled (deal workers 0 paths (empty_chunks workers))

  -- `iter().enumerate()`, from some index.
  unfoldable pub indexed : ℕ → List A → List (ℕ × A)
  indexed index [] = []
  indexed index (item ∷ items) = (index, item) ∷ indexed (index + 1) items

module _ {ℓ} {A : Type ℓ} where
  abbrev pub by_index : ℕ × A → ℕ × A → Bool
  by_index a b = leb a.0 b.0

  -- The assertion on the number of the results is for debug builds only.
  unfoldable pub collect_ordered_results : List (ℕ × A) → List A
  collect_ordered_results results = map (λ r. r.1) (sort by_index results)

unfoldable pub split_indexed_items {ℓ} : {A : Type ℓ} → List A → ℕ → List (List (ℕ × A))
split_indexed_items items workers =
    keep is_filled (deal workers 0 (indexed 0 items) (empty_chunks workers))

pub data HeuristicPassMode : Type 0 where
  initial refinement : HeuristicPassMode

unfoldable pub edge_limit : HeuristicPassMode → HeuristicSearchConfig → ℕ
edge_limit mode heuristic = if not heuristic.edge_shortlist.enabled then usize_max else elim mode [
  | initial ↦ heuristic.edge_shortlist.initial_edges_per_pair
  | refinement ↦ heuristic.edge_shortlist.refinement_edges_per_pair
]

unfoldable pub heuristic_pass_modes : HeuristicSearchConfig → List HeuristicPassMode
heuristic_pass_modes heuristic =
    if heuristic.edge_shortlist.enabled
      && (heuristic.edge_shortlist.refine_parallel_edges
          && ltb heuristic.edge_shortlist.initial_edges_per_pair
              heuristic.edge_shortlist.refinement_edges_per_pair)
    then initial ∷ refinement ∷ []
    else initial ∷ []
