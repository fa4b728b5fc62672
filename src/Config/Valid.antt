-- ===== src/Config/Valid.antt =====
-- What the `validate` methods accept, stated without them.
use evm_amm_search.Prelude.{ℕ, ◌≤◌, ◌≡◌, ◌↔◌, ◌⊎◌, true, Option, none, some, ok, arith, is_some}
use evm_amm_search.Config.{
  FastLaneConfig, AdaptiveEdgeShortlistConfig, HeuristicSearchConfig, SearchMode, SearchConfig,
  StreamingThresholdPolicy, StreamingSearchConfig,
}
use evm_amm_search.Config.Validate.{
  validate_fast_lane, validate_shortlist, validate_heuristic, validate_mode, validate_search,
  validate_policy, validate_policy?, validate_parallel, validate_streaming,
}

-- A number that is given is at least one.
abbrev pub IsPositive : Option ℕ → Type 0
IsPositive none = Unit
IsPositive (some n) = 1 ≤ n

-- A threshold that is given is a number of basis points from 1 to 10000.
abbrev pub IsBps : Option ℕ → Type 0
IsBps none = Unit
IsBps (some n) = (1 ≤ n) × (n ≤ 10_000)

abbrev pub FastLaneIsValid : FastLaneConfig → Type 0
FastLaneIsValid c =
    c.enabled ≡ true → (1 ≤ c.direct_edges_per_pair) × (1 ≤ c.connector_edges_per_pair)

abbrev pub ShortlistIsValid : AdaptiveEdgeShortlistConfig → Type 0
ShortlistIsValid c =
    c.enabled ≡ true → (1 ≤ c.initial_edges_per_pair) × (1 ≤ c.refinement_edges_per_pair)

pub record HeuristicIsValid (c : HeuristicSearchConfig) : Type 0 where
  pub edges : 1 ≤ c.parallel_edge_limit
  pub finalists : 1 ≤ c.max_finalists
  pub beam : IsPositive c.beam_width
  pub fast_lane : FastLaneIsValid c.fast_lane
  pub shortlist : ShortlistIsValid c.edge_shortlist

abbrev pub ModeIsValid : SearchMode → Type 0
ModeIsValid SearchMode.exhaustive = Unit
ModeIsValid (SearchMode.heuristic c) = HeuristicIsValid c

pub record SearchIsValid (c : SearchConfig) : Type 0 where
  pub hops : (1 ≤ c.min_hops) × (c.min_hops ≤ c.max_hops)
  pub candidates : IsPositive c.max_candidates
  pub mode : ModeIsValid c.mode

pub record PolicyIsValid (p : StreamingThresholdPolicy) : Type 0 where
  pub configured :
      (is_some p.min_confidence_bps ≡ true) ⊎ (is_some p.min_exhaustive_fraction_bps ≡ true)
  pub confidence : IsBps p.min_confidence_bps
  pub fraction : IsBps p.min_exhaustive_fraction_bps

abbrev pub Policy?IsValid : Option StreamingThresholdPolicy → Type 0
Policy?IsValid none = Unit
Policy?IsValid (some p) = PolicyIsValid p

pub record StreamingIsValid (c : StreamingSearchConfig) : Type 0 where
  pub workers : 1 ≤ c.parallel.workers
  pub top : 1 ≤ c.top_k
  pub stop : Policy?IsValid c.stop_policy
  pub initial : Policy?IsValid c.initial_result_policy

fast_lane_iff : (c : FastLaneConfig) → (validate_fast_lane c ≡ ok tt) ↔ FastLaneIsValid c
unfolding validate_fast_lane
fast_lane_iff c = ground arith

shortlist_iff :
    (c : AdaptiveEdgeShortlistConfig) → (validate_shortlist c ≡ ok tt) ↔ ShortlistIsValid c
unfolding validate_shortlist
shortlist_iff c = ground arith

heuristic_iff : (c : HeuristicSearchConfig) → (validate_heuristic c ≡ ok tt) ↔ HeuristicIsValid c
unfolding validate_heuristic
heuristic_iff c = ground (arith, fast_lane_iff c.fast_lane, shortlist_iff c.edge_shortlist)

mode_iff : (m : SearchMode) → (validate_mode m ≡ ok tt) ↔ ModeIsValid m
unfolding validate_mode
mode_iff SearchMode.exhaustive = ground arith
mode_iff (SearchMode.heuristic c) = heuristic_iff c

pub validate_search_iff : (c : SearchConfig) → (validate_search c ≡ ok tt) ↔ SearchIsValid c
unfolding validate_search
validate_search_iff c = ground (arith, mode_iff c.mode)

policy_iff : (p : StreamingThresholdPolicy) → (validate_policy p ≡ ok tt) ↔ PolicyIsValid p
unfolding validate_policy
policy_iff p = ground arith

policy?_iff :
    (p : Option StreamingThresholdPolicy) → (validate_policy? p ≡ ok tt) ↔ Policy?IsValid p
unfolding validate_policy?
policy?_iff none = ground arith
policy?_iff (some p) = policy_iff p

-- A streaming configuration is accepted exactly when it has a worker, keeps at least one route,
-- and each of its threshold policies sets some threshold, each of them from 1 to 10000 basis
-- points.
pub validate_streaming_iff :
    (c : StreamingSearchConfig) → (validate_streaming c ≡ ok tt) ↔ StreamingIsValid c
unfolding validate_streaming validate_parallel
validate_streaming_iff c =
    ground (arith, policy?_iff c.stop_policy, policy?_iff c.initial_result_policy)
