-- ===== src/Stream/Bounds.antt =====
-- The ranges of the progress figures, and the threshold policies.
use evm_amm_search.Prelude.{
  ℕ, zero, suc, ◌*◌, ◌/◌, ◌≤◌, ◌≡◌, refl, ◌↔◌, ◌⊎◌, inl, inr, min, true, false, Option, none, some,
  arith, is_some, Option-cases, leb, unwrap_or, Bool, Bool-cases, sym,
}
use mathlib.Core.Path.{subst}
use mathlib.Core.Option
use mathlib.Core.Option.{some-injective}
use native.Mathlib.Nat.{le-div_iff_mul-le}
use evm_amm_search.Config.{StreamingThresholdMode, StreamingThresholdPolicy}
use evm_amm_search.Stream.State.{StreamingRouteState, SearchFinality, candidates_evaluated}
use evm_amm_search.Stream.Progress
use evm_amm_search.Stream.Progress.{
  usize_max, RouteSearchProgress, reaches, is_satisfied, fraction_bps, confidence_bps,
  final_progress,
}

-- A fraction that is known is at most 10000 basis points.
abbrev pub IsFraction : Option ℕ → Type 0
IsFraction none = Unit
IsFraction (some f) = f ≤ 10_000

-- With a total the narrowing to 16 bits does not fail. The fraction is whole exactly when all
-- candidates were evaluated.
fraction_bps_of_total :
    (evaluated total : ℕ)
    → (f : ℕ) × (fraction_bps evaluated (some total) ≡ some f)
      × (f ≤ 10_000)
      × (total * 10_000 ≤ usize_max → (f ≡ 10_000) ↔ (total ≤ evaluated))
unfolding fraction_bps
fraction_bps_of_total evaluated zero = (10_000, refl, omega arith, λ h. ground arith)
fraction_bps_of_total evaluated (suc t) =
    let total : ℕ = suc t in
    let scaled : ℕ = min (min evaluated total * 10_000) usize_max in
    let whole : (10_000 ≤ scaled / total) ↔ (10_000 * total ≤ scaled) =
      le-div_iff_mul-le {k = total} {x = 10_000} {y = scaled} (omega arith) in
    (min (scaled / total) 10_000, ground arith, omega arith, λ h. ground (arith, whole.0, whole.1))

confidence_range :
    {PoolKey : Type 0} (s : StreamingRouteState PoolKey) (fraction : Option ℕ)
    → (confidence_bps s fraction ≤ 9_999)
      × ((confidence_bps s fraction ≡ 0) ↔ (s.best ≡ none))
      × (is_some s.best ≡ true → 7_000 ≤ confidence_bps s fraction)
unfolding confidence_bps
confidence_range s fraction = ground arith

-- In every state whose total of candidates is known, and is at most 2⁶⁴ / 10000: the confidence is
-- zero if no route is known, and from 7000 to 9999 basis points if one is; the evaluated fraction is
-- known, is at most 10000, and is 10000 exactly when no candidate is left.
pub progress_bounds :
    {PoolKey : Type 0} (s : StreamingRouteState PoolKey) (total : ℕ)
    → s.total_candidates ≡ some total
    → total * 10_000 ≤ usize_max
    → ((((Progress.progress s).confidence_bps ≡ 0) × (s.best ≡ none))
        ⊎ ((7_000 ≤ (Progress.progress s).confidence_bps)
            × ((Progress.progress s).confidence_bps ≤ 9_999)
            × (is_some s.best ≡ true)))
      × ((f : ℕ) × ((Progress.progress s).exhaustive_fraction_bps ≡ some f)
          × (f ≤ 10_000)
          × ((f ≡ 10_000) ↔ (total ≤ candidates_evaluated s)))
unfolding Progress.progress
progress_bounds s total h small =
    let fraction = fraction_bps (candidates_evaluated s) s.total_candidates in
    let (f, known, most, whole) = fraction_bps_of_total (candidates_evaluated s) total in
    (
      ground (arith, confidence_range s fraction),
      (f, ground (arith, h, known), most, ground (arith, whole, small)),
    )

-- A stop policy that asks for full confidence is never satisfied while the search runs, whatever
-- fraction it asks for besides: full confidence is kept for the end of an exhaustive search.
pub full_confidence_unreached :
    {PoolKey : Type 0} (s : StreamingRouteState PoolKey) (policy : StreamingThresholdPolicy)
    → policy.mode ≡ StreamingThresholdMode.all
    → policy.min_confidence_bps ≡ some 10_000
    → is_satisfied policy (Progress.progress s) ≡ false
unfolding is_satisfied Progress.progress
full_confidence_unreached s policy every full =
    let fraction = fraction_bps (candidates_evaluated s) s.total_candidates in
    ground (arith, (confidence_range s fraction).0, every, full)

-- A final confidence is full exactly if the search was exhaustive and found a route.
pub final_progress_bounds :
    {PoolKey : Type 0} (s : StreamingRouteState PoolKey) (finality : SearchFinality)
    → ((final_progress s finality).confidence_bps ≡ 10_000)
      ↔ ((finality ≡ SearchFinality.exhaustive) × (is_some s.best ≡ true))
unfolding final_progress Progress.progress
final_progress_bounds s finality =
    ground (arith, confidence_range s (fraction_bps (candidates_evaluated s) s.total_candidates))

module _ {κ} (test : ℕ → Bool) (P : ℕ → Type κ) (reads : (t : ℕ) → (test t ≡ true) ↔ P t) where
  reached_if_set :
      (o : Option ℕ) → (unwrap_or (Option.map test o) true ≡ true) ↔ ((t : ℕ) → o ≡ some t → P t)
  reached_if_set none = (λ h t is. absurd (ground (arith, is)), λ h. refl)
  reached_if_set (some x) =
      (λ h t is. subst P (some-injective _ _ is) ((reads x).0 h), λ h. (reads x).1 (h x refl))

  set_and_reached :
      (o : Option ℕ) → (unwrap_or (Option.map test o) false ≡ true) ↔ ((t : ℕ) × (o ≡ some t) × P t)
  set_and_reached none =
      (λ h. absurd (ground (arith, h)), λ (t, is, h). absurd (ground (arith, is)))
  set_and_reached (some x) = (
    λ h. (x, refl, (reads x).0 h),
    λ (t, is, h). (reads x).1 (subst P (sym (some-injective _ _ is)) h),
  )

module _ (policy : StreamingThresholdPolicy) (progress : RouteSearchProgress) where
  -- The confidence, or the fraction, is known and is the threshold or more.
  abbrev pub IsConfident : ℕ → Type 0
  IsConfident threshold = threshold ≤ progress.confidence_bps

  abbrev pub IsExplored : ℕ → Type 0
  IsExplored threshold =
      (fraction : ℕ) × (progress.exhaustive_fraction_bps ≡ some fraction) × (threshold ≤ fraction)

  -- Every threshold that is set is reached.
  abbrev pub ReachesAll : Type 0
  ReachesAll =
      ((t : ℕ) → policy.min_confidence_bps ≡ some t → IsConfident t)
      × ((t : ℕ) → policy.min_exhaustive_fraction_bps ≡ some t → IsExplored t)

  -- Some threshold is set and reached.
  abbrev pub ReachesAny : Type 0
  ReachesAny =
      ((t : ℕ) × (policy.min_confidence_bps ≡ some t) × IsConfident t)
      ⊎ ((t : ℕ) × (policy.min_exhaustive_fraction_bps ≡ some t) × IsExplored t)

  abbrev confidence_if_set : Bool
  confidence_if_set =
      unwrap_or (Option.map (λ t. leb t progress.confidence_bps) policy.min_confidence_bps) true

  abbrev fraction_if_set : Bool
  fraction_if_set =
      unwrap_or
        (Option.map (reaches progress.exhaustive_fraction_bps) policy.min_exhaustive_fraction_bps)
        true

  confidence_reached : (t : ℕ) → (leb t progress.confidence_bps ≡ true) ↔ IsConfident t
  confidence_reached t = ground arith

  fraction_reached : (t : ℕ) → (reaches progress.exhaustive_fraction_bps t ≡ true) ↔ IsExplored t
  fraction_reached t = elim (Option-cases progress.exhaustive_fraction_bps) [
    | inl unknown ↦ ground (arith, unknown)
    | inr (f, known) ↦ ground (arith, known)
  ]

  -- A policy of mode All is satisfied exactly if the progress reaches every threshold that is set, and
  -- one of mode Any exactly if it reaches some threshold that is set. A fraction that is not known
  -- reaches no threshold.
  pub is_satisfied_iff :
      (policy.mode ≡ StreamingThresholdMode.all
        → (is_satisfied policy progress ≡ true) ↔ ReachesAll)
      × (policy.mode ≡ StreamingThresholdMode.any
          → (is_satisfied policy progress ≡ true) ↔ ReachesAny)
  unfolding is_satisfied
  is_satisfied_iff = (
    λ every. (
      λ sat.
          let both : (confidence_if_set ≡ true) × (fraction_if_set ≡ true) =
            ground (arith, sat, every) in
          (
            (reached_if_set _ IsConfident confidence_reached policy.min_confidence_bps).0 both.0,
            (reached_if_set _ IsExplored fraction_reached policy.min_exhaustive_fraction_bps).0
                both.1,
          ),
      λ h.
          let c =
            (reached_if_set _ IsConfident confidence_reached policy.min_confidence_bps).1 h.0 in
          let f =
            (reached_if_set _ IsExplored fraction_reached policy.min_exhaustive_fraction_bps).1
              h.1 in
          ground (arith, c, f, every),
    ),
    λ some_one. (
      λ sat.
          elim (Bool-cases (
            unwrap_or (Option.map (λ t. leb t progress.confidence_bps) policy.min_confidence_bps)
              false)) [
                | inl c ↦ inl (
                    (set_and_reached _ IsConfident confidence_reached policy.min_confidence_bps).0
                      c)
                | inr no_c ↦ inr (
                    (set_and_reached _ IsExplored fraction_reached
                        policy.min_exhaustive_fraction_bps).0
                      (ground (arith, sat, some_one, no_c)))
              ],
      λ h. elim h [
        | inl confident ↦ ground (
          arith,
          some_one,
          (set_and_reached _ IsConfident confidence_reached policy.min_confidence_bps).1 confident,
        )
        | inr explored ↦ ground (
          arith,
          some_one,
          (set_and_reached _ IsExplored fraction_reached policy.min_exhaustive_fraction_bps).1
              explored,
        )
      ],
    ),
  )
