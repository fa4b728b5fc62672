-- ===== src/Graph/Tokens.antt =====
-- src/graph.rs: which pools are indexed, and their tokens. `ProtocolMetadata` is what
-- `tokens_for_pool` matches on, each variant with the fields that are read; `other` is every variant
-- that the last arm takes.
use Prim.Native.String.{String}
use evm_amm_search.Prelude.{
  Bool, ◌&&◌, ◌||◌, Option, none, some, List, [], ◌∷◌, if◌then◌else◌, ltb, leb, length, PartialEq,
  ◌==◌, nat_PartialEq, Result, ok, err, ◌>>=◌,
}
use evm_amm_search.Prelude.Sort.{sort}
use evm_amm_search.Route.{Address}
use evm_amm_search.Graph.{
  SkippedPoolReason, status, missing_metadata, unsupported_metadata, too_few_tokens,
}

pub record GraphBuildOptions : Type 0 where
  pub include_degraded : Bool

-- `PoolStatus::Ready` and `PoolStatus::Degraded`.
pub record Statuses (PoolStatus : Type 0) : Type 0 where
  pub ready : PoolStatus
  pub degraded : PoolStatus

pub data ProtocolMetadata : Type 0 where
  uniswap_v2 uniswap_v3 pancake_v3 slipstream solidly_v2 :
      Option Address → Option Address → ProtocolMetadata
  balancer_v2 curve : List Address → ProtocolMetadata
  unknown custom other : ProtocolMetadata

pub record PoolRegistration (PoolKey PoolStatus : Type 0) : Type 0 where
  pub key : PoolKey
  pub status : PoolStatus
  pub metadata : ProtocolMetadata

unfoldable pub dedup : List Address → List Address
dedup [] = []
dedup (token ∷ []) = token ∷ []
dedup (token ∷ next ∷ rest) =
    let later = dedup (next ∷ rest) in if token == next then later else token ∷ later

module _ {PoolStatus : Type 0} where
  unfoldable pub pair_tokens :
      Option Address
      → Option Address
      → String
      → Result (List Address) (SkippedPoolReason PoolStatus)
  pair_tokens (some token0) (some token1) field = ok (token0 ∷ token1 ∷ [])
  pair_tokens none _ field = err (missing_metadata field)
  pair_tokens (some _) none field = err (missing_metadata field)

  unfoldable pub normalize_tokens :
      List Address → Result (List Address) (SkippedPoolReason PoolStatus)
  normalize_tokens tokens =
      let tokens' = dedup (sort leb tokens) in
      if ltb (length tokens') 2 then err (too_few_tokens (length tokens')) else ok tokens'

  unfoldable pub metadata_tokens :
      ProtocolMetadata → Result (List Address) (SkippedPoolReason PoolStatus)
  metadata_tokens (uniswap_v2 token0 token1) = pair_tokens token0 token1 "Uniswap V2 token0/token1"
  metadata_tokens (uniswap_v3 token0 token1) = pair_tokens token0 token1 "V3-family token0/token1"
  metadata_tokens (pancake_v3 token0 token1) = pair_tokens token0 token1 "V3-family token0/token1"
  metadata_tokens (slipstream token0 token1) = pair_tokens token0 token1 "V3-family token0/token1"
  metadata_tokens (solidly_v2 token0 token1) = pair_tokens token0 token1 "Solidly V2 token0/token1"
  metadata_tokens (balancer_v2 tokens) = ok tokens
  metadata_tokens (curve coins) = ok coins
  metadata_tokens unknown = err unsupported_metadata
  metadata_tokens custom = err unsupported_metadata
  metadata_tokens other = err unsupported_metadata

  module _ {PoolKey : Type 0} where
    unfoldable pub tokens_for_pool :
        PoolRegistration PoolKey PoolStatus → Result (List Address) (SkippedPoolReason PoolStatus)
    tokens_for_pool pool = do tokens ← metadata_tokens pool.metadata; normalize_tokens tokens

module _ {PoolStatus : Type 0} ⦃e : PartialEq PoolStatus⦄ (statuses : Statuses PoolStatus) where
  unfoldable pub is_indexable_status : PoolStatus → GraphBuildOptions → Bool
  is_indexable_status current options =
      current == statuses.ready || (options.include_degraded && current == statuses.degraded)

  -- The tokens under which a registration is indexed, or why it is not.
  unfoldable pub indexable_tokens :
      {PoolKey : Type 0}
      → GraphBuildOptions
      → PoolRegistration PoolKey PoolStatus
      → Result (List Address) (SkippedPoolReason PoolStatus)
  indexable_tokens options registration =
      if is_indexable_status registration.status options
      then tokens_for_pool registration
      else err (status registration.status)
