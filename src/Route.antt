-- ===== src/Route.antt =====
-- src/search.rs: hops, candidate paths, their quotes, and the errors of a search.
-- `PoolKey`, `ProtocolId` and `SimError` belong to the adapter crate and are parameters. An address
-- is the number of its twenty big-endian bytes, a `U256` its value.
use Prim.Native.String.{String}
use evm_amm_search.Prelude.{
  ℕ, ◌≡◌, ◌↔◌, Bool, true, ◌&&◌, List, [], ◌∷◌, ◌++◌, arith, PartialEq, ◌==◌, list_eq_iff,
  nat_PartialEq, list_PartialEq, length,
}

abbrev pub Address : Type 0
Address = ℕ

abbrev pub U256 : Type 0
U256 = ℕ

pub record Hop (PoolKey : Type 0) : Type 0 where
  pub pool : PoolKey
  pub token_in : Address
  pub token_out : Address

pub record RoutePath (PoolKey : Type 0) : Type 0 where
  pub hops : List (Hop PoolKey)

pub record HopQuote (PoolKey : Type 0) : Type 0 where
  pub hop : Hop PoolKey
  pub amount_in : U256
  pub amount_out : U256

pub record RouteQuote (PoolKey : Type 0) : Type 0 where
  pub path : RoutePath PoolKey
  pub amount_in : U256
  pub amount_out : U256
  pub hops : List (HopQuote PoolKey)

pub record PathFailure (PoolKey Reason : Type 0) : Type 0 where
  pub path : RoutePath PoolKey
  pub reason : Reason

-- The only error of the `validate` methods; the searches pass it on.
pub record InvalidConfig : Type 0 where
  pub reason : String

-- The errors that every build of the crate has.
pub data SearchError (PoolKey ProtocolId SimError Reason : Type 0) : Type 0 where
  invalid_config : InvalidConfig → SearchError PoolKey ProtocolId SimError Reason
  token_not_found : Address → SearchError PoolKey ProtocolId SimError Reason
  no_path : Address → Address → SearchError PoolKey ProtocolId SimError Reason
  empty_path : SearchError PoolKey ProtocolId SimError Reason
  missing_pool : PoolKey → SearchError PoolKey ProtocolId SimError Reason
  missing_adapter : ProtocolId → SearchError PoolKey ProtocolId SimError Reason
  quote_failed : Hop PoolKey → SimError → SearchError PoolKey ProtocolId SimError Reason
  no_viable_route :
      ℕ → List (PathFailure PoolKey Reason) → SearchError PoolKey ProtocolId SimError Reason
  worker_panic : SearchError PoolKey ProtocolId SimError Reason

module _ {PoolKey : Type 0} where
  abbrev pub new_path : RoutePath PoolKey
  new_path = record { hops = [] }

  abbrev pub path_len : RoutePath PoolKey → ℕ
  path_len path = length path.hops

  abbrev pub path_is_empty : RoutePath PoolKey → Bool
  path_is_empty path = path_len path == 0

  abbrev pub push_hop : RoutePath PoolKey → Hop PoolKey → RoutePath PoolKey
  push_hop path hop = record { hops = path.hops ++ hop ∷ [] }

-- The derived `PartialEq` of these types.
module _ {PoolKey : Type 0} ⦃e : PartialEq PoolKey⦄ where
  abbrev pub hop_eq : Hop PoolKey → Hop PoolKey → Bool
  hop_eq a b = a.pool == b.pool && (a.token_in == b.token_in && a.token_out == b.token_out)

  pub hop_eq_iff : (a b : Hop PoolKey) → (hop_eq a b ≡ true) ↔ (a ≡ b)
  hop_eq_iff a b = ground (arith, e.eq_iff a.pool b.pool)

instance abbrev pub hop_PartialEq :
    {PoolKey : Type 0} ⦃e : PartialEq PoolKey⦄ → PartialEq (Hop PoolKey)
hop_PartialEq = record { eq = hop_eq; eq_iff = hop_eq_iff }

module _ {PoolKey : Type 0} ⦃e : PartialEq PoolKey⦄ where
  abbrev pub path_eq : RoutePath PoolKey → RoutePath PoolKey → Bool
  path_eq a b = a.hops == b.hops

  pub path_eq_iff : (a b : RoutePath PoolKey) → (path_eq a b ≡ true) ↔ (a ≡ b)
  path_eq_iff a b = ground (arith, list_eq_iff a.hops b.hops)

  abbrev pub hop_quote_eq : HopQuote PoolKey → HopQuote PoolKey → Bool
  hop_quote_eq a b = a.hop == b.hop && (a.amount_in == b.amount_in && a.amount_out == b.amount_out)

  pub hop_quote_eq_iff : (a b : HopQuote PoolKey) → (hop_quote_eq a b ≡ true) ↔ (a ≡ b)
  hop_quote_eq_iff a b = ground (arith, hop_eq_iff a.hop b.hop)

instance abbrev pub path_PartialEq :
    {PoolKey : Type 0} ⦃e : PartialEq PoolKey⦄ → PartialEq (RoutePath PoolKey)
path_PartialEq = record { eq = path_eq; eq_iff = path_eq_iff }

instance abbrev pub hop_quote_PartialEq :
    {PoolKey : Type 0} ⦃e : PartialEq PoolKey⦄ → PartialEq (HopQuote PoolKey)
hop_quote_PartialEq = record { eq = hop_quote_eq; eq_iff = hop_quote_eq_iff }

module _ {PoolKey : Type 0} ⦃e : PartialEq PoolKey⦄ where
  abbrev pub quote_eq : RouteQuote PoolKey → RouteQuote PoolKey → Bool
  quote_eq a b =
      a.path == b.path
      && (a.amount_in == b.amount_in && (a.amount_out == b.amount_out && a.hops == b.hops))

  pub quote_eq_iff : (a b : RouteQuote PoolKey) → (quote_eq a b ≡ true) ↔ (a ≡ b)
  quote_eq_iff a b = ground (arith, path_eq_iff a.path b.path, list_eq_iff a.hops b.hops)

instance abbrev pub quote_PartialEq :
    {PoolKey : Type 0} ⦃e : PartialEq PoolKey⦄ → PartialEq (RouteQuote PoolKey)
quote_PartialEq = record { eq = quote_eq; eq_iff = quote_eq_iff }
