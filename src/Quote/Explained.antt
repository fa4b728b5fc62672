-- ===== src/Quote/Explained.antt =====
-- What the quote of a path says of its hops, and where a failed one failed.
use mathlib.Core.List.{map, cons-ne-nil}
use evm_amm_search.Prelude.{
  ◌≡◌, refl, ap, ◌⊎◌, inl, inr, List, [], ◌∷◌, arith, Result, ok, err, and_then, ◌≢◌, false,
}
use evm_amm_search.Route.{
  U256, Hop, RoutePath, HopQuote, RouteQuote, SearchError, empty_path, path_is_empty,
}
use evm_amm_search.Quote.{AdapterRegistry, quote_hop, quote_hops, quote_path_with_registry}

module _ {PoolKey ProtocolId Pool Adapter Cache SimError : Type 0} (Reason : Type 0)
    (registry : AdapterRegistry PoolKey ProtocolId Pool Adapter Cache SimError) where
  -- The hops were quoted one after the other, each with what the one before paid, and the caches
  -- passed on.
  pub data IsQuoted
      : List (Hop PoolKey) → U256 → Cache → List (HopQuote PoolKey) → U256 → Cache → Type 0 where
    done : {amount : U256} {cache : Cache} → IsQuoted [] amount cache [] amount cache
    next :
        {hop : Hop PoolKey} {amount paid last : U256} {cache cache' cache'' : Cache}
        {hops : List (Hop PoolKey)} {quotes : List (HopQuote PoolKey)}
        → quote_hop {Reason = Reason} registry hop amount cache ≡ (ok paid, cache')
        → IsQuoted hops paid cache' quotes last cache''
        → IsQuoted
            (hop ∷ hops)
            amount
            cache
            (record { hop = hop; amount_in = amount; amount_out = paid } ∷ quotes)
            last
            cache''

  -- Some hop failed with an error, and those before it were quoted.
  pub data IsFailed
      : List (Hop PoolKey)
        → U256
        → Cache
        → SearchError PoolKey ProtocolId SimError Reason
        → Cache
        → Type 0 where
    here :
        {hop : Hop PoolKey} {amount : U256} {cache cache' : Cache} {hops : List (Hop PoolKey)}
        {e : SearchError PoolKey ProtocolId SimError Reason}
        → quote_hop registry hop amount cache ≡ (err e, cache')
        → IsFailed (hop ∷ hops) amount cache e cache'
    later :
        {hop : Hop PoolKey} {amount paid : U256} {cache cache' cache'' : Cache}
        {hops : List (Hop PoolKey)} {e : SearchError PoolKey ProtocolId SimError Reason}
        → quote_hop {Reason = Reason} registry hop amount cache ≡ (ok paid, cache')
        → IsFailed hops paid cache' e cache''
        → IsFailed (hop ∷ hops) amount cache e cache''

-- Each hop takes in what the one before paid.
abbrev pub IsChained : {PoolKey : Type 0} → U256 → List (HopQuote PoolKey) → U256 → Type 0
IsChained amount [] last = amount ≡ last
IsChained amount (quote ∷ quotes) last =
    (quote.amount_in ≡ amount) × IsChained quote.amount_out quotes last

module _ {PoolKey ProtocolId Pool Adapter Cache SimError : Type 0} (Reason : Type 0)
    (registry : AdapterRegistry PoolKey ProtocolId Pool Adapter Cache SimError) where
  abbrev pub HopsExplained :
      List (Hop PoolKey)
      → U256
      → Cache
      → Result (List (HopQuote PoolKey) × U256) (SearchError PoolKey ProtocolId SimError Reason)
        × Cache
      → Type 0
  HopsExplained hops amount cache (ok (quotes, last), cache') =
      IsQuoted Reason registry hops amount cache quotes last cache'
      × (map (λ quote. quote.hop) quotes ≡ hops)
      × IsChained amount quotes last
  HopsExplained hops amount cache (err e, cache') =
      IsFailed Reason registry hops amount cache e cache'

  quote_hops-HopsExplained :
      (hops : List (Hop PoolKey)) (amount : U256) (cache : Cache)
      → HopsExplained hops amount cache (quote_hops registry hops amount cache)
  unfolding quote_hops
  quote_hops-HopsExplained [] amount cache = (done, refl, refl)
  quote_hops-HopsExplained (hop ∷ hops) amount cache =
      go (quote_hops-HopsExplained hops) (quote_hop registry hop amount cache) refl
    where
      with_first :
          Result U256 (SearchError PoolKey ProtocolId SimError Reason) × Cache
          → Result (List (HopQuote PoolKey) × U256) (SearchError PoolKey ProtocolId SimError Reason)
            × Cache
      with_first r = and_then r (λ amount_out cache'.
          and_then (quote_hops registry hops amount_out cache') (λ rest cache''. (
            ok (record { hop = hop; amount_in = amount; amount_out = amount_out } ∷ rest.0, rest.1),
            cache'',
          )))

      rest_explained :
          (paid : U256) (cache' : Cache)
          → quote_hop {Reason = Reason} registry hop amount cache ≡ (ok paid, cache')
          → (r : Result
                (List (HopQuote PoolKey) × U256)
                (SearchError PoolKey ProtocolId SimError Reason)
              × Cache)
          → HopsExplained hops paid cache' r
          → HopsExplained (hop ∷ hops) amount cache (
              and_then r (λ rest cache''. (
                ok (record { hop = hop; amount_in = amount; amount_out = paid } ∷ rest.0, rest.1),
                cache'',
              )))
      rest_explained paid cache' quoted (ok (quotes, last), cache'') (q, same, chained) =
          (next quoted q, ap (λ hs. hop ∷ hs) same, (refl, chained))
      rest_explained paid cache' quoted (err e, cache'') f = later quoted f

      go :
          ((paid : U256) (cache' : Cache)
            → HopsExplained hops paid cache' (quote_hops registry hops paid cache'))
          → (r : Result U256 (SearchError PoolKey ProtocolId SimError Reason) × Cache)
          → quote_hop registry hop amount cache ≡ r
          → HopsExplained (hop ∷ hops) amount cache (with_first r)
      go later_explained (ok paid, cache') quoted =
          rest_explained paid cache' quoted (quote_hops registry hops paid cache')
            (later_explained paid cache')
      go later_explained (err e, cache') failed = here failed

  abbrev pub PathExplained :
      RoutePath PoolKey
      → U256
      → Cache
      → Result (RouteQuote PoolKey) (SearchError PoolKey ProtocolId SimError Reason) × Cache
      → Type 0
  PathExplained path amount cache (ok quote, cache') =
      (quote.path ≡ path)
      × (quote.amount_in ≡ amount)
      × (path.hops ≢ [])
      × HopsExplained path.hops amount cache (ok (quote.hops, quote.amount_out), cache')
  PathExplained path amount cache (err e, cache') =
      ((path.hops ≡ []) × (e ≡ empty_path) × (cache' ≡ cache))
      ⊎ IsFailed Reason registry path.hops amount cache e cache'

  hops-PathExplained :
      (path : RoutePath PoolKey) (amount : U256) (cache : Cache)
      → path.hops ≢ []
      → (r : Result
            (List (HopQuote PoolKey) × U256)
            (SearchError PoolKey ProtocolId SimError Reason)
          × Cache)
      → HopsExplained path.hops amount cache r
      → PathExplained path amount cache (
          and_then r (λ rest cache'. (
            ok (record { path = path; amount_in = amount; amount_out = rest.1; hops = rest.0 }),
            cache',
          )))
  hops-PathExplained path amount cache full (ok (quotes, last), cache') h = (refl, refl, full, h)
  hops-PathExplained path amount cache full (err e, cache') h = inr h

  quote-PathExplained :
      (hops : List (Hop PoolKey)) (amount : U256) (cache : Cache)
      → PathExplained
          (record { hops = hops })
          amount
          cache
          (quote_path_with_registry registry (record { hops = hops }) amount cache)
  unfolding quote_path_with_registry
  quote-PathExplained [] amount cache = inl (refl, refl, refl)
  quote-PathExplained (hop ∷ hops) amount cache =
      let some_hop : path_is_empty (record { hops = hop ∷ hops }) ≡ false = ground arith in
      rw some_hop (
        hops-PathExplained (record { hops = hop ∷ hops }) amount cache (cons-ne-nil hop hops)
          (quote_hops registry (hop ∷ hops) amount cache)
          (quote_hops-HopsExplained (hop ∷ hops) amount cache))

  -- A quote of a path lists its hops in order, each quoted by the pool's adapter with the amount
  -- that the hop before paid, the first with the amount given, and the last pays the amount out; the
  -- caches are passed on. A path without hops gives the error for it and leaves the cache alone.
  -- Every other error is that of the first hop that fails, after those before it were quoted.
  pub quote_path_with_registry-PathExplained :
      (path : RoutePath PoolKey) (amount : U256) (cache : Cache)
      → PathExplained path amount cache (quote_path_with_registry registry path amount cache)
  quote_path_with_registry-PathExplained path amount cache =
      quote-PathExplained path.hops amount cache
