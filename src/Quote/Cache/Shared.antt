-- ===== src/Quote/Cache/Shared.antt =====
-- src/search.rs: threads that share a `SharedQuoteCache`. A step is what one thread does while it holds
-- the locks: `get_or_quote` asks, quotes without the locks, and then finishes or panics. A thread that
-- was told to wait is asleep until it is notified or wakes up by itself, as a `Condvar` allows, and
-- asks again. What a quote may result in is a relation, so a key may be quoted with another result
-- once the pools have changed.
use mathlib.Core.List.{Memᴰ}
use evm_amm_search.Prelude.{◌≡◌, some, List, [], ◌∷◌, ◌++◌, PartialEq, Result}
use evm_amm_search.Prelude.Maps.{lookup, lookup_or}
use evm_amm_search.Route.{U256}
use evm_amm_search.Quote.Cache.{
  QuoteCacheEntry, QuoteCacheState, in_flight, ready, entry_of, into_result, SharedQuoteCache,
  Answer, found, waiting, started, new_cache, ask, complete, abandon, invalidate_pools,
}

module _ {Key Reason : Type 0} where
  -- The keys that are quoted once a thread was answered.
  abbrev pub begun : Answer Reason → Key → List Key → List Key
  begun started key quoting = key ∷ quoting
  begun waiting key quoting = quoting
  begun (found _) key quoting = quoting

module _ {PoolKey Key Reason : Type 0} ⦃eP : PartialEq PoolKey⦄ ⦃eK : PartialEq Key⦄
    (logical_pool : Key → PoolKey) (Gives : Key → Result U256 Reason → Type 0) where
  -- The cache, and the keys that threads are quoting.
  pub record Workers : Type 0 where
    pub cache : SharedQuoteCache PoolKey Key Reason
    pub quoting : List Key

  -- One thread asks, finishes its quote or panics, or the owner invalidates pools.
  pub data WorkerStep : Workers → Workers → Type 0 where
    asks :
        (key : Key) (w : Workers)
        → WorkerStep w (record {
          cache = (ask logical_pool key w.cache).1;
          quoting = begun (ask logical_pool key w.cache).0 key w.quoting;
        })
    finishes :
        (key : Key) (result : Result U256 Reason) (before after : List Key)
        (c : SharedQuoteCache PoolKey Key Reason)
        → Gives key result
        → WorkerStep
            (record { cache = c; quoting = before ++ key ∷ after })
            (record { cache = complete key (entry_of result) c; quoting = before ++ after })
    panics :
        (key : Key) (before after : List Key) (c : SharedQuoteCache PoolKey Key Reason)
        → WorkerStep
            (record { cache = c; quoting = before ++ key ∷ after })
            (record { cache = abandon logical_pool key c; quoting = before ++ after })
    invalidates :
        (pools : List PoolKey) (w : Workers)
        → WorkerStep w (record w { cache = invalidate_pools logical_pool pools w.cache })
    wakes_up :
        (key : Key) (before after : List Key) (w : Workers)
        → w.cache.ready_waiters ≡ before ++ key ∷ after
        → WorkerStep w (record w { cache = record (w.cache) { ready_waiters = before ++ after } })

  pub data IsReachable : Workers → Type 0 where
    at_start : IsReachable (record { cache = new_cache; quoting = [] })
    after_step : {w w' : Workers} → IsReachable w → WorkerStep w w' → IsReachable w'

  -- The stored results are results of quotes, the pools list the keys of their entries, and a key in flight is
  -- being quoted.
  pub record IsCoherent (w : Workers) : Type 0 where
    pub right :
        (key : Key) (entry : QuoteCacheEntry Reason)
        → lookup key w.cache.entries ≡ some (ready entry)
        → Gives key (into_result entry)
    pub indexed :
        (key : Key) (state : QuoteCacheState Reason)
        → lookup key w.cache.entries ≡ some state
        → Memᴰ key (lookup_or (logical_pool key) [] w.cache.keys_by_pool)
    pub running : (key : Key) → lookup key w.cache.entries ≡ some in_flight → Memᴰ key w.quoting
