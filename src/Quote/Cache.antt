-- ===== src/Quote/Cache.antt =====
-- src/search.rs: `SharedQuoteCache`, which worker threads share. Each function is what one thread does
-- under the locks of the cache. The keys, `HopQuoteKey`, have an equality and name a pool.
pub mod Shared
pub mod Parts
pub mod Found
pub mod Reached
pub mod Truth
pub mod Asleep
use evm_amm_search.Prelude.{
  ℕ, ◌+◌, Bool, true, false, not, Option, none, some, List, [], ◌∷◌, if◌then◌else◌, PartialEq, ◌==◌,
  keep, insert, Result, ok, err,
}
use evm_amm_search.Prelude.Maps.{HashMap, lookup, lookup_or, map_insert, map_remove}
use evm_amm_search.Route.{U256}

pub data QuoteCacheEntry (Reason : Type 0) : Type 0 where
  success : U256 → QuoteCacheEntry Reason
  failure : Reason → QuoteCacheEntry Reason

pub data QuoteCacheState (Reason : Type 0) : Type 0 where
  in_flight : QuoteCacheState Reason
  ready : QuoteCacheEntry Reason → QuoteCacheState Reason

module _ {Reason : Type 0} where
  abbrev pub into_result : QuoteCacheEntry Reason → Result U256 Reason
  into_result (success amount_out) = ok amount_out
  into_result (failure reason) = err reason

  -- The entry for what was quoted.
  abbrev pub entry_of : Result U256 Reason → QuoteCacheEntry Reason
  entry_of (ok amount_out) = success amount_out
  entry_of (err reason) = failure reason

  abbrev pub is_failure : QuoteCacheEntry Reason → Bool
  is_failure (success _) = false
  is_failure (failure _) = true

pub record QuoteCacheStats : Type 0 where
  pub hits : ℕ
  pub misses : ℕ
  pub waits : ℕ
  pub executed : ℕ
  pub failed : ℕ

pub record SharedQuoteCache (PoolKey Key Reason : Type 0) : Type 0 where
  pub entries : HashMap Key (QuoteCacheState Reason)
  pub keys_by_pool : HashMap PoolKey (List Key)
  -- The condition variable `ready`: the threads asleep on it, each by the key that it waits for.
  pub ready_waiters : List Key
  pub stats : QuoteCacheStats

-- What a thread learns when it asks for a key: the result, that it has to wait, or that it is the one
-- to quote.
pub data Answer (Reason : Type 0) : Type 0 where
  found : Result U256 Reason → Answer Reason
  waiting : Answer Reason
  started : Answer Reason

module _ {PoolKey Key Reason : Type 0} where
  abbrev pub new_cache : SharedQuoteCache PoolKey Key Reason
  new_cache = record {
    entries = [];
    keys_by_pool = [];
    ready_waiters = [];
    stats = record { hits = 0; misses = 0; waits = 0; executed = 0; failed = 0 };
  }

  -- `ready.notify_all()`: no thread is asleep after it.
  unfoldable pub notify_all :
      SharedQuoteCache PoolKey Key Reason → SharedQuoteCache PoolKey Key Reason
  notify_all c = record c { ready_waiters = [] }

module _ {Key Reason : Type 0} ⦃eK : PartialEq Key⦄ where
  -- The entries after a quote: it is stored only if the key is still in flight.
  unfoldable pub store :
      Key
      → QuoteCacheEntry Reason
      → HashMap Key (QuoteCacheState Reason)
      → HashMap Key (QuoteCacheState Reason)
  store key entry entries = elim (lookup key entries) [
    | some in_flight ↦ map_insert key (ready entry) entries
    | some (ready _) ↦ entries
    | none ↦ entries
  ]

  -- The rest of `get_or_quote`, with the entry that was quoted.
  unfoldable pub complete :
      {PoolKey : Type 0}
      → Key
      → QuoteCacheEntry Reason
      → SharedQuoteCache PoolKey Key Reason
      → SharedQuoteCache PoolKey Key Reason
  complete key entry c = notify_all (record c {
    entries = store key entry c.entries;
    stats = record (c.stats) {
      executed = c.stats.executed + 1;
      failed = if is_failure entry then c.stats.failed + 1 else c.stats.failed;
    };
  })

  unfoldable pub remove_keys :
      List Key → HashMap Key (QuoteCacheState Reason) → HashMap Key (QuoteCacheState Reason)
  remove_keys [] entries = entries
  remove_keys (key ∷ keys) entries = remove_keys keys (map_remove key entries)

module _ {PoolKey Key : Type 0} ⦃eP : PartialEq PoolKey⦄ ⦃eK : PartialEq Key⦄
    (logical_pool : Key → PoolKey) where
  unfoldable pub remove_quote_key_from_pool_index :
      Key → HashMap PoolKey (List Key) → HashMap PoolKey (List Key)
  remove_quote_key_from_pool_index key index = elim (lookup (logical_pool key) index) [
    | none ↦ index
    | some keys ↦ elim (keep (λ other. not (other == key)) keys) [
      | [] ↦ map_remove (logical_pool key) index
      | other ∷ others ↦ map_insert (logical_pool key) (other ∷ others) index
    ]
  ]

module _ {PoolKey Key Reason : Type 0} ⦃eP : PartialEq PoolKey⦄ ⦃eK : PartialEq Key⦄
    (logical_pool : Key → PoolKey) where
  -- One pass of the loop of `get_or_quote`, up to where it waits.
  unfoldable pub ask :
      Key
      → SharedQuoteCache PoolKey Key Reason
      → Answer Reason × SharedQuoteCache PoolKey Key Reason
  ask key c = elim (lookup key c.entries) [
    | some (ready entry) ↦ (
      found (into_result entry),
      record c { stats = record (c.stats) { hits = c.stats.hits + 1 } },
    )
    | some in_flight ↦ (
      waiting,
      record c {
        ready_waiters = key ∷ c.ready_waiters;
        stats = record (c.stats) { waits = c.stats.waits + 1 };
      },
    )
    | none ↦ (
      started,
      record c {
        entries = map_insert key in_flight c.entries;
        keys_by_pool =
            map_insert (logical_pool key)
              (insert key (lookup_or (logical_pool key) [] c.keys_by_pool)) c.keys_by_pool;
        stats = record (c.stats) { misses = c.stats.misses + 1 };
      },
    )
  ]

  -- `InFlightQuoteGuard::drop`, when the quote panicked.
  unfoldable pub abandon :
      Key → SharedQuoteCache PoolKey Key Reason → SharedQuoteCache PoolKey Key Reason
  abandon key c = notify_all (record c {
    entries = map_remove key c.entries;
    keys_by_pool = remove_quote_key_from_pool_index logical_pool key c.keys_by_pool;
  })

  -- The loop of `invalidate_pools` over the pools.
  unfoldable pub forget_pools :
      List PoolKey → SharedQuoteCache PoolKey Key Reason → SharedQuoteCache PoolKey Key Reason
  forget_pools [] c = c
  forget_pools (pool ∷ pools) c = elim (lookup pool c.keys_by_pool) [
    | none ↦ forget_pools pools c
    | some keys ↦ forget_pools pools (record c {
      entries = remove_keys keys c.entries;
      keys_by_pool = map_remove pool c.keys_by_pool;
    })
  ]

  unfoldable pub invalidate_pools :
      List PoolKey → SharedQuoteCache PoolKey Key Reason → SharedQuoteCache PoolKey Key Reason
  invalidate_pools [] c = c
  invalidate_pools (pool ∷ pools) c = notify_all (forget_pools (pool ∷ pools) c)
