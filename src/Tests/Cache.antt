-- ===== src/Tests/Cache.antt =====
-- Threads quote the keys 5 and 7; a key may be quoted with 100 or, once the pools changed, with 101.
use mathlib.Core.List.{Memᴰ}
use evm_amm_search.Prelude.{
  ℕ, ◌≡◌, ◌⊎◌, refl, inl, inr, none, [], ◌∷◌, nat_PartialEq, ◌==◌, if◌then◌else◌, Result, ok,
}
use evm_amm_search.Prelude.Maps.{lookup, map_insert, map_remove}
use evm_amm_search.Route.{U256}
use evm_amm_search.Quote.Cache.{
  SharedQuoteCache, found, waiting, started, new_cache, entry_of, ask, complete, store, abandon,
  invalidate_pools, forget_pools, remove_keys, notify_all,
}
use evm_amm_search.Quote.Cache.Shared.{
  Workers, asks, finishes, invalidates, IsReachable, at_start, after_step,
}
use evm_amm_search.Quote.Cache.Truth.{answer_is_true, invalidated_are_gone}
use evm_amm_search.Quote.Cache.Asleep.{sleeper_is_awaited}

abbrev pool_of : ℕ → ℕ
pool_of key = if key == 7 then 1 else 2

abbrev Gives : ℕ → Result U256 ℕ → Type 0
Gives key result = (result ≡ ok 100) ⊎ (result ≡ ok 101)

abbrev both : SharedQuoteCache ℕ ℕ ℕ
both = (ask pool_of 7 (ask pool_of 5 new_cache).1).1

abbrev both_started : Workers pool_of Gives
both_started = record { cache = both; quoting = 7 ∷ 5 ∷ [] }

both_started-IsReachable : IsReachable pool_of Gives both_started
unfolding ask lookup map_insert map_remove
both_started-IsReachable =
    after_step (after_step at_start (asks 5 (record { cache = new_cache; quoting = [] })))
      (asks 7 (record { cache = (ask pool_of 5 new_cache).1; quoting = 5 ∷ [] }))

-- Key 5 is done, invalidated, started anew and done with another result.
abbrev one_done : SharedQuoteCache ℕ ℕ ℕ
one_done = complete 5 (entry_of (ok 100)) both

abbrev started_anew : SharedQuoteCache ℕ ℕ ℕ
started_anew = (ask pool_of 5 (invalidate_pools pool_of (2 ∷ []) one_done)).1

abbrev done_anew : Workers pool_of Gives
done_anew = record { cache = complete 5 (entry_of (ok 101)) started_anew; quoting = 7 ∷ [] }

done_anew-IsReachable : IsReachable pool_of Gives done_anew
unfolding ask lookup map_insert map_remove complete store abandon invalidate_pools forget_pools
    remove_keys notify_all
done_anew-IsReachable =
    after_step
      (after_step
        (after_step
          (after_step both_started-IsReachable (finishes 5 (ok 100) (7 ∷ []) [] both (inl refl)))
          (invalidates (2 ∷ []) (record { cache = one_done; quoting = 7 ∷ [] })))
        (asks 5 (record { cache = invalidate_pools pool_of (2 ∷ []) one_done; quoting = 7 ∷ [] })))
      (finishes 5 (ok 101) [] (7 ∷ []) started_anew (inr refl))

answer_is_true_example :
    ((result : Result U256 ℕ) × ((ask pool_of 5 done_anew.cache).0 ≡ found result) × Gives 5 result)
    ⊎ (((ask pool_of 5 done_anew.cache).0 ≡ waiting) × Memᴰ 5 done_anew.quoting)
    ⊎ (((ask pool_of 5 done_anew.cache).0 ≡ started) × (lookup 5 done_anew.cache.entries ≡ none))
answer_is_true_example = answer_is_true pool_of Gives done_anew 5 done_anew-IsReachable

found_anew : (ask pool_of 5 done_anew.cache).0 ≡ found (ok 101)
unfolding ask lookup map_insert map_remove complete store abandon invalidate_pools forget_pools
    remove_keys notify_all
found_anew = refl

invalidated_are_gone_example :
    lookup 5 (invalidate_pools pool_of (3 ∷ 2 ∷ []) done_anew.cache).entries ≡ none
invalidated_are_gone_example =
    invalidated_are_gone pool_of Gives done_anew (3 ∷ 2 ∷ []) 5 done_anew-IsReachable
      (Memᴰ.tail (Memᴰ.head refl))

-- A second thread waits for key 5.
abbrev one_asleep : Workers pool_of Gives
one_asleep = record { cache = (ask pool_of 5 both).1; quoting = 7 ∷ 5 ∷ [] }

one_asleep-IsReachable : IsReachable pool_of Gives one_asleep
unfolding ask lookup map_insert map_remove
one_asleep-IsReachable = after_step both_started-IsReachable (asks 5 both_started)

key_5_awaited : Memᴰ 5 one_asleep.cache.ready_waiters
unfolding ask lookup map_insert map_remove
key_5_awaited = Memᴰ.head refl

sleeper_is_awaited_example :
    Memᴰ 5 one_asleep.quoting
    × ((result : Result U256 ℕ)
        → ((complete 5 (entry_of result) one_asleep.cache).ready_waiters ≡ [])
          × ((ask pool_of 5 (complete 5 (entry_of result) one_asleep.cache)).0 ≡ found result))
    × ((abandon pool_of 5 one_asleep.cache).ready_waiters ≡ [])
    × ((ask pool_of 5 (abandon pool_of 5 one_asleep.cache)).0 ≡ started)
sleeper_is_awaited_example =
    sleeper_is_awaited pool_of Gives one_asleep 5 one_asleep-IsReachable key_5_awaited
