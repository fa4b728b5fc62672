-- ===== src/Quote/Cache/Asleep.antt =====
-- src/search.rs: the threads that wait on the condition variable of `SharedQuoteCache`.
use mathlib.Core.List.{Memᴰ}
use mathlib.Core.List.Memᴰ
use mathlib.Core.Path.{subst}
use evm_amm_search.Prelude.{
  ◌≡◌, refl, sym, ap, ◌∙◌, inl, inr, none, some, List, [], ◌∷◌, ◌++◌, arith, Option-cases,
  PartialEq, eq_refl, Result,
}
use evm_amm_search.Prelude.Maps.{lookup, lookup-map_insert, lookup-map_remove}
use evm_amm_search.Route.{U256}
use evm_amm_search.Quote.Cache.{
  QuoteCacheEntry, in_flight, ready, entry_of, SharedQuoteCache, found, started, ask, complete,
  abandon, invalidate_pools, notify_all,
}
use evm_amm_search.Quote.Cache.Shared.{
  Workers, WorkerStep, asks, finishes, panics, invalidates, wakes_up, IsReachable, at_start,
  after_step,
}
use evm_amm_search.Quote.Cache.Parts.{lookup-store}
use evm_amm_search.Quote.Cache.Found.{into_result-entry_of}
use evm_amm_search.Quote.Cache.Reached.{ask_new, ask_ready, reachable-IsCoherent}

module _ {PoolKey Key Reason : Type 0} ⦃eP : PartialEq PoolKey⦄ ⦃eK : PartialEq Key⦄
    (logical_pool : Key → PoolKey) (Gives : Key → Result U256 Reason → Type 0) where
  -- Whoever is asleep waits for a key in flight.
  abbrev NoneMissed : SharedQuoteCache PoolKey Key Reason → Type 0
  NoneMissed c = (j : Key) → Memᴰ j c.ready_waiters → lookup j c.entries ≡ some in_flight

  abbrev waiting_for : Key → SharedQuoteCache PoolKey Key Reason → List Key
  waiting_for key c = key ∷ c.ready_waiters

  ask-NoneMissed :
      (key : Key) (c : SharedQuoteCache PoolKey Key Reason)
      → NoneMissed c
      → NoneMissed (ask logical_pool key c).1
  unfolding ask
  ask-NoneMissed key c h = elim (Option-cases (lookup key c.entries)) [
    | inl new ↦
        subst (λ z. NoneMissed z.1) (sym (ask_new logical_pool Gives key c new))
          (λ j m.
            ground
              (arith, h j m, new, lookup-map_insert j key in_flight c.entries, eK.eq_iff key j))
    | inr (in_flight, known) ↦
        rw (ask, known)
          (λ j m. elim (Memᴰ.cases_cons m) [
            | inl is ↦ ap (λ z. lookup z c.entries) is ∙ known
            | inr later ↦ h j later
          ])
    | inr (ready entry, known) ↦ rw (ask, known) h
  ]

  invalidate_pools-NoneMissed :
      (pools : List PoolKey) (c : SharedQuoteCache PoolKey Key Reason)
      → NoneMissed c
      → NoneMissed (invalidate_pools logical_pool pools c)
  unfolding invalidate_pools notify_all
  invalidate_pools-NoneMissed [] c h = h
  invalidate_pools-NoneMissed (pool ∷ pools) c h = λ j m. absurd (Memᴰ.not-nil m)

  mem_of_without :
      (a b : Key) (before after : List Key)
      → Memᴰ b (before ++ after)
      → Memᴰ b (before ++ a ∷ after)
  mem_of_without a b before after m = elim (Memᴰ.append_cases before m) [
    | inl early ↦ Memᴰ.append_left (a ∷ after) early
    | inr late ↦ Memᴰ.append_right before (Memᴰ.tail late)
  ]

  step-NoneMissed :
      {w w' : Workers logical_pool Gives}
      → WorkerStep logical_pool Gives w w'
      → NoneMissed w.cache
      → NoneMissed w'.cache
  unfolding complete abandon notify_all
  step-NoneMissed (asks key w) h = ask-NoneMissed key w.cache h
  step-NoneMissed (finishes key result before after c given) h = λ j m. absurd (Memᴰ.not-nil m)
  step-NoneMissed (panics key before after c) h = λ j m. absurd (Memᴰ.not-nil m)
  step-NoneMissed (invalidates pools w) h = invalidate_pools-NoneMissed pools w.cache h
  step-NoneMissed (wakes_up key before after w is) h =
      λ j m. h j (subst (λ z. Memᴰ j z) (sym is) (mem_of_without key j before after m))

  reachable-NoneMissed :
      {w : Workers logical_pool Gives} → IsReachable logical_pool Gives w → NoneMissed w.cache
  reachable-NoneMissed at_start = λ j m. absurd (Memᴰ.not-nil m)
  reachable-NoneMissed (after_step reached step) =
      step-NoneMissed step (reachable-NoneMissed reached)

  complete_flying :
      (key : Key) (entry : QuoteCacheEntry Reason) (c : SharedQuoteCache PoolKey Key Reason)
      → lookup key c.entries ≡ some in_flight
      → (lookup key (complete key entry c).entries ≡ some (ready entry))
        × ((complete key entry c).ready_waiters ≡ [])
  unfolding complete notify_all
  complete_flying key entry c known =
      (ground (arith, known, eq_refl key, lookup-store key key entry c.entries), refl)

  abandon_gone :
      (key : Key) (c : SharedQuoteCache PoolKey Key Reason)
      → (lookup key (abandon logical_pool key c).entries ≡ none)
        × ((abandon logical_pool key c).ready_waiters ≡ [])
  unfolding abandon notify_all
  abandon_gone key c = (ground (arith, eq_refl key, lookup-map_remove key key c.entries), refl)

  -- No wakeup is lost. In every state that threads which share the cache reach, by asking, finishing
  -- with any result, panicking, waking up and invalidating in any order: a thread that is asleep waits
  -- for a key that a thread is quoting. If that quote finishes, with any result, no thread is asleep
  -- any more and asking for the key gives the result; if it panics, no thread is asleep any more and
  -- who asks for the key is told to quote it.
  pub sleeper_is_awaited :
      (w : Workers logical_pool Gives) (key : Key)
      → IsReachable logical_pool Gives w
      → Memᴰ key w.cache.ready_waiters
      → Memᴰ key w.quoting
        × ((result : Result U256 Reason)
            → ((complete key (entry_of result) w.cache).ready_waiters ≡ [])
              × ((ask logical_pool key (complete key (entry_of result) w.cache)).0 ≡ found result))
        × ((abandon logical_pool key w.cache).ready_waiters ≡ [])
        × ((ask logical_pool key (abandon logical_pool key w.cache)).0 ≡ started)
  sleeper_is_awaited w key reached asleep =
      let known = reachable-NoneMissed reached key asleep in
      let (gone, awake) = abandon_gone key w.cache in
      (
        (reachable-IsCoherent logical_pool Gives reached).running key known,
        λ result.
            let (stored, awake') = complete_flying key (entry_of result) w.cache known in
            (
              awake',
              ask_ready logical_pool Gives key (entry_of result)
                    (complete key (entry_of result) w.cache) stored
                  ∙ ap found (into_result-entry_of result),
            ),
        awake,
        ap (λ z. z.0) (ask_new logical_pool Gives key (abandon logical_pool key w.cache) gone),
      )
