-- ===== src/Quote/Cache/Reached.antt =====
-- src/search.rs: the states that threads which share a `SharedQuoteCache` reach.
use mathlib.Core.Path.{subst}
use evm_amm_search.Prelude.{
  ◌+◌, ◌≡◌, refl, sym, inl, inr, none, some, List, [], ◌∷◌, ◌++◌, Option-cases, PartialEq, Result,
}
use evm_amm_search.Prelude.Maps.{lookup, map_remove}
use evm_amm_search.Route.{U256}
use evm_amm_search.Quote.Cache.{
  QuoteCacheEntry, in_flight, ready, into_result, SharedQuoteCache, found, waiting, started, ask,
  remove_keys, forget_pools, notify_all, invalidate_pools,
}
use evm_amm_search.Quote.Cache.Shared.{
  Workers, WorkerStep, asks, finishes, panics, invalidates, wakes_up, begun, IsReachable, at_start,
  after_step, IsCoherent,
}
use evm_amm_search.Quote.Cache.Parts.{ask_known}
use evm_amm_search.Quote.Cache.Found.{
  Coherent, begin, new_cache-IsCoherent, complete-IsCoherent, unchanged-IsCoherent,
  begin-IsCoherent, abandon-IsCoherent, forget-IsCoherent,
}

module _ {PoolKey Key Reason : Type 0} ⦃eP : PartialEq PoolKey⦄ ⦃eK : PartialEq Key⦄
    (logical_pool : Key → PoolKey) (Gives : Key → Result U256 Reason → Type 0) where
  pub ask_new :
      (key : Key) (c : SharedQuoteCache PoolKey Key Reason)
      → lookup key c.entries ≡ none
      → ask logical_pool key c ≡ (
        started,
        begin logical_pool Gives key (record (c.stats) { misses = c.stats.misses + 1 }) c,
      )
  unfolding ask
  ask_new key c new = rw (ask, new) refl

  pub ask_flying :
      (key : Key) (c : SharedQuoteCache PoolKey Key Reason)
      → lookup key c.entries ≡ some in_flight
      → (ask logical_pool key c).0 ≡ waiting
  unfolding ask
  ask_flying key c known = rw (ask, known) refl

  pub ask_ready :
      (key : Key) (entry : QuoteCacheEntry Reason) (c : SharedQuoteCache PoolKey Key Reason)
      → lookup key c.entries ≡ some (ready entry)
      → (ask logical_pool key c).0 ≡ found (into_result entry)
  unfolding ask
  ask_ready key entry c known = rw (ask, known) refl

  ask-IsCoherent :
      (key : Key) (c : SharedQuoteCache PoolKey Key Reason) (quoting : List Key)
      → Coherent logical_pool Gives c quoting
      → Coherent logical_pool Gives
          (ask logical_pool key c).1
          (begun (ask logical_pool key c).0 key quoting)
  ask-IsCoherent key c quoting h = elim (Option-cases (lookup key c.entries)) [
    | inl new ↦
        subst (λ z. Coherent logical_pool Gives z.1 (begun z.0 key quoting))
          (sym (ask_new key c new))
          (begin-IsCoherent logical_pool Gives key
            (record (c.stats) { misses = c.stats.misses + 1 }) c quoting h)
    | inr (state, known) ↦
        let (entries, index, begins) = ask_known logical_pool key state c quoting known in
        unchanged-IsCoherent logical_pool Gives c (ask logical_pool key c).1 quoting
          (begun (ask logical_pool key c).0 key quoting) entries index begins h
  ]

  -- The cache after one pool of `forget_pools` that lists keys.
  abbrev pub forget :
      PoolKey → List Key → SharedQuoteCache PoolKey Key Reason → SharedQuoteCache PoolKey Key Reason
  forget pool keys c = record c {
    entries = remove_keys keys c.entries;
    keys_by_pool = map_remove pool c.keys_by_pool;
  }

  pub forget_unlisted :
      (pool : PoolKey) (pools : List PoolKey) (c : SharedQuoteCache PoolKey Key Reason)
      → lookup pool c.keys_by_pool ≡ none
      → forget_pools logical_pool (pool ∷ pools) c ≡ forget_pools logical_pool pools c
  unfolding forget_pools
  forget_unlisted pool pools c unlisted = rw (forget_pools, unlisted) refl

  pub forget_listed :
      (pool : PoolKey) (pools : List PoolKey) (keys : List Key)
      (c : SharedQuoteCache PoolKey Key Reason)
      → lookup pool c.keys_by_pool ≡ some keys
      → forget_pools logical_pool (pool ∷ pools) c
        ≡ forget_pools logical_pool pools (forget pool keys c)
  unfolding forget_pools
  forget_listed pool pools keys c listed = rw (forget_pools, listed) refl

  forget_pools-IsCoherent :
      (pools : List PoolKey) (c : SharedQuoteCache PoolKey Key Reason) (quoting : List Key)
      → Coherent logical_pool Gives c quoting
      → Coherent logical_pool Gives (forget_pools logical_pool pools c) quoting
  unfolding forget_pools
  forget_pools-IsCoherent [] c quoting h = h
  forget_pools-IsCoherent (pool ∷ pools) c quoting h =
      elim (Option-cases (lookup pool c.keys_by_pool)) [
        | inl unlisted ↦
            subst (λ z. Coherent logical_pool Gives z quoting)
              (sym (forget_unlisted pool pools c unlisted))
              (forget_pools-IsCoherent pools c quoting h)
        | inr (keys, listed) ↦
            subst (λ z. Coherent logical_pool Gives z quoting)
              (sym (forget_listed pool pools keys c listed))
              (forget_pools-IsCoherent pools (forget pool keys c) quoting
                (forget-IsCoherent logical_pool Gives pool keys quoting c listed h))
      ]

  invalidate_pools-IsCoherent :
      (pools : List PoolKey) (c : SharedQuoteCache PoolKey Key Reason) (quoting : List Key)
      → Coherent logical_pool Gives c quoting
      → Coherent logical_pool Gives (invalidate_pools logical_pool pools c) quoting
  unfolding invalidate_pools notify_all
  invalidate_pools-IsCoherent [] c quoting h = h
  invalidate_pools-IsCoherent (pool ∷ pools) c quoting h =
      let left = forget_pools logical_pool (pool ∷ pools) c in
      unchanged-IsCoherent logical_pool Gives left (notify_all left) quoting quoting refl refl refl
        (forget_pools-IsCoherent (pool ∷ pools) c quoting h)

  step-IsCoherent :
      {w w' : Workers logical_pool Gives}
      → WorkerStep logical_pool Gives w w'
      → IsCoherent logical_pool Gives w
      → IsCoherent logical_pool Gives w'
  step-IsCoherent (asks key w) h = ask-IsCoherent key w.cache w.quoting h
  step-IsCoherent (finishes key result before after c given) h =
      complete-IsCoherent logical_pool Gives key result before after c given h
  step-IsCoherent (wakes_up key before after w _) h =
      unchanged-IsCoherent logical_pool Gives w.cache
        (record (w.cache) { ready_waiters = before ++ after }) w.quoting w.quoting refl refl refl h
  step-IsCoherent (panics key before after c) h =
      abandon-IsCoherent logical_pool Gives key before after c h
  step-IsCoherent (invalidates pools w) h = invalidate_pools-IsCoherent pools w.cache w.quoting h

  pub reachable-IsCoherent :
      {w : Workers logical_pool Gives}
      → IsReachable logical_pool Gives w
      → IsCoherent logical_pool Gives w
  reachable-IsCoherent at_start = new_cache-IsCoherent logical_pool Gives
  reachable-IsCoherent (after_step reached step) =
      step-IsCoherent step (reachable-IsCoherent reached)
