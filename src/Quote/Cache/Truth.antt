-- ===== src/Quote/Cache/Truth.antt =====
-- src/search.rs: what the answers and the invalidations of `SharedQuoteCache` promise its threads.
use mathlib.Core.List.{Memᴰ}
use mathlib.Core.List.Memᴰ
use mathlib.Core.Path.{subst}
use evm_amm_search.Prelude.{
  ◌≡◌, ◌⊎◌, sym, ap, ◌∙◌, inl, inr, none, some, List, [], ◌∷◌, Option-cases, PartialEq, Result,
  unwrap_or,
}
use evm_amm_search.Prelude.Maps.{lookup}
use evm_amm_search.Route.{U256}
use evm_amm_search.Quote.Cache.{
  QuoteCacheState, in_flight, ready, SharedQuoteCache, found, waiting, started, ask, into_result,
  forget_pools, notify_all, invalidate_pools,
}
use evm_amm_search.Quote.Cache.Shared.{Workers, IsReachable}
use evm_amm_search.Quote.Cache.Parts.{lookup_of_remove_keys, listed_under}
use evm_amm_search.Quote.Cache.Found.{Coherent, forget-IsCoherent}
use evm_amm_search.Quote.Cache.Reached.{
  ask_new, ask_flying, ask_ready, forget_unlisted, forget_listed, forget, reachable-IsCoherent,
}

module _ {PoolKey Key Reason : Type 0} ⦃eP : PartialEq PoolKey⦄ ⦃eK : PartialEq Key⦄
    (logical_pool : Key → PoolKey) (Gives : Key → Result U256 Reason → Type 0) where
  listed_nowhere :
      (key : Key) (c : SharedQuoteCache PoolKey Key Reason) (quoting : List Key)
      (state : QuoteCacheState Reason)
      → Coherent logical_pool Gives c quoting
      → lookup key c.entries ≡ some state
      → lookup (logical_pool key) c.keys_by_pool ≡ none
      → Memᴰ key []
  listed_nowhere key c quoting state h known unlisted =
      subst (λ z. Memᴰ key (unwrap_or z [])) unlisted (h.indexed key state known)

  -- What still has an entry after `forget_pools` had it before, and is of none of the pools.
  left_of_forget_pools :
      (pools : List PoolKey) (c : SharedQuoteCache PoolKey Key Reason) (quoting : List Key)
      (key : Key) (state : QuoteCacheState Reason)
      → Coherent logical_pool Gives c quoting
      → lookup key (forget_pools logical_pool pools c).entries ≡ some state
      → (lookup key c.entries ≡ some state) × (¬ Memᴰ (logical_pool key) pools)
  unfolding forget_pools
  left_of_forget_pools [] c quoting key state h left = (left, λ m. Memᴰ.not-nil m)
  left_of_forget_pools (pool ∷ pools) c quoting key state h left =
      elim (Option-cases (lookup pool c.keys_by_pool)) [
        | inl unlisted ↦
            let (known, apart) = left_of_forget_pools pools c quoting key state h (
              subst (λ z. lookup key z.entries ≡ some state)
                (forget_unlisted logical_pool Gives pool pools c unlisted) left) in
            (
              known,
              λ m. elim (Memᴰ.cases_cons m) [
                | inl is ↦ Memᴰ.not-nil (
                    listed_nowhere key c quoting state h known
                      (ap (λ z. lookup z c.keys_by_pool) is ∙ unlisted))
                | inr later ↦ apart later
              ],
            )
        | inr (keys, listed) ↦
            let (kept, apart) =
              left_of_forget_pools pools (forget logical_pool Gives pool keys c) quoting key state
                (forget-IsCoherent logical_pool Gives pool keys quoting c listed h)
                (subst (λ z. lookup key z.entries ≡ some state)
                  (forget_listed logical_pool Gives pool pools keys c listed) left) in
            let (known, out) = lookup_of_remove_keys key keys c.entries state kept in
            (
              known,
              λ m. elim (Memᴰ.cases_cons m) [
                | inl is ↦ out (
                    listed_under pool (logical_pool key) key keys c.keys_by_pool
                      ((eP.eq_iff pool (logical_pool key)).1 (sym is)) listed
                      (h.indexed key state known))
                | inr later ↦ apart later
              ],
            )
      ]

  left_of_invalidate :
      (pools : List PoolKey) (c : SharedQuoteCache PoolKey Key Reason) (quoting : List Key)
      (key : Key) (state : QuoteCacheState Reason)
      → Coherent logical_pool Gives c quoting
      → lookup key (invalidate_pools logical_pool pools c).entries ≡ some state
      → ¬ Memᴰ (logical_pool key) pools
  unfolding invalidate_pools notify_all
  left_of_invalidate [] c quoting key state h left = λ m. Memᴰ.not-nil m
  left_of_invalidate (pool ∷ pools) c quoting key state h left =
      (left_of_forget_pools (pool ∷ pools) c quoting key state h left).1

  -- In every state that threads which share the cache reach, by asking, finishing, panicking, waking up
  -- and invalidating in any order: a thread that asks for a key learns a result that a quote of the key
  -- gave, or that it has to wait while a thread is quoting the key, or that it is to quote it itself,
  -- which it is told only if the key has no entry.
  pub answer_is_true :
      (w : Workers logical_pool Gives) (key : Key)
      → IsReachable logical_pool Gives w
      → ((result : Result U256 Reason) × ((ask logical_pool key w.cache).0 ≡ found result)
          × Gives key result)
        ⊎ (((ask logical_pool key w.cache).0 ≡ waiting) × Memᴰ key w.quoting)
        ⊎ (((ask logical_pool key w.cache).0 ≡ started) × (lookup key w.cache.entries ≡ none))
  answer_is_true w key reached = elim (Option-cases (lookup key w.cache.entries)) [
    | inl new ↦ inr (inr (ap (λ z. z.0) (ask_new logical_pool Gives key w.cache new), new))
    | inr (in_flight, known) ↦ inr (
        inl (
          ask_flying logical_pool Gives key w.cache known,
          (reachable-IsCoherent logical_pool Gives reached).running key known,
        ))
    | inr (ready entry, known) ↦ inl (
      into_result entry,
      ask_ready logical_pool Gives key entry w.cache known,
      (reachable-IsCoherent logical_pool Gives reached).right key entry known,
    )
  ]

  -- In every state that threads which share the cache reach, by asking, finishing with any result,
  -- panicking, waking up and invalidating in any order, once pools are invalidated no key of one of them
  -- has an entry.
  pub invalidated_are_gone :
      (w : Workers logical_pool Gives) (pools : List PoolKey) (key : Key)
      → IsReachable logical_pool Gives w
      → Memᴰ (logical_pool key) pools
      → lookup key (invalidate_pools logical_pool pools w.cache).entries ≡ none
  invalidated_are_gone w pools key reached m =
      elim (Option-cases (lookup key (invalidate_pools logical_pool pools w.cache).entries)) [
        | inl gone ↦ gone
        | inr (state, left) ↦ absurd (
            left_of_invalidate pools w.cache w.quoting key state
              (reachable-IsCoherent logical_pool Gives reached) left m)
      ]
