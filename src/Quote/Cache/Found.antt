-- ===== src/Quote/Cache/Found.antt =====
-- src/search.rs: whatever the threads do, `SharedQuoteCache` tells them the truth.
use mathlib.Core.List.{Memᴰ}
use mathlib.Core.Path.{subst}
use evm_amm_search.Prelude.{
  ◌≡◌, refl, sym, ap, ◌∙◌, inl, inr, some, List, [], ◌∷◌, ◌++◌, arith, Bool-cases, PartialEq, ◌==◌,
  insert, Result, ok, err,
}
use evm_amm_search.Prelude.Maps.{
  HashMap, lookup, lookup_or, map_insert, map_remove, lookup-map_insert,
}
use evm_amm_search.Route.{U256}
use evm_amm_search.Quote.Cache.{
  QuoteCacheEntry, in_flight, ready, entry_of, into_result, notify_all, SharedQuoteCache,
  QuoteCacheStats, new_cache, complete, abandon, remove_keys,
}
use evm_amm_search.Quote.Cache.Shared.{Workers, IsCoherent}
use evm_amm_search.Quote.Cache.Parts.{
  mem_without, index_kept, lookup_of_remove_keys, lookup-store, stored_cases, lookup_of_map_remove,
  listed_self, listed_kept, listed_under, listed_elsewhere,
}

module _ {Reason : Type 0} where
  pub into_result-entry_of : (r : Result U256 Reason) → into_result (entry_of r) ≡ r
  into_result-entry_of (ok _) = refl
  into_result-entry_of (err _) = refl

module _ {PoolKey Key Reason : Type 0} ⦃eP : PartialEq PoolKey⦄ ⦃eK : PartialEq Key⦄
    (logical_pool : Key → PoolKey) (Gives : Key → Result U256 Reason → Type 0) where
  abbrev World : Type 0
  World = Workers logical_pool Gives

  abbrev pub Coherent : SharedQuoteCache PoolKey Key Reason → List Key → Type 0
  Coherent c quoting = IsCoherent logical_pool Gives (record { cache = c; quoting = quoting })

  pub new_cache-IsCoherent : Coherent new_cache []
  unfolding lookup
  new_cache-IsCoherent = record {
    right = λ key entry k. absurd (ground (arith, k));
    indexed = λ key state k. absurd (ground (arith, k));
    running = λ key k. absurd (ground (arith, k));
  }

  right_at :
      (key j : Key) (old entry : QuoteCacheEntry Reason)
      → key ≡ j
      → ready entry ≡ ready old
      → Gives key (into_result old)
      → Gives j (into_result entry)
  right_at key j old entry at is right =
      let same : old ≡ entry = ground (arith, is) in
      subst (λ z. Gives z (into_result entry)) at
        (subst (λ z. Gives key (into_result z)) same right)

  indexed_at :
      (key j : Key) (index : HashMap PoolKey (List Key))
      → key ≡ j
      → Memᴰ key (lookup_or (logical_pool key) [] index)
      → Memᴰ j (lookup_or (logical_pool j) [] index)
  indexed_at key j index at m = subst (λ z. Memᴰ z (lookup_or (logical_pool z) [] index)) at m

  pub complete-IsCoherent :
      (key : Key) (result : Result U256 Reason) (before after : List Key)
      (c : SharedQuoteCache PoolKey Key Reason)
      → Gives key result
      → Coherent c (before ++ key ∷ after)
      → Coherent (complete key (entry_of result) c) (before ++ after)
  unfolding complete notify_all
  complete-IsCoherent key result before after c given h = record {
    right = λ j entry k. elim (Bool-cases (key == j)) [
      | inl same ↦
          elim (stored_cases (entry_of result) (lookup key c.entries) (ready entry)
            (ground (arith, k, same, lookup-store j key (entry_of result) c.entries))) [
              | inl (_, is) ↦
                  right_at key j (entry_of result) entry ((eK.eq_iff key j).0 same) is
                    (subst (λ z. Gives key z) (sym (into_result-entry_of result)) given)
              | inr (old, known, is) ↦
                  right_at key j old entry ((eK.eq_iff key j).0 same) is (h.right key old known)
            ]
      | inr other ↦
          h.right j entry (ground (arith, k, other, lookup-store j key (entry_of result) c.entries))
    ];
    indexed = λ j state k. elim (Bool-cases (key == j)) [
      | inl same ↦
          elim (stored_cases (entry_of result) (lookup key c.entries) state
            (ground (arith, k, same, lookup-store j key (entry_of result) c.entries))) [
              | inl (known, _) ↦
                  indexed_at key j c.keys_by_pool ((eK.eq_iff key j).0 same)
                    (h.indexed key in_flight known)
              | inr (old, known, _) ↦
                  indexed_at key j c.keys_by_pool ((eK.eq_iff key j).0 same)
                    (h.indexed key (ready old) known)
            ]
      | inr other ↦
          h.indexed j state
            (ground (arith, k, other, lookup-store j key (entry_of result) c.entries))
    ];
    running = λ j k. elim (Bool-cases (key == j)) [
      | inl same ↦
          elim (stored_cases (entry_of result) (lookup key c.entries) in_flight
            (ground (arith, k, same, lookup-store j key (entry_of result) c.entries))) [
              | inl (_, is) ↦ absurd (ground (arith, is))
              | inr (old, _, is) ↦ absurd (ground (arith, is))
            ]
      | inr other ↦
          mem_without key j before after (λ is. ground (arith, is, other, eK.eq_iff key j))
            (h.running j (ground (arith, k, other, lookup-store j key (entry_of result) c.entries)))
    ];
  }

  pub unchanged-IsCoherent :
      (c c' : SharedQuoteCache PoolKey Key Reason) (quoting quoting' : List Key)
      → c'.entries ≡ c.entries
      → c'.keys_by_pool ≡ c.keys_by_pool
      → quoting' ≡ quoting
      → Coherent c quoting
      → Coherent c' quoting'
  unchanged-IsCoherent c c' quoting quoting' entries index begins h = record {
    right = λ j entry k. h.right j entry (sym (ap (lookup j) entries) ∙ k);
    indexed = λ j state k.
        subst (λ z. Memᴰ j (lookup_or (logical_pool j) [] z)) (sym index)
          (h.indexed j state (sym (ap (lookup j) entries) ∙ k));
    running =
        λ j k. subst (λ z. Memᴰ j z) (sym begins) (h.running j (sym (ap (lookup j) entries) ∙ k));
  }

  -- The cache once a thread began to quote a key.
  abbrev pub begin :
      Key
      → QuoteCacheStats
      → SharedQuoteCache PoolKey Key Reason
      → SharedQuoteCache PoolKey Key Reason
  begin key stats c = record c {
    entries = map_insert key in_flight c.entries;
    keys_by_pool =
        map_insert (logical_pool key) (insert key (lookup_or (logical_pool key) [] c.keys_by_pool))
          c.keys_by_pool;
    stats = stats;
  }

  pub begin-IsCoherent :
      (key : Key) (stats : QuoteCacheStats) (c : SharedQuoteCache PoolKey Key Reason)
      (quoting : List Key)
      → Coherent c quoting
      → Coherent (begin key stats c) (key ∷ quoting)
  begin-IsCoherent key stats c quoting h = record {
    right = λ j entry k. elim (Bool-cases (key == j)) [
      | inl same ↦ absurd (ground (arith, k, same, lookup-map_insert j key in_flight c.entries))
      | inr other ↦
          h.right j entry (ground (arith, k, other, lookup-map_insert j key in_flight c.entries))
    ];
    indexed = λ j state k. elim (Bool-cases (key == j)) [
      | inl same ↦
          subst (λ z. Memᴰ z (lookup_or (logical_pool z) [] (begin key stats c).keys_by_pool))
            ((eK.eq_iff key j).0 same) (listed_self (logical_pool key) key c.keys_by_pool)
      | inr other ↦ listed_kept (logical_pool key) key (logical_pool j) j c.keys_by_pool (
          h.indexed j state (ground (arith, k, other, lookup-map_insert j key in_flight c.entries)))
    ];
    running = λ j k. elim (Bool-cases (key == j)) [
      | inl same ↦ Memᴰ.head (sym ((eK.eq_iff key j).0 same))
      | inr other ↦
          Memᴰ.tail
            (h.running j (ground (arith, k, other, lookup-map_insert j key in_flight c.entries)))
    ];
  }

  pub abandon-IsCoherent :
      (key : Key) (before after : List Key) (c : SharedQuoteCache PoolKey Key Reason)
      → Coherent c (before ++ key ∷ after)
      → Coherent (abandon logical_pool key c) (before ++ after)
  unfolding abandon notify_all
  abandon-IsCoherent key before after c h = record {
    right = λ j entry k. h.right j entry (lookup_of_map_remove j key (ready entry) c.entries k).0;
    indexed = λ j state k.
        let (known, differs) = lookup_of_map_remove j key state c.entries k in
        index_kept logical_pool key j (logical_pool j) c.keys_by_pool differs
          (h.indexed j state known);
    running = λ j k.
        let (known, differs) = lookup_of_map_remove j key in_flight c.entries k in
        mem_without key j before after differs (h.running j known);
  }

  -- What an invalidated pool leaves.
  pub forget-IsCoherent :
      (pool : PoolKey) (keys quoting : List Key) (c : SharedQuoteCache PoolKey Key Reason)
      → lookup pool c.keys_by_pool ≡ some keys
      → Coherent c quoting
      → Coherent
          (record c {
            entries = remove_keys keys c.entries;
            keys_by_pool = map_remove pool c.keys_by_pool;
          })
          quoting
  forget-IsCoherent pool keys quoting c listed h = record {
    right = λ j entry k. h.right j entry (lookup_of_remove_keys j keys c.entries (ready entry) k).0;
    indexed = λ j state k.
        let (known, out) = lookup_of_remove_keys j keys c.entries state k in
        elim (Bool-cases (pool == logical_pool j)) [
          | inl same ↦ absurd (
              out (
                listed_under pool (logical_pool j) j keys c.keys_by_pool same listed
                  (h.indexed j state known)))
          | inr other ↦
              subst (λ z. Memᴰ j z)
                (sym (listed_elsewhere pool (logical_pool j) c.keys_by_pool other))
                (h.indexed j state known)
        ];
    running = λ j k. h.running j (lookup_of_remove_keys j keys c.entries in_flight k).0;
  }
