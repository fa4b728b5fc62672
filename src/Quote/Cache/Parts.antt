-- ===== src/Quote/Cache/Parts.antt =====
-- src/search.rs: what the parts of `SharedQuoteCache` hold after each of its methods.
use mathlib.Core.List.{Memᴰ}
use mathlib.Core.List.Memᴰ
use evm_amm_search.Prelude.{
  ◌≡◌, ◌≢◌, ◌⊎◌, refl, sym, inl, inr, true, false, not, Option, none, some, List, [], ◌∷◌, ◌++◌,
  arith, if◌then◌else◌, Bool-cases, Option-cases, List-cases, PartialEq, ◌==◌, eq_refl, keep,
  insert, contains,
}
use evm_amm_search.Prelude.Maps.{
  HashMap, lookup, lookup_or, map_insert, map_remove, lookup-map_insert, lookup-map_remove,
}
use evm_amm_search.Prelude.Members.{mem-keep}
use evm_amm_search.Quote.Cache.{
  QuoteCacheEntry, QuoteCacheState, in_flight, ready, SharedQuoteCache, ask, store, remove_keys,
  remove_quote_key_from_pool_index,
}
use evm_amm_search.Quote.Cache.Shared.{begun}

module _ {ℓ} {A : Type ℓ} ⦃e : PartialEq A⦄ where
  mem_of_contains : (a : A) (xs : List A) → contains xs a ≡ true → Memᴰ a xs
  mem_of_contains a [] h = absurd (ground (arith, h))
  mem_of_contains a (x ∷ xs) h = elim (Bool-cases (x == a)) [
    | inl same ↦ Memᴰ.head (sym ((e.eq_iff x a).0 same))
    | inr other ↦ Memᴰ.tail (mem_of_contains a xs (ground (arith, h, other)))
  ]

  pub mem-insert_self : (a : A) (xs : List A) → Memᴰ a (insert a xs)
  mem-insert_self a xs = elim (Bool-cases (contains xs a)) [
    | inl there ↦ rw there (mem_of_contains a xs there)
    | inr new ↦ rw new (Memᴰ.head refl)
  ]

  pub mem-insert : (a b : A) (xs : List A) → Memᴰ b xs → Memᴰ b (insert a xs)
  mem-insert a b xs m = elim (Bool-cases (contains xs a)) [
    | inl there ↦ rw there m
    | inr new ↦ rw new (Memᴰ.tail m)
  ]

  pub mem_without :
      (a b : A) (before after : List A)
      → b ≢ a
      → Memᴰ b (before ++ a ∷ after)
      → Memᴰ b (before ++ after)
  mem_without a b before after differs m = elim (Memᴰ.append_cases before m) [
    | inl early ↦ Memᴰ.append_left after early
    | inr late ↦ elim (Memᴰ.cases_cons late) [
      | inl is ↦ absurd (differs is)
      | inr later ↦ Memᴰ.append_right before later
    ]
  ]

module _ {PoolKey Key Reason : Type 0} ⦃eP : PartialEq PoolKey⦄ ⦃eK : PartialEq Key⦄
    (logical_pool : Key → PoolKey) where
  -- A key that has an entry is told so, and nothing changes but a count.
  pub ask_known :
      (key : Key) (state : QuoteCacheState Reason) (c : SharedQuoteCache PoolKey Key Reason)
      (quoting : List Key)
      → lookup key c.entries ≡ some state
      → ((ask logical_pool key c).1.entries ≡ c.entries)
        × ((ask logical_pool key c).1.keys_by_pool ≡ c.keys_by_pool)
        × (begun (ask logical_pool key c).0 key quoting ≡ quoting)
  unfolding ask
  ask_known key (ready entry) c quoting known = rw (ask, known) (refl, refl, refl)
  ask_known key in_flight c quoting known = rw (ask, known) (refl, refl, refl)

module _ {PoolKey Key : Type 0} ⦃eP : PartialEq PoolKey⦄ ⦃eK : PartialEq Key⦄
    (logical_pool : Key → PoolKey) where
  index_after :
      (key : Key) (pool : PoolKey) (index : HashMap PoolKey (List Key))
      → lookup_or pool [] (remove_quote_key_from_pool_index logical_pool key index) ≡ (
          if logical_pool key == pool
          then keep (λ other. not (other == key)) (lookup_or pool [] index)
          else lookup_or pool [] index)
  unfolding remove_quote_key_from_pool_index
  index_after key pool index = elim (Option-cases (lookup (logical_pool key) index)) [
    | inl none_known ↦ ground (arith, none_known, eP.eq_iff (logical_pool key) pool)
    | inr (keys, known) ↦ elim (List-cases (keep (λ other. not (other == key)) keys)) [
      | inl empty ↦ ground (
        arith,
        known,
        empty,
        eP.eq_iff (logical_pool key) pool,
        lookup-map_remove pool (logical_pool key) index,
      )
      | inr (first, rest, is) ↦ ground (
        arith,
        known,
        is,
        eP.eq_iff (logical_pool key) pool,
        lookup-map_insert pool (logical_pool key) (first ∷ rest) index,
      )
    ]
  ]

  pub index_kept :
      (key other : Key) (pool : PoolKey) (index : HashMap PoolKey (List Key))
      → other ≢ key
      → Memᴰ other (lookup_or pool [] index)
      → Memᴰ other (lookup_or pool [] (remove_quote_key_from_pool_index logical_pool key index))
  index_kept key other pool index differs m = elim (Bool-cases (logical_pool key == pool)) [
    | inl same ↦
        rw (index_after key pool index, same)
          (mem-keep (λ x. not (x == key)) other (lookup_or pool [] index) m
            (ground (arith, differs, eK.eq_iff other key)))
    | inr elsewhere ↦ rw (index_after key pool index, elsewhere) m
  ]

module _ {PoolKey Key : Type 0} ⦃eP : PartialEq PoolKey⦄ ⦃eK : PartialEq Key⦄ where
  pub listed_self :
      (pool : PoolKey) (key : Key) (index : HashMap PoolKey (List Key))
      → Memᴰ key (lookup_or pool [] (map_insert pool (insert key (lookup_or pool [] index)) index))
  listed_self pool key index =
      let keys = insert key (lookup_or pool [] index) in
      rw (lookup-map_insert pool pool keys index, eq_refl pool)
        (mem-insert_self key (lookup_or pool [] index))

  pub listed_kept :
      (pool : PoolKey) (key : Key) (other : PoolKey) (j : Key) (index : HashMap PoolKey (List Key))
      → Memᴰ j (lookup_or other [] index)
      → Memᴰ j (lookup_or other [] (map_insert pool (insert key (lookup_or pool [] index)) index))
  listed_kept pool key other j index m = elim (Bool-cases (pool == other)) [
    | inl same ↦
        let keys = insert key (lookup_or pool [] index) in
        rw (lookup-map_insert other pool keys index, same)
          (mem-insert key j (lookup_or pool [] index) (rw ((eP.eq_iff pool other).0 same) m))
    | inr elsewhere ↦
        let keys = insert key (lookup_or pool [] index) in
        rw (lookup-map_insert other pool keys index, elsewhere) m
  ]

module _ {PoolKey Key : Type 0} ⦃eP : PartialEq PoolKey⦄ where
  pub listed_under :
      (pool other : PoolKey) (j : Key) (keys : List Key) (index : HashMap PoolKey (List Key))
      → pool == other ≡ true
      → lookup pool index ≡ some keys
      → Memᴰ j (lookup_or other [] index)
      → Memᴰ j keys
  listed_under pool other j keys index same listed m =
      let at : lookup_or other [] index ≡ keys =
        ground (arith, same, listed, eP.eq_iff pool other) in
      rw (sym at) m

  pub listed_elsewhere :
      (pool other : PoolKey) (index : HashMap PoolKey (List Key))
      → pool == other ≡ false
      → lookup_or other [] (map_remove pool index) ≡ lookup_or other [] index
  listed_elsewhere pool other index elsewhere =
      ground (arith, elsewhere, lookup-map_remove other pool index)

module _ {Reason : Type 0} where
  -- The entry of the key itself, after the store.
  abbrev pub stored :
      QuoteCacheEntry Reason → Option (QuoteCacheState Reason) → Option (QuoteCacheState Reason)
  stored entry none = none
  stored entry (some in_flight) = some (ready entry)
  stored entry (some (ready old)) = some (ready old)

  pub stored_cases :
      (entry : QuoteCacheEntry Reason) (o : Option (QuoteCacheState Reason))
      (state : QuoteCacheState Reason)
      → stored entry o ≡ some state
      → ((o ≡ some in_flight) × (state ≡ ready entry))
        ⊎ ((old : QuoteCacheEntry Reason) × (o ≡ some (ready old)) × (state ≡ ready old))
  stored_cases entry none state h = absurd (ground (arith, h))
  stored_cases entry (some in_flight) state h = inl (refl, ground (arith, h))
  stored_cases entry (some (ready old)) state h = inr (old, refl, ground (arith, h))

module _ {Key Reason : Type 0} ⦃eK : PartialEq Key⦄ where
  -- What has an entry after the removal of keys had it before, and is none of them.
  pub lookup_of_remove_keys :
      (j : Key) (keys : List Key) (m : HashMap Key (QuoteCacheState Reason))
      (state : QuoteCacheState Reason)
      → lookup j (remove_keys keys m) ≡ some state
      → (lookup j m ≡ some state) × (¬ Memᴰ j keys)
  unfolding remove_keys
  lookup_of_remove_keys j [] m state known = (known, λ k. Memᴰ.not-nil k)
  lookup_of_remove_keys j (key ∷ keys) m state known =
      let (left, out) = lookup_of_remove_keys j keys (map_remove key m) state known in
      let apart : key == j ≡ false = ground (arith, left, lookup-map_remove j key m) in
      (
        ground (arith, left, lookup-map_remove j key m),
        λ k. elim (Memᴰ.cases_cons k) [
          | inl is ↦ ground (arith, is, apart, eK.eq_iff key j)
          | inr later ↦ out later
        ],
      )

  pub lookup-store :
      (j key : Key) (entry : QuoteCacheEntry Reason) (m : HashMap Key (QuoteCacheState Reason))
      → lookup j (store key entry m)
        ≡ (if key == j then stored entry (lookup key m) else lookup j m)
  unfolding store
  lookup-store j key entry m = elim (Option-cases (lookup key m)) [
    | inl new ↦ ground (arith, new, eK.eq_iff key j)
    | inr (in_flight, known) ↦
        ground (arith, known, eK.eq_iff key j, lookup-map_insert j key (ready entry) m)
    | inr (ready old, known) ↦ ground (arith, known, eK.eq_iff key j)
  ]

  pub lookup_of_map_remove :
      (j key : Key) (state : QuoteCacheState Reason) (m : HashMap Key (QuoteCacheState Reason))
      → lookup j (map_remove key m) ≡ some state
      → (lookup j m ≡ some state) × (j ≢ key)
  lookup_of_map_remove j key state m k = (
    ground (arith, k, lookup-map_remove j key m),
    λ is. ground (arith, k, is, lookup-map_remove j key m, eK.eq_iff key j),
  )
