-- ===== src/Dominance/Kept.antt =====
-- The labels that `PrefixDominanceIndex` keeps.
use evm_amm_search.Prelude.{
  ◌≡◌, refl, inl, inr, Bool, true, false, not, List, [], ◌∷◌, ◌++◌, arith, PartialEq, ◌==◌,
  nat_PartialEq, any, keep, contains, is_subset, Bool-cases, any-append, All, All-append, All-map,
  eq_refl, nat_eq_iff,
}
use evm_amm_search.Route.{Address}
use evm_amm_search.Dominance.{
  PrefixLabel, PrefixDominanceIndex, dominates, with_label, insert_or_dominated, offer_all,
}

module _ {A : Type 0} ⦃e : PartialEq A⦄ where
  contains_of_subset :
      (a : A) (xs ys : List A)
      → is_subset xs ys ≡ true
      → contains xs a ≡ true
      → contains ys a ≡ true
  contains_of_subset a [] ys h m = absurd (ground (arith, m))
  contains_of_subset a (x ∷ xs) ys h m =
      ground (arith, h, m, e.eq_iff x a, contains_of_subset a xs ys)

  is_subset_trans :
      (xs ys zs : List A) → is_subset xs ys ≡ true → is_subset ys zs ≡ true → is_subset xs zs ≡ true
  is_subset_trans [] ys zs h k = refl
  is_subset_trans (x ∷ xs) ys zs h k =
      ground (arith, h, k, contains_of_subset x ys zs k, is_subset_trans xs ys zs)

  is_subset-more : (a : A) (xs ys : List A) → is_subset xs ys ≡ true → is_subset xs (a ∷ ys) ≡ true
  is_subset-more a [] ys h = refl
  is_subset-more a (x ∷ xs) ys h = ground (arith, h, is_subset-more a xs ys)

  is_subset_refl : (xs : List A) → is_subset xs xs ≡ true
  is_subset_refl [] = refl
  is_subset_refl (x ∷ xs) = ground (arith, eq_refl x, is_subset-more x xs xs, is_subset_refl xs)

module _ {PoolKey : Type 0} ⦃e : PartialEq PoolKey⦄ where
  dominates_trans :
      (a b c : PrefixLabel PoolKey)
      → dominates a b ≡ true
      → dominates b c ≡ true
      → dominates a c ≡ true
  unfolding dominates
  dominates_trans a b c h k = ground (
    arith,
    h,
    k,
    is_subset_trans a.visited_tokens b.visited_tokens c.visited_tokens,
    is_subset_trans a.used_pools b.used_pools c.used_pools,
  )

  -- No label makes another one pointless.
  abbrev pub IsAntichain : List (PrefixLabel PoolKey) → Type 0
  IsAntichain [] = Unit
  IsAntichain (label ∷ labels) =
      All (λ other. (dominates label other ≡ false) × (dominates other label ≡ false)) labels
      × IsAntichain labels

  abbrev pub covers : List (PrefixLabel PoolKey) → PrefixLabel PoolKey → Bool
  covers labels label = any (λ kept. dominates kept label) labels

  with_label-new :
      (new label : PrefixLabel PoolKey) (labels : List (PrefixLabel PoolKey))
      → dominates new label ≡ true
      → covers (with_label new labels) label ≡ true
  unfolding with_label
  with_label-new new label labels h = ground (
    arith,
    h,
    any-append (λ kept. dominates kept label) (keep (λ old. not (dominates new old)) labels)
        (new ∷ []),
  )

  with_label-covers :
      (new label : PrefixLabel PoolKey) (labels : List (PrefixLabel PoolKey))
      → covers labels label ≡ true
      → covers (with_label new labels) label ≡ true
  unfolding with_label
  with_label-covers new label [] h = absurd (ground (arith, h))
  with_label-covers new label (old ∷ labels) h = elim (Bool-cases (dominates new old)) [
    | inl gone ↦ ground (
      arith,
      h,
      gone,
      dominates_trans new old label gone,
      with_label-new new label labels,
      with_label-covers new label labels,
    )
    | inr stays ↦ ground (arith, h, stays, with_label-covers new label labels)
  ]

  -- Neither of the two makes the other one pointless.
  abbrev IsApart : PrefixLabel PoolKey → PrefixLabel PoolKey → Type 0
  IsApart a b = (dominates a b ≡ false) × (dominates b a ≡ false)

  IsAntichain-append :
      (new : PrefixLabel PoolKey) (labels : List (PrefixLabel PoolKey))
      → All (λ old. IsApart old new) labels
      → IsAntichain labels
      → IsAntichain (labels ++ new ∷ [])
  IsAntichain-append new [] apart h = (tt, tt)
  IsAntichain-append new (old ∷ labels) apart h = (
    All-append (IsApart old) labels (new ∷ []) h.0 (apart.0, tt),
    IsAntichain-append new labels apart.1 h.1,
  )

  All-keep :
      (P : PrefixLabel PoolKey → Type 0) (p : PrefixLabel PoolKey → Bool)
      (labels : List (PrefixLabel PoolKey))
      → All P labels
      → All P (keep p labels)
  All-keep P p [] h = tt
  All-keep P p (label ∷ labels) h = elim (Bool-cases (p label)) [
    | inl kept ↦ rw kept (h.0, All-keep P p labels h.1)
    | inr dropped ↦ rw dropped (All-keep P p labels h.1)
  ]

  IsAntichain-keep :
      (p : PrefixLabel PoolKey → Bool) (labels : List (PrefixLabel PoolKey))
      → IsAntichain labels
      → IsAntichain (keep p labels)
  IsAntichain-keep p [] h = tt
  IsAntichain-keep p (label ∷ labels) h = elim (Bool-cases (p label)) [
    | inl kept ↦ rw kept (All-keep (IsApart label) p labels h.0, IsAntichain-keep p labels h.1)
    | inr dropped ↦ rw dropped (IsAntichain-keep p labels h.1)
  ]

  kept-IsApart :
      (new : PrefixLabel PoolKey) (labels : List (PrefixLabel PoolKey))
      → any (λ old. dominates old new) labels ≡ false
      → All (λ old. IsApart old new) (keep (λ old. not (dominates new old)) labels)
  kept-IsApart new [] h = tt
  kept-IsApart new (old ∷ labels) h = elim (Bool-cases (dominates new old)) [
    | inl gone ↦ rw gone (kept-IsApart new labels (ground (arith, h)))
    | inr stays ↦ rw stays ((ground (arith, h), stays), kept-IsApart new labels (ground (arith, h)))
  ]

  with_label-IsAntichain :
      (new : PrefixLabel PoolKey) (labels : List (PrefixLabel PoolKey))
      → any (λ old. dominates old new) labels ≡ false
      → IsAntichain labels
      → IsAntichain (with_label new labels)
  unfolding with_label
  with_label-IsAntichain new labels h chain =
      IsAntichain-append new (keep (λ old. not (dominates new old)) labels)
        (kept-IsApart new labels h) (IsAntichain-keep (λ old. not (dominates new old)) labels chain)

  dominates_refl : (label : PrefixLabel PoolKey) → dominates label label ≡ true
  unfolding dominates
  dominates_refl label =
      ground (arith, is_subset_refl label.visited_tokens, is_subset_refl label.used_pools)

  -- One offer: the labels of every token afterwards.
  insert-IsAntichain :
      (token other : Address) (new : PrefixLabel PoolKey) (index : PrefixDominanceIndex PoolKey)
      → ((t : Address) → IsAntichain (index.labels t))
      → IsAntichain ((insert_or_dominated token new index).1.labels other)
  unfolding insert_or_dominated
  insert-IsAntichain token other new index h =
      elim (Bool-cases (any (λ old. dominates old new) (index.labels token))) [
        | inl useless ↦ rw useless (h other)
        | inr useful ↦ elim (Bool-cases (other == token)) [
          | inl same ↦
              rw (useful, same) (with_label-IsAntichain new (index.labels token) useful (h token))
          | inr elsewhere ↦ rw (useful, elsewhere) (h other)
        ]
      ]

  insert-covers :
      (token other : Address) (new label : PrefixLabel PoolKey)
      (index : PrefixDominanceIndex PoolKey)
      → covers (index.labels other) label ≡ true
      → covers ((insert_or_dominated token new index).1.labels other) label ≡ true
  unfolding insert_or_dominated
  insert-covers token other new label index h =
      elim (Bool-cases (any (λ old. dominates old new) (index.labels token))) [
        | inl useless ↦ rw useless h
        | inr useful ↦ elim (Bool-cases (other == token)) [
          | inl same ↦
              rw (useful, same)
                (with_label-covers new label (index.labels token)
                  (rw (← (nat_eq_iff other token).0 same) h))
          | inr elsewhere ↦ rw (useful, elsewhere) h
        ]
      ]

  insert-new :
      (token : Address) (new : PrefixLabel PoolKey) (index : PrefixDominanceIndex PoolKey)
      → covers ((insert_or_dominated token new index).1.labels token) new ≡ true
  unfolding insert_or_dominated
  insert-new token new index =
      elim (Bool-cases (any (λ old. dominates old new) (index.labels token))) [
        | inl useless ↦ rw useless useless
        | inr useful ↦
            rw (useful, eq_refl token)
              (with_label-new new new (index.labels token) (dominates_refl new))
      ]

  -- Whatever prefixes were offered, no label that is kept for a token dominates another one, and
  -- every prefix offered is dominated by a label kept for its token: one with as much or more that
  -- has met no other tokens and no other pools.
  pub offer_all_keeps :
      (offers : List (Address × PrefixLabel PoolKey))
      → ((token : Address) → IsAntichain ((offer_all offers).labels token))
        × All (λ offer. covers ((offer_all offers).labels offer.0) offer.1 ≡ true) offers
  unfolding offer_all
  offer_all_keeps [] = (λ token. tt, tt)
  offer_all_keeps ((token, new) ∷ before) =
      let (chain, covered) = offer_all_keeps before in
      let index = offer_all before in
      (
        λ other. insert-IsAntichain token other new index chain,
        (
          insert-new token new index,
          All-map (λ offer c. insert-covers token offer.0 new offer.1 index c) before covered,
        ),
      )
