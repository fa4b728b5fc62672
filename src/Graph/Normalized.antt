-- ===== src/Graph/Normalized.antt =====
-- src/graph.rs: what `normalize_tokens` makes of a list of tokens.
use mathlib.Core.List.{Memᴰ}
use mathlib.Core.List.Memᴰ
use evm_amm_search.Prelude.{
  ◌≤◌, ◌<◌, ◌≡◌, refl, inl, inr, List, [], ◌∷◌, arith, nat_PartialEq, ◌==◌, Bool-cases, All,
  All-map, All-mem, ltb, leb, leb_total, length, Result, ok, err, ◌>>=◌, ◌↔◌,
}
use evm_amm_search.Prelude.Sort.{sort, sort-IsSorted, IsSorted, mem_of_sort, mem-sort}
use evm_amm_search.Prelude.Members.{All-of_mem}
use evm_amm_search.Route.{Address}
use evm_amm_search.Graph.{SkippedPoolReason, too_few_tokens}
use evm_amm_search.Graph.Tokens.{
  dedup, normalize_tokens, metadata_tokens, tokens_for_pool, PoolRegistration,
}
use evm_amm_search.Graph.Pairs.{HasDistinct}

-- Each token comes before all later ones.
abbrev pub IsAscending : List Address → Type 0
IsAscending [] = Unit
IsAscending (token ∷ tokens) = All (λ other. token < other) tokens × IsAscending tokens

pub IsAscending-HasDistinct : (tokens : List Address) → IsAscending tokens → HasDistinct tokens
IsAscending-HasDistinct [] a = tt
IsAscending-HasDistinct (token ∷ tokens) a =
    (All-map (λ other less. omega (arith, less)) tokens a.0, IsAscending-HasDistinct tokens a.1)

mem-dedup : (t : Address) (xs : List Address) → Memᴰ t xs → Memᴰ t (dedup xs)
unfolding dedup
mem-dedup t [] m = m
mem-dedup t (x ∷ []) m = m
mem-dedup t (x ∷ y ∷ xs) m = elim (Bool-cases (x == y)) [
  | inl same ↦ elim (Memᴰ.cases_cons m) [
    | inl is ↦ rw same (mem-dedup t (y ∷ xs) (Memᴰ.head (ground (arith, is, same))))
    | inr later ↦ rw same (mem-dedup t (y ∷ xs) later)
  ]
  | inr other ↦ elim (Memᴰ.cases_cons m) [
    | inl is ↦ rw other (Memᴰ.head is)
    | inr later ↦ rw other (Memᴰ.tail (mem-dedup t (y ∷ xs) later))
  ]
]

-- What holds of all the tokens holds of those that are left.
All-dedup {κ} : (P : Address → Type κ) (xs : List Address) → All P xs → All P (dedup xs)
unfolding dedup
All-dedup P [] h = h
All-dedup P (x ∷ []) h = h
All-dedup P (x ∷ y ∷ xs) h = elim (Bool-cases (x == y)) [
  | inl same ↦ rw same (All-dedup P (y ∷ xs) h.1)
  | inr other ↦ rw other (h.0, All-dedup P (y ∷ xs) h.1)
]

dedup-IsAscending : (xs : List Address) → IsSorted leb xs → IsAscending (dedup xs)
unfolding dedup
dedup-IsAscending [] s = tt
dedup-IsAscending (x ∷ []) s = (tt, tt)
dedup-IsAscending (x ∷ y ∷ xs) s = elim (Bool-cases (x == y)) [
  | inl same ↦ rw same (dedup-IsAscending (y ∷ xs) s.1)
  | inr other ↦
      let less : x < y = ground (arith, other, s.0.0) in
      rw other (
        All-dedup (λ z. x < z) (y ∷ xs) (less, All-map (λ z k. ground (arith, less, k)) xs s.1.0),
        dedup-IsAscending (y ∷ xs) s.1,
      )
]

sorted : (xs : List Address) → IsSorted leb (sort leb xs)
sorted xs = sort-IsSorted leb leb_total (λ a b c h k. ground (arith, h, k)) xs

mem_of_sorted : (t : Address) (xs : List Address) → Memᴰ t (dedup (sort leb xs)) → Memᴰ t xs
mem_of_sorted t xs m =
    All-mem (λ y. Memᴰ y xs) (dedup (sort leb xs)) t
      (All-dedup (λ y. Memᴰ y xs) (sort leb xs)
        (All-of_mem (λ y. Memᴰ y xs) (sort leb xs) (λ x k. mem_of_sort leb x xs k)))
      m

-- The tokens of the list, each once, in ascending order.
pub record IsOrdered (tokens tokens' : List Address) : Type 0 where
  pub ascending : IsAscending tokens'
  pub same : (t : Address) → Memᴰ t tokens' ↔ Memᴰ t tokens

ordered : (tokens : List Address) → IsOrdered tokens (dedup (sort leb tokens))
ordered tokens = record {
  ascending = dedup-IsAscending (sort leb tokens) (sorted tokens);
  same =
      λ t. (mem_of_sorted t tokens, λ m. mem-dedup t (sort leb tokens) (mem-sort leb t tokens m));
}

module _ (PoolStatus : Type 0) where
  -- The list has such an order, and it is the result if it has two tokens or more.
  abbrev pub IsNormalized :
      List Address → Result (List Address) (SkippedPoolReason PoolStatus) → Type 0
  IsNormalized tokens (ok tokens') = IsOrdered tokens tokens' × (2 ≤ length tokens')
  IsNormalized tokens (err reason) =
      (tokens' : List Address) × IsOrdered tokens tokens'
      × (length tokens' < 2)
      × (reason ≡ too_few_tokens (length tokens'))

  -- Normalizing a list of tokens gives its tokens, each once, in ascending order, if there are two or
  -- more of them, and otherwise the reason with their number.
  pub normalize_tokens-IsNormalized :
      (tokens : List Address) → IsNormalized tokens (normalize_tokens tokens)
  unfolding normalize_tokens
  normalize_tokens-IsNormalized tokens =
      elim (Bool-cases (ltb (length (dedup (sort leb tokens))) 2)) [
        | inl few ↦
            rw (normalize_tokens, few)
              (dedup (sort leb tokens), ordered tokens, ground (arith, few), refl)
        | inr enough ↦ rw (normalize_tokens, enough) (ordered tokens, ground (arith, enough))
      ]

  two_distinct :
      (outcome : Result (List Address) (SkippedPoolReason PoolStatus)) (tokens : List Address)
      → (outcome >>= normalize_tokens) ≡ ok tokens
      → HasDistinct tokens × (2 ≤ length tokens)
  two_distinct (err reason) tokens k = absurd (ground (arith, k))
  two_distinct (ok xs) tokens k =
      let (order, enough) = rw k at (normalize_tokens-IsNormalized xs) in
      (IsAscending-HasDistinct tokens order.ascending, enough)

  pub tokens_for_pool-HasDistinct :
      (PoolKey : Type 0) (registration : PoolRegistration PoolKey PoolStatus)
      (tokens : List Address)
      → tokens_for_pool registration ≡ ok tokens
      → HasDistinct tokens × (2 ≤ length tokens)
  unfolding tokens_for_pool
  tokens_for_pool-HasDistinct PoolKey registration tokens k =
      two_distinct (metadata_tokens registration.metadata) tokens k
