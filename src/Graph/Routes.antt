-- ===== src/Graph/Routes.antt =====
-- src/graph.rs with src/search.rs: the routes that the enumeration finds in the graph of a registry.
use mathlib.Core.List.{Memᴰ}
use evm_amm_search.Prelude.{
  ◌≤◌, ◌≡◌, ◌≢◌, ◌↔◌, refl, sym, ap, ◌∙◌, inl, inr, Bool, none, some, List, [], ◌∷◌, arith,
  PartialEq, nat_PartialEq, ◌==◌, Bool-cases, length, Result, ok, err, result_ok,
}
use evm_amm_search.Prelude.Maps.{lookup}
use evm_amm_search.Route.{Address, Hop, SearchError}
use evm_amm_search.Config.Validate.{validate_search}
use evm_amm_search.Enumerate.{Query, RouteEnumeration}
use evm_amm_search.Enumerate.Loop.{enumerate_routes_filtered}
use evm_amm_search.Enumerate.Spec.{HasEdge}
use evm_amm_search.Enumerate.Found.{enumerate_finds_simple_routes, IsCompleteResult}
use evm_amm_search.Graph.{AmmGraph, StableDiGraph, GraphVersion, node_index, token_graph}
use evm_amm_search.Graph.Tokens.{GraphBuildOptions, Statuses, PoolRegistration, indexable_tokens}
use evm_amm_search.Graph.Update.{from_registry}
use evm_amm_search.Graph.Held.{IsStableDiGraph}
use evm_amm_search.Graph.Pairs.{HasDistinct}
use evm_amm_search.Graph.Hops.{token_graph-IsTokenGraph, HasEdge-iff}
use evm_amm_search.Graph.Registered.{HasDistinctKeys}
use evm_amm_search.Graph.Registry.{IsIndex, from_registry-IsIndex, indexed_distinct}

module _ {PoolKey PoolStatus : Type 0} ⦃eT : PartialEq PoolStatus⦄ (statuses : Statuses PoolStatus)
    (options : GraphBuildOptions) (registered : List (PoolRegistration PoolKey PoolStatus)) where
  -- A token of a registered pool that is indexable.
  abbrev pub IsTradable : Address → Type 0
  IsTradable token =
      (r : PoolRegistration PoolKey PoolStatus) × (tokens : List Address) × Memᴰ r registered
      × (indexable_tokens statuses options r ≡ ok tokens)
      × Memᴰ token tokens

  -- The pool is registered and indexable, and both ends are tokens of it.
  abbrev pub IsRegisteredHop : Hop PoolKey → Type 0
  IsRegisteredHop hop =
      (r : PoolRegistration PoolKey PoolStatus) × (tokens : List Address) × Memᴰ r registered
      × (r.key ≡ hop.pool)
      × (indexable_tokens statuses options r ≡ ok tokens)
      × Memᴰ hop.token_in tokens
      × Memᴰ hop.token_out tokens
      × (hop.token_in ≢ hop.token_out)

of_result_ok {ℓ κ} :
    {A : Type ℓ} {E : Type κ} (r : Result A E) (a : A) → result_ok r ≡ some a → r ≡ ok a
of_result_ok (ok b) a k = ground (arith, k)
of_result_ok (err e) a k = absurd (ground (arith, k))

other_token :
    (t : Address) (tokens : List Address)
    → HasDistinct tokens
    → 2 ≤ length tokens
    → (u : Address) × Memᴰ u tokens × (t ≢ u)
other_token t [] d enough = absurd (omega (arith, enough))
other_token t (a ∷ []) d enough = absurd (omega (arith, enough))
other_token t (a ∷ b ∷ tokens) d enough = elim (Bool-cases (t == a)) [
  | inl same ↦ (b, Memᴰ.tail (Memᴰ.head refl), λ e. d.0.0 (ground (arith, same, e)))
  | inr other ↦ (a, Memᴰ.head refl, λ e. ground (arith, other, e))
]

module _ {PoolKey PoolStatus NodeIndex EdgeIndex Store : Type 0} ⦃eP : PartialEq PoolKey⦄
    ⦃eN : PartialEq NodeIndex⦄ ⦃eT : PartialEq PoolStatus⦄
    (S : StableDiGraph PoolKey NodeIndex EdgeIndex Store) (statuses : Statuses PoolStatus)
    (options : GraphBuildOptions) (registered : List (PoolRegistration PoolKey PoolStatus))
    (g : AmmGraph PoolKey NodeIndex EdgeIndex Store)
    (index : IsIndex S statuses options registered g) where
  registered_iff :
      (q : Query PoolKey) (hop : Hop PoolKey)
      → HasEdge (token_graph g) q hop ↔ IsRegisteredHop statuses options registered hop
  registered_iff q hop = (
    λ edge.
        let (tokens, known, at_in, at_out, apart) = (HasEdge-iff S g index.valid q hop).0 edge in
        let (r, m, is) = index.only hop.pool tokens known in
        let ok_tokens : result_ok (indexable_tokens statuses options r) ≡ some tokens =
          sym (index.listed r m) ∙ ap (λ p. lookup p g.pool_tokens) is ∙ known in
        (r, tokens, m, is, of_result_ok _ tokens ok_tokens, at_in, at_out, apart),
    λ (r, tokens, m, is, ok_tokens, at_in, at_out, apart). (HasEdge-iff S g index.valid q hop).1 (
      tokens,
      ap (λ p. lookup p g.pool_tokens) (sym is) ∙ index.listed r m ∙ ap result_ok ok_tokens,
      at_in,
      at_out,
      apart,
    ),
  )

  tradable_node :
      (token : Address)
      → IsTradable statuses options registered token
      → (n : NodeIndex) × (node_index g token ≡ some n)
  tradable_node token (r, tokens, m, is, at) =
      let known = index.listed r m ∙ ap result_ok is in
      let (distinct, enough) = indexed_distinct statuses options r tokens is in
      let (other, at_other, apart) = other_token token tokens distinct enough in
      let s = index.valid.holds.complete r.key token other (tokens, known, at, at_other, apart) in
      (s.from, s.from_node)

module _ {PoolKey PoolStatus NodeIndex EdgeIndex Store : Type 0}
    (ProtocolId SimError Reason : Type 0) ⦃eP : PartialEq PoolKey⦄ ⦃eN : PartialEq NodeIndex⦄
    ⦃eE : PartialEq EdgeIndex⦄ ⦃eT : PartialEq PoolStatus⦄
    (S : StableDiGraph PoolKey NodeIndex EdgeIndex Store) (stable : IsStableDiGraph S)
    (statuses : Statuses PoolStatus) (options : GraphBuildOptions)
    (registered : List (PoolRegistration PoolKey PoolStatus))
    (distinct : HasDistinctKeys registered) where
  -- In the graph that is built from registered pools with distinct keys, with a valid configuration,
  -- no limit on new paths and no callback, between two tokens of indexable pools, the enumeration
  -- returns exactly the simple routes that are not excluded; and a hop of the graph is one from a token
  -- to another one of a pool that is registered and indexable.
  pub registry_routes :
      (key_before : PoolKey → PoolKey → Bool) (version : GraphVersion) (q : Query PoolKey)
      → IsTradable statuses options registered q.token_in
      → IsTradable statuses options registered q.token_out
      → validate_search q.config ≡ ok tt
      → q.max_new_paths ≡ none
      → q.should_continue ≡ none
      → let g =
          token_graph (from_registry S statuses options key_before registered version).graph in
        ((r : Result (RouteEnumeration PoolKey) (SearchError PoolKey ProtocolId SimError Reason))
          × (enumerate_routes_filtered g q ≡ some r)
          × IsCompleteResult g q r)
        × ((hop : Hop PoolKey) → HasEdge g q hop ↔ IsRegisteredHop statuses options registered hop)
  registry_routes key_before version q from to valid no_limit no_callback =
      let g = (from_registry S statuses options key_before registered version).graph in
      let (index, _) =
        from_registry-IsIndex S stable statuses options key_before registered version distinct in
      let (source, source_known) =
        tradable_node S statuses options registered g index q.token_in from in
      let (target, target_known) =
        tradable_node S statuses options registered g index q.token_out to in
      (
        enumerate_finds_simple_routes ProtocolId SimError Reason (token_graph g) q
            (token_graph-IsTokenGraph S g index.valid) source target source_known target_known valid
            no_limit no_callback,
        registered_iff S statuses options registered g index q,
      )
