-- ===== src/Quote/Yields.antt =====
-- src/search.rs: the outcomes of the paths below a hop, by whether the hop is quoted.
use mathlib.Core.List.{append-nil}
use evm_amm_search.Prelude.{
  ◌≡◌, refl, sym, ap, ◌∙◌, Bool, true, false, List, [], ◌∷◌, ◌++◌, map, arith, if◌then◌else◌, flat,
  flat-append, Result, ok, err,
}
use evm_amm_search.Route.{U256, Hop, RoutePath, HopQuote, RouteQuote, PathFailure}
use evm_amm_search.Quote.Dag.{
  QuoteDagNode, QuoteDagChildren, no_child, dag_child, failed_with, collect_failures,
  collect_child_failures, Evaluation,
}
use evm_amm_search.Quote.Items.{Item, under, at_end, child_items, items}
use evm_amm_search.Quote.Together.{
  hops_alone, outcome, outcome-under, outcome_failed, ok_list, err_list, flat-map_same, IsAfter,
}

pub if_false {ℓ} : {A : Type ℓ} (b : Bool) (x y : A) → b ≡ false → (if b then x else y) ≡ y
if_false true x y h = absurd (ground (arith, h))
if_false false x y h = refl

flat_nothing {ℓ κ} :
    {A : Type ℓ} {B : Type κ} (xs : List A) → flat {A = A} {B = B} (λ x. []) xs ≡ []
flat_nothing [] = refl
flat_nothing (x ∷ xs) = flat_nothing xs

-- The items below a hop, in three parts.
parts :
    {PoolKey B : Type 0} (f g : Item PoolKey → List B) (hop : Hop PoolKey)
    (xs ys zs : List (Item PoolKey))
    → ((x : Item PoolKey) → f (under hop x) ≡ g x)
    → flat f (map (under hop) (xs ++ ys) ++ zs) ≡ (flat g xs ++ flat g ys) ++ flat f zs
parts f g hop xs ys zs same =
    flat-append f (map (under hop) (xs ++ ys)) zs
    ∙ ap (λ r. r ++ flat f zs) (flat-map_same f (under hop) g same (xs ++ ys) ∙ flat-append g xs ys)

module _ {PoolKey Reason : Type 0} (reason : Reason) where
  abbrev failure_of : Item PoolKey → List (PathFailure PoolKey Reason)
  failure_of x = failed_with reason x.1 ∷ []

  collected_ends :
      (paths : List (RoutePath PoolKey))
      → map (failed_with reason) paths ≡ flat failure_of (map at_end paths)
  collected_ends [] = refl
  collected_ends (path ∷ paths) = ap (λ r. failed_with reason path ∷ r) (collected_ends paths)

  collected_children :
      (cs : QuoteDagChildren PoolKey)
      → collect_child_failures reason cs ≡ flat failure_of (child_items cs)
  unfolding collect_child_failures child_items
  collected_children no_child = refl
  collected_children (dag_child hop below paths rest) =
      rw
        (
          collected_ends paths,
          collected_children below,
          collected_children rest,
          parts failure_of failure_of hop (map at_end paths) (child_items below) (child_items rest)
              (λ x. refl),
        )
        refl

  collected : (n : QuoteDagNode PoolKey) → collect_failures reason n ≡ flat failure_of (items n)
  unfolding collect_failures
  collected n =
      rw
        (
          collected_ends n.terminals,
          collected_children n.children,
          flat-append failure_of (map at_end n.terminals) (child_items n.children),
        )
        refl

module _ {PoolKey Reason Captured Cache : Type 0} {q q' : List (RouteQuote PoolKey)}
    {f f' : List (PathFailure PoolKey Reason)} (s : Evaluation PoolKey Reason Captured Cache) where
  pub with_equals :
      {s' s'' : Evaluation PoolKey Reason Captured Cache}
      → q ≡ q'
      → f ≡ f'
      → s' ≡ s''
      → IsAfter q f s s'
      → IsAfter q' f' s s''
  with_equals {s'} {s''} eq ef es a = rw (← eq, ← ef, ← es) a

module _ {PoolKey Reason Captured Cache : Type 0} {q : List (RouteQuote PoolKey)}
    {f : List (PathFailure PoolKey Reason)} where
  pub from_cache :
      (s s' : Evaluation PoolKey Reason Captured Cache)
      {s'' : Evaluation PoolKey Reason Captured Cache}
      → s'.quotes ≡ s.quotes
      → s'.failures ≡ s.failures
      → IsAfter q f s' s''
      → IsAfter q f s s''
  from_cache s s' eq ef a = record {
    more_quotes = a.more_quotes ∙ ap (λ x. x ++ q) eq;
    more_failures = a.more_failures ∙ ap (λ x. x ++ f) ef;
    going = a.going;
  }

module _ {PoolKey Reason : Type 0} (quoted : Hop PoolKey → U256 → Result U256 Reason)
    (amount_in : U256) (amount : U256) (before : List (HopQuote PoolKey)) where
  abbrev pub quote_of : Item PoolKey → List (RouteQuote PoolKey)
  quote_of x = ok_list (outcome quoted amount_in amount before x)

  abbrev pub failed_of : Item PoolKey → List (PathFailure PoolKey Reason)
  failed_of x = err_list (outcome quoted amount_in amount before x)

  -- The evaluation went on with the outcomes of the items.
  abbrev pub Yields :
      {Captured Cache : Type 0}
      → List (Item PoolKey)
      → Evaluation PoolKey Reason Captured Cache
      → Evaluation PoolKey Reason Captured Cache
      → Type 0
  Yields xs s s' = IsAfter (flat quote_of xs) (flat failed_of xs) s s'

  pub outcome-at_end :
      (path : RoutePath PoolKey)
      → outcome quoted amount_in amount before (at_end path)
        ≡ ok (record { path = path; amount_in = amount_in; amount_out = amount; hops = before })
  unfolding hops_alone
  outcome-at_end path = rw (append-nil before) refl

module _ {PoolKey Reason : Type 0} (quoted : Hop PoolKey → U256 → Result U256 Reason)
    (amount_in : U256) where
  pub item_outcomes :
      (hop : Hop PoolKey) (below rest : QuoteDagChildren PoolKey) (paths : List (RoutePath PoolKey))
      (amount amount_out : U256) (before : List (HopQuote PoolKey))
      → quoted hop amount ≡ ok amount_out
      → {B : Type 0} (part : Result (RouteQuote PoolKey) (PathFailure PoolKey Reason) → List B)
      → flat
          (λ x. part (outcome quoted amount_in amount before x))
          (child_items (dag_child hop below paths rest))
        ≡ (flat
              (λ x. part (
                outcome quoted amount_in amount_out
                  (before ++ record { hop = hop; amount_in = amount; amount_out = amount_out } ∷ [])
                  x))
              (map at_end paths)
            ++ flat
                (λ x. part (
                  outcome quoted amount_in amount_out
                    (before
                      ++ record { hop = hop; amount_in = amount; amount_out = amount_out } ∷ [])
                    x))
                (child_items below))
          ++ flat (λ x. part (outcome quoted amount_in amount before x)) (child_items rest)
  unfolding child_items
  item_outcomes hop below rest paths amount amount_out before paid part =
      parts (λ x. part (outcome quoted amount_in amount before x)) _ hop (map at_end paths)
        (child_items below) (child_items rest)
        (λ x. ap part (outcome-under quoted amount_in hop amount amount_out before paid x))

  pub item_fails :
      (hop : Hop PoolKey) (below rest : QuoteDagChildren PoolKey) (paths : List (RoutePath PoolKey))
      (amount : U256) (reason : Reason) (before : List (HopQuote PoolKey))
      → quoted hop amount ≡ err reason
      → (flat
            (quote_of quoted amount_in amount before)
            (child_items (dag_child hop below paths rest))
          ≡ flat (quote_of quoted amount_in amount before) (child_items rest))
        × (flat
              (failed_of quoted amount_in amount before)
              (child_items (dag_child hop below paths rest))
            ≡ collect_failures reason (record { children = below; terminals = paths })
              ++ flat (failed_of quoted amount_in amount before) (child_items rest))
  unfolding child_items
  item_fails hop below rest paths amount reason before fails =
      let xs = map at_end paths ++ child_items below in
      let q = quote_of quoted amount_in amount before in
      let f = failed_of quoted amount_in amount before in
      (
        flat-append q (map (under hop) xs) (child_items rest)
            ∙ ap (λ r. r ++ flat q (child_items rest))
                (flat-map_same q (under hop) (λ x. [])
                    (λ x.
                      ap ok_list (outcome_failed quoted amount_in hop amount reason before fails x))
                    xs
                  ∙ flat_nothing xs),
        flat-append f (map (under hop) xs) (child_items rest)
            ∙ ap (λ r. r ++ flat f (child_items rest))
                (flat-map_same f (under hop) (failure_of reason)
                    (λ x.
                      ap err_list
                        (outcome_failed quoted amount_in hop amount reason before fails x))
                    xs
                  ∙ sym (collected reason (record { children = below; terminals = paths }))),
      )
