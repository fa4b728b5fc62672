-- ===== src/Quote/Observed.antt =====
-- src/search.rs: `quote_paths_with_registry` quotes paths together as they are quoted one by one.
use mathlib.Core.List.{Perm, Permᴰ, append_assoc, append-nil}
use mathlib.Core.List.Permᴰ
use mathlib.Core.Path.{subst}
use evm_amm_search.Prelude.{
  ◌≡◌, refl, sym, ap, ◌∙◌, inl, inr, Bool, false, not, List, [], ◌∷◌, ◌++◌, map, if◌then◌else◌,
  Bool-cases, PartialEq, flat, flat-append, keep, Result, err,
}
use evm_amm_search.Route.{U256, Hop, RoutePath, RouteQuote, PathFailure, path_is_empty}
use evm_amm_search.Quote.Dag.{QuoteDagNode, failed_with, empty_node, dag_insert, Evaluation}
use evm_amm_search.Quote.Evaluate.{
  HopQuoter, push_failure, evaluate, evaluate_terminals, insert_paths,
  quote_paths_with_registry_observed, quote_paths_with_registry,
}
use evm_amm_search.Quote.Items.{Item, at_end, child_items, items, dag_insert_adds}
use evm_amm_search.Quote.Together.{
  hops_alone, concluded, ok_list, err_list, quiet, IsAfter, IsAfter-refl, IsAfter-trans,
}
use evm_amm_search.Quote.Yields.{if_false, quote_of, failed_of, Yields}
use evm_amm_search.Quote.Evaluated.{terminals-Yields, children-Yields}

flat-perm {ℓ κ} :
    {A : Type ℓ} {B : Type κ} (f : A → List B) {xs ys : List A}
    → Permᴰ xs ys
    → Permᴰ (flat f xs) (flat f ys)
flat-perm f Permᴰ.nil = Permᴰ.nil
flat-perm f (Permᴰ.cons {b = b} e p) = rw e (Permᴰ.append_left (f b) (flat-perm f p))
flat-perm f (Permᴰ.swap {a' = a'} {b' = b'} {l = l} e e') =
    rw (e, e', ← append_assoc (f b') (f a') (flat f l), ← append_assoc (f a') (f b') (flat f l))
      (Permᴰ.append_right (flat f l) (Permᴰ.append_comm (f b') (f a')))
flat-perm f (Permᴰ.trans p q) = Permᴰ.trans (flat-perm f p) (flat-perm f q)

-- A list in front moves behind another one.
moved {ℓ} : {A : Type ℓ} (xs ys zs : List A) → Permᴰ (xs ++ (ys ++ zs)) (ys ++ (xs ++ zs))
moved xs ys zs =
    rw (← append_assoc xs ys zs, ← append_assoc ys xs zs)
      (Permᴰ.append_right zs (Permᴰ.append_comm xs ys))

module _ {PoolKey Reason : Type 0} (quoted : Hop PoolKey → U256 → Result U256 Reason)
    (amount_in : U256) (empty_reason : Reason) where
  -- What becomes of a path that is quoted on its own.
  abbrev pub report_alone :
      RoutePath PoolKey → Result (RouteQuote PoolKey) (PathFailure PoolKey Reason)
  report_alone path =
      if path_is_empty path
      then err (failed_with empty_reason path)
      else concluded quoted amount_in [] path (hops_alone quoted path.hops amount_in)

  abbrev item_of : RoutePath PoolKey → Item PoolKey
  item_of path = (path.hops, path)

  abbrev has_hops : RoutePath PoolKey → Bool
  has_hops path = not (path_is_empty path)

  abbrev empty_failure : RoutePath PoolKey → List (PathFailure PoolKey Reason)
  empty_failure path = if path_is_empty path then failed_with empty_reason path ∷ [] else []

  quotes_alone :
      (paths : List (RoutePath PoolKey))
      → flat (quote_of quoted amount_in amount_in []) (map item_of (keep has_hops paths))
        ≡ flat (λ path. ok_list (report_alone path)) paths
  quotes_alone [] = refl
  quotes_alone (path ∷ paths) = elim (Bool-cases (path_is_empty path)) [
    | inl empty ↦ rw empty (quotes_alone paths)
    | inr filled ↦
        rw filled (
          ap (λ r. quote_of quoted amount_in amount_in [] (item_of path) ++ r) (quotes_alone paths))
  ]

  failures_alone :
      (paths : List (RoutePath PoolKey))
      → Permᴰ
          (flat empty_failure paths
            ++ flat (failed_of quoted amount_in amount_in []) (map item_of (keep has_hops paths)))
          (flat (λ path. err_list (report_alone path)) paths)
  failures_alone [] = Permᴰ.nil
  failures_alone (path ∷ paths) = elim (Bool-cases (path_is_empty path)) [
    | inl empty ↦
        rw empty (Permᴰ.append_left (failed_with empty_reason path ∷ []) (failures_alone paths))
    | inr filled ↦
        let here = failed_of quoted amount_in amount_in [] (item_of path) in
        rw filled (
          Permᴰ.trans
            (moved (flat empty_failure paths) here
              (flat (failed_of quoted amount_in amount_in []) (map item_of (keep has_hops paths))))
            (Permᴰ.append_left here (failures_alone paths)))
  ]

module _ {PoolKey Reason Captured Cache : Type 0} ⦃e : PartialEq PoolKey⦄
    (quoted : Hop PoolKey → U256 → Result U256 Reason) (quote_hop : HopQuoter PoolKey Reason Cache)
    (agrees : (hop : Hop PoolKey) (amount : U256) (cache : Cache)
      → (quote_hop hop amount cache).0 ≡ quoted hop amount)
    (amount_in : U256) (empty_reason : Reason) where
  abbrev inserted :
      List (RoutePath PoolKey)
      → QuoteDagNode PoolKey
      → Evaluation PoolKey Reason Captured Cache
      → QuoteDagNode PoolKey × Evaluation PoolKey Reason Captured Cache
  inserted paths dag s = insert_paths quiet quote_hop amount_in empty_reason paths (dag, s)

  inserted-IsAfter :
      (paths : List (RoutePath PoolKey)) (dag : QuoteDagNode PoolKey)
      (s : Evaluation PoolKey Reason Captured Cache)
      → s.stopped ≡ false
      → IsAfter []
          (flat (empty_failure quoted amount_in empty_reason) paths)
          s
          (inserted paths dag s).1
        × Permᴰ (items (inserted paths dag s).0) (
            map
              (item_of quoted amount_in empty_reason)
              (keep (has_hops quoted amount_in empty_reason) paths)
            ++ items dag)
  unfolding insert_paths push_failure
  inserted-IsAfter [] dag s going = (IsAfter-refl s going, Permᴰ.refl (items dag))
  inserted-IsAfter (path ∷ paths) dag s going = elim (Bool-cases (path_is_empty path)) [
    | inl empty ↦
        let failure = failed_with empty_reason path in
        let s' = push_failure quiet failure s in
        let (after, perm) = inserted-IsAfter paths dag s' refl in
        rw empty (
          IsAfter-trans [] [] (failure ∷ []) _ s s' (inserted paths dag s').1
              (record {
                more_quotes = sym (append-nil s.quotes);
                more_failures = refl;
                going = refl;
              })
              after,
          perm,
        )
    | inr filled ↦
        let (after, perm) = inserted-IsAfter paths (dag_insert path dag) s going in
        let rest =
          map (item_of quoted amount_in empty_reason)
            (keep (has_hops quoted amount_in empty_reason) paths) in
        rw filled (
          after,
          Permᴰ.trans perm (
              Permᴰ.trans (Permᴰ.append_left rest (dag_insert_adds path dag))
                (Permᴰ.middle (path.hops, path) rest (items dag))),
        )
  ]

  evaluate-Yields :
      (n : QuoteDagNode PoolKey) (s : Evaluation PoolKey Reason Captured Cache)
      → s.stopped ≡ false
      → Yields quoted amount_in amount_in []
          (items n)
          s
          (evaluate quiet quote_hop amount_in n amount_in [] s)
  unfolding evaluate
  evaluate-Yields n s going =
      let a = terminals-Yields quoted quote_hop agrees amount_in n.terminals amount_in [] s going in
      let s' = evaluate_terminals quiet quote_hop amount_in n.terminals amount_in [] s in
      let b =
        children-Yields quoted quote_hop agrees amount_in n.children amount_in [] s' a.going in
      rw
        (
          flat-append (quote_of quoted amount_in amount_in []) (map at_end n.terminals)
              (child_items n.children),
          flat-append (failed_of quoted amount_in amount_in []) (map at_end n.terminals)
              (child_items n.children),
        )
        (IsAfter-trans _ _ _ _ s s' _ a b)

  abbrev started : Cache → Captured → Evaluation PoolKey Reason Captured Cache
  started cache captured = record {
    cache = cache;
    quotes = [];
    failures = [];
    stopped = false;
    captured = captured;
  }

  observed_is :
      (paths : List (RoutePath PoolKey)) (cache : Cache) (captured : Captured)
      → (inserted paths empty_node (started cache captured)).1.stopped ≡ false
      → quote_paths_with_registry_observed quiet quote_hop amount_in empty_reason paths cache
          captured
        ≡ evaluate quiet quote_hop amount_in
            (inserted paths empty_node (started cache captured)).0
            amount_in
            []
            (inserted paths empty_node (started cache captured)).1
  unfolding quote_paths_with_registry_observed
  observed_is paths cache captured going = if_false _ _ _ going

  pub observed_outcomes :
      (paths : List (RoutePath PoolKey)) (cache : Cache) (captured : Captured)
      → let r =
          quote_paths_with_registry_observed quiet quote_hop amount_in empty_reason paths cache
            captured in
        Permᴰ r.quotes
          (flat (λ path. ok_list (report_alone quoted amount_in empty_reason path)) paths)
        × Permᴰ r.failures
            (flat (λ path. err_list (report_alone quoted amount_in empty_reason path)) paths)
  unfolding child_items
  observed_outcomes paths cache captured =
      let s = started cache captured in
      let (after, perm) = inserted-IsAfter paths empty_node s refl in
      let dag = (inserted paths empty_node s).0 in
      let s' = (inserted paths empty_node s).1 in
      let end = evaluate-Yields dag s' after.going in
      let is = observed_is paths cache captured after.going in
      let q = quote_of quoted amount_in amount_in [] in
      let f = failed_of quoted amount_in amount_in [] in
      let empties = flat (empty_failure quoted amount_in empty_reason) paths in
      let held = subst (λ l. Permᴰ (items dag) l) (append-nil _) perm in
      (
        subst
            (λ l.
              Permᴰ l
                (flat (λ path. ok_list (report_alone quoted amount_in empty_reason path)) paths))
            (sym (
              ap (λ z. z.quotes) is
              ∙ end.more_quotes
              ∙ ap (λ l. l ++ flat q (items dag)) after.more_quotes))
            (rw (← quotes_alone quoted amount_in empty_reason paths) (flat-perm q held)),
        subst
            (λ l.
              Permᴰ l
                (flat (λ path. err_list (report_alone quoted amount_in empty_reason path)) paths))
            (sym (
              ap (λ z. z.failures) is
              ∙ end.more_failures
              ∙ ap (λ l. l ++ flat f (items dag)) after.more_failures))
            (Permᴰ.trans (Permᴰ.append_left empties (flat-perm f held))
              (failures_alone quoted amount_in empty_reason paths)),
      )

module _ {PoolKey Reason Cache : Type 0} ⦃e : PartialEq PoolKey⦄
    (quoted : Hop PoolKey → U256 → Result U256 Reason) (quote_hop : HopQuoter PoolKey Reason Cache)
    (agrees : (hop : Hop PoolKey) (amount : U256) (cache : Cache)
      → (quote_hop hop amount cache).0 ≡ quoted hop amount)
    (amount_in : U256) (empty_reason : Reason) where
  -- If what a hop pays does not depend on the cache, quoting paths through the tree gives the quotes
  -- and the failures that quoting each path on its own, hop by hop, gives, each as often.
  pub quote_paths_with_registry-perm :
      (paths : List (RoutePath PoolKey)) (cache : Cache)
      → Perm
          (quote_paths_with_registry quote_hop amount_in empty_reason paths cache).0
          (flat (λ path. ok_list (report_alone quoted amount_in empty_reason path)) paths)
        × Perm
            (quote_paths_with_registry quote_hop amount_in empty_reason paths cache).1
            (flat (λ path. err_list (report_alone quoted amount_in empty_reason path)) paths)
  unfolding quote_paths_with_registry
  quote_paths_with_registry-perm paths cache =
      let (q, f) =
        observed_outcomes quoted quote_hop agrees amount_in empty_reason paths cache tt in
      ((∣ q ∣₁), (∣ f ∣₁))
