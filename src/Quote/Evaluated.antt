-- ===== src/Quote/Evaluated.antt =====
-- src/search.rs: `evaluate` quotes the paths of a tree as they are quoted one by one.
use mathlib.Core.List.{append-nil}
use mathlib.Core.Path.{subst}
use evm_amm_search.Prelude.{
  ◌≡◌, refl, sym, ◌∙◌, inl, inr, false, List, [], ◌∷◌, ◌++◌, map, Result, Result-cases, ok, err,
}
use evm_amm_search.Route.{U256, Hop, RoutePath, HopQuote, RouteQuote}
use evm_amm_search.Quote.Dag.{QuoteDagChildren, no_child, dag_child, collect_failures, Evaluation}
use evm_amm_search.Quote.Evaluate.{
  HopQuoter, push_quote, push_failures, evaluate_terminals, evaluate_children,
}
use evm_amm_search.Quote.Items.{at_end, child_items}
use evm_amm_search.Quote.Together.{
  ok_list, err_list, quiet, IsAfter-refl, IsAfter-trans, push_failures-IsAfter,
}
use evm_amm_search.Quote.Yields.{
  if_false, Yields, outcome-at_end, with_equals, from_cache, item_outcomes, item_fails,
}

module _ {PoolKey Reason Captured Cache : Type 0} (quoted : Hop PoolKey → U256 → Result U256 Reason)
    (quote_hop : HopQuoter PoolKey Reason Cache)
    (agrees : (hop : Hop PoolKey) (amount : U256) (cache : Cache)
      → (quote_hop hop amount cache).0 ≡ quoted hop amount)
    (amount_in : U256) where
  terminal_step :
      (path : RoutePath PoolKey) (paths : List (RoutePath PoolKey)) (amount : U256)
      (before : List (HopQuote PoolKey)) (s : Evaluation PoolKey Reason Captured Cache)
      → s.stopped ≡ false
      → evaluate_terminals quiet quote_hop amount_in (path ∷ paths) amount before s
        ≡ evaluate_terminals quiet quote_hop amount_in paths amount before (
            push_quote quiet
              (record { path = path; amount_in = amount_in; amount_out = amount; hops = before })
              s)
  unfolding evaluate_terminals
  terminal_step path paths amount before s going = if_false s.stopped s _ going

  pub terminals-Yields :
      (paths : List (RoutePath PoolKey)) (amount : U256) (before : List (HopQuote PoolKey))
      (s : Evaluation PoolKey Reason Captured Cache)
      → s.stopped ≡ false
      → Yields quoted amount_in amount before
          (map at_end paths)
          s
          (evaluate_terminals quiet quote_hop amount_in paths amount before s)
  unfolding evaluate_terminals push_quote
  terminals-Yields [] amount before s going = IsAfter-refl s going
  terminals-Yields (path ∷ paths) amount before s going =
      let quote : RouteQuote PoolKey = record {
        path = path;
        amount_in = amount_in;
        amount_out = amount;
        hops = before;
      } in
      let s' = push_quote quiet quote s in
      let rest = terminals-Yields paths amount before s' refl in
      subst (λ z. Yields quoted amount_in amount before (map at_end (path ∷ paths)) s z)
        (sym (terminal_step path paths amount before s going))
        (rw (outcome-at_end quoted amount_in amount before path) (
          IsAfter-trans (quote ∷ []) _ [] _ s s'
            (evaluate_terminals quiet quote_hop amount_in paths amount before s')
            (record {
              more_quotes = refl;
              more_failures = sym (append-nil s.failures);
              going = refl;
            })
            rest))

  module _ (hop : Hop PoolKey) (below rest : QuoteDagChildren PoolKey)
      (paths : List (RoutePath PoolKey)) (amount : U256) (before : List (HopQuote PoolKey))
      (s : Evaluation PoolKey Reason Captured Cache) (going : s.stopped ≡ false) where
    abbrev with_cache : Evaluation PoolKey Reason Captured Cache
    with_cache = record s { cache = (quote_hop hop amount s.cache).1 }

    -- What follows the quote of the hop.
    continued : Result U256 Reason → Evaluation PoolKey Reason Captured Cache
    continued (ok amount_out) = evaluate_children quiet quote_hop amount_in rest amount before (
        evaluate_children quiet quote_hop amount_in below amount_out
          (before ++ record { hop = hop; amount_in = amount; amount_out = amount_out } ∷ [])
          (evaluate_terminals quiet quote_hop amount_in paths amount_out
            (before ++ record { hop = hop; amount_in = amount; amount_out = amount_out } ∷ [])
            with_cache))
    continued (err reason) = evaluate_children quiet quote_hop amount_in rest amount before (
        push_failures quiet
          (collect_failures reason (record { children = below; terminals = paths })) with_cache)

    after_quote :
        (r : Result U256 Reason)
        → (quote_hop hop amount s.cache).0 ≡ r
        → evaluate_children quiet quote_hop amount_in
            (dag_child hop below paths rest)
            amount
            before
            s
          ≡ continued r
    unfolding evaluate_children continued
    after_quote (ok amount_out) is = if_false s.stopped s _ going ∙ rw is refl
    after_quote (err reason) is = if_false s.stopped s _ going ∙ rw is refl

  pub children-Yields :
      (cs : QuoteDagChildren PoolKey) (amount : U256) (before : List (HopQuote PoolKey))
      (s : Evaluation PoolKey Reason Captured Cache)
      → s.stopped ≡ false
      → Yields quoted amount_in amount before
          (child_items cs)
          s
          (evaluate_children quiet quote_hop amount_in cs amount before s)
  unfolding child_items evaluate_children continued
  children-Yields no_child amount before s going = IsAfter-refl s going
  children-Yields (dag_child hop below paths rest) amount before s going =
      elim (Result-cases (quoted hop amount)) [
        | inl (amount_out, paid) ↦
            let before' =
              before ++ record { hop = hop; amount_in = amount; amount_out = amount_out } ∷ [] in
            let s₁ = with_cache hop below rest paths amount before s going in
            let s₂ = evaluate_terminals quiet quote_hop amount_in paths amount_out before' s₁ in
            let s₃ = evaluate_children quiet quote_hop amount_in below amount_out before' s₂ in
            let a = terminals-Yields paths amount_out before' s₁ going in
            let b = children-Yields below amount_out before' s₂ a.going in
            let c = children-Yields rest amount before s₃ b.going in
            with_equals s
              (sym (
                item_outcomes quoted amount_in hop below rest paths amount amount_out before paid
                  ok_list))
              (sym (
                item_outcomes quoted amount_in hop below rest paths amount amount_out before paid
                  err_list))
              (sym (
                after_quote hop below rest paths amount before s going (ok amount_out)
                  (agrees hop amount s.cache ∙ paid)))
              (IsAfter-trans _ _ _ _ s s₃ _
                (from_cache s s₁ refl refl (IsAfter-trans _ _ _ _ s₁ s₂ s₃ a b)) c)
        | inr (reason, fails) ↦
            let s₁ = with_cache hop below rest paths amount before s going in
            let failures =
              collect_failures reason (record { children = below; terminals = paths }) in
            let s₂ = push_failures quiet failures s₁ in
            let a = push_failures-IsAfter failures s₁ going in
            let b = children-Yields rest amount before s₂ a.going in
            let (no_quotes, all_failures) =
              item_fails quoted amount_in hop below rest paths amount reason before fails in
            with_equals s (sym no_quotes) (sym all_failures)
              (sym (
                after_quote hop below rest paths amount before s going (err reason)
                  (agrees hop amount s.cache ∙ fails)))
              (IsAfter-trans [] _ failures _ s s₂ _ (from_cache s s₁ refl refl a) b)
      ]
