-- ===== src/Quote/Together.antt =====
-- src/search.rs: what a path of the tree pays on its own, and what the callbacks' absence means.
use mathlib.Core.List.{append_assoc, append-nil}
use evm_amm_search.Prelude.{
  ◌≡◌, refl, sym, ap, ◌∙◌, false, none, List, [], ◌∷◌, ◌++◌, map, flat, Result, ok, err, ◌>>=◌,
}
use evm_amm_search.Route.{U256, Hop, RoutePath, HopQuote, RouteQuote, PathFailure}
use evm_amm_search.Quote.Dag.{failed_with, Observer, Evaluation}
use evm_amm_search.Quote.Evaluate.{push_failure, push_failures}
use evm_amm_search.Quote.Items.{Item, under}

module _ {PoolKey Reason : Type 0} (quoted : Hop PoolKey → U256 → Result U256 Reason) where
  -- The quotes of the hops of one path, and what the last one pays.
  unfoldable pub hops_alone :
      List (Hop PoolKey) → U256 → Result (List (HopQuote PoolKey) × U256) Reason
  hops_alone [] amount = ok ([], amount)
  hops_alone (hop ∷ hops) amount = do
    amount_out ← quoted hop amount
    rest ← hops_alone hops amount_out
    ok (record { hop = hop; amount_in = amount; amount_out = amount_out } ∷ rest.0, rest.1)

  hops_alone_next :
      (hop : Hop PoolKey) (hops : List (Hop PoolKey)) (amount amount_out : U256)
      → quoted hop amount ≡ ok amount_out
      → hops_alone (hop ∷ hops) amount ≡ (
          hops_alone hops amount_out >>= λ rest.
          ok (record { hop = hop; amount_in = amount; amount_out = amount_out } ∷ rest.0, rest.1))
  unfolding hops_alone
  hops_alone_next hop hops amount amount_out paid = rw paid refl

  hops_alone_failed :
      (hop : Hop PoolKey) (hops : List (Hop PoolKey)) (amount : U256) (reason : Reason)
      → quoted hop amount ≡ err reason
      → hops_alone (hop ∷ hops) amount ≡ err reason
  unfolding hops_alone
  hops_alone_failed hop hops amount reason fails = rw fails refl

  module _ (amount_in : U256) where
    -- The quote of a path of which the hops before are quoted, or its failure.
    abbrev pub concluded :
        List (HopQuote PoolKey)
        → RoutePath PoolKey
        → Result (List (HopQuote PoolKey) × U256) Reason
        → Result (RouteQuote PoolKey) (PathFailure PoolKey Reason)
    concluded before path (ok rest) = ok (record {
      path = path;
      amount_in = amount_in;
      amount_out = rest.1;
      hops = before ++ rest.0;
    })
    concluded before path (err reason) = err (failed_with reason path)

    abbrev pub outcome :
        U256
        → List (HopQuote PoolKey)
        → Item PoolKey
        → Result (RouteQuote PoolKey) (PathFailure PoolKey Reason)
    outcome amount before item = concluded before item.1 (hops_alone item.0 amount)

    concluded_next :
        (before : List (HopQuote PoolKey)) (quote : HopQuote PoolKey) (path : RoutePath PoolKey)
        (r : Result (List (HopQuote PoolKey) × U256) Reason)
        → concluded before path (r >>= λ rest. ok (quote ∷ rest.0, rest.1))
          ≡ concluded (before ++ quote ∷ []) path r
    concluded_next before quote path (err reason) = refl
    concluded_next before quote path (ok rest) = rw (append_assoc before (quote ∷ []) rest.0) refl

    pub outcome-under :
        (hop : Hop PoolKey) (amount amount_out : U256) (before : List (HopQuote PoolKey))
        → quoted hop amount ≡ ok amount_out
        → (item : Item PoolKey)
        → outcome amount before (under hop item)
          ≡ outcome amount_out
              (before ++ record { hop = hop; amount_in = amount; amount_out = amount_out } ∷ [])
              item
    outcome-under hop amount amount_out before paid item =
        ap (concluded before item.1) (hops_alone_next hop item.0 amount amount_out paid)
        ∙ concluded_next before _ item.1 (hops_alone item.0 amount_out)

    pub outcome_failed :
        (hop : Hop PoolKey) (amount : U256) (reason : Reason) (before : List (HopQuote PoolKey))
        → quoted hop amount ≡ err reason
        → (item : Item PoolKey)
        → outcome amount before (under hop item) ≡ err (failed_with reason item.1)
    outcome_failed hop amount reason before fails item =
        ap (concluded before item.1) (hops_alone_failed hop item.0 amount reason fails)

module _ {A B : Type 0} where
  abbrev pub ok_list : Result A B → List A
  ok_list (ok a) = a ∷ []
  ok_list (err b) = []

  abbrev pub err_list : Result A B → List B
  err_list (ok a) = []
  err_list (err b) = b ∷ []

pub flat-map_same :
    {A B C : Type 0} (f : B → List C) (g : A → B) (h : A → List C)
    → ((a : A) → f (g a) ≡ h a)
    → (xs : List A) → flat f (map g xs) ≡ flat h xs
flat-map_same f g h same [] = refl
flat-map_same f g h same (x ∷ xs) = rw (same x, flat-map_same f g h same xs) refl

module _ {PoolKey Reason Captured : Type 0} where
  abbrev pub quiet : Observer PoolKey Reason Captured
  quiet = record { on_quote = none; on_failure = none }

  module _ {Cache : Type 0} where
    -- The evaluation went on, with those quotes and failures more.
    pub record IsAfter (quotes : List (RouteQuote PoolKey))
        (failures : List (PathFailure PoolKey Reason))
        (s s' : Evaluation PoolKey Reason Captured Cache) : Type 0 where
      pub more_quotes : s'.quotes ≡ s.quotes ++ quotes
      pub more_failures : s'.failures ≡ s.failures ++ failures
      pub going : s'.stopped ≡ false

    pub IsAfter-refl :
        (s : Evaluation PoolKey Reason Captured Cache) → s.stopped ≡ false → IsAfter [] [] s s
    IsAfter-refl s going = record {
      more_quotes = sym (append-nil s.quotes);
      more_failures = sym (append-nil s.failures);
      going = going;
    }

    pub IsAfter-trans :
        (q q' : List (RouteQuote PoolKey)) (f f' : List (PathFailure PoolKey Reason))
        (s s' s'' : Evaluation PoolKey Reason Captured Cache)
        → IsAfter q f s s'
        → IsAfter q' f' s' s''
        → IsAfter (q ++ q') (f ++ f') s s''
    IsAfter-trans q q' f f' s s' s'' a b = record {
      more_quotes = b.more_quotes ∙ ap (λ x. x ++ q') a.more_quotes ∙ append_assoc s.quotes q q';
      more_failures =
          b.more_failures ∙ ap (λ x. x ++ f') a.more_failures ∙ append_assoc s.failures f f';
      going = b.going;
    }

    pub push_failures-IsAfter :
        (failures : List (PathFailure PoolKey Reason))
        (s : Evaluation PoolKey Reason Captured Cache)
        → s.stopped ≡ false
        → IsAfter [] failures s (push_failures quiet failures s)
    unfolding push_failures push_failure
    push_failures-IsAfter [] s going = IsAfter-refl s going
    push_failures-IsAfter (failure ∷ failures) s going =
        let s' = push_failure quiet failure s in
        IsAfter-trans [] [] (failure ∷ []) failures s s' (push_failures quiet failures s')
          (record { more_quotes = sym (append-nil s.quotes); more_failures = refl; going = refl })
          (push_failures-IsAfter failures s' refl)
