-- ===== src/Tests/Store.antt =====
-- A stable graph of lists that keeps what petgraph documents, for the tests of the token graph.
use evm_amm_search.Prelude.{
  ap, false, ℕ, suc, ◌≤◌, max, ◌≡◌, refl, Bool, true, not, ◌||◌, none, some, [], ◌∷◌, arith,
  nat_PartialEq, ◌==◌, eq_refl, keep, any,
}
use evm_amm_search.Prelude.Maps.{
  HashMap, lookup, map_insert, map_remove, lookup-map_insert, lookup-map_remove,
}
use evm_amm_search.Route.{Address}
use evm_amm_search.Graph.{StableDiGraph, EdgeData}
use evm_amm_search.Graph.Held.{IsStableDiGraph}

abbrev Ends : Type 0
Ends = ℕ × ℕ × EdgeData ℕ

pub record Slots : Type 0 where
  pub weights : HashMap ℕ Address
  pub ends : HashMap ℕ Ends

module _ {V : Type 0} where
  -- Above all keys.
  unfoldable pub fresh : HashMap ℕ V → ℕ
  fresh [] = 0
  fresh ((key, _) ∷ m) = max (suc key) (fresh m)

  lookup_above : (key : ℕ) (m : HashMap ℕ V) → fresh m ≤ key → lookup key m ≡ none
  unfolding fresh lookup
  lookup_above key [] above = refl
  lookup_above key ((k, v) ∷ m) above = ground (arith, above, lookup_above key m)

  lookup-fresh : (m : HashMap ℕ V) → lookup (fresh m) m ≡ none
  lookup-fresh m = lookup_above (fresh m) m (omega arith)

  lookup_of_keep :
      (p : V → Bool) (key : ℕ) (v : V) (m : HashMap ℕ V)
      → lookup key m ≡ some v
      → p v ≡ true
      → lookup key (keep (λ x. p x.1) m) ≡ some v
  unfolding lookup
  lookup_of_keep p key v [] k holds = absurd (ground (arith, k))
  lookup_of_keep p key v ((i, x) ∷ m) k holds = ground (arith, k, holds, lookup_of_keep p key v m)

  any_of_lookup :
      (p : V → Bool) (key : ℕ) (v : V) (m : HashMap ℕ V)
      → lookup key m ≡ some v
      → p v ≡ true
      → any (λ x. p x.1) m ≡ true
  unfolding lookup
  any_of_lookup p key v [] k holds = absurd (ground (arith, k))
  any_of_lookup p key v ((i, x) ∷ m) k holds = ground (arith, k, holds, any_of_lookup p key v m)

  unknown_of_keep :
      (p : V → Bool) (key : ℕ) (m : HashMap ℕ V)
      → lookup key m ≡ none
      → lookup key (keep (λ x. p x.1) m) ≡ none
  unfolding lookup
  unknown_of_keep p key [] k = refl
  unknown_of_keep p key ((i, x) ∷ m) k = ground (arith, k, unknown_of_keep p key m)

abbrev is_apart : ℕ → Ends → Bool
is_apart node (a, b, _) = not (a == node || b == node)

-- A node without edges takes none away.
all_kept :
    (node : ℕ) (m : HashMap ℕ Ends)
    → any (λ x. x.1.0 == node) m ≡ false
    → any (λ x. x.1.1 == node) m ≡ false
    → keep (λ x. is_apart node x.1) m ≡ m
all_kept node [] out into = refl
all_kept node ((i, x) ∷ m) out into = ground (arith, out, into, all_kept node m)

abbrev pub slots : StableDiGraph ℕ ℕ ℕ Slots
slots = record {
  empty = record { weights = []; ends = [] };
  add_node =
      λ t g. (fresh g.weights, record g { weights = map_insert (fresh g.weights) t g.weights });
  add_edge =
      λ a b w g. (fresh g.ends, record g { ends = map_insert (fresh g.ends) (a, b, w) g.ends });
  remove_edge = λ e g. record g { ends = map_remove e g.ends };
  remove_node =
      λ n g. record { weights = map_remove n g.weights; ends = keep (λ x. is_apart n x.1) g.ends };
  node_weight = λ n g. lookup n g.weights;
  edge = λ e g. lookup e g.ends;
  has_outgoing = λ n g. any (λ x. x.1.0 == n) g.ends;
  has_incoming = λ n g. any (λ x. x.1.1 == n) g.ends;
}

pub slots-IsStableDiGraph : IsStableDiGraph slots
slots-IsStableDiGraph = record {
  fresh_node = λ t g. lookup-fresh g.weights;
  node_weight-add_node = λ t g n. lookup-map_insert n (fresh g.weights) t g.weights;
  edge-add_node = λ t g e. refl;
  fresh_edge = λ a b w g t u k l. lookup-fresh g.ends;
  edge-add_edge = λ a b w g t u e k l. lookup-map_insert e (fresh g.ends) (a, b, w) g.ends;
  node_weight-add_edge = λ a b w g t u n k l. refl;
  edge-remove_edge = λ e g e'. lookup-map_remove e' e g.ends;
  node_weight-remove_edge = λ e g n. refl;
  node_weight-remove_node = λ n g n'. lookup-map_remove n' n g.weights;
  edge-remove_node = λ n a b w g e k a_apart b_apart.
      lookup_of_keep (is_apart n) e (a, b, w) g.ends k (ground (arith, a_apart, b_apart));
  no_edge-remove_node = λ n g e k. unknown_of_keep (is_apart n) e g.ends k;
  outgoing-remove_node = λ n g m out into.
      ap (λ ends. any (λ (x : ℕ × Ends). x.1.0 == m) ends) (all_kept n g.ends out into);
  incoming-remove_node = λ n g m out into.
      ap (λ ends. any (λ (x : ℕ × Ends). x.1.1 == m) ends) (all_kept n g.ends out into);
  outgoing-edge =
      λ g e a b w k. any_of_lookup (λ (x : Ends). x.0 == a) e (a, b, w) g.ends k (eq_refl a);
  incoming-edge =
      λ g e a b w k. any_of_lookup (λ (x : Ends). x.1 == b) e (a, b, w) g.ends k (eq_refl b);
}
