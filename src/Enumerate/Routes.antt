-- ===== src/Enumerate/Routes.antt =====
-- The recursive description of the enumeration lists the simple continuations of a state's path.
use mathlib.Core.List.{Memᴰ, append_assoc}
use mathlib.Core.List.Memᴰ
use mathlib.Core.Path.{subst}
use evm_amm_search.Prelude.Members.{mem_of_flat, mem-flat}
use evm_amm_search.Prelude.{
  ℕ, zero, suc, ◌≤◌, ◌≡◌, refl, sym, ap, ◌∙◌, inl, inr, true, false, some, List, [], ◌∷◌, ◌++◌,
  arith, PartialEq, Bool-cases, List-cases, leb, leb→le, le→leb, length,
}
use evm_amm_search.Route.{Address, Hop, RoutePath, path_len}
use evm_amm_search.Enumerate.{
  CachedOutgoingEdge, TokenGraph, IsTokenGraph, SearchState, Query, extended, next_state, may_take,
  closes_target,
}
use evm_amm_search.Enumerate.Spec.{edge_routes, routes_within, HasEdge, IsSimpleFrom}
use evm_amm_search.Enumerate.Simple.{
  hop_of, Continues, edge_fits, closing_simple, closing_taken, leading_simple, leading_taken,
}

mem-one {ℓ} : {A : Type ℓ} (a b : A) → Memᴰ a (b ∷ []) → a ≡ b
mem-one a b m = elim (Memᴰ.cases_cons m) [ inl e ↦ e | inr later ↦ absurd (Memᴰ.not-nil later) ]

module _ {PoolKey NodeIndex : Type 0} ⦃eP : PartialEq PoolKey⦄ ⦃eN : PartialEq NodeIndex⦄
    (g : TokenGraph PoolKey NodeIndex) (fits : IsTokenGraph g) (q : Query PoolKey)
    (source target : NodeIndex) (source_known : g.node_index q.token_in ≡ some source)
    (target_known : g.node_index q.token_out ≡ some target) where
  module _ (token : Address) (state : SearchState PoolKey NodeIndex)
      (edge : CachedOutgoingEdge PoolKey NodeIndex)
      (at_token : g.node_index token ≡ some state.node)
      (has : Memᴰ edge (g.outgoing_edges state.node)) where
    pub closing-Continues :
        (hops : ℕ)
        → may_take q source target state edge ≡ true
        → closes_target q source target edge ≡ true
        → q.config.min_hops ≤ path_len (extended state edge)
        → Continues g q (suc hops) token state (extended state edge)
    closing-Continues hops taken closes enough = record {
      rest = hop_of edge ∷ [];
      whole = refl;
      simple =
          closing_simple g fits q source target source_known target_known token state edge at_token
            has taken closes;
      within = omega arith;
      enough = enough;
    }

    pub leading-Continues :
        (hops : ℕ) (path : RoutePath PoolKey)
        → may_take q source target state edge ≡ true
        → closes_target q source target edge ≡ false
        → Continues g q hops edge.token_out (next_state state edge) path
        → Continues g q (suc hops) token state path
    leading-Continues hops path taken open_end c = elim (List-cases c.rest) [
      | inl e ↦ absurd (subst (IsSimpleFrom g q edge.token_out _ _) e c.simple)
      | inr (hop, hops', e) ↦ record {
        rest = hop_of edge ∷ c.rest;
        whole = c.whole ∙ append_assoc state.path.hops (hop_of edge ∷ []) c.rest;
        simple = rw e (
            leading_simple g fits q source target source_known target_known token state edge
              at_token has hop hops' taken open_end
              (subst (IsSimpleFrom g q edge.token_out _ _) e c.simple));
        within = omega (arith, c.within);
        enough = c.enough;
      }
    ]

    -- The paths that an edge gives, if those below the next state continue it.
    edge-Continues :
        (routes : SearchState PoolKey NodeIndex → List (RoutePath PoolKey)) (hops : ℕ)
        (path : RoutePath PoolKey)
        → (Memᴰ path (routes (next_state state edge))
            → Continues g q hops edge.token_out (next_state state edge) path)
        → Memᴰ path (edge_routes g q source target routes state edge)
        → Continues g q (suc hops) token state path
    edge-Continues routes hops path below m =
        elim (Bool-cases (may_take q source target state edge)) [
          | inr refused ↦ absurd (Memᴰ.not-nil (rw refused at m))
          | inl taken ↦ elim (Bool-cases (closes_target q source target edge)) [
            | inr open_end ↦
                leading-Continues hops path taken open_end (below (rw (taken, open_end) at m))
            | inl closes ↦
                elim (Bool-cases (leb q.config.min_hops (path_len (extended state edge)))) [
                  | inr short ↦ absurd (Memᴰ.not-nil (rw (taken, closes, short) at m))
                  | inl long ↦
                      subst (Continues g q (suc hops) token state)
                        (sym (mem-one path (extended state edge) (rw (taken, closes, long) at m)))
                        (closing-Continues hops taken closes (leb→le _ _ long))
                ]
          ]
        ]

  -- The routes found below a state continue its path.
  pub routes-Continues :
      (hops : ℕ) (token : Address) (state : SearchState PoolKey NodeIndex)
      (path : RoutePath PoolKey)
      → g.node_index token ≡ some state.node
      → Memᴰ path (routes_within g q source target hops state)
      → Continues g q hops token state path
  unfolding routes_within
  routes-Continues zero token state path at_token m = absurd (Memᴰ.not-nil m)
  routes-Continues (suc hops) token state path at_token m =
      let (edge, has, m') =
        mem_of_flat (edge_routes g q source target (routes_within g q source target hops) state)
          path (g.outgoing_edges state.node) m in
      edge-Continues token state edge at_token has (routes_within g q source target hops) hops path
        (routes-Continues hops edge.token_out (next_state state edge) path (
          (edge_fits g fits q source target source_known target_known token state edge at_token
            has).1))
        m'

  module _ (token : Address) (state : SearchState PoolKey NodeIndex)
      (at_token : g.node_index token ≡ some state.node) where
    edge_of_hop :
        (hop : Hop PoolKey)
        → HasEdge g q hop
        → hop.token_in ≡ token
        → (edge : CachedOutgoingEdge PoolKey NodeIndex) × Memᴰ edge (g.outgoing_edges state.node)
          × (hop ≡ hop_of edge)
    edge_of_hop hop (n, known, edge, m, e) starts = (
      edge,
      subst (λ i. Memᴰ edge (g.outgoing_edges i)) (ground (arith, known, starts, at_token)) m,
      e,
    )

    closing_found :
        (routes : SearchState PoolKey NodeIndex → List (RoutePath PoolKey))
        (edge : CachedOutgoingEdge PoolKey NodeIndex) (path : RoutePath PoolKey)
        → Memᴰ edge (g.outgoing_edges state.node)
        → path.hops ≡ state.path.hops ++ hop_of edge ∷ []
        → IsSimpleFrom g q token state.visited_tokens state.used_pools (hop_of edge ∷ [])
        → q.config.min_hops ≤ path_len path
        → Memᴰ path (edge_routes g q source target routes state edge)
    closing_found routes edge path has whole simple enough =
        let (taken, closes) =
          closing_taken g fits q source target source_known target_known token state edge at_token
            has simple in
        let same = ap (λ hops. record { hops = hops }) whole in
        let long =
          le→leb q.config.min_hops (path_len (extended state edge)) (rw (← whole) enough) in
        rw (taken, closes, long) (Memᴰ.head same)

    leading_found :
        (routes : SearchState PoolKey NodeIndex → List (RoutePath PoolKey))
        (edge : CachedOutgoingEdge PoolKey NodeIndex) (path : RoutePath PoolKey) (hop : Hop PoolKey)
        (hops : List (Hop PoolKey))
        → Memᴰ edge (g.outgoing_edges state.node)
        → IsSimpleFrom g q token state.visited_tokens state.used_pools (hop_of edge ∷ hop ∷ hops)
        → Memᴰ path (routes (next_state state edge))
        → Memᴰ path (edge_routes g q source target routes state edge)
    leading_found routes edge path hop hops has simple m =
        let (taken, open_end) =
          leading_taken g fits q source target source_known target_known token state edge at_token
            has hop hops simple in
        rw (taken, open_end) m

  -- Every continuation of a state's path is found.
  pub continuations_found :
      (hops : ℕ) (token : Address) (state : SearchState PoolKey NodeIndex)
      (path : RoutePath PoolKey) (rest : List (Hop PoolKey))
      → g.node_index token ≡ some state.node
      → path.hops ≡ state.path.hops ++ rest
      → IsSimpleFrom g q token state.visited_tokens state.used_pools rest
      → length rest ≤ hops
      → q.config.min_hops ≤ path_len path
      → Memᴰ path (routes_within g q source target hops state)
  unfolding routes_within
  continuations_found zero token state path [] at_token whole simple within enough = absurd simple
  continuations_found zero token state path (_ ∷ _) at_token whole simple within enough =
      absurd (omega (arith, within))
  continuations_found (suc hops) token state path [] at_token whole simple within enough =
      absurd simple
  continuations_found (suc hops) token state path (hop ∷ []) at_token whole simple within enough =
      let (edge, has, e) = edge_of_hop token state at_token hop simple.0 simple.1 in
      mem-flat (edge_routes g q source target (routes_within g q source target hops) state) path
        edge (g.outgoing_edges state.node) has
        (closing_found token state at_token (routes_within g q source target hops) edge path has
          (rw e at whole) (rw e at simple) enough)
  continuations_found (suc hops) token state path (hop ∷ hop' ∷ rest) at_token whole simple within
        enough =
      let (edge, has, e) = edge_of_hop token state at_token hop simple.0 simple.1 in
      let simple' =
        subst (λ h. IsSimpleFrom g q token state.visited_tokens state.used_pools (h ∷ hop' ∷ rest))
          e simple in
      let fit =
        edge_fits g fits q source target source_known target_known token state edge at_token has in
      mem-flat (edge_routes g q source target (routes_within g q source target hops) state) path
        edge (g.outgoing_edges state.node) has
        (leading_found token state at_token (routes_within g q source target hops) edge path hop'
          rest has simple'
          (continuations_found hops edge.token_out (next_state state edge) path (hop' ∷ rest) fit.1
            (rw e at whole ∙ sym (append_assoc state.path.hops (hop_of edge ∷ []) (hop' ∷ rest)))
            simple'.6 (omega (arith, within)) enough))
