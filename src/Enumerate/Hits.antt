-- ===== src/Enumerate/Hits.antt =====
-- The whole search: the paths found are the routes of the recursive description, each as often.
use mathlib.Core.List.{Perm, append_assoc, append-nil, perm_append_comm}
use mathlib.Core.List.Perm
use mathlib.Core.Path.{subst}
use evm_amm_search.Prelude.{
  ℕ, zero, suc, ◌-◌, ◌≡◌, ◌≢◌, refl, sym, ap, inl, inr, true, false, none, some, List, [], ◌∷◌,
  ◌++◌, arith, PartialEq, Bool-cases, List-cases, leb, ltb, length-append, flat, flat-append,
}
use evm_amm_search.Route.{RoutePath, path_len}
use evm_amm_search.Enumerate.{
  CachedOutgoingEdge, TokenGraph, SearchState, Query, Frontier, extended, next_state, may_take,
  closes_target, polled, visit_edges,
}
use evm_amm_search.Enumerate.Loop.{expand, search_loop}
use evm_amm_search.Enumerate.Spec.{edge_hits, edge_next, edge_routes, routes_within, routes_below}
use evm_amm_search.Enumerate.Complete.{
  perm_swap_middle, Tracks, Adds, Adds-nothing, polled-Tracks, not_cancelled, visit_edges-Adds,
}

module _ {PoolKey NodeIndex : Type 0} ⦃eP : PartialEq PoolKey⦄ ⦃eN : PartialEq NodeIndex⦄
    (g : TokenGraph PoolKey NodeIndex) (q : Query PoolKey) (source target : NodeIndex) where
  length-extended :
      (state : SearchState PoolKey NodeIndex) (edge : CachedOutgoingEdge PoolKey NodeIndex)
      → path_len (extended state edge) ≡ suc (path_len state.path)
  length-extended state edge = omega (arith, length-append state.path.hops _)

  routes_below_within :
      (n : ℕ) (state : SearchState PoolKey NodeIndex)
      → q.config.max_hops - path_len state.path ≡ n
      → routes_below g q source target state ≡ routes_within g q source target n state
  unfolding routes_below
  routes_below_within n state h = ap (λ k. routes_within g q source target k state) h

  edge_routes_split :
      (hops : ℕ) (state : SearchState PoolKey NodeIndex)
      (edge : CachedOutgoingEdge PoolKey NodeIndex)
      → q.config.max_hops - path_len state.path ≡ suc hops
      → edge_routes g q source target (routes_within g q source target hops) state edge
        ≡ edge_hits g q source target state edge
          ++ flat (routes_below g q source target) (edge_next g q source target state edge)
  edge_routes_split hops state edge h =
      let path = extended state edge in
      let next = next_state state edge in
      let len = length-extended state edge in
      elim (Bool-cases (may_take q source target state edge)) [
        | inr refused ↦ rw refused
        | inl taken ↦ elim (Bool-cases (closes_target q source target edge)) [
          | inl closes ↦ elim (Bool-cases (leb q.config.min_hops (path_len path))) [
            | inr short ↦ rw (taken, closes, short)
            | inl long ↦ rw (taken, closes, long)
          ]
          | inr open_end ↦ elim (Bool-cases (ltb (path_len path) q.config.max_hops)) [
            | inr last ↦
                let none_left : hops ≡ 0 = ground arith in
                rw (taken, open_end, last, none_left) (unfold routes_within in refl)
            | inl more ↦
                rw (taken, open_end, more, append-nil)
                  (sym (routes_below_within hops next (omega arith)))
          ]
        ]
      ]

  edges_split :
      (hops : ℕ) (state : SearchState PoolKey NodeIndex)
      (edges : List (CachedOutgoingEdge PoolKey NodeIndex))
      → q.config.max_hops - path_len state.path ≡ suc hops
      → Perm
          (flat (edge_routes g q source target (routes_within g q source target hops) state) edges)
          (flat (edge_hits g q source target state) edges
            ++ flat
                (routes_below g q source target)
                (flat (edge_next g q source target state) edges))
  edges_split hops state [] h = Perm.refl []
  edges_split hops state (edge ∷ edges) h =
      let hits = edge_hits g q source target state in
      let nexts = edge_next g q source target state in
      let below = routes_below g q source target in
      rw (edge_routes_split hops state edge h, flat-append below (nexts edge) (flat nexts edges))
        (Perm.trans
          (Perm.append_left (hits edge ++ flat below (nexts edge)) (edges_split hops state edges h))
          (perm_swap_middle (hits edge) (flat below (nexts edge)) (flat hits edges)
            (flat below (flat nexts edges))))

  module _ (no_limit : q.max_new_paths ≡ none) (no_callback : q.should_continue ≡ none) where
    expand_at_limit :
        (state : SearchState PoolKey NodeIndex) (f : Frontier PoolKey NodeIndex)
        → leb q.config.max_hops (path_len state.path) ≡ true
        → expand g q source target state f ≡ polled f
    unfolding expand
    expand_at_limit state f h = rw (not_cancelled g q source target no_limit no_callback f, h)

    expand_inside :
        (state : SearchState PoolKey NodeIndex) (f : Frontier PoolKey NodeIndex)
        → leb q.config.max_hops (path_len state.path) ≡ false
        → expand g q source target state f
          ≡ visit_edges q source target state (g.outgoing_edges state.node) (polled f)
    unfolding expand
    expand_inside state f h = rw (not_cancelled g q source target no_limit no_callback f, h)

    -- One state of the queue: its complete paths, and its routes through the states that it adds.
    record Expanded (state : SearchState PoolKey NodeIndex) (hits : List (RoutePath PoolKey))
        (f : Frontier PoolKey NodeIndex) : Type 0 where
      new_hits : List (RoutePath PoolKey)
      new_states : List (SearchState PoolKey NodeIndex)
      adds : Adds g q source target new_hits new_states hits f (expand g q source target state f)
      splits :
          Perm
            (routes_below g q source target state)
            (new_hits ++ flat (routes_below g q source target) new_states)

    expand-Expanded :
        (state : SearchState PoolKey NodeIndex) (hits : List (RoutePath PoolKey))
        (f : Frontier PoolKey NodeIndex)
        → Tracks g q source target hits f
        → Expanded state hits f
    expand-Expanded state hits f t = go (q.config.max_hops - path_len state.path) refl
      where
        go : (n : ℕ) → q.config.max_hops - path_len state.path ≡ n → Expanded state hits f
        go zero h =
            let at_limit : leb q.config.max_hops (path_len state.path) ≡ true = ground arith in
            record {
              new_hits = [];
              new_states = [];
              adds = rw (expand_at_limit state f at_limit) (
                  Adds-nothing g q source target hits (polled f)
                    (polled-Tracks g q source target hits f t));
              splits = rw (routes_below_within zero state h) (unfold routes_within in Perm.refl []);
            }
        go (suc hops) h =
            let inside : leb q.config.max_hops (path_len state.path) ≡ false = ground arith in
            let edges = g.outgoing_edges state.node in
            record {
              new_hits = flat (edge_hits g q source target state) edges;
              new_states = flat (edge_next g q source target state) edges;
              adds = rw (expand_inside state f inside) (
                  visit_edges-Adds g q source target no_limit no_callback hits state edges
                    (polled f) (polled-Tracks g q source target hits f t));
              splits =
                  rw (routes_below_within (suc hops) state h)
                    (unfold routes_within in edges_split hops state edges h);
            }

    loop_done :
        (fuel : ℕ) (f f' : Frontier PoolKey NodeIndex)
        → f.queue ≡ []
        → f.ended ≡ false
        → search_loop g q source target fuel f ≡ some f'
        → f ≡ f'
    unfolding search_loop
    loop_done zero f f' empty going h = ground arith
    loop_done (suc fuel) f f' empty going h = ground arith

    loop_next :
        (fuel : ℕ) (f f' : Frontier PoolKey NodeIndex) (state : SearchState PoolKey NodeIndex)
        (rest : List (SearchState PoolKey NodeIndex))
        → f.queue ≡ state ∷ rest
        → f.ended ≡ false
        → search_loop g q source target (suc fuel) f ≡ some f'
        → search_loop g q source target fuel
            (expand g q source target state (record f { queue = rest }))
          ≡ some f'
    unfolding search_loop
    loop_next fuel f f' state rest more going h = ground arith

    loop_stuck :
        (f f' : Frontier PoolKey NodeIndex) (state : SearchState PoolKey NodeIndex)
        (rest : List (SearchState PoolKey NodeIndex))
        → f.queue ≡ state ∷ rest
        → f.ended ≡ false
        → search_loop g q source target zero f ≢ some f'
    unfolding search_loop
    loop_stuck f f' state rest more going = ground arith

    step_perm :
        (state : SearchState PoolKey NodeIndex) (hits : List (RoutePath PoolKey))
        (f : Frontier PoolKey NodeIndex) (x : Expanded state hits f)
        → Perm
            ((hits ++ x.new_hits)
              ++ flat (routes_below g q source target) (f.queue ++ x.new_states))
            (hits ++ flat (routes_below g q source target) (state ∷ f.queue))
    step_perm state hits f x =
        let below = routes_below g q source target in
        let rest = flat below f.queue in
        let later = flat below x.new_states in
        rw (flat-append below f.queue x.new_states) (
          Perm.trans (perm_swap_middle hits x.new_hits rest later) (
            rw (append_assoc hits rest (x.new_hits ++ later)) (
              Perm.append_left hits (
                Perm.trans (perm_append_comm rest (x.new_hits ++ later))
                  (Perm.append_right rest (Perm.symm x.splits))))))

    -- The paths found at the end are those found before and the routes below the queue.
    pub search_loop_hits :
        (fuel : ℕ) (hits : List (RoutePath PoolKey)) (f f' : Frontier PoolKey NodeIndex)
        → Tracks g q source target hits f
        → search_loop g q source target fuel f ≡ some f'
        → (hits' : List (RoutePath PoolKey)) × Tracks g q source target hits' f'
          × Perm hits' (hits ++ flat (routes_below g q source target) f.queue)
    search_loop_hits zero hits f f' t h = elim (List-cases f.queue) [
      | inl empty ↦
          let same = loop_done zero f f' empty t.going.0 h in
          (
            hits,
            subst (Tracks g q source target hits) same t,
            rw empty (rw append-nil (Perm.refl hits)),
          )
      | inr (state, rest, more) ↦ absurd (loop_stuck f f' state rest more t.going.0 h)
    ]
    search_loop_hits (suc fuel) hits f f' t h = elim (List-cases f.queue) [
      | inl empty ↦
          let same = loop_done (suc fuel) f f' empty t.going.0 h in
          (
            hits,
            subst (Tracks g q source target hits) same t,
            rw empty (rw append-nil (Perm.refl hits)),
          )
      | inr (state, rest, more) ↦
          let f₀ = record f { queue = rest } in
          let t₀ : Tracks g q source target hits f₀ = record {
            paths = t.paths;
            found = t.found;
            going = t.going;
          } in
          let x = expand-Expanded state hits f₀ t₀ in
          let f₁ = expand g q source target state f₀ in
          let (hits', t', perm) =
            search_loop_hits fuel (hits ++ x.new_hits) f₁ f' x.adds.0
              (loop_next fuel f f' state rest more t.going.0 h) in
          (hits', t', rw more (Perm.trans perm (rw (x.adds.1) (step_perm state hits f₀ x))))
    ]
