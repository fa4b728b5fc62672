-- ===== src/Enumerate/Sound.antt =====
-- The paths that the search loop finds, also when a limit or a callback cuts it short.
use mathlib.Core.List.{Memᴰ}
use mathlib.Core.Path.{subst}
use evm_amm_search.Prelude.{
  ℕ, zero, suc, ◌-◌, ◌≡◌, refl, sym, inl, inr, Bool, true, false, some, List, [], ◌∷◌, arith,
  PartialEq, Bool-cases, List-cases, if◌then◌else◌, leb, ltb, leb→le, All, All-append, contains,
  length-append, nat_PartialEq,
}
use evm_amm_search.Route.{Address, RoutePath, path_len, path_PartialEq}
use evm_amm_search.Enumerate.{
  CachedOutgoingEdge, TokenGraph, IsTokenGraph, SearchState, Query, Frontier, extended, next_state,
  record_path, may_take, closes_target, polled, cancelled, is_cancelled, visit_edge, visit_edges,
}
use evm_amm_search.Enumerate.Loop.{expand, search_loop}
use evm_amm_search.Enumerate.Spec.{IsSimpleRoute}
use evm_amm_search.Enumerate.Simple.{Continues, edge_fits}
use evm_amm_search.Enumerate.Routes.{closing-Continues, leading-Continues}

module _ {PoolKey NodeIndex : Type 0} ⦃eP : PartialEq PoolKey⦄ ⦃eN : PartialEq NodeIndex⦄
    (g : TokenGraph PoolKey NodeIndex) (q : Query PoolKey) where
  -- A new simple route.
  abbrev pub IsNewRoute : RoutePath PoolKey → Type 0
  IsNewRoute path = IsSimpleRoute g q path × (contains q.excluded path ≡ false)

  -- Every simple continuation of the state's path is a simple route.
  pub record LeadsOn (state : SearchState PoolKey NodeIndex) : Type 0 where
    pub token : Address
    pub at_token : g.node_index token ≡ some state.node
    pub routes :
        (path : RoutePath PoolKey)
        → Continues g q (q.config.max_hops - path_len state.path) token state path
        → IsSimpleRoute g q path

  pub record IsSound (f : Frontier PoolKey NodeIndex) : Type 0 where
    pub queued : All LeadsOn f.queue
    pub found : All IsNewRoute f.paths

  polled-IsSound : (f : Frontier PoolKey NodeIndex) → IsSound f → IsSound (polled f)
  polled-IsSound f s = record { queued = s.queued; found = s.found }

  cancelled-IsSound : (f : Frontier PoolKey NodeIndex) → IsSound f → IsSound (cancelled f)
  cancelled-IsSound f s = record { queued = s.queued; found = s.found }

  if-IsSound :
      (b : Bool) {f f' : Frontier PoolKey NodeIndex}
      → IsSound f
      → IsSound f'
      → IsSound (if b then f else f')
  if-IsSound true s s' = s
  if-IsSound false s s' = s'

  record_path-IsSound :
      (path : RoutePath PoolKey) (f : Frontier PoolKey NodeIndex)
      → IsSimpleRoute g q path
      → IsSound f
      → IsSound (record_path q path f)
  unfolding record_path
  record_path-IsSound path f simple s = elim (Bool-cases (contains q.excluded path)) [
    | inl known ↦ record { queued = rw known s.queued; found = rw known s.found }
    | inr new ↦ record {
      queued = rw new s.queued;
      found = rw new (All-append IsNewRoute f.paths (path ∷ []) s.found ((simple, new), tt));
    }
  ]

  module _ (fits : IsTokenGraph g) (source target : NodeIndex)
      (source_known : g.node_index q.token_in ≡ some source)
      (target_known : g.node_index q.token_out ≡ some target) where
    module _ (hops : ℕ) (state : SearchState PoolKey NodeIndex) (l : LeadsOn state)
        (left : q.config.max_hops - path_len state.path ≡ suc hops) where
      next-LeadsOn :
          (edge : CachedOutgoingEdge PoolKey NodeIndex)
          → Memᴰ edge (g.outgoing_edges state.node)
          → may_take q source target state edge ≡ true
          → closes_target q source target edge ≡ false
          → LeadsOn (next_state state edge)
      next-LeadsOn edge has taken open_end = record {
        token = edge.token_out;
        at_token =
            (edge_fits g fits q source target source_known target_known l.token state edge
              l.at_token has).1;
        routes = λ path c. l.routes path (
            subst (λ n. Continues g q n l.token state path) (sym left)
              (leading-Continues g fits q source target source_known target_known l.token state edge
                l.at_token has hops path taken open_end
                (subst (λ n. Continues g q n edge.token_out (next_state state edge) path)
                  (omega (arith, left, length-append state.path.hops _)) c)));
      }

      visit_edge-IsSound :
          (edge : CachedOutgoingEdge PoolKey NodeIndex) (f : Frontier PoolKey NodeIndex)
          → Memᴰ edge (g.outgoing_edges state.node)
          → IsSound f
          → IsSound (visit_edge q source target state edge f)
      unfolding visit_edge
      visit_edge-IsSound edge f has s =
          let path = extended state edge in
          elim (Bool-cases (may_take q source target state edge)) [
            | inr refused ↦ rw refused s
            | inl taken ↦ elim (Bool-cases (closes_target q source target edge)) [
              | inl closes ↦ elim (Bool-cases (leb q.config.min_hops (path_len path))) [
                | inr short ↦ rw (taken, closes, short) s
                | inl long ↦
                    rw (taken, closes, long)
                      (record_path-IsSound path f
                        (l.routes path (
                          subst (λ n. Continues g q n l.token state path) (sym left)
                            (closing-Continues g fits q source target source_known target_known
                              l.token state edge l.at_token has hops taken closes
                              (leb→le _ _ long))))
                        s)
              ]
              | inr open_end ↦ elim (Bool-cases (ltb (path_len path) q.config.max_hops)) [
                | inr last ↦ rw (taken, open_end, last) s
                | inl more ↦
                    rw (taken, open_end, more)
                      (record {
                        queued =
                            All-append LeadsOn f.queue (next_state state edge ∷ []) s.queued
                              (next-LeadsOn edge has taken open_end, tt);
                        found = s.found;
                      })
              ]
            ]
          ]

      visit_edges-IsSound :
          (edges : List (CachedOutgoingEdge PoolKey NodeIndex)) (f : Frontier PoolKey NodeIndex)
          → ((edge : CachedOutgoingEdge PoolKey NodeIndex)
              → Memᴰ edge edges
              → Memᴰ edge (g.outgoing_edges state.node))
          → IsSound f
          → IsSound (visit_edges q source target state edges f)
      unfolding visit_edges
      visit_edges-IsSound [] f sub s = s
      visit_edges-IsSound (edge ∷ edges) f sub s =
          let f' = visit_edge q source target state edge (polled f) in
          let s' =
            visit_edge-IsSound edge (polled f) (sub edge (Memᴰ.head refl)) (polled-IsSound f s) in
          if-IsSound (is_cancelled q f) (cancelled-IsSound (polled f) (polled-IsSound f s)) (
            if-IsSound f'.ended s'
              (visit_edges-IsSound edges f' (λ other has. sub other (Memᴰ.tail has)) s'))

    expand-IsSound :
        (state : SearchState PoolKey NodeIndex) (f : Frontier PoolKey NodeIndex)
        → LeadsOn state
        → IsSound f
        → IsSound (expand g q source target state f)
    unfolding expand
    expand-IsSound state f l s = elim (Bool-cases (is_cancelled q f)) [
      | inl stop ↦ rw stop (cancelled-IsSound (polled f) (polled-IsSound f s))
      | inr on ↦ elim (Bool-cases (leb q.config.max_hops (path_len state.path))) [
        | inl long ↦ rw (on, long) (polled-IsSound f s)
        | inr short ↦
            rw (on, short)
              (visit_edges-IsSound (q.config.max_hops - path_len state.path - 1) state l
                (ground (arith, short)) (g.outgoing_edges state.node) (polled f) (λ edge has. has)
                (polled-IsSound f s))
      ]
    ]

    loop_zero :
        (f f' : Frontier PoolKey NodeIndex)
        → search_loop g q source target zero f ≡ some f'
        → f ≡ f'
    unfolding search_loop
    loop_zero f f' h = ground (arith, h, List-cases f.queue)

    loop_ended :
        (fuel : ℕ) (f f' : Frontier PoolKey NodeIndex)
        → f.ended ≡ true
        → search_loop g q source target (suc fuel) f ≡ some f'
        → f ≡ f'
    unfolding search_loop
    loop_ended fuel f f' ended h = ground arith

    loop_empty :
        (fuel : ℕ) (f f' : Frontier PoolKey NodeIndex)
        → f.queue ≡ []
        → f.ended ≡ false
        → search_loop g q source target (suc fuel) f ≡ some f'
        → f ≡ f'
    unfolding search_loop
    loop_empty fuel f f' empty going h = ground arith

    loop_more :
        (fuel : ℕ) (f f' : Frontier PoolKey NodeIndex) (state : SearchState PoolKey NodeIndex)
        (rest : List (SearchState PoolKey NodeIndex))
        → f.queue ≡ state ∷ rest
        → f.ended ≡ false
        → search_loop g q source target (suc fuel) f ≡ some f'
        → search_loop g q source target fuel
            (expand g q source target state (record f { queue = rest }))
          ≡ some f'
    unfolding search_loop
    loop_more fuel f f' state rest more going h = ground arith

    pub search_loop-IsSound :
        (fuel : ℕ) (f f' : Frontier PoolKey NodeIndex)
        → search_loop g q source target fuel f ≡ some f'
        → IsSound f
        → IsSound f'
    search_loop-IsSound zero f f' h s = subst IsSound (loop_zero f f' h) s
    search_loop-IsSound (suc fuel) f f' h s = elim (Bool-cases f.ended) [
      | inl ended ↦ subst IsSound (loop_ended fuel f f' ended h) s
      | inr going ↦ elim (List-cases f.queue) [
        | inl empty ↦ subst IsSound (loop_empty fuel f f' empty going h) s
        | inr (state, rest, more) ↦
            let (l, queued) = subst (All LeadsOn) more s.queued in
            let f₀ = record f { queue = rest } in
            search_loop-IsSound fuel (expand g q source target state f₀) f'
              (loop_more fuel f f' state rest more going h)
              (expand-IsSound state f₀ l (record { queued = queued; found = s.found }))
      ]
    ]
