-- ===== src/Enumerate/Complete.antt =====
-- The breadth-first search finds the routes of the recursive description, each as often.
use mathlib.Core.List.{Perm, append_assoc, append-nil, perm_append_comm}
use mathlib.Core.List.Perm
use mathlib.Core.Path.{subst}
use evm_amm_search.Prelude.{
  ◌≡◌, refl, sym, inl, inr, Bool, true, false, not, none, List, [], ◌∷◌, ◌++◌, arith, PartialEq,
  Bool-cases, leb, ltb, keep, keep-append, flat, contains,
}
use evm_amm_search.Route.{RoutePath, path_len, path_PartialEq}
use evm_amm_search.Enumerate.{
  CachedOutgoingEdge, TokenGraph, SearchState, Query, Frontier, extended, record_path, may_take,
  closes_target, polled, is_cancelled, visit_edge, visit_edges,
}
use evm_amm_search.Enumerate.Spec.{edge_hits, edge_next}

pub perm_swap_middle {ℓ} :
    {A : Type ℓ} (a b c d : List A) → Perm ((a ++ b) ++ (c ++ d)) ((a ++ c) ++ (b ++ d))
perm_swap_middle a b c d =
    simp append_assoc
      (Perm.append_left a (simp (← append_assoc) (Perm.append_right d (perm_append_comm b c))))

abbrev pub is_nonempty {ℓ} : {A : Type ℓ} → List A → Bool
is_nonempty [] = false
is_nonempty (_ ∷ _) = true

is_nonempty-append {ℓ} : {A : Type ℓ} (xs : List A) (x : A) → is_nonempty (xs ++ x ∷ []) ≡ true
is_nonempty-append [] x = refl
is_nonempty-append (y ∷ xs) x = refl

module _ {PoolKey NodeIndex : Type 0} ⦃eP : PartialEq PoolKey⦄ ⦃eN : PartialEq NodeIndex⦄
    (g : TokenGraph PoolKey NodeIndex) (q : Query PoolKey) (source target : NodeIndex) where
  abbrev pub is_new : RoutePath PoolKey → Bool
  is_new path = not (contains q.excluded path)

  -- The paths found so far are `hits`; those excluded are counted only.
  pub record Tracks (hits : List (RoutePath PoolKey)) (f : Frontier PoolKey NodeIndex)
      : Type 0 where
    pub paths : f.paths ≡ keep is_new hits
    pub found : f.found_path ≡ is_nonempty hits
    pub going : (f.ended ≡ false) × (f.stopped ≡ false)

  record_path-Tracks :
      (hits : List (RoutePath PoolKey)) (path : RoutePath PoolKey) (f : Frontier PoolKey NodeIndex)
      → q.max_new_paths ≡ none
      → Tracks hits f
      → Tracks (hits ++ path ∷ []) (record_path q path f) × ((record_path q path f).queue ≡ f.queue)
  unfolding record_path
  record_path-Tracks hits path f no_limit t = ground (
    arith,
    append-nil (keep is_new hits),
    keep-append is_new hits (path ∷ []),
    is_nonempty-append hits path,
  )

  -- What an edge adds to the paths and to the queue.
  abbrev pub Adds :
      List (RoutePath PoolKey)
      → List (SearchState PoolKey NodeIndex)
      → List (RoutePath PoolKey)
      → Frontier PoolKey NodeIndex
      → Frontier PoolKey NodeIndex
      → Type 0
  Adds new_hits new_states hits f f' =
      Tracks (hits ++ new_hits) f' × (f'.queue ≡ f.queue ++ new_states)

  pub Adds-nothing :
      (hits : List (RoutePath PoolKey)) (f : Frontier PoolKey NodeIndex)
      → Tracks hits f
      → Adds [] [] hits f f
  Adds-nothing hits f t = (rw append-nil t, sym (append-nil f.queue))

  visit_edge-Adds :
      (hits : List (RoutePath PoolKey)) (state : SearchState PoolKey NodeIndex)
      (edge : CachedOutgoingEdge PoolKey NodeIndex) (f : Frontier PoolKey NodeIndex)
      → q.max_new_paths ≡ none
      → Tracks hits f
      → Adds
          (edge_hits g q source target state edge)
          (edge_next g q source target state edge)
          hits
          f
          (visit_edge q source target state edge f)
  unfolding visit_edge
  visit_edge-Adds hits state edge f no_limit t =
      let path = extended state edge in
      let none_added = Adds-nothing hits f t in
      elim (Bool-cases (may_take q source target state edge)) [
        | inr refused ↦ rw refused none_added
        | inl taken ↦ elim (Bool-cases (closes_target q source target edge)) [
          | inl closes ↦ elim (Bool-cases (leb q.config.min_hops (path_len path))) [
            | inr short ↦ rw (taken, closes, short) none_added
            | inl long ↦
                let (t', same) = record_path-Tracks hits path f no_limit t in
                rw (taken, closes, long) (t', rw append-nil same)
          ]
          | inr open_end ↦ elim (Bool-cases (ltb (path_len path) q.config.max_hops)) [
            | inr last ↦ rw (taken, open_end, last) none_added
            | inl more ↦
                rw (taken, open_end, more)
                  (rw append-nil
                    (record { paths = t.paths; found = t.found; going = t.going }, refl))
          ]
        ]
      ]

  pub polled-Tracks :
      (hits : List (RoutePath PoolKey)) (f : Frontier PoolKey NodeIndex)
      → Tracks hits f
      → Tracks hits (polled f)
  polled-Tracks hits f t = record { paths = t.paths; found = t.found; going = t.going }

  -- The callback is absent, and no limit is set.
  module _ (no_limit : q.max_new_paths ≡ none) (no_callback : q.should_continue ≡ none) where
    pub not_cancelled : (f : Frontier PoolKey NodeIndex) → is_cancelled q f ≡ false
    not_cancelled f = ground arith

    visit_edges_step :
        (state : SearchState PoolKey NodeIndex) (edge : CachedOutgoingEdge PoolKey NodeIndex)
        (edges : List (CachedOutgoingEdge PoolKey NodeIndex)) (f : Frontier PoolKey NodeIndex)
        → (visit_edge q source target state edge (polled f)).ended ≡ false
        → visit_edges q source target state (edge ∷ edges) f
          ≡ visit_edges q source target state edges
              (visit_edge q source target state edge (polled f))
    unfolding visit_edges
    visit_edges_step state edge edges f h = rw (not_cancelled f, h)

    pub visit_edges-Adds :
        (hits : List (RoutePath PoolKey)) (state : SearchState PoolKey NodeIndex)
        (edges : List (CachedOutgoingEdge PoolKey NodeIndex)) (f : Frontier PoolKey NodeIndex)
        → Tracks hits f
        → Adds
            (flat (edge_hits g q source target state) edges)
            (flat (edge_next g q source target state) edges)
            hits
            f
            (visit_edges q source target state edges f)
    visit_edges-Adds hits state [] f t = unfold visit_edges in Adds-nothing hits f t
    visit_edges-Adds hits state (edge ∷ edges) f t =
        let f₁ = visit_edge q source target state edge (polled f) in
        let (t₁, queue₁) =
          visit_edge-Adds hits state edge (polled f) no_limit (polled-Tracks hits f t) in
        let (t₂, queue₂) =
          visit_edges-Adds (hits ++ edge_hits g q source target state edge) state edges f₁ t₁ in
        rw (visit_edges_step state edge edges f t₁.going.0) (
          subst (λ l. Tracks l (visit_edges q source target state edges f₁))
              (append_assoc hits (edge_hits g q source target state edge)
                (flat (edge_hits g q source target state) edges))
              t₂,
          rw (queue₂, queue₁)
              (append_assoc f.queue (edge_next g q source target state edge)
                (flat (edge_next g q source target state) edges)),
        )
