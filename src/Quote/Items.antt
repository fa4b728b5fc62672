-- ===== src/Quote/Items.antt =====
-- src/search.rs: the paths that `QuoteDag` holds, and what each of them pays on its own.
use mathlib.Core.List.{Permᴰ, append_assoc}
use mathlib.Core.List.Permᴰ
use evm_amm_search.Prelude.{
  ◌≡◌, refl, sym, ap, inl, inr, List, [], ◌∷◌, ◌++◌, map, PartialEq, ◌==◌, Bool-cases,
}
use evm_amm_search.Route.{Hop, RoutePath, hop_PartialEq, hop_eq_iff}
use evm_amm_search.Quote.Dag.{
  QuoteDagNode, QuoteDagChildren, no_child, dag_child, empty_node, child_for_hop, insert_below,
  dag_insert,
}

pub map-append {ℓ κ} :
    {A : Type ℓ} {B : Type κ} (f : A → B) (xs ys : List A) → map f (xs ++ ys) ≡ map f xs ++ map f ys
map-append f [] ys = refl
map-append f (x ∷ xs) ys = ap (λ rest. f x ∷ rest) (map-append f xs ys)

-- The hops that are left, and the path.
abbrev pub Item : Type 0 → Type 0
Item PoolKey = List (Hop PoolKey) × RoutePath PoolKey

module _ {PoolKey : Type 0} where
  abbrev pub under : Hop PoolKey → Item PoolKey → Item PoolKey
  under hop (hops, path) = (hop ∷ hops, path)

  abbrev pub at_end : RoutePath PoolKey → Item PoolKey
  at_end path = ([], path)

  unfoldable pub child_items : QuoteDagChildren PoolKey → List (Item PoolKey)
  child_items no_child = []
  child_items (dag_child hop below paths rest) =
      map (under hop) (map at_end paths ++ child_items below) ++ child_items rest

  -- The paths that end at a node or below it, in the order in which they are quoted.
  abbrev pub items : QuoteDagNode PoolKey → List (Item PoolKey)
  items n = map at_end n.terminals ++ child_items n.children

module _ {PoolKey : Type 0} ⦃e : PartialEq PoolKey⦄ where
  child_for_hop_adds :
      (hop : Hop PoolKey) (item : Item PoolKey)
      (change : QuoteDagNode PoolKey → QuoteDagNode PoolKey)
      → ((n : QuoteDagNode PoolKey) → Permᴰ (items (change n)) (item ∷ items n))
      → (cs : QuoteDagChildren PoolKey)
      → Permᴰ (child_items (child_for_hop hop change cs)) (under hop item ∷ child_items cs)
  unfolding child_for_hop child_items
  child_for_hop_adds hop item change adds no_child =
      Permᴰ.append_right [] (Permᴰ.map (under hop) (adds empty_node))
  child_for_hop_adds hop item change adds (dag_child h below paths rest) =
      elim (Bool-cases (h == hop)) [
        | inl same ↦
            let is : hop ≡ h = sym ((hop_eq_iff h hop).0 same) in
            rw (same, is)
              (Permᴰ.append_right (child_items rest)
                (Permᴰ.map (under h) (adds (record { children = below; terminals = paths }))))
        | inr other ↦
            let here = map (under h) (map at_end paths ++ child_items below) in
            rw other (
              Permᴰ.trans (Permᴰ.append_left here (child_for_hop_adds hop item change adds rest))
                (Permᴰ.middle (under hop item) here (child_items rest)))
      ]

  insert_below_adds :
      (path : RoutePath PoolKey) (hops : List (Hop PoolKey)) (n : QuoteDagNode PoolKey)
      → Permᴰ (items (insert_below path hops n)) ((hops, path) ∷ items n)
  unfolding insert_below
  insert_below_adds path [] n =
      rw
        (
          map-append at_end n.terminals (path ∷ []),
          append_assoc (map at_end n.terminals) (at_end path ∷ []) (child_items n.children),
        )
        (Permᴰ.middle (at_end path) (map at_end n.terminals) (child_items n.children))
  insert_below_adds path (hop ∷ hops) n =
      Permᴰ.trans
        (Permᴰ.append_left (map at_end n.terminals) (
          child_for_hop_adds hop (hops, path) (insert_below path hops) (insert_below_adds path hops)
            n.children))
        (Permᴰ.middle (hop ∷ hops, path) (map at_end n.terminals) (child_items n.children))

  -- The tree holds a path more after it was inserted.
  pub dag_insert_adds :
      (path : RoutePath PoolKey) (root : QuoteDagNode PoolKey)
      → Permᴰ (items (dag_insert path root)) ((path.hops, path) ∷ items root)
  unfolding dag_insert
  dag_insert_adds path root = insert_below_adds path path.hops root
