-- ===== src/Kds/RbTree/Run.antt =====
-- What a whole run of the red-black tree part does, against a rising list in place of the tree.
use sbu_cse_506_operating_sy.Prelude.{
  ℕ, ◌≡◌, refl, ap, ap₂, sym, ◌∙◌, true, Option, none, some, List, [], ◌∷◌, ◌||◌, int_ltb,
  if◌then◌else◌, map, arith,
}
use sbu_cse_506_operating_sy.Kernel.Chain.Walk.{remove_walk_all}
use sbu_cse_506_operating_sy.Kernel.Tree.{Tree, leaf, in_order, RbApi}
use sbu_cse_506_operating_sy.SearchTree.{link, Ascending, has_key}
use sbu_cse_506_operating_sy.SearchTree.Insertion.{
  placed, in_order-link, placed-Ascending, has_key-place, place-has_key,
}
use sbu_cse_506_operating_sy.SearchTree.Erasure.{in_order-erase_walk}
use sbu_cse_506_operating_sy.Kds.RbTree.{
  Line, null_root, key_line, int_key, insert_rb_tree, print_rb_tree, remove_rb_tree, insert_each,
  lookup_each, run_redblack_trees,
}
use sbu_cse_506_operating_sy.Kds.RbTree.Lookup.{lookup_rb_tree_lem}

-- The abstract run: a rising list, and what it looks like after each insertion.
abbrev pub lines : List ℕ → List Line
lines [] = null_root ∷ []
lines (x ∷ xs) = map key_line (x ∷ xs)

pub contents : List ℕ → List ℕ → List ℕ
contents [] s = s
contents (v ∷ vs) s = contents vs (placed int_key v s)

pub stages : List ℕ → List ℕ → List (List Line)
stages [] s = []
stages (v ∷ vs) s = let s' = placed int_key v s in lines s' ∷ stages vs s'

-- The numbers below zero.
pub negatives : List ℕ → List ℕ
negatives [] = []
negatives (v ∷ vs) = if int_ltb v 0 then v ∷ negatives vs else negatives vs

-- The elements of the input that the rising list is made of rise strictly, and are those of the input.
pub contents-Ascending : (vs s : List ℕ) → Ascending int_key s → Ascending int_key (contents vs s)
unfolding contents
contents-Ascending [] s h = h
contents-Ascending (v ∷ vs) s h =
    contents-Ascending vs (placed int_key v s) (placed-Ascending int_key v s h)

pub has_key-contents :
    (k : ℕ) (vs s : List ℕ)
    → has_key int_key k (contents vs s) ≡ (has_key int_key k vs || has_key int_key k s)
unfolding contents has_key
has_key-contents k [] s = refl
has_key-contents k (v ∷ vs) s =
    ground (arith, has_key-contents k vs (placed int_key v s), has_key-place int_key k v s)

some_tree : Option (Tree ℕ) → Tree ℕ
some_tree none = leaf
some_tree (some t) = t

in_order_leaf : in_order {A = ℕ} leaf ≡ []
unfolding in_order
in_order_leaf = refl

or_nil :
    (k : ℕ) (vs : List ℕ) → (has_key int_key k vs || has_key int_key k []) ≡ has_key int_key k vs
unfolding has_key
or_nil k vs = ground arith

lines_lem :
    (xs : List ℕ)
    → (elim xs [ [] ↦ null_root ∷ [] | y ∷ ys ↦ key_line y ∷ map key_line ys ]) ≡ lines xs
lines_lem [] = refl
lines_lem (x ∷ xs) = refl

module _ (api : RbApi ℕ) where
  open api use {rb_insert_color, ascending, ascending_lem, in_order-rb_insert_color, skip}

  -- `insert_rb_tree` changes the elements as an insertion into a rising list does, and returns 1
  -- exactly when there is a new one.
  pub insert_rb_tree_lem :
      (t : Tree ℕ) (v : ℕ)
      → Ascending int_key (in_order t)
      → (in_order (insert_rb_tree api t v).0 ≡ placed int_key v (in_order t))
        × ((insert_rb_tree api t v).1 ≡ (if has_key int_key (int_key v) (in_order t) then 0 else 1))
  unfolding insert_rb_tree some_tree
  insert_rb_tree_lem t v h = ground (
    arith,
    in_order-link int_key v t h,
    place-has_key int_key v (in_order t) h,
    in_order-rb_insert_color (some_tree (link int_key v t)),
  )

  print_rb_tree_lem : (t : Tree ℕ) → print_rb_tree api t ≡ lines (in_order t)
  unfolding print_rb_tree
  print_rb_tree_lem t = rw (ascending_lem t, print_rb_tree) (lines_lem (in_order t))

  insert_each_lem :
      (vs : List ℕ) (t : Tree ℕ)
      → Ascending int_key (in_order t)
      → (in_order (insert_each api vs t).0 ≡ contents vs (in_order t))
        × ((insert_each api vs t).1 ≡ stages vs (in_order t))
  unfolding insert_each contents stages
  insert_each_lem [] t h = (refl, refl)
  insert_each_lem (v ∷ vs) t h =
      let one = insert_rb_tree_lem t v h in
      let rest = insert_rb_tree api t v in
      let next = insert_each_lem vs rest.0 (rw one.0 (placed-Ascending int_key v (in_order t) h)) in
      (
        next.0 ∙ ap (contents vs) one.0,
        ap₂ ◌∷◌ (print_rb_tree_lem rest.0 ∙ ap lines one.0) (next.1 ∙ ap (stages vs) one.0),
      )

  -- Inserting any input into the empty tree builds a search tree with exactly the keys of the input.
  insert_each-Ascending :
      (vs : List ℕ)
      → Ascending int_key (in_order (insert_each api vs leaf).0)
        × ((k : ℕ)
            → has_key int_key k (in_order (insert_each api vs leaf).0) ≡ has_key int_key k vs)
  insert_each-Ascending vs =
      let built =
        (insert_each_lem vs leaf (rw in_order_leaf tt)).0 ∙ ap (contents vs) in_order_leaf in
      (
        rw built (contents-Ascending vs [] tt),
        λ k. ap (has_key int_key k) built ∙ has_key-contents k vs [] ∙ or_nil k vs,
      )

  lookup_each_lem :
      (us : List ℕ) (t : Tree ℕ)
      → Ascending int_key (in_order t)
      → ((k : ℕ) → has_key int_key k us ≡ true → has_key int_key k (in_order t) ≡ true)
      → lookup_each api us t ≡ negatives us
  unfolding lookup_each negatives has_key
  lookup_each_lem [] t h g = refl
  lookup_each_lem (u ∷ us) t h g = ground (
    arith,
    lookup_rb_tree_lem t u h,
    g (int_key u),
    lookup_each_lem us t h (λ k e. ground (arith, g k)),
  )

  remove_rb_tree_lem :
      (t : Tree ℕ) → ((xs : List ℕ) → skip xs ≡ 0) → in_order (remove_rb_tree api t) ≡ []
  unfolding remove_rb_tree
  remove_rb_tree_lem t h =
      in_order-erase_walk api (λ _. true) 0 0 [] (ascending t) t refl (sym (ascending_lem t))
      ∙ remove_walk_all skip h (ascending t)

  -- After each insertion the tree is printed as the rising list of the distinct elements inserted so
  -- far, and the lookups report as missing exactly the negative elements of the input (all of which
  -- are in the tree).
  pub run_redblack_trees_lem :
      (int_array : List ℕ)
      → ((run_redblack_trees api int_array).printed ≡ (null_root ∷ []) ∷ stages int_array [])
        × ((run_redblack_trees api int_array).not_found ≡ negatives int_array)
  unfolding run_redblack_trees
  run_redblack_trees_lem vs =
      let (rising, keys) = insert_each-Ascending vs in
      (
        ap₂ ◌∷◌ (print_rb_tree_lem leaf ∙ ap lines in_order_leaf)
            ((insert_each_lem vs leaf (rw in_order_leaf tt)).1 ∙ ap (stages vs) in_order_leaf),
        lookup_each_lem vs (insert_each api vs leaf).0 rising (λ k e. keys k ∙ e),
      )

  -- If `rb_next` on a freed node still leads to the next node, the tree is empty at the end.
  run_redblack_trees-left :
      (int_array : List ℕ)
      → ((xs : List ℕ) → skip xs ≡ 0)
      → (run_redblack_trees api int_array).left ≡ null_root ∷ []
  unfolding run_redblack_trees
  run_redblack_trees-left vs h =
      let t = (insert_each api vs leaf).0 in
      print_rb_tree_lem (remove_rb_tree api t) ∙ ap lines (remove_rb_tree_lem t h)
