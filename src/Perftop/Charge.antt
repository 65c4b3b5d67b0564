-- ===== src/Perftop/Charge.antt =====
-- The part of `ret_pick_next_fair` under the spin lock: the slice that a process ran is added to its
-- total.
use sbu_cse_506_operating_sy.Prelude.{
  ℕ, ◌≡◌, ◌≢◌, refl, sym, ap, ◌∙◌, Option, none, some, [], ◌==◌, if◌then◌else◌, count, arith, inl,
  inr, eq_or_ne,
}
use sbu_cse_506_operating_sy.Kernel.Chain.{remove_walk}
use sbu_cse_506_operating_sy.Kernel.Tree.{Tree, leaf, in_order, RbApi}
use sbu_cse_506_operating_sy.SearchTree.{link, has_key}
use sbu_cse_506_operating_sy.SearchTree.Insertion.{placed, in_order-link, place-has_key}
use sbu_cse_506_operating_sy.SearchTree.Erasure.{in_order-erase_walk}
use sbu_cse_506_operating_sy.Perftop.{
  Entry, of_pid, first_tsc, insert_rb_tree, insert_redblack_trees, remove_rb_tree, lookup_rb_tree,
}
use sbu_cse_506_operating_sy.Perftop.Stamps.{first_tsc-remove_walk, count-remove_walk_self}
use sbu_cse_506_operating_sy.Perftop.Totals.{
  tsc_of, another_has, IsExact, has_key-remove_walk, IsExact-remove_walk, first_tsc-placed_ne,
  first_tsc-placed_self, IsExact-placed,
}

tree_of : Option (Tree Entry) → Tree Entry
tree_of none = leaf
tree_of (some t) = t

module _ (api : RbApi Entry) where
  open api use {ascending, ascending_lem, in_order-rb_insert_color, skip}

  -- The tree is exact if its list of nodes is.
  abbrev pub TreeIsExact : Tree Entry → Type 0
  TreeIsExact t = IsExact (in_order t)

  in_order-remove_rb_tree :
      (t : Tree Entry) (pid : ℕ)
      → in_order (remove_rb_tree api t pid) ≡ (remove_walk skip (of_pid pid) 0 (in_order t)).0
  unfolding remove_rb_tree
  in_order-remove_rb_tree t pid =
      in_order-erase_walk api (of_pid pid) 0 0 [] (ascending t) t refl (sym (ascending_lem t))
      ∙ ap (λ xs. (remove_walk skip (of_pid pid) 0 xs).0) (ascending_lem t)

  in_order-insert_redblack_trees :
      (t : Tree Entry) (pid tsc : ℕ)
      → TreeIsExact t
      → in_order (insert_redblack_trees api t pid tsc)
        ≡ placed tsc_of (record { value = pid; tsc = tsc }) (in_order t)
  unfolding insert_redblack_trees insert_rb_tree tree_of
  in_order-insert_redblack_trees t pid tsc h =
      let e : Entry = record { value = pid; tsc = tsc } in
      ground (
        arith,
        in_order-link tsc_of e t h.rising,
        in_order-rb_insert_color (tree_of (link tsc_of e t)),
      )

  lookup_lem : (t : Tree Entry) (pid : ℕ) → lookup_rb_tree api t pid ≡ first_tsc pid (in_order t)
  unfolding lookup_rb_tree
  lookup_lem t pid = ap (first_tsc pid) (ascending_lem t)

  remove_rb_tree-IsExact :
      (t : Tree Entry) (pid : ℕ) → TreeIsExact t → TreeIsExact (remove_rb_tree api t pid)
  remove_rb_tree-IsExact t pid h =
      rw (in_order-remove_rb_tree t pid) (IsExact-remove_walk skip pid (in_order t) h)

  count-remove_rb_tree :
      (t : Tree Entry) (pid : ℕ)
      → TreeIsExact t
      → count (of_pid pid) (in_order (remove_rb_tree api t pid)) ≡ 0
  count-remove_rb_tree t pid h =
      rw (in_order-remove_rb_tree t pid) (count-remove_walk_self skip pid (in_order t) (h.once pid))

  -- Putting a new total in the place of the old one keeps the tree exact.
  pub replace-IsExact :
      (t : Tree Entry) (pid sum : ℕ)
      → TreeIsExact t
      → TreeIsExact (insert_redblack_trees api (remove_rb_tree api t pid) pid sum)
  replace-IsExact t pid sum h =
      rw
        (in_order-insert_redblack_trees (remove_rb_tree api t pid) pid sum
          (remove_rb_tree-IsExact t pid h))
        (IsExact-placed (record { value = pid; tsc = sum }) (in_order (remove_rb_tree api t pid))
          (remove_rb_tree-IsExact t pid h) (count-remove_rb_tree t pid h))

  replace_self :
      (t : Tree Entry) (pid sum : ℕ)
      → TreeIsExact t
      → lookup_rb_tree api (insert_redblack_trees api (remove_rb_tree api t pid) pid sum) pid
        ≡ (if another_has pid sum (in_order t) then 0 else sum)
  replace_self t pid sum h =
      let e : Entry = record { value = pid; tsc = sum } in
      let rest = remove_rb_tree api t pid in
      let exact = remove_rb_tree-IsExact t pid h in
      let free = ap (has_key tsc_of sum) (in_order-remove_rb_tree t pid) in
      ground (
        arith,
        lookup_lem (insert_redblack_trees api rest pid sum) pid,
        in_order-insert_redblack_trees rest pid sum exact,
        first_tsc-placed_self e (in_order rest) (count-remove_rb_tree t pid h),
        place-has_key tsc_of e (in_order rest) exact.rising,
        free,
        has_key-remove_walk skip pid sum (in_order t) (h.once pid),
      )

  replace_ne :
      (t : Tree Entry) (pid sum q : ℕ)
      → TreeIsExact t
      → q ≢ pid
      → lookup_rb_tree api (insert_redblack_trees api (remove_rb_tree api t pid) pid sum) q
        ≡ lookup_rb_tree api t q
  replace_ne t pid sum q h n =
      let e : Entry = record { value = pid; tsc = sum } in
      let rest = remove_rb_tree api t pid in
      lookup_lem (insert_redblack_trees api rest pid sum) q
      ∙ ap (first_tsc q)
          (in_order-insert_redblack_trees rest pid sum (remove_rb_tree-IsExact t pid h))
      ∙ first_tsc-placed_ne q e (in_order rest) (ground arith)
      ∙ ap (first_tsc q) (in_order-remove_rb_tree t pid)
      ∙ first_tsc-remove_walk skip pid q 0 (in_order t) n
      ∙ sym (lookup_lem t q)

  -- The total of `pid` is replaced, unless another process has that very total: then `pid` loses its
  -- own and has none. Every other process keeps its total.
  pub lookup-replace :
      (t : Tree Entry) (pid sum q : ℕ)
      → TreeIsExact t
      → lookup_rb_tree api (insert_redblack_trees api (remove_rb_tree api t pid) pid sum) q ≡ (
          if q == pid
          then (if another_has pid sum (in_order t) then 0 else sum)
          else lookup_rb_tree api t q)
  lookup-replace t pid sum q h = elim (eq_or_ne q pid) [
    | inl (e, b) ↦ rw (b, e) (replace_self t pid sum h)
    | inr (n, b) ↦ rw b (replace_ne t pid sum q h n)
  ]
