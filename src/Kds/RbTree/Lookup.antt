-- ===== src/Kds/RbTree/Lookup.antt =====
-- The lookup against the elements of the tree.
use sbu_cse_506_operating_sy.Prelude.{ℕ, ◌≡◌, refl, ◌∷◌, if◌then◌else◌, arith}
use sbu_cse_506_operating_sy.Kernel.Tree.{Tree, leaf, node, in_order}
use sbu_cse_506_operating_sy.SearchTree.{Ascending, has_key}
use sbu_cse_506_operating_sy.SearchTree.Keys.{has_key-append, has_key_above, has_key_below}
use sbu_cse_506_operating_sy.SearchTree.Insertion.{Ascending-append}
use sbu_cse_506_operating_sy.Kds.RbTree.{minus_one, int_key, lookup_rb_tree}

-- In a search tree the lookup returns its argument if the tree has it, and -1 if not.
pub lookup_rb_tree_lem :
    (t : Tree ℕ) (number : ℕ)
    → Ascending int_key (in_order t)
    → lookup_rb_tree t number
      ≡ (if has_key int_key (int_key number) (in_order t) then number else minus_one)
unfolding lookup_rb_tree in_order has_key
lookup_rb_tree_lem leaf number h = refl
lookup_rb_tree_lem (node l x r) number h =
    let parts = Ascending-append int_key (in_order l) x (in_order r) h in
    ground (
      arith,
      lookup_rb_tree_lem l number parts.0,
      lookup_rb_tree_lem r number parts.2,
      has_key-append int_key (int_key number) (in_order l) (x ∷ in_order r),
      has_key_above int_key (int_key number) (int_key x) (in_order r) parts.3,
      has_key_below int_key (int_key number) (int_key x) (in_order l) parts.1,
    )
