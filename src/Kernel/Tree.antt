-- ===== src/Kernel/Tree.antt =====
-- The kernel's red-black trees (linux/rbtree.h). A tree is what its user walks over: links to the left
-- and to the right. The colours are the library's own.
use sbu_cse_506_operating_sy.Prelude.{ℕ, ◌≡◌, List, [], ◌∷◌, ◌++◌, reverse, remove_at}

pub data Tree (A : Type 0) : Type 0 where
  leaf : Tree A
  node : Tree A → A → Tree A → Tree A

unfoldable pub in_order : {A : Type 0} → Tree A → List A
in_order leaf = []
in_order (node l x r) = in_order l ++ (x ∷ in_order r)

-- `rb_insert_color` rebalances after a node was linked in; `rb_erase` takes out the node that is
-- `i`-th in order. `ascending` are the nodes from `rb_first` on by `rb_next`, `descending` those from
-- `rb_last` on by `rb_prev`. As in `HashApi`, `skip rest` is how many of the nodes behind a freed one
-- `rb_next` passes over when it reads that node; nothing is assumed of it.
pub record RbApi (A : Type 0) : Type 0 where
  pub rb_insert_color : Tree A → Tree A
  pub rb_erase : Tree A → ℕ → Tree A
  pub ascending : Tree A → List A
  pub descending : Tree A → List A
  pub skip : List A → ℕ
  pub in_order-rb_insert_color : (t : Tree A) → in_order (rb_insert_color t) ≡ in_order t
  pub in_order-rb_erase : (t : Tree A) (i : ℕ) → in_order (rb_erase t i) ≡ remove_at i (in_order t)
  pub ascending_lem : (t : Tree A) → ascending t ≡ in_order t
  pub descending_lem : (t : Tree A) → descending t ≡ reverse (in_order t)
