-- ===== src/Kds/RbTree.antt =====
-- The red-black tree part of kds.c. A `struct myrbtree` is its value, its links aside.
pub mod Lookup
pub mod Run
use sbu_cse_506_operating_sy.Prelude.{
  ℕ, ◌+◌, ◌%◌, Bool, true, List, [], ◌∷◌, none, some, map, int_ltb, if◌then◌else◌,
}
use sbu_cse_506_operating_sy.Kernel.Tree.{Tree, leaf, node, RbApi}
use sbu_cse_506_operating_sy.SearchTree.{link, erase_walk}

-- `-1` as an `int`.
abbrev pub minus_one : ℕ
minus_one = 4294967295

-- The order of `int`s is the order of these numbers.
abbrev pub int_key : ℕ → ℕ
int_key v = (v + 2147483648) % 4294967296

pub data Line : Type 0 where
  null_root : Line
  key_line : ℕ → Line

-- `while (*new)` of the lookup; no fuel is needed, since it goes down one path.
unfoldable pub lookup_rb_tree : Tree ℕ → ℕ → ℕ
lookup_rb_tree leaf number = minus_one
lookup_rb_tree (node l value r) number =
    let left = lookup_rb_tree l number in
    let right = lookup_rb_tree r number in
    if int_ltb number value then left else if int_ltb value number then right else number

module _ (api : RbApi ℕ) where
  open api use {rb_insert_color, ascending}

  -- The tree afterwards, and the result.
  unfoldable pub insert_rb_tree : Tree ℕ → ℕ → Tree ℕ × ℕ
  insert_rb_tree root new_node = elim (link int_key new_node root) [
    | none ↦ (root, 0)
    | some t ↦ (rb_insert_color t, 1)
  ]

  unfoldable pub print_rb_tree : Tree ℕ → List Line
  print_rb_tree t = elim (ascending t) [
    | [] ↦ null_root ∷ []
    | x ∷ xs ↦ key_line x ∷ map key_line xs
  ]

  unfoldable pub remove_rb_tree : Tree ℕ → Tree ℕ
  remove_rb_tree t = erase_walk api (λ _. true) 0 0 (ascending t) t

  -- The first loop: the tree it builds, and what it prints after each insertion.
  unfoldable pub insert_each : List ℕ → Tree ℕ → Tree ℕ × List (List Line)
  insert_each [] t = (t, [])
  insert_each (v ∷ vs) t =
      let t' = (insert_rb_tree t v).0 in
      let (last, printed) = insert_each vs t' in (last, print_rb_tree t' ∷ printed)

  -- The second loop: the numbers that it reports as not found.
  unfoldable pub lookup_each : List ℕ → Tree ℕ → List ℕ
  lookup_each [] t = []
  lookup_each (v ∷ vs) t =
      let missing = lookup_each vs t in
      if int_ltb (lookup_rb_tree t v) 0 then v ∷ missing else missing

  pub record Output : Type 0 where
    pub printed : List (List Line)
    pub not_found : List ℕ
    pub left : List Line

  unfoldable pub run_redblack_trees : List ℕ → Output
  run_redblack_trees int_array =
      let (t, printed) = insert_each int_array leaf in
      record {
        printed = print_rb_tree leaf ∷ printed;
        not_found = lookup_each int_array t;
        left = print_rb_tree (remove_rb_tree t);
      }
