-- ===== src/Perftop.antt =====
-- Assignment 4 Profiler/Part 2/perftop.c: the profiler's two containers. The hash table has the time
-- stamp at which a process was last switched in, the tree has the total of each process, with the
-- total as its key. Pids are `int`s by their bits, time stamps are 64-bit words.
pub mod Probe
pub mod Stamps
pub mod Totals
pub mod Charge
pub mod Accounting
pub mod Show
pub mod Counters
pub mod Module
pub mod Cpus
pub mod Stages
use sbu_cse_506_operating_sy.Prelude.{
  ℕ, ◌+◌, Bool, true, false, List, [], ◌∷◌, none, some, ltb, ◌==◌, if◌then◌else◌,
}
use sbu_cse_506_operating_sy.Kernel.Chain.{HashApi, Table, update, remove_walk}
use sbu_cse_506_operating_sy.Kernel.Tree.{Tree, RbApi}
use sbu_cse_506_operating_sy.SearchTree.{link, erase_walk}

-- `struct myhashnode` and `struct myrbtree`, their links aside
pub record Entry : Type 0 where
  pub value : ℕ
  pub tsc : ℕ

abbrev pub of_pid : ℕ → Entry → Bool
of_pid pid e = e.value == pid

-- The loop of both lookups: the first node of the pid, 0 if there is none.
unfoldable pub first_tsc : ℕ → List Entry → ℕ
first_tsc pid [] = 0
first_tsc pid (curr ∷ rest) = if of_pid pid curr then curr.tsc else first_tsc pid rest

module _ (api : HashApi Entry) where
  open api use {hash_min, hash_add, skip}

  unfoldable pub lookup_hash_table : Table Entry → ℕ → ℕ
  lookup_hash_table t number = first_tsc number (t (hash_min number))

  unfoldable pub remove_hash_table : Table Entry → ℕ → Table Entry
  remove_hash_table t number =
      update t (hash_min number) (remove_walk skip (of_pid number) 0 (t (hash_min number))).0

  -- It goes through the bucket of key 0: the table afterwards, and the count that it prints.
  unfoldable pub remove_hash_table_all : Table Entry → Table Entry × List Entry
  remove_hash_table_all t =
      let (chain, freed) = remove_walk skip (λ _. true) 0 (t (hash_min 0)) in
      (update t (hash_min 0) chain, freed)

  unfoldable pub insert_hash_table : Table Entry → ℕ → ℕ → Table Entry
  insert_hash_table t pid input_tsc =
      let t' = remove_hash_table t pid in
      update t' (hash_min pid)
        (hash_add (record { value = pid; tsc = input_tsc }) (t' (hash_min pid)))

-- `if (count++ > 8) break;` behind the line that is printed.
unfoldable pub print_loop : List Entry → ℕ → List Entry
print_loop [] printed = []
print_loop (temp ∷ rest) printed =
    let further = print_loop rest (printed + 1) in
    if ltb 8 printed then temp ∷ [] else temp ∷ further

module _ (api : RbApi Entry) where
  open api use {rb_insert_color, ascending, descending}

  unfoldable pub insert_rb_tree : Tree Entry → Entry → Tree Entry × ℕ
  insert_rb_tree root new_node = elim (link (λ e. e.tsc) new_node root) [
    | none ↦ (root, 0)
    | some t ↦ (rb_insert_color t, 1)
  ]

  unfoldable pub insert_redblack_trees : Tree Entry → ℕ → ℕ → Tree Entry
  insert_redblack_trees root pid tsc = (insert_rb_tree root (record { value = pid; tsc = tsc })).0

  unfoldable pub remove_rb_tree : Tree Entry → ℕ → Tree Entry
  remove_rb_tree t pid = erase_walk api (of_pid pid) 0 0 (ascending t) t

  unfoldable pub remove_rb_tree_all : Tree Entry → Tree Entry
  remove_rb_tree_all t = erase_walk api (λ _. true) 0 0 (ascending t) t

  unfoldable pub lookup_rb_tree : Tree Entry → ℕ → ℕ
  lookup_rb_tree t pid = first_tsc pid (ascending t)

  unfoldable pub print_rb_tree : Tree Entry → List Entry
  print_rb_tree t = print_loop (descending t) 0
