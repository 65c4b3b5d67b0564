-- ===== src/Kds/HashTable.antt =====
-- The hash table part of kds.c. A `struct myhashnode` is its value, its place in a chain aside, and
-- the value is its key. What `printk` shows is returned.
pub mod Counts
pub mod Run
use sbu_cse_506_operating_sy.Prelude.{ℕ, List, [], ◌∷◌, ◌++◌, ◌==◌, if◌then◌else◌}
use sbu_cse_506_operating_sy.Kernel.Chain.{HashApi, Table, update, remove_walk, all_nodes}

-- The values of a chain that the lookup prints.
unfoldable pub matching : ℕ → List ℕ → List ℕ
matching number [] = []
matching number (value ∷ chain) =
    if value == number then value ∷ matching number chain else matching number chain

module _ (api : HashApi ℕ) where
  open api use {buckets, hash_min, hash_add, skip}

  -- `hash_for_each`, and its body, which prints each value
  unfoldable pub print_hash_table : Table ℕ → List ℕ
  print_hash_table t = all_nodes buckets 0 t

  unfoldable pub lookup_hash_table : Table ℕ → ℕ → List ℕ
  lookup_hash_table t number = matching number (t (hash_min number))

  -- The table after it, and the values printed as they are deleted.
  unfoldable pub remove_hash_table : Table ℕ → ℕ → Table ℕ × List ℕ
  remove_hash_table t number =
      let (chain, freed) = remove_walk skip (λ value. value == number) 0 (t (hash_min number)) in
      (update t (hash_min number) chain, freed)

  unfoldable pub insert_each : List ℕ → Table ℕ → Table ℕ
  insert_each [] t = t
  insert_each (v ∷ vs) t = insert_each vs (update t (hash_min v) (hash_add v (t (hash_min v))))

  unfoldable pub lookup_each : List ℕ → Table ℕ → List ℕ
  lookup_each [] t = []
  lookup_each (v ∷ vs) t = lookup_hash_table t v ++ lookup_each vs t

  unfoldable pub remove_each : List ℕ → Table ℕ → Table ℕ × List ℕ
  remove_each [] t = (t, [])
  remove_each (v ∷ vs) t =
      let (t', freed) = remove_hash_table t v in
      let (t'', later) = remove_each vs t' in (t'', freed ++ later)

  -- What a run prints: the table when it is filled, the lookups, the deletions, the table at the end.
  pub record Output : Type 0 where
    pub filled : List ℕ
    pub looked_up : List ℕ
    pub deleted : List ℕ
    pub left : List ℕ

  unfoldable pub run_hash_table : List ℕ → Output
  run_hash_table int_array =
      let t = insert_each int_array (λ _. []) in
      let (t', freed) = remove_each int_array t in
      record {
        filled = print_hash_table t;
        looked_up = lookup_each int_array t;
        deleted = freed;
        left = print_hash_table t';
      }
