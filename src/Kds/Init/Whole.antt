-- ===== src/Kds/Init/Whole.antt =====
-- The module as a whole, from its parameter to what it prints.
use sbu_cse_506_operating_sy.Prelude.{
  ℕ, ◌<◌, ◌≡◌, refl, true, none, some, List, [], ◌∷◌, map, reverse, length, arith, All, count, ◌≤◌,
}
use sbu_cse_506_operating_sy.Kds.Parse.{push_digit, count_integers, ends_in_number}
use sbu_cse_506_operating_sy.Kds.Parse.Words.{words, number_from, number}
use sbu_cse_506_operating_sy.Kds.Parse.Conversion.{convert_str_to_integers_lem}
use sbu_cse_506_operating_sy.Kds.HashTable.Counts.{times}
use sbu_cse_506_operating_sy.Kds.HashTable.Run.{run_hash_table_lem}
use sbu_cse_506_operating_sy.Kds.RbTree.{null_root}
use sbu_cse_506_operating_sy.Kds.RbTree.Run.{stages, negatives, run_redblack_trees_lem}
use sbu_cse_506_operating_sy.Kds.LinkedList.{run_linked_list_lem}
use sbu_cse_506_operating_sy.Kds.Bitmap.{set_bits, any_sets, run_bitmap_lem}
use sbu_cse_506_operating_sy.Kds.Index.Run.{is_odd, deletions, run_radix_tree_lem, run_xarray_lem}
use sbu_cse_506_operating_sy.Kds.LinkedList.{run_linked_list}
use sbu_cse_506_operating_sy.Kds.HashTable.{run_hash_table}
use sbu_cse_506_operating_sy.Kds.RbTree.{run_redblack_trees}
use sbu_cse_506_operating_sy.Kds.Index.{run_xarray}
use sbu_cse_506_operating_sy.Kds.Bitmap.{run_bitmap}
use sbu_cse_506_operating_sy.Kds.Init.{Services, Report, run_all, lkp_init}

number_from-fits : (sum : ℕ) (w : List ℕ) → sum < 4294967296 → number_from sum w < 4294967296
number_from-fits sum [] h = h
number_from-fits sum (c ∷ w) h = number_from-fits (push_digit sum c) w (omega arith)

numbers-fit : (ws : List (List ℕ)) → All (λ v. v < 4294967296) (map number ws)
numbers-fit [] = tt
numbers-fit (w ∷ ws) = (number_from-fits 0 w (omega arith), numbers-fit ws)

module _ {Radix Xarray : Type 0} (k : Services Radix Xarray) where
  -- What the parts print of the integers.
  pub record IsReportOf (ns : List ℕ) (o : Report k) : Type 0 where
    pub int_array : o.int_array ≡ ns
    pub linked_list : o.linked_list ≡ (reverse ns, [])
    pub filled : (v : ℕ) → times v o.hash_table.filled ≡ times v ns
    pub deleted : (v : ℕ) → times v o.hash_table.deleted ≡ times v ns
    pub left : o.hash_table.left ≡ []
    pub printed : o.redblack_trees.printed ≡ (null_root ∷ []) ∷ stages ns []
    pub not_found : o.redblack_trees.not_found ≡ negatives ns
    pub radix_found : o.radix_tree.found ≡ map some ns
    pub radix_deleted : o.radix_tree.deleted ≡ deletions [] ns
    pub radix_after : o.radix_tree.after ≡ map (λ _. none) ns
    pub xarray_found : o.xarray.0 ≡ map some ns
    pub xarray_deleted : o.xarray.2 ≡ deletions [] ns
    pub bitmap : o.bitmap ≡ set_bits 10 0 (any_sets ns)

  run_all-IsReportOf :
      (ns : List ℕ)
      → All (λ v. v < 4294967296) ns
      → count is_odd ns ≤ 10
      → (o : Report k) × (run_all k ns ≡ some o) × IsReportOf ns o
  unfolding run_all
  run_all-IsReportOf ns h few =
      let hashed = run_hash_table_lem k.hashes ns in
      let rooted = run_redblack_trees_lem k.trees ns in
      let radixed = run_radix_tree_lem k.radixes ns h few in
      let indexed = run_xarray_lem k.xarrays ns h in
      (
        record {
          int_array = ns;
          linked_list = run_linked_list k.lists ns;
          hash_table = run_hash_table k.hashes ns;
          redblack_trees = run_redblack_trees k.trees ns;
          radix_tree = radixed.0;
          xarray = (run_xarray k.xarrays ns).0;
          bitmap = run_bitmap k.bits ns;
        },
        rw radixed.1 refl,
        record {
          int_array = refl;
          linked_list = run_linked_list_lem k.lists ns;
          filled = hashed.0;
          deleted = hashed.2;
          left = hashed.3;
          printed = rooted.0;
          not_found = rooted.1;
          radix_found = radixed.2;
          radix_deleted = radixed.3;
          radix_after = radixed.4;
          xarray_found = indexed.0;
          xarray_deleted = indexed.1;
          bitmap = run_bitmap_lem k.bits ns h;
        },
      )

  -- Where `kmalloc` gives as many elements as are asked for, the parameter ends in something other
  -- than a space, and 10 of its numbers are odd at most, the module loads, and each part prints what
  -- it has to of the numbers of the parameter's space-separated pieces: the linked list reversed and
  -- then empty, the hash table filled with them and emptied, the tree rising after each insertion with
  -- the negative ones reported missing, both index maps with every one found and deleted once, and
  -- their low bits.
  pub lkp_init-IsReportOf :
      (int_str : List ℕ)
      → ((n : ℕ) → length (k.kmalloc n) ≡ n)
      → ends_in_number int_str ≡ true
      → count is_odd (map number (words int_str)) ≤ 10
      → (o : Report k) × (lkp_init k int_str ≡ some o) × IsReportOf (map number (words int_str)) o
  unfolding lkp_init
  lkp_init-IsReportOf int_str m e few =
      let ns = map number (words int_str) in
      let n = count_integers int_str in
      let (o, run, report) = run_all-IsReportOf ns (numbers-fit (words int_str)) few in
      (o, rw (convert_str_to_integers_lem int_str (k.kmalloc n) (m n), e) run, report)
