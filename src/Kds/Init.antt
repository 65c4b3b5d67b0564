-- ===== src/Kds/Init.antt =====
-- `lkp_init`: the parameter is parsed, and the six parts run on its integers. What `kmalloc` gives is
-- a parameter; it succeeds, and the memory has any contents. The message lines are left out.
pub mod Whole
use sbu_cse_506_operating_sy.Prelude.{ℕ, Option, some, ◌>>=◌, List}
use sbu_cse_506_operating_sy.Kernel.Chain.{HashApi}
use sbu_cse_506_operating_sy.Kernel.Tree.{RbApi}
use sbu_cse_506_operating_sy.Kernel.Small.{ListApi, BitApi}
use sbu_cse_506_operating_sy.Kernel.Index.{IndexApi}
use sbu_cse_506_operating_sy.Kds.Parse.{count_integers, convert_str_to_integers}
use sbu_cse_506_operating_sy.Kds.LinkedList.{run_linked_list}
use sbu_cse_506_operating_sy.Kds.HashTable.{run_hash_table}
use sbu_cse_506_operating_sy.Kds.HashTable as HashTable
use sbu_cse_506_operating_sy.Kds.RbTree.{run_redblack_trees}
use sbu_cse_506_operating_sy.Kds.RbTree as RbTree
use sbu_cse_506_operating_sy.Kds.Index.{run_radix_tree, run_xarray}
use sbu_cse_506_operating_sy.Kds.Index as Index
use sbu_cse_506_operating_sy.Kds.Bitmap.{run_bitmap}

-- What the kernel gives the module: its containers, and the memory of so many integers.
pub record Services (Radix Xarray : Type 0) : Type 0 where
  pub lists : ListApi ℕ
  pub hashes : HashApi ℕ
  pub trees : RbApi ℕ
  pub radixes : IndexApi Radix
  pub xarrays : IndexApi Xarray
  pub bits : BitApi
  pub kmalloc : ℕ → List ℕ

module _ {Radix Xarray : Type 0} (k : Services Radix Xarray) where
  -- What the module prints, part by part.
  pub record Report : Type 0 where
    pub int_array : List ℕ
    pub linked_list : List ℕ × List ℕ
    pub hash_table : HashTable.Output k.hashes
    pub redblack_trees : RbTree.Output k.trees
    pub radix_tree : Index.Output k.radixes
    pub xarray : List (Option ℕ) × List ℕ × List (Option ℕ)
    pub bitmap : List ℕ

  unfoldable pub run_all : List ℕ → Option Report
  run_all int_array = run_radix_tree k.radixes int_array >>= λ radix_tree. some (record {
    int_array = int_array;
    linked_list = run_linked_list k.lists int_array;
    hash_table = run_hash_table k.hashes int_array;
    redblack_trees = run_redblack_trees k.trees int_array;
    radix_tree = radix_tree;
    xarray = (run_xarray k.xarrays int_array).0;
    bitmap = run_bitmap k.bits int_array;
  })

  unfoldable pub lkp_init : List ℕ → Option Report
  lkp_init int_str =
      let count = count_integers int_str in
      convert_str_to_integers int_str (k.kmalloc count) count >>= λ int_array. run_all int_array
