-- ===== src/Examples/KdsRuns.antt =====
-- kds.c on small inputs.
use sbu_cse_506_operating_sy.Prelude.{
  ℕ, zero, suc, true, Option, length, count, ◌≤◌, ◌*◌, ◌%◌, ◌≡◌, refl, none, some, List, [], ◌∷◌,
  map, if◌then◌else◌, arith,
}
use sbu_cse_506_operating_sy.Kds.Parse.{
  count_integers, ends_in_number, count_spaces, store, convert_loop, convert_str_to_integers,
}
use sbu_cse_506_operating_sy.Kds.Parse.Words.{words, number}
use sbu_cse_506_operating_sy.Kds.Parse.Conversion.{convert_str_to_integers_lem}
use sbu_cse_506_operating_sy.Kds.HashTable.{run_hash_table}
use sbu_cse_506_operating_sy.Kds.HashTable.Counts.{times}
use sbu_cse_506_operating_sy.Kds.HashTable.Run.{run_hash_table_lem}
use sbu_cse_506_operating_sy.Kds.RbTree.{null_root, run_redblack_trees}
use sbu_cse_506_operating_sy.Kds.RbTree.Run.{stages, negatives, run_redblack_trees_lem}
use sbu_cse_506_operating_sy.Kds.Bitmap.{
  run_bitmap, insert_each as insert_bits, set_digits, set_bits,
}
use sbu_cse_506_operating_sy.Kds.Index as Index
use sbu_cse_506_operating_sy.Kds.Index.{index_of, run_xarray}
use sbu_cse_506_operating_sy.Kds.Index.Run.{is_odd, deletions, run_xarray_lem}
use sbu_cse_506_operating_sy.Kds.Init.{Services, Report, lkp_init}
use sbu_cse_506_operating_sy.Kds.Init.Whole.{IsReportOf, lkp_init-IsReportOf}
use sbu_cse_506_operating_sy.Examples.Apis.{small_hash, plain_rb, plain_list, plain_bits, radix}

-- "11 4 "
abbrev trailing : List ℕ
trailing = b'1' ∷ b'1' ∷ b' ' ∷ b'4' ∷ b' ' ∷ []

-- "11 4"
abbrev two_numbers : List ℕ
two_numbers = b'1' ∷ b'1' ∷ b' ' ∷ b'4' ∷ []

abbrev sample : List ℕ
sample = 5 ∷ 9 ∷ 5 ∷ []

two_numbers_count : count_integers two_numbers ≡ 2
unfolding count_integers ends_in_number count_spaces
two_numbers_count = refl

convert_str_to_integers_lem_example :
    convert_str_to_integers two_numbers (7 ∷ 7 ∷ []) (count_integers two_numbers)
    ≡ (if ends_in_number two_numbers then some (map number (words two_numbers)) else none)
unfolding count_integers ends_in_number count_spaces
convert_str_to_integers_lem_example = convert_str_to_integers_lem two_numbers (7 ∷ 7 ∷ []) refl

converted : convert_str_to_integers two_numbers (7 ∷ 7 ∷ []) 2 ≡ some (11 ∷ 4 ∷ [])
unfolding convert_str_to_integers convert_loop store
converted = refl

converted_trailing : convert_str_to_integers trailing (7 ∷ 7 ∷ []) 2 ≡ none
unfolding convert_str_to_integers convert_loop store
converted_trailing = refl

run_hash_table_lem_example :
    ((v : ℕ) → times v (run_hash_table small_hash sample).filled ≡ times v sample)
    × ((v : ℕ)
        → times v (run_hash_table small_hash sample).looked_up ≡ times v sample * times v sample)
    × ((v : ℕ) → times v (run_hash_table small_hash sample).deleted ≡ times v sample)
    × ((run_hash_table small_hash sample).left ≡ [])
run_hash_table_lem_example = run_hash_table_lem small_hash sample

run_redblack_trees_lem_example :
    ((run_redblack_trees plain_rb sample).printed ≡ (null_root ∷ []) ∷ stages sample [])
    × ((run_redblack_trees plain_rb sample).not_found ≡ negatives sample)
run_redblack_trees_lem_example = run_redblack_trees_lem plain_rb sample

run_xarray_lem_example :
    ((run_xarray radix sample).0.0 ≡ map some sample)
    × ((run_xarray radix sample).0.2 ≡ deletions [] sample)
    × ((v : ℕ) → (run_xarray radix sample).1 (index_of (v % 4294967296)) ≡ none)
run_xarray_lem_example = run_xarray_lem radix sample (omega arith)

-- 5 has the digits 0 and 2, 9 the digits 0 and 3.
bits_printed : run_bitmap plain_bits sample ≡ 0 ∷ 2 ∷ 3 ∷ []
unfolding run_bitmap insert_bits set_digits set_bits
bits_printed = refl

blank : ℕ → List ℕ
blank zero = []
blank (suc n) = 0 ∷ blank n

length-blank : (n : ℕ) → length (blank n) ≡ n
unfolding blank
length-blank zero = refl
length-blank (suc n) = omega (arith, length-blank n)

abbrev services : Services (ℕ → Option ℕ) (ℕ → Option ℕ)
services = record {
  lists = plain_list;
  hashes = small_hash;
  trees = plain_rb;
  radixes = radix;
  xarrays = radix;
  bits = plain_bits;
  kmalloc = blank;
}

two_numbers_end : ends_in_number two_numbers ≡ true
unfolding ends_in_number
two_numbers_end = refl

few_odd : count is_odd (map number (words two_numbers)) ≤ 10
unfolding words
few_odd = omega arith

lkp_init-IsReportOf_example :
    (o : Report services) × (lkp_init services two_numbers ≡ some o)
    × IsReportOf services (map number (words two_numbers)) o
lkp_init-IsReportOf_example =
    lkp_init-IsReportOf services two_numbers length-blank two_numbers_end few_odd
