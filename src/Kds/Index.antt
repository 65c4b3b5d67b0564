-- ===== src/Kds/Index.antt =====
-- The radix tree and XArray parts of kds.c. A `struct mydatanode` is its value, and the value is its
-- index. The loops of the two parts differ only in the library that they call.
pub mod Run
use sbu_cse_506_operating_sy.Prelude.{
  ℕ, ◌+◌, ◌%◌, Bool, true, false, Option, none, some, ◌>>=◌, List, [], ◌∷◌, ltb, ◌==◌,
  if◌then◌else◌, length, take,
}
use sbu_cse_506_operating_sy.Kernel.Index.{IndexApi}

-- An `int` as an `unsigned long`, with its sign.
abbrev pub index_of : ℕ → ℕ
index_of v = if ltb v 2147483648 then v else v + 18446744069414584320

module _ {Store : Type 0} (api : IndexApi Store) where
  open api use {empty, insert, load, erase, set_mark, marked}

  unfoldable pub insert_each : List ℕ → Store → Store
  insert_each [] t = t
  insert_each (v ∷ vs) t = insert_each vs (insert (index_of v) v t)

  -- What is printed for each element: the value found, or that it was not found.
  unfoldable pub lookup_radix_tree : Store → List ℕ → List (Option ℕ)
  lookup_radix_tree t [] = []
  lookup_radix_tree t (v ∷ vs) = load t (index_of v) ∷ lookup_radix_tree t vs

  unfoldable pub tag_radix_tree : Store → List ℕ → Store
  tag_radix_tree t [] = t
  tag_radix_tree t (v ∷ vs) =
      tag_radix_tree (if index_of v % 2 == 1 then set_mark (index_of v) t else t) vs

  -- Up to 100 results go into an array of 10: more than 10 overrun it.
  unfoldable pub lookup_tagged_tree : Store → Option (List ℕ)
  lookup_tagged_tree t =
      let results = take 100 (marked t) in if ltb 10 (length results) then none else some results

  -- What each deletion returns, and the store afterwards.
  unfoldable pub remove_radix_tree : Store → List ℕ → List (Option ℕ) × Store
  remove_radix_tree t [] = ([], t)
  remove_radix_tree t (v ∷ vs) =
      let (deleted, last) = remove_radix_tree (erase (index_of v) t) vs in
      (load t (index_of v) ∷ deleted, last)

  pub record Output : Type 0 where
    pub found : List (Option ℕ)
    pub tagged : List ℕ
    pub deleted : List (Option ℕ)
    pub after : List (Option ℕ)

  -- `none` where `results` is overrun: nothing is known of what comes after that.
  unfoldable pub run_radix_tree : List ℕ → Option Output
  run_radix_tree int_array =
      let t = insert_each int_array empty in
      let t' = tag_radix_tree t int_array in
      let (deleted, last) = remove_radix_tree t' int_array in
      lookup_tagged_tree t' >>= λ tagged. some (record {
        found = lookup_radix_tree t int_array;
        tagged = tagged;
        deleted = deleted;
        after = lookup_radix_tree last int_array;
      })

  unfoldable pub lookup_xarray : Store → List ℕ → List (Option ℕ)
  lookup_xarray = lookup_radix_tree

  unfoldable pub tag_xarray : Store → List ℕ → Store
  tag_xarray = tag_radix_tree

  unfoldable pub remove_xarray : Store → List ℕ → List (Option ℕ) × Store
  remove_xarray = remove_radix_tree

  -- What is found, what `xa_for_each_marked` goes through, what is deleted, and what is left.
  unfoldable pub run_xarray : List ℕ → (List (Option ℕ) × List ℕ × List (Option ℕ)) × Store
  run_xarray int_array =
      let t = insert_each int_array empty in
      let t' = tag_xarray t int_array in
      let (deleted, last) = remove_xarray t' int_array in
      ((lookup_xarray t int_array, marked t', deleted), last)
