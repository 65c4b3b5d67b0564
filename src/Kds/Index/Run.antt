-- ===== src/Kds/Index/Run.antt =====
-- What the runs of the radix tree and XArray parts find, delete and leave, against a list of the
-- values that are there.
use sbu_cse_506_operating_sy.Prelude.{
  take, length, count, Bool-cases, inl, inr, le→ltb, ◌≤◌, ◌+◌, zero, suc, ℕ, ◌%◌, ◌<◌, ◌≡◌, refl,
  ap, ap₂, ◌∙◌, Bool, true, false, not, ◌&&◌, ◌||◌, Option, none, some, List, [], ◌∷◌, ◌==◌, map,
  All, arith,
}
use sbu_cse_506_operating_sy.Kernel.Index.{IndexApi}
use sbu_cse_506_operating_sy.Kds.Index.{
  Output, lookup_tagged_tree, index_of, insert_each, lookup_radix_tree, tag_radix_tree,
  remove_radix_tree, run_radix_tree, lookup_xarray, tag_xarray, remove_xarray, run_xarray,
}

pub has : ℕ → List ℕ → Bool
has v [] = false
has v (u ∷ us) = v == u || has v us

abbrev pub if_in : Bool → ℕ → Option ℕ
if_in true v = some v
if_in false v = none

-- The deletions of the elements of a list, where those of `gone` were deleted before: a value is
-- found at its first place and not at the later ones.
pub deletions : List ℕ → List ℕ → List (Option ℕ)
deletions gone [] = []
deletions gone (v ∷ vs) = if_in (not (has v gone)) v ∷ deletions (v ∷ gone) vs

abbrev pub is_odd : ℕ → Bool
is_odd v = v % 2 == 1

take-shorter : (n : ℕ) (xs : List ℕ) → length (take n xs) ≤ length xs
take-shorter zero xs = omega arith
take-shorter (suc n) [] = omega arith
take-shorter (suc n) (x ∷ xs) = omega (arith, take-shorter n xs)

abbrev IsInt : ℕ → Type 0
IsInt v = v < 4294967296

module _ {Store : Type 0} (api : IndexApi Store) where
  open api use {
    empty, replaces, insert, load, erase, set_mark, marked, load-empty, load-insert, load-erase,
    load-set_mark,
  }

  -- The store has the values of `us` but for those of `gone`, each at its own index.
  abbrev Holds : List ℕ → List ℕ → Store → Type 0
  Holds us gone t = (v : ℕ) → IsInt v → load t (index_of v) ≡ if_in (has v us && not (has v gone)) v

  insert_each-Holds :
      (vs us : List ℕ) (t : Store)
      → All IsInt vs
      → Holds us [] t
      → (v : ℕ) → IsInt v
      → load (insert_each api vs t) (index_of v) ≡ if_in (has v vs || has v us) v
  unfolding insert_each has
  insert_each-Holds [] us t a h v i = ground (arith, h v i)
  insert_each-Holds (u ∷ vs) us t a h v i =
      ground (arith, insert_each-Holds vs (u ∷ us) (insert (index_of u) u t) a.1 (step u a.0) v i)
    where
      step : (u : ℕ) → IsInt u → Holds (u ∷ us) [] (insert (index_of u) u t)
      step u b w j = ground (arith, h w j, h u b, load-insert (index_of u) u t (index_of w))

  lookup_lem :
      (vs us gone : List ℕ) (t : Store)
      → All IsInt vs
      → Holds us gone t
      → lookup_radix_tree api t vs ≡ map (λ v. if_in (has v us && not (has v gone)) v) vs
  unfolding lookup_radix_tree
  lookup_lem [] us gone t a h = refl
  lookup_lem (v ∷ vs) us gone t a h = ap₂ ◌∷◌ (h v a.0) (lookup_lem vs us gone t a.1 h)

  tag-Holds :
      (vs us gone : List ℕ) (t : Store) → Holds us gone t → Holds us gone (tag_radix_tree api t vs)
  unfolding tag_radix_tree
  tag-Holds [] us gone t h = h
  tag-Holds (v ∷ vs) us gone t h =
      tag-Holds vs us gone _
        (λ w i. ground (arith, h w i, load-set_mark (index_of v) t (index_of w)))

  erase-Holds :
      (u : ℕ) (us gone : List ℕ) (t : Store)
      → IsInt u
      → Holds us gone t
      → Holds us (u ∷ gone) (erase (index_of u) t)
  unfolding has
  erase-Holds u us gone t b h w i = ground (arith, h w i, load-erase (index_of u) t (index_of w))

  -- The elements of the first list are among those of the second.
  abbrev Among : List ℕ → List ℕ → Type 0
  Among vs us = (v : ℕ) → has v vs ≡ true → has v us ≡ true

  Among-tail : (v : ℕ) (vs us : List ℕ) → Among (v ∷ vs) us → Among vs us
  unfolding has
  Among-tail v vs us m w e = ground (arith, m w)

  Among-head : (v : ℕ) (vs us : List ℕ) → Among (v ∷ vs) us → has v us ≡ true
  unfolding has
  Among-head v vs us m = ground (arith, m v)

  remove_deletes :
      (vs us gone : List ℕ) (t : Store)
      → All IsInt vs
      → Among vs us
      → Holds us gone t
      → (remove_radix_tree api t vs).0 ≡ deletions gone vs
  unfolding remove_radix_tree deletions
  remove_deletes [] us gone t a m h = refl
  remove_deletes (v ∷ vs) us gone t a m h =
      ap₂ ◌∷◌ (h v a.0 ∙ ap (λ b. if_in (b && not (has v gone)) v) (Among-head v vs us m)) (
        remove_deletes vs us (v ∷ gone) (erase (index_of v) t) a.1 (Among-tail v vs us m)
          (erase-Holds v us gone t a.0 h))

  remove_leaves :
      (vs us gone : List ℕ) (t : Store)
      → All IsInt vs
      → Holds us gone t
      → (v : ℕ) → IsInt v
      → load (remove_radix_tree api t vs).1 (index_of v)
        ≡ if_in (has v us && not (has v vs || has v gone)) v
  unfolding remove_radix_tree has
  remove_leaves [] us gone t a h v i = h v i
  remove_leaves (u ∷ vs) us gone t a h v i = ground (
    arith,
    remove_leaves vs us (u ∷ gone) (erase (index_of u) t) a.1 (erase-Holds u us gone t a.0 h) v i,
  )

  lookup_with :
      (vs : List ℕ) (t : Store) (f : ℕ → Option ℕ)
      → All IsInt vs
      → ((v : ℕ) → IsInt v → has v vs ≡ true → load t (index_of v) ≡ f v)
      → lookup_radix_tree api t vs ≡ map f vs
  unfolding lookup_radix_tree has
  lookup_with [] t f a h = refl
  lookup_with (v ∷ vs) t f a h =
      ap₂ ◌∷◌ (h v a.0 (ground arith)) (lookup_with vs t f a.1 (λ w i e. ground (arith, h w i)))

  filled : List ℕ → Store
  filled vs = insert_each api vs empty

  filled-Holds : (vs : List ℕ) → All IsInt vs → Holds vs [] (filled vs)
  unfolding filled has
  filled-Holds vs a v i =
      ground (
        arith,
        insert_each-Holds vs [] empty a (λ w j. ground (arith, load-empty (index_of w))) v i,
      )

  insert_each-marked :
      (vs : List ℕ) (t : Store) → length (marked (insert_each api vs t)) ≤ length (marked t)
  unfolding insert_each
  insert_each-marked [] t = omega arith
  insert_each-marked (v ∷ vs) t =
      omega
        (arith, insert_each-marked vs (insert (index_of v) v t), api.marked-insert (index_of v) v t)

  tag-marked :
      (vs : List ℕ) (t : Store)
      → length (marked (tag_radix_tree api t vs)) ≤ length (marked t) + count is_odd vs
  unfolding tag_radix_tree
  tag-marked [] t = omega arith
  tag-marked (v ∷ vs) t = elim (Bool-cases (index_of v % 2 == 1)) [
    | inl y ↦
        let rest = tag-marked vs (set_mark (index_of v) t) in
        rw y (ground (arith, rest, api.marked-set_mark (index_of v) t))
    | inr o ↦ let rest = tag-marked vs t in rw o (ground (arith, rest))
  ]

  tagged_fit :
      (vs : List ℕ)
      → count is_odd vs ≤ 10
      → lookup_tagged_tree api (tag_radix_tree api (filled vs) vs)
        ≡ some (take 100 (marked (tag_radix_tree api (filled vs) vs)))
  unfolding lookup_tagged_tree filled
  tagged_fit vs few =
      let few_marked = tag-marked vs (insert_each api vs empty) in
      let none_before = insert_each-marked vs empty in
      let ms = marked (tag_radix_tree api (insert_each api vs empty) vs) in
      let small : length (take 100 ms) ≤ 10 =
        omega (arith, take-shorter 100 ms, few_marked, none_before, api.marked-empty) in
      rw (le→ltb 10 (length (take 100 ms)) small) refl

  pub run_radix_tree_lem :
      (int_array : List ℕ)
      → All (λ v. v < 4294967296) int_array
      → count is_odd int_array ≤ 10
      → (o : Output api) × (run_radix_tree api int_array ≡ some o)
        × (o.found ≡ map some int_array)
        × (o.deleted ≡ deletions [] int_array)
        × (o.after ≡ map (λ _. none) int_array)
  unfolding run_radix_tree filled has
  run_radix_tree_lem vs a few =
      let holds = filled-Holds vs a in
      let tagged = tag-Holds vs vs [] (filled vs) holds in
      let fit = tagged_fit vs few in
      (
        record {
          found = lookup_radix_tree api (filled vs) vs;
          tagged = take 100 (marked (tag_radix_tree api (filled vs) vs));
          deleted = (remove_radix_tree api (tag_radix_tree api (filled vs) vs) vs).0;
          after =
              lookup_radix_tree api (remove_radix_tree api (tag_radix_tree api (filled vs) vs) vs).1
                vs;
        },
        rw fit refl,
        lookup_with vs (filled vs) some a (λ v i e. ground (arith, holds v i)),
        remove_deletes vs vs [] (tag_radix_tree api (filled vs) vs) a (λ v e. e) tagged,
        lookup_with vs (remove_radix_tree api (tag_radix_tree api (filled vs) vs) vs).1 (λ _. none)
            a
            (λ v i e.
              ground
                (arith, remove_leaves vs vs [] (tag_radix_tree api (filled vs) vs) a tagged v i)),
      )

  -- For an input of 32-bit elements, every element is found in the XArray after the insertions; each
  -- value is deleted at its first place in the input and is not found at the later ones; and no 32-bit
  -- value is left in the XArray.
  pub run_xarray_lem :
      (int_array : List ℕ)
      → All (λ v. v < 4294967296) int_array
      → ((run_xarray api int_array).0.0 ≡ map some int_array)
        × ((run_xarray api int_array).0.2 ≡ deletions [] int_array)
        × ((v : ℕ) → load (run_xarray api int_array).1 (index_of (v % 4294967296)) ≡ none)
  unfolding run_xarray lookup_xarray tag_xarray remove_xarray filled has
  run_xarray_lem vs a =
      let holds = filled-Holds vs a in
      let tagged = tag-Holds vs vs [] (filled vs) holds in
      (
        lookup_with vs (filled vs) some a (λ v i e. ground (arith, holds v i)),
        remove_deletes vs vs [] (tag_radix_tree api (filled vs) vs) a (λ v e. e) tagged,
        λ v. ground (
          arith,
          remove_leaves vs vs [] (tag_radix_tree api (filled vs) vs) a tagged (v % 4294967296)
              (omega arith),
        ),
      )
