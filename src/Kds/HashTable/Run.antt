-- ===== src/Kds/HashTable/Run.antt =====
-- What a whole run of the hash table part prints.
use sbu_cse_506_operating_sy.Prelude.{
  ℕ, zero, suc, ◌+◌, ◌*◌, ◌≤◌, ◌≡◌, refl, ap, ◌∙◌, List, [], ◌∷◌, ◌==◌, if◌then◌else◌, arith,
  count-append,
}
use sbu_cse_506_operating_sy.Kernel.Chain.{HashApi, Table, update, remove_walk, all_nodes}
use sbu_cse_506_operating_sy.Kernel.Chain.Walk.{count-remove_walk, all_nodes-update}
use sbu_cse_506_operating_sy.Kds.HashTable.{
  insert_each, remove_each, remove_hash_table, print_hash_table, matching, lookup_hash_table,
  lookup_each, run_hash_table,
}
use sbu_cse_506_operating_sy.Kds.HashTable.Counts.{
  times, Within, insert_each-Within, remove_each-Within,
}

nil_of_times : (xs : List ℕ) → ((v : ℕ) → times v xs ≤ 0) → xs ≡ []
nil_of_times [] h = refl
nil_of_times (x ∷ xs) h = absurd (ground (arith, h x))

times-matching :
    (v number : ℕ) (xs : List ℕ)
    → times v (matching number xs) ≡ (if v == number then times v xs else 0)
unfolding matching
times-matching v number [] = ground arith
times-matching v number (x ∷ xs) = ground (arith, times-matching v number xs)

times-all_nodes_empty :
    (v n b : ℕ) (t : Table ℕ) → ((c : ℕ) → times v (t c) ≤ 0) → times v (all_nodes n b t) ≤ 0
unfolding all_nodes
times-all_nodes_empty v zero b t h = omega arith
times-all_nodes_empty v (suc n) b t h = omega (
  arith,
  h b,
  times-all_nodes_empty v n (b + 1) t h,
  count-append (λ x. x == v) (t b) (all_nodes n (b + 1) t),
)

module _ (api : HashApi ℕ) where
  open api use {buckets, hash_min, hash_add, skip, count-hash_add, hash_min_lt}

  times-insert_each :
      (v : ℕ) (vs : List ℕ) (t : Table ℕ)
      → times v (insert_each api vs t (hash_min v)) ≡ times v (t (hash_min v)) + times v vs
  unfolding insert_each
  times-insert_each v [] t = omega arith
  times-insert_each v (x ∷ vs) t = ground (
    arith,
    times-insert_each v vs (update t (hash_min x) (hash_add x (t (hash_min x)))),
    count-hash_add (λ y. y == v) x (t (hash_min x)),
  )

  times-print_update :
      (v x : ℕ) (t : Table ℕ) (chain : List ℕ)
      → times v (print_hash_table api (update t (hash_min x) chain)) + times v (t (hash_min x))
        ≡ times v (print_hash_table api t) + times v chain
  unfolding print_hash_table
  times-print_update v x t chain =
      all_nodes-update (λ y. y == v) buckets 0 (hash_min x) t chain (omega arith)
        (omega (arith, hash_min_lt x))

  times-print-insert_each :
      (v : ℕ) (vs : List ℕ) (t : Table ℕ)
      → times v (print_hash_table api (insert_each api vs t))
        ≡ times v (print_hash_table api t) + times v vs
  unfolding insert_each
  times-print-insert_each v [] t = omega arith
  times-print-insert_each v (x ∷ vs) t = ground (
    arith,
    times-print-insert_each v vs (update t (hash_min x) (hash_add x (t (hash_min x)))),
    times-print_update v x t (hash_add x (t (hash_min x))),
    count-hash_add (λ y. y == v) x (t (hash_min x)),
  )

  -- Nothing that is freed stays in the table, and all else does.
  times-remove_hash_table :
      (v x : ℕ) (t : Table ℕ)
      → let (t', freed) = remove_hash_table api t x in
        times v (print_hash_table api t') + times v freed ≡ times v (print_hash_table api t)
  unfolding remove_hash_table
  times-remove_hash_table v x t = omega (
    arith,
    times-print_update v x t (remove_walk skip (λ y. y == x) 0 (t (hash_min x))).0,
    count-remove_walk skip (λ y. y == x) (λ y. y == v) 0 (t (hash_min x)),
  )

  times-remove_each :
      (v : ℕ) (vs : List ℕ) (t : Table ℕ)
      → let (t', freed) = remove_each api vs t in
        times v (print_hash_table api t') + times v freed ≡ times v (print_hash_table api t)
  unfolding remove_each
  times-remove_each v [] t = omega arith
  times-remove_each v (x ∷ vs) t =
      let r = remove_hash_table api t x in
      omega (
        arith,
        times-remove_hash_table v x t,
        times-remove_each v vs r.0,
        count-append (λ y. y == v) r.1 (remove_each api vs r.0).1,
      )

  times-lookup_each :
      (v : ℕ) (vs : List ℕ) (t : Table ℕ)
      → times v (lookup_each api vs t) ≡ times v vs * times v (t (hash_min v))
  unfolding lookup_each lookup_hash_table
  times-lookup_each v [] t = omega arith
  times-lookup_each v (x ∷ vs) t = grind (
    arith,
    times-matching v x (t (hash_min x)),
    times-lookup_each v vs t,
    count-append (λ y. y == v) (matching x (t (hash_min x))) (lookup_each api vs t),
  )

  print_empty : (t : Table ℕ) → Within api [] t → print_hash_table api t ≡ []
  unfolding print_hash_table
  print_empty t h =
      nil_of_times (all_nodes buckets 0 t)
        (λ v. times-all_nodes_empty v buckets 0 t (λ c. ground (arith, h c v)))

  -- Wherever in its chain, or at its end, the link of a freed node leads a walk: the filled table prints each value as often as
  -- the input has it, the lookups print each value once for each pair of its copies, the deletions
  -- print (and free) each value as often as the input has it, and the table ends up empty.
  pub run_hash_table_lem :
      (int_array : List ℕ)
      → ((v : ℕ) → times v (run_hash_table api int_array).filled ≡ times v int_array)
        × ((v : ℕ)
            → times v (run_hash_table api int_array).looked_up
              ≡ times v int_array * times v int_array)
        × ((v : ℕ) → times v (run_hash_table api int_array).deleted ≡ times v int_array)
        × ((run_hash_table api int_array).left ≡ [])
  unfolding run_hash_table
  run_hash_table_lem vs = (filled, looked_up, deleted, left)
    where
      t : Table ℕ
      t = insert_each api vs (λ _. [])

      start : (v : ℕ) → times v (print_hash_table api (λ _. [])) ≤ 0
      start v = omega (arith, ap (times v) (print_empty (λ _. []) (λ b w. omega arith)))

      filled : (v : ℕ) → times v (print_hash_table api t) ≡ times v vs
      filled v = omega (arith, times-print-insert_each v vs (λ _. []), start v)

      looked_up : (v : ℕ) → times v (lookup_each api vs t) ≡ times v vs * times v vs
      looked_up v =
          times-lookup_each v vs t
          ∙ ap (λ n. times v vs * n) (times-insert_each v vs (λ _. []) ∙ omega arith)

      left : print_hash_table api (remove_each api vs t).0 ≡ []
      left =
          print_empty (remove_each api vs t).0
            (remove_each-Within api vs t (insert_each-Within api vs))

      deleted : (v : ℕ) → times v (remove_each api vs t).1 ≡ times v vs
      deleted v = omega (arith, times-remove_each v vs t, filled v, ap (times v) left)
