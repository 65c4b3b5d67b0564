-- ===== src/Kds/HashTable/Counts.antt =====
-- How often each value stands in each chain while the table is filled and emptied.
use sbu_cse_506_operating_sy.Prelude.{ℕ, ◌+◌, ◌≤◌, List, [], ◌∷◌, ◌==◌, if◌then◌else◌, count, arith}
use sbu_cse_506_operating_sy.Kernel.Chain.{HashApi, Table, update}
use sbu_cse_506_operating_sy.Kernel.Chain.Walk.{count-remove_walk, freed_pos}
use sbu_cse_506_operating_sy.Kds.HashTable.{insert_each, remove_each, remove_hash_table}

-- How often `v` stands in a list.
abbrev pub times : ℕ → List ℕ → ℕ
times v xs = count (λ x. x == v) xs

module _ (api : HashApi ℕ) where
  open api use {buckets, hash_min, hash_add, skip, count-hash_add, hash_min_lt}

  -- A chain holds a value only where it hashes to, at most as often as the list has it.
  abbrev pub Within : List ℕ → Table ℕ → Type 0
  Within vs t = (b v : ℕ) → times v (t b) ≤ (if hash_min v == b then times v vs else 0)

  -- Filling keeps a bound on what each chain holds.
  insert_each-le :
      (vs : List ℕ) (t : Table ℕ) (us : List ℕ)
      → Within us t
      → (b v : ℕ)
      → times v (insert_each api vs t b) ≤ (if hash_min v == b then times v us + times v vs else 0)
  unfolding insert_each
  insert_each-le [] t us h b v = ground (arith, h b v)
  insert_each-le (x ∷ vs) t us h b v = ground (
    arith,
    insert_each-le vs (update t (hash_min x) (hash_add x (t (hash_min x)))) (x ∷ us) (step x) b v,
  )
    where
      step : (x : ℕ) → Within (x ∷ us) (update t (hash_min x) (hash_add x (t (hash_min x))))
      step x c w = ground (arith, h c w, count-hash_add (λ y. y == w) x (t (hash_min x)))

  pub insert_each-Within : (vs : List ℕ) → Within vs (insert_each api vs (λ _. []))
  insert_each-Within vs b v =
      ground (arith, insert_each-le vs (λ _. []) [] (λ c w. ground arith) b v)

  -- A removal takes off at least one copy of the value removed, if there is one.
  pub remove-Within :
      (x : ℕ) (vs : List ℕ) (t : Table ℕ)
      → Within (x ∷ vs) t
      → Within vs (remove_hash_table api t x).0
  unfolding remove_hash_table
  remove-Within x vs t h b v = ground (
    arith,
    h b v,
    count-remove_walk skip (λ y. y == x) (λ y. y == v) 0 (t (hash_min x)),
    freed_pos skip (λ y. y == x) (t (hash_min x)),
  )

  pub remove_each-Within :
      (vs : List ℕ) (t : Table ℕ) → Within vs t → Within [] (remove_each api vs t).0
  unfolding remove_each
  remove_each-Within [] t h = h
  remove_each-Within (x ∷ vs) t h =
      remove_each-Within vs (remove_hash_table api t x).0 (remove-Within x vs t h)
