-- ===== src/Perftop/Stamps.antt =====
-- The hash table as a map from pids to time stamps. Whatever a walk reads from a node that it has
-- freed, it is exact as long as no pid stands in the table twice, and the operations see to that.
use sbu_cse_506_operating_sy.Prelude.{
  ℕ, zero, suc, ◌≤◌, ◌<◌, ◌≡◌, ◌≢◌, refl, sym, ◌∙◌, Bool, false, ◌&&◌, List, [], ◌∷◌, ◌==◌,
  if◌then◌else◌, count, arith, inl, inr, zero_or_pos, eq_or_ne, ==_refl,
}
use sbu_cse_506_operating_sy.Kernel.Chain.{HashApi, Table, remove_walk}
use sbu_cse_506_operating_sy.Kernel.Chain.Walk.{count-remove_walk, freed_pos}
use sbu_cse_506_operating_sy.Perftop.{
  Entry, of_pid, first_tsc, lookup_hash_table, remove_hash_table, insert_hash_table,
}

abbrev stamped : ℕ → ℕ → Entry → Bool
stamped pid t e = of_pid pid e && e.tsc == t

count-stamped-le : (q t : ℕ) (xs : List Entry) → count (stamped q t) xs ≤ count (of_pid q) xs
count-stamped-le q t [] = omega arith
count-stamped-le q t (x ∷ xs) = ground (arith, count-stamped-le q t xs)

pub first_tsc_none : (q : ℕ) (xs : List Entry) → count (of_pid q) xs ≡ 0 → first_tsc q xs ≡ 0
unfolding first_tsc
first_tsc_none q [] h = refl
first_tsc_none q (x ∷ xs) h = ground (arith, first_tsc_none q xs)

first_tsc_counted :
    (q t : ℕ) (xs : List Entry)
    → count (of_pid q) xs ≤ 1
    → 0 < count (stamped q t) xs
    → first_tsc q xs ≡ t
unfolding first_tsc
first_tsc_counted q t [] h g = absurd (omega arith)
first_tsc_counted q t (x ∷ xs) h g =
    ground (arith, first_tsc_counted q t xs, count-stamped-le q t xs)

counted_first_tsc :
    (q : ℕ) (xs : List Entry) → 0 < count (of_pid q) xs → 0 < count (stamped q (first_tsc q xs)) xs
unfolding first_tsc
counted_first_tsc q [] h = absurd (omega arith)
counted_first_tsc q (x ∷ xs) h = ground (arith, counted_first_tsc q xs)

-- A new node of another pid, wherever it goes, changes nothing for `q`.
first_tsc-hash_add :
    (api : HashApi Entry) (q : ℕ) (e : Entry) (xs : List Entry)
    → of_pid q e ≡ false
    → count (of_pid q) xs ≤ 1
    → first_tsc q (api.hash_add e xs) ≡ first_tsc q xs
first_tsc-hash_add api q e xs n h = elim (zero_or_pos (count (of_pid q) xs)) [
  | inl z ↦
      first_tsc_none q (api.hash_add e xs) (ground (arith, api.count-hash_add (of_pid q) e xs))
      ∙ sym (first_tsc_none q xs z)
  | inr p ↦
      first_tsc_counted q (first_tsc q xs) (api.hash_add e xs)
        (ground (arith, api.count-hash_add (of_pid q) e xs))
        (ground
          (arith, api.count-hash_add (stamped q (first_tsc q xs)) e xs, counted_first_tsc q xs p))
]

-- A walk that frees the nodes of one pid changes nothing for another.
pub first_tsc-remove_walk :
    (skip : List Entry → ℕ) (p q k : ℕ) (xs : List Entry)
    → q ≢ p
    → first_tsc q (remove_walk skip (of_pid p) k xs).0 ≡ first_tsc q xs
unfolding first_tsc remove_walk
first_tsc-remove_walk skip p q k [] h = refl
first_tsc-remove_walk skip p q zero (x ∷ xs) h =
    ground (
      arith,
      first_tsc-remove_walk skip p q (skip xs) xs h,
      first_tsc-remove_walk skip p q zero xs h,
    )
first_tsc-remove_walk skip p q (suc k) (x ∷ xs) h =
    ground (arith, first_tsc-remove_walk skip p q k xs h)

-- With one node of the pid at most, the walk leaves none.
pub count-remove_walk_self :
    (skip : List Entry → ℕ) (p : ℕ) (xs : List Entry)
    → count (of_pid p) xs ≤ 1
    → count (of_pid p) (remove_walk skip (of_pid p) 0 xs).0 ≡ 0
count-remove_walk_self skip p xs h =
    ground (arith, count-remove_walk skip (of_pid p) (of_pid p) 0 xs, freed_pos skip (of_pid p) xs)

module _ (api : HashApi Entry) where
  open api use {hash_min, hash_add, skip, count-hash_add}

  -- A pid stands at most once, and only in its bucket.
  abbrev pub Unique : Table Entry → Type 0
  Unique t = (b pid : ℕ) → count (of_pid pid) (t b) ≤ (if hash_min pid == b then 1 else 0)

  pub remove_hash_table-Unique :
      (t : Table Entry) (p : ℕ) → Unique t → Unique (remove_hash_table api t p)
  unfolding remove_hash_table
  remove_hash_table-Unique t p u b q =
      ground (arith, u b q, count-remove_walk skip (of_pid p) (of_pid q) 0 (t (hash_min p)))

  count-removed :
      (t : Table Entry) (p : ℕ)
      → Unique t
      → count (of_pid p) (remove_hash_table api t p (hash_min p)) ≡ 0
  unfolding remove_hash_table
  count-removed t p u =
      ground (arith, count-remove_walk_self skip p (t (hash_min p)), u (hash_min p) p)

  pub insert_hash_table-Unique :
      (t : Table Entry) (p tsc : ℕ) → Unique t → Unique (insert_hash_table api t p tsc)
  unfolding insert_hash_table
  insert_hash_table-Unique t p tsc u b q = ground (
    arith,
    remove_hash_table-Unique t p u b q,
    count-hash_add (of_pid q) (record { value = p; tsc = tsc })
        (remove_hash_table api t p (hash_min p)),
    count-removed t p u,
  )

  lookup-remove_self :
      (t : Table Entry) (p : ℕ) → Unique t → lookup_hash_table api (remove_hash_table api t p) p ≡ 0
  unfolding lookup_hash_table
  lookup-remove_self t p u =
      first_tsc_none p (remove_hash_table api t p (hash_min p)) (count-removed t p u)

  lookup-remove_ne :
      (t : Table Entry) (p q : ℕ)
      → q ≢ p
      → lookup_hash_table api (remove_hash_table api t p) q ≡ lookup_hash_table api t q
  unfolding lookup_hash_table remove_hash_table
  lookup-remove_ne t p q n = ground (arith, first_tsc-remove_walk skip p q 0 (t (hash_min p)) n)

  -- A removal is exact.
  pub lookup-remove_hash_table :
      (t : Table Entry) (p q : ℕ)
      → Unique t
      → lookup_hash_table api (remove_hash_table api t p) q
        ≡ (if q == p then 0 else lookup_hash_table api t q)
  lookup-remove_hash_table t p q u = elim (eq_or_ne q p) [
    | inl (e, b) ↦ rw (b, e) (lookup-remove_self t p u)
    | inr (n, b) ↦ rw b (lookup-remove_ne t p q n)
  ]

  lookup-insert_self :
      (t : Table Entry) (p tsc : ℕ)
      → Unique t
      → lookup_hash_table api (insert_hash_table api t p tsc) p ≡ tsc
  unfolding lookup_hash_table insert_hash_table
  lookup-insert_self t p tsc u =
      let e : Entry = record { value = p; tsc = tsc } in
      let chain = remove_hash_table api t p (hash_min p) in
      rw (==_refl (hash_min p)) (
        first_tsc_counted p tsc (hash_add e chain)
          (ground (arith, count-hash_add (of_pid p) e chain, count-removed t p u))
          (ground (arith, count-hash_add (stamped p tsc) e chain)))

  lookup-insert_ne :
      (t : Table Entry) (p q tsc : ℕ)
      → Unique t
      → q ≢ p
      → lookup_hash_table api (insert_hash_table api t p tsc) q
        ≡ lookup_hash_table api (remove_hash_table api t p) q
  unfolding lookup_hash_table insert_hash_table
  lookup-insert_ne t p q tsc u n =
      let e : Entry = record { value = p; tsc = tsc } in
      let chain = remove_hash_table api t p (hash_min p) in
      ground
        (arith, first_tsc-hash_add api q e chain, remove_hash_table-Unique t p u (hash_min p) q)

  -- So is an insertion, which replaces what the pid had.
  pub lookup-insert_hash_table :
      (t : Table Entry) (p q tsc : ℕ)
      → Unique t
      → lookup_hash_table api (insert_hash_table api t p tsc) q
        ≡ (if q == p then tsc else lookup_hash_table api t q)
  lookup-insert_hash_table t p q tsc u = elim (eq_or_ne q p) [
    | inl (e, b) ↦ rw (b, e) (lookup-insert_self t p tsc u)
    | inr (n, b) ↦ rw b (lookup-insert_ne t p q tsc u n ∙ lookup-remove_ne t p q n)
  ]
