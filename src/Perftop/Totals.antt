-- ===== src/Perftop/Totals.antt =====
-- The tree as a map from pids to totals. Its key is the total, so it can hold only one process of each
-- total; a lookup by pid goes through all of it.
use sbu_cse_506_operating_sy.Prelude.{
  ℕ, zero, suc, ◌≤◌, ◌<◌, ◌≡◌, refl, Bool, false, not, ◌&&◌, ◌||◌, none, some, List, [], ◌∷◌, ◌==◌,
  count, All, arith,
}
use sbu_cse_506_operating_sy.Kernel.Chain.{remove_walk}
use sbu_cse_506_operating_sy.Kernel.Chain.Walk.{count-remove_walk}
use sbu_cse_506_operating_sy.SearchTree.{place, Ascending, has_key}
use sbu_cse_506_operating_sy.SearchTree.Insertion.{placed, placed-Ascending}
use sbu_cse_506_operating_sy.Perftop.{Entry, of_pid, first_tsc}
use sbu_cse_506_operating_sy.Perftop.Stamps.{first_tsc_none}

abbrev pub tsc_of : Entry → ℕ
tsc_of e = e.tsc

-- Whether a process other than `pid` has the total `sum`.
unfoldable pub another_has : ℕ → ℕ → List Entry → Bool
another_has pid sum [] = false
another_has pid sum (e ∷ xs) = (not (of_pid pid e) && sum == e.tsc) || another_has pid sum xs

-- The keys rise strictly and no pid is there twice.
pub record IsExact (xs : List Entry) : Type 0 where
  pub rising : Ascending tsc_of xs
  pub once : (pid : ℕ) → count (of_pid pid) xs ≤ 1

module _ (skip : List Entry → ℕ) (pid : ℕ) where
  All-remove_walk :
      (P : Entry → Type 0) (k : ℕ) (xs : List Entry)
      → All P xs
      → All P (remove_walk skip (of_pid pid) k xs).0
  unfolding remove_walk
  All-remove_walk P k [] h = tt
  All-remove_walk P zero (x ∷ xs) h =
      ground (arith, All-remove_walk P (skip xs) xs h.1, All-remove_walk P zero xs h.1)
  All-remove_walk P (suc k) (x ∷ xs) h = (h.0, All-remove_walk P k xs h.1)

  Ascending-remove_walk :
      (k : ℕ) (xs : List Entry)
      → Ascending tsc_of xs
      → Ascending tsc_of (remove_walk skip (of_pid pid) k xs).0
  unfolding remove_walk
  Ascending-remove_walk k [] h = tt
  Ascending-remove_walk zero (x ∷ xs) h = ground (
    arith,
    Ascending-remove_walk (skip xs) xs h.1,
    Ascending-remove_walk zero xs h.1,
    All-remove_walk (λ y. tsc_of x < tsc_of y) zero xs h.0,
  )
  Ascending-remove_walk (suc k) (x ∷ xs) h =
      (All-remove_walk (λ y. tsc_of x < tsc_of y) k xs h.0, Ascending-remove_walk k xs h.1)

  has_key-remove_walk_none :
      (sum k : ℕ) (xs : List Entry)
      → count (of_pid pid) xs ≡ 0
      → has_key tsc_of sum (remove_walk skip (of_pid pid) k xs).0 ≡ another_has pid sum xs
  unfolding remove_walk has_key another_has
  has_key-remove_walk_none sum k [] h = refl
  has_key-remove_walk_none sum zero (x ∷ xs) h =
      ground (arith, has_key-remove_walk_none sum zero xs)
  has_key-remove_walk_none sum (suc k) (x ∷ xs) h =
      ground (arith, has_key-remove_walk_none sum k xs)

  pub has_key-remove_walk :
      (sum : ℕ) (xs : List Entry)
      → count (of_pid pid) xs ≤ 1
      → has_key tsc_of sum (remove_walk skip (of_pid pid) 0 xs).0 ≡ another_has pid sum xs
  unfolding remove_walk has_key another_has
  has_key-remove_walk sum [] h = refl
  has_key-remove_walk sum (x ∷ xs) h =
      ground (arith, has_key-remove_walk_none sum (skip xs) xs, has_key-remove_walk sum xs)

  pub IsExact-remove_walk :
      (xs : List Entry) → IsExact xs → IsExact (remove_walk skip (of_pid pid) 0 xs).0
  IsExact-remove_walk xs h = record {
    rising = Ascending-remove_walk 0 xs h.rising;
    once = λ q. omega (arith, h.once q, count-remove_walk skip (of_pid pid) (of_pid q) 0 xs);
  }

count-placed :
    (q : Entry → Bool) (e : Entry) (xs : List Entry)
    → count q (placed tsc_of e xs) ≤ count q (e ∷ xs)
unfolding place
count-placed q e [] = omega arith
count-placed q e (x ∷ xs) = ground (arith, count-placed q e xs)

pub first_tsc-placed_ne :
    (q : ℕ) (e : Entry) (xs : List Entry)
    → of_pid q e ≡ false
    → first_tsc q (placed tsc_of e xs) ≡ first_tsc q xs
unfolding place first_tsc
first_tsc-placed_ne q e [] n = ground arith
first_tsc-placed_ne q e (x ∷ xs) n = ground (arith, first_tsc-placed_ne q e xs)

pub first_tsc-placed_self :
    (e : Entry) (xs : List Entry)
    → count (of_pid e.value) xs ≡ 0
    → first_tsc e.value (placed tsc_of e xs)
      ≡ elim (place tsc_of e xs) [ none ↦ 0 | some _ ↦ e.tsc ]
unfolding place first_tsc
first_tsc-placed_self e [] n = ground arith
first_tsc-placed_self e (x ∷ xs) n =
    ground (arith, first_tsc-placed_self e xs, first_tsc_none e.value xs)

pub IsExact-placed :
    (e : Entry) (xs : List Entry)
    → IsExact xs
    → count (of_pid e.value) xs ≡ 0
    → IsExact (placed tsc_of e xs)
IsExact-placed e xs h z = record {
  rising = placed-Ascending tsc_of e xs h.rising;
  once = λ q. ground (arith, h.once q, count-placed (of_pid q) e xs);
}
