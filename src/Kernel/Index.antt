-- ===== src/Kernel/Index.antt =====
-- The kernel's radix trees and XArrays: entries at indices, some of them marked.
use sbu_cse_506_operating_sy.Prelude.{
  ℕ, ◌+◌, ◌≤◌, length, ◌≡◌, Bool, Option, none, some, List, ◌==◌, if◌then◌else◌,
}

-- A second entry at an index replaces the first one in an XArray (`xa_store`), and is refused by a
-- radix tree (`radix_tree_insert`). `marked` are the entries with the mark, by rising index;
-- a new entry has none.
pub record IndexApi (Store : Type 0) : Type 0 where
  pub empty : Store
  pub replaces : Bool
  pub insert : ℕ → ℕ → Store → Store
  pub load : Store → ℕ → Option ℕ
  pub erase : ℕ → Store → Store
  pub set_mark : ℕ → Store → Store
  pub marked : Store → List ℕ
  pub marked-empty : length (marked empty) ≡ 0
  pub marked-insert : (k v : ℕ) (t : Store) → length (marked (insert k v t)) ≤ length (marked t)
  pub marked-set_mark : (k : ℕ) (t : Store) → length (marked (set_mark k t)) ≤ length (marked t) + 1
  pub load-empty : (j : ℕ) → load empty j ≡ none
  pub load-insert :
      (k v : ℕ) (t : Store) (j : ℕ)
      → load (insert k v t) j ≡ (
          if j == k
          then elim (load t k) [ none ↦ some v | some w ↦ if replaces then some v else some w ]
          else load t j)
  pub load-erase :
      (k : ℕ) (t : Store) (j : ℕ) → load (erase k t) j ≡ (if j == k then none else load t j)
  pub load-set_mark : (k : ℕ) (t : Store) (j : ℕ) → load (set_mark k t) j ≡ load t j
