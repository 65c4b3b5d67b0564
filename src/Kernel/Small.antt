-- ===== src/Kernel/Small.antt =====
-- The kernel's linked lists (linux/list.h) and bit maps (linux/bitmap.h).
use sbu_cse_506_operating_sy.Prelude.{ℕ, ◌≡◌, Bool, true, List, ◌∷◌, ◌==◌, if◌then◌else◌, remove_at}

-- A list is its entries in the order in which `list_for_each_entry` visits them. `list_add` puts an
-- entry behind the head, `list_del` takes out the entry at a position.
pub record ListApi (A : Type 0) : Type 0 where
  pub list_add : A → List A → List A
  pub list_del : ℕ → List A → List A
  pub list_add_lem : (x : A) (l : List A) → list_add x l ≡ x ∷ l
  pub list_del_lem : (i : ℕ) (l : List A) → list_del i l ≡ remove_at i l

pub record BitApi : Type 0 where
  pub set_bit : ℕ → (ℕ → Bool) → ℕ → Bool
  pub set_bit_lem :
      (bit : ℕ) (m : ℕ → Bool) (c : ℕ) → set_bit bit m c ≡ (if bit == c then true else m c)
