-- ===== src/Kds/LinkedList.antt =====
-- The linked list part of kds.c. A `struct mylinkedlist` is its value, its links aside.
use sbu_cse_506_operating_sy.Prelude.{
  ℕ, ◌≡◌, refl, sym, ap, ap₂, ◌∙◌, List, [], ◌∷◌, ◌++◌, reverse, append_assoc, append-nil,
}
use mathlib.Core.List.{reverse-append}
use sbu_cse_506_operating_sy.Kernel.Small.{ListApi}

module _ (api : ListApi ℕ) where
  open api use {list_add, list_del, list_add_lem, list_del_lem}

  -- The first loop.
  unfoldable pub add_each : List ℕ → List ℕ → List ℕ
  add_each [] my_list = my_list
  add_each (v ∷ vs) my_list = add_each vs (list_add v my_list)

  -- `list_for_each_entry_safe`: `next` is read before `curr` is freed, so that the loop goes on
  -- through the entries that it began with. All before `curr` were deleted: it is the first one.
  unfoldable pub del_each : List ℕ → List ℕ → List ℕ
  del_each [] my_list = my_list
  del_each (curr ∷ rest) my_list = del_each rest (list_del 0 my_list)

  -- The two prints of the list.
  unfoldable pub run_linked_list : List ℕ → List ℕ × List ℕ
  run_linked_list int_array =
      let my_list = add_each int_array [] in (my_list, del_each my_list my_list)

  add_each_lem : (vs l : List ℕ) → add_each vs l ≡ reverse vs ++ l
  unfolding add_each
  add_each_lem [] l = refl
  add_each_lem (v ∷ vs) l =
      add_each_lem vs (list_add v l)
      ∙ ap (λ t. reverse vs ++ t) (list_add_lem v l)
      ∙ sym (append_assoc (reverse vs) (v ∷ []) l)
      ∙ ap (λ t. t ++ l) (sym (reverse-append (v ∷ []) vs))

  del_each_lem : (xs l : List ℕ) → l ≡ xs → del_each xs l ≡ []
  unfolding del_each
  del_each_lem [] l e = e
  del_each_lem (x ∷ xs) l e = del_each_lem xs (list_del 0 l) (list_del_lem 0 l ∙ rw e refl)

  -- The first print shows the input from its last element to its first, the second one nothing.
  pub run_linked_list_lem :
      (int_array : List ℕ) → run_linked_list int_array ≡ (reverse int_array, [])
  unfolding run_linked_list
  run_linked_list_lem vs =
      let added = add_each_lem vs [] ∙ append-nil (reverse vs) in
      ap₂ (λ a b. (a, b)) added (del_each_lem (add_each vs []) (add_each vs []) refl)
