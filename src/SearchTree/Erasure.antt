-- ===== src/SearchTree/Erasure.antt =====
-- `erase_walk` against the walk over a list.
use sbu_cse_506_operating_sy.Prelude.{
  ℕ, zero, suc, ◌+◌, ◌≡◌, refl, sym, ap, ◌∙◌, Bool, List, [], ◌∷◌, ◌++◌, length, remove_at, arith,
  Bool-cases, inl, inr, append_assoc, length-append,
}
use sbu_cse_506_operating_sy.Kernel.Tree.{Tree, in_order, RbApi}
use sbu_cse_506_operating_sy.Kernel.Chain.{remove_walk}
use sbu_cse_506_operating_sy.SearchTree.{erase_walk}

remove_at-append :
    {A : Type 0} (xs : List A) (y : A) (ys : List A)
    → remove_at (length xs) (xs ++ (y ∷ ys)) ≡ xs ++ ys
remove_at-append [] y ys = refl
remove_at-append (x ∷ xs) y ys = ap (λ zs. x ∷ zs) (remove_at-append xs y ys)

snoc-append :
    {A : Type 0} (xs : List A) (y : A) (ys : List A) → (xs ++ (y ∷ [])) ++ ys ≡ xs ++ (y ∷ ys)
snoc-append xs y ys = append_assoc xs (y ∷ []) ys

-- A step that keeps a node moves it to what the walk has behind it.
go_on :
    {A : Type 0} (i : ℕ) (pre : List A) (x : A) (xs : List A) (t r : Tree A) (ys : List A)
    → i ≡ length pre
    → in_order t ≡ pre ++ (x ∷ xs)
    → (i + 1 ≡ length (pre ++ (x ∷ []))
        → in_order t ≡ (pre ++ (x ∷ [])) ++ xs
        → in_order r ≡ (pre ++ (x ∷ [])) ++ ys)
    → in_order r ≡ pre ++ (x ∷ ys)
go_on i pre x xs t r ys e h next =
    next (omega (arith, length-append pre (x ∷ []))) (h ∙ sym (snoc-append pre x xs))
    ∙ snoc-append pre x ys

module _ {A : Type 0} (api : RbApi A) (p : A → Bool) where
  pub in_order-erase_walk :
      (k i : ℕ) (pre xs : List A) (t : Tree A)
      → i ≡ length pre
      → in_order t ≡ pre ++ xs
      → in_order (erase_walk api p k i xs t) ≡ pre ++ (remove_walk api.skip p k xs).0
  unfolding erase_walk remove_walk
  in_order-erase_walk k i pre [] t e h = h
  in_order-erase_walk zero i pre (x ∷ xs) t e h = elim (Bool-cases (p x)) [
    | inl y ↦ rw y (
        in_order-erase_walk (api.skip xs) i pre xs (api.rb_erase t i) e
          (api.in_order-rb_erase t i ∙ (rw (h, e) (remove_at-append pre x xs))))
    | inr n ↦
        rw n (go_on i pre x xs t _ _ e h (in_order-erase_walk zero (i + 1) (pre ++ (x ∷ [])) xs t))
  ]
  in_order-erase_walk (suc k) i pre (x ∷ xs) t e h =
      go_on i pre x xs t _ _ e h (in_order-erase_walk k (i + 1) (pre ++ (x ∷ [])) xs t)
