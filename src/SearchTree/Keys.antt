-- ===== src/SearchTree/Keys.antt =====
-- Which keys a list has.
use sbu_cse_506_operating_sy.Prelude.{
  ℕ, ◌+◌, ◌<◌, ◌≡◌, refl, false, List, [], ◌∷◌, ◌++◌, ◌||◌, All, arith,
}
use sbu_cse_506_operating_sy.SearchTree.{has_key}

module _ {A : Type 0} (key : A → ℕ) where
  pub has_key-append :
      (k : ℕ) (xs ys : List A) → has_key key k (xs ++ ys) ≡ (has_key key k xs || has_key key k ys)
  unfolding has_key
  has_key-append k [] ys = refl
  has_key-append k (x ∷ xs) ys = ground (arith, has_key-append k xs ys)

  pub has_key_above :
      (k b : ℕ) (xs : List A) → All (λ y. b < key y) xs → k < b + 1 → has_key key k xs ≡ false
  unfolding has_key
  has_key_above k b [] h g = refl
  has_key_above k b (x ∷ xs) h g = ground (arith, has_key_above k b xs h.1 g)

  pub has_key_below :
      (k b : ℕ) (xs : List A) → All (λ y. key y < b) xs → b < k + 1 → has_key key k xs ≡ false
  unfolding has_key
  has_key_below k b [] h g = refl
  has_key_below k b (x ∷ xs) h g = ground (arith, has_key_below k b xs h.1 g)
