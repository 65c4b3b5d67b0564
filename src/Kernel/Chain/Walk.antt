-- ===== src/Kernel/Chain/Walk.antt =====
-- What a removing walk over a chain does to the number of nodes of each kind, and what a walk over
-- all buckets visits.
use sbu_cse_506_operating_sy.Prelude.{
  ℕ, zero, suc, ◌+◌, ◌≤◌, ◌<◌, ◌≡◌, refl, Bool, true, false, List, [], ◌∷◌, count, arith,
  count-append,
}
use sbu_cse_506_operating_sy.Kernel.Chain.{Table, update, remove_walk, all_nodes}

module _ {A : Type 0} (skip : List A → ℕ) (p : A → Bool) where
  -- Every node is either kept or freed, once.
  pub count-remove_walk :
      (q : A → Bool) (k : ℕ) (xs : List A)
      → let (kept, freed) = remove_walk skip p k xs in count q kept + count q freed ≡ count q xs
  unfolding remove_walk
  count-remove_walk q k [] = refl
  count-remove_walk q zero (x ∷ xs) =
      ground (arith, count-remove_walk q (skip xs) xs, count-remove_walk q zero xs)
  count-remove_walk q (suc k) (x ∷ xs) = ground (arith, count-remove_walk q k xs)

  -- Only nodes that pass the test are freed.
  pub count-freed :
      (q : A → Bool)
      → ((x : A) → q x ≡ true → p x ≡ false)
      → (k : ℕ) (xs : List A) → count q (remove_walk skip p k xs).1 ≡ 0
  unfolding remove_walk
  count-freed q h k [] = refl
  count-freed q h zero (x ∷ xs) =
      ground (arith, h x, count-freed q h (skip xs) xs, count-freed q h zero xs)
  count-freed q h (suc k) (x ∷ xs) = ground (arith, count-freed q h k xs)

  -- If a node passes the test, one at least is freed.
  pub freed_pos : (xs : List A) → 0 < count p xs → 0 < count p (remove_walk skip p 0 xs).1
  unfolding remove_walk
  freed_pos [] h = absurd (omega arith)
  freed_pos (x ∷ xs) h = ground (arith, freed_pos xs)

module _ {A : Type 0} (q : A → Bool) where
  all_nodes-update_outside :
      (n b c : ℕ) (t : Table A) (chain : List A)
      → c < b
      → count q (all_nodes n b (update t c chain)) ≡ count q (all_nodes n b t)
  unfolding all_nodes
  all_nodes-update_outside zero b c t chain h = refl
  all_nodes-update_outside (suc n) b c t chain h = ground (
    arith,
    count-append q (update t c chain b) (all_nodes n (b + 1) (update t c chain)),
    count-append q (t b) (all_nodes n (b + 1) t),
    all_nodes-update_outside n (b + 1) c t chain,
  )

  -- Changing one chain changes what a walk over all buckets counts by what it changes there.
  pub all_nodes-update :
      (n b c : ℕ) (t : Table A) (chain : List A)
      → b ≤ c
      → c < b + n
      → count q (all_nodes n b (update t c chain)) + count q (t c)
        ≡ count q (all_nodes n b t) + count q chain
  unfolding all_nodes
  all_nodes-update zero b c t chain h g = absurd (omega arith)
  all_nodes-update (suc n) b c t chain h g = ground (
    arith,
    count-append q (update t c chain b) (all_nodes n (b + 1) (update t c chain)),
    count-append q (t b) (all_nodes n (b + 1) t),
    all_nodes-update n (b + 1) c t chain,
    all_nodes-update_outside n (b + 1) c t chain,
  )

-- Where every walk goes on properly from a freed node, a walk that frees all leaves nothing.
pub remove_walk_all :
    {A : Type 0} (skip : List A → ℕ)
    → ((xs : List A) → skip xs ≡ 0)
    → (xs : List A) → (remove_walk skip (λ _. true) 0 xs).0 ≡ []
unfolding remove_walk
remove_walk_all skip h [] = refl
remove_walk_all skip h (x ∷ xs) = rw (h xs) (remove_walk_all skip h xs)
