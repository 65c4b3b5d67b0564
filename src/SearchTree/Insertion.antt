-- ===== src/SearchTree/Insertion.antt =====
-- `link` is insertion into a rising list.
use sbu_cse_506_operating_sy.Prelude.{
  ℕ, ◌<◌, ◌≡◌, refl, List, [], ◌∷◌, ◌++◌, ◌==◌, ◌||◌, if◌then◌else◌, none, some, ◌>>=◌, All, arith,
}
use sbu_cse_506_operating_sy.Kernel.Tree.{Tree, leaf, node, in_order}
use sbu_cse_506_operating_sy.SearchTree.{link, Ascending, place, has_key}
use sbu_cse_506_operating_sy.SearchTree.Keys.{has_key_above}

module _ {A : Type 0} (key : A → ℕ) where
  All-lt : (xs : List A) (a b : ℕ) → a < b → All (λ y. b < key y) xs → All (λ y. a < key y) xs
  All-lt [] a b h g = tt
  All-lt (x ∷ xs) a b h g = (omega arith, All-lt xs a b h g.1)

  All-append :
      (P : A → Type 0) (xs : List A) (x : A) (ys : List A)
      → All P (xs ++ (x ∷ ys))
      → All P xs × P x × All P ys
  All-append P [] x ys h = (tt, h.0, h.1)
  All-append P (z ∷ xs) x ys h =
      let (before, at, after) = All-append P xs x ys h.1 in ((h.0, before), at, after)

  -- Rising lists taken apart at an element.
  pub Ascending-append :
      (xs : List A) (x : A) (ys : List A)
      → Ascending key (xs ++ (x ∷ ys))
      → Ascending key xs
        × All (λ y. key y < key x) xs
        × Ascending key ys
        × All (λ y. key x < key y) ys
  Ascending-append [] x ys h = (tt, tt, h.1, h.0)
  Ascending-append (z ∷ xs) x ys h =
      let (low, below, high, above) = Ascending-append xs x ys h.1 in
      let (before, at, _) = All-append (λ y. key z < key y) xs x ys h.0 in
      ((before, low), (at, below), high, above)

  place-left :
      (new x : A) (xs ys : List A)
      → key new < key x
      → place key new (xs ++ (x ∷ ys)) ≡ (place key new xs >>= λ l. some (l ++ (x ∷ ys)))
  unfolding place
  place-left new x [] ys h = ground arith
  place-left new x (z ∷ xs) ys h = ground (arith, place-left new x xs ys h)

  place-right :
      (new x : A) (xs ys : List A)
      → All (λ y. key y < key x) xs
      → key x < key new
      → place key new (xs ++ (x ∷ ys)) ≡ (place key new ys >>= λ r. some (xs ++ (x ∷ r)))
  unfolding place
  place-right new x [] ys a h = ground arith
  place-right new x (z ∷ xs) ys a h = ground (arith, place-right new x xs ys a.1 h)

  place-equal :
      (new x : A) (xs ys : List A)
      → All (λ y. key y < key x) xs
      → key x ≡ key new
      → place key new (xs ++ (x ∷ ys)) ≡ none
  unfolding place
  place-equal new x [] ys a h = ground arith
  place-equal new x (z ∷ xs) ys a h = ground (arith, place-equal new x xs ys a.1 h)

  pub in_order-link :
      (new : A) (t : Tree A)
      → Ascending key (in_order t)
      → (link key new t >>= λ t'. some (in_order t')) ≡ place key new (in_order t)
  unfolding link in_order place
  in_order-link new leaf h = refl
  in_order-link new (node l x r) h =
      let parts = Ascending-append (in_order l) x (in_order r) h in
      ground (
        arith,
        in_order-link new l parts.0,
        in_order-link new r parts.2,
        place-left new x (in_order l) (in_order r),
        place-right new x (in_order l) (in_order r) parts.1,
        place-equal new x (in_order l) (in_order r) parts.1,
      )

  -- The list after an insertion, the same where the key was there.
  abbrev pub placed : A → List A → List A
  placed new xs = elim (place key new xs) [ none ↦ xs | some ys ↦ ys ]

  All-placed : (P : A → Type 0) (new : A) (xs : List A) → P new → All P xs → All P (placed new xs)
  unfolding place
  All-placed P new [] p a = (p, tt)
  All-placed P new (x ∷ xs) p a = ground (arith, All-placed P new xs p a.1)

  pub placed-Ascending : (new : A) (xs : List A) → Ascending key xs → Ascending key (placed new xs)
  unfolding place
  placed-Ascending new [] h = (tt, tt)
  placed-Ascending new (x ∷ xs) h = ground (
    arith,
    placed-Ascending new xs h.1,
    All-placed (λ y. key x < key y) new xs,
    All-lt xs (key new) (key x),
  )

  -- There is no insertion exactly where the key is there.
  pub place-has_key :
      (new : A) (xs : List A)
      → Ascending key xs
      → ◌≡◌ {A = ℕ}
          (elim (place key new xs) [ none ↦ 0 | some _ ↦ 1 ])
          (if has_key key (key new) xs then 0 else 1)
  unfolding place has_key
  place-has_key new [] h = refl
  place-has_key new (x ∷ xs) h =
      ground (arith, place-has_key new xs h.1, has_key_above key (key new) (key x) xs h.0)

  -- The keys afterwards, also where nothing was inserted because the key was there.
  pub has_key-place :
      (k : ℕ) (new : A) (xs : List A)
      → has_key key k (placed new xs) ≡ (k == key new || has_key key k xs)
  unfolding place has_key
  has_key-place k new [] = refl
  has_key-place k new (x ∷ xs) = ground (arith, has_key-place k new xs)
