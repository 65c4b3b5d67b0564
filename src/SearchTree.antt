-- ===== src/SearchTree.antt =====
-- The loops over a red-black tree that kds.c and perftop.c have in common: the way down to the place
-- of a new node, and the walk that erases and frees nodes while it goes on from them.
pub mod Keys
pub mod Insertion
pub mod Erasure
use sbu_cse_506_operating_sy.Prelude.{
  ℕ, zero, suc, ◌+◌, ◌<◌, ◌≡◌, Bool, true, false, List, [], ◌∷◌, ltb, ◌==◌, ◌||◌, if◌then◌else◌,
  Option, none, some, ◌>>=◌, All,
}
use sbu_cse_506_operating_sy.Kernel.Tree.{Tree, leaf, node, RbApi}

module _ {A : Type 0} (key : A → ℕ) where
  -- `while (*new)` and `rb_link_node`: `none` where a node has the same key.
  unfoldable pub link : A → Tree A → Option (Tree A)
  link new leaf = some (node leaf new leaf)
  link new (node l x r) =
      let left = link new l >>= λ l'. some (node l' x r) in
      let right = link new r >>= λ r'. some (node l x r') in
      if ltb (key new) (key x) then left else if ltb (key x) (key new) then right else none

  -- The abstract view: the keys rise strictly from left to right.
  abbrev pub Ascending : List A → Type 0
  Ascending [] = Unit
  Ascending (x ∷ xs) = All (λ y. key x < key y) xs × Ascending xs

  -- A new element in a rising list, if its key is not there.
  unfoldable pub place : A → List A → Option (List A)
  place new [] = some (new ∷ [])
  place new (x ∷ xs) =
      let further = place new xs >>= λ ys. some (x ∷ ys) in
      if ltb (key new) (key x)
      then some (new ∷ x ∷ xs)
      else if ltb (key x) (key new)
      then further
      else none

  -- Whether an element of the list has the key.
  unfoldable pub has_key : ℕ → List A → Bool
  has_key k [] = false
  has_key k (x ∷ xs) = k == key x || has_key k xs

-- `for (node = rb_first(t); node; node = rb_next(node))` with a body that erases and frees the node
-- if it passes the test. `i` is the node's place in order, the first number counts the nodes that are
-- still passed over.
unfoldable pub erase_walk : {A : Type 0} → RbApi A → (A → Bool) → ℕ → ℕ → List A → Tree A → Tree A
erase_walk api p k i [] t = t
erase_walk api p zero i (x ∷ xs) t =
    let gone = erase_walk api p (api.skip xs) i xs (api.rb_erase t i) in
    let kept = erase_walk api p zero (i + 1) xs t in if p x then gone else kept
erase_walk api p (suc k) i (x ∷ xs) t = erase_walk api p k (i + 1) xs t
