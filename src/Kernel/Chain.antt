-- ===== src/Kernel/Chain.antt =====
-- The kernel's hash tables (linux/hashtable.h): a chain of nodes for each bucket.
pub mod Walk
use sbu_cse_506_operating_sy.Prelude.{
  ℕ, zero, suc, ◌+◌, ◌<◌, ◌≡◌, Bool, List, [], ◌∷◌, ◌++◌, ◌==◌, if◌then◌else◌, count,
}

-- `hash_min` is the bucket of a key, one of `buckets`; `hash_add` is a chain with one node more.
-- The loop `hash_for_each_possible` takes its next node from the link of the current one. Where its
-- body has unlinked and freed that node, the link is read from freed memory: `skip rest` is how many
-- of the nodes that stood behind the freed one such a read passes over, any number of them: the link
-- leads to a later node of the chain or to its end, as the NULL of `hash_del` does. Memory that was given
-- away again, with a link to anywhere else in it, is not modelled.
pub record HashApi (A : Type 0) : Type 0 where
  pub buckets : ℕ
  pub hash_min : ℕ → ℕ
  pub hash_add : A → List A → List A
  pub skip : List A → ℕ
  pub hash_min_lt : (key : ℕ) → hash_min key < buckets
  pub count-hash_add :
      (p : A → Bool) (x : A) (xs : List A) → count p (hash_add x xs) ≡ count p (x ∷ xs)

-- `DEFINE_HASHTABLE`: the chain of each bucket.
abbrev pub Table : Type 0 → Type 0
Table A = ℕ → List A

abbrev pub update : {A : Type 0} → Table A → ℕ → List A → Table A
update t b chain c = if b == c then chain else t c

module _ {A : Type 0} where
  -- The body of a loop that unlinks and frees each node which passes the test: the chain after it,
  -- and the nodes that were freed. The first argument counts the nodes still to be passed over.
  unfoldable pub remove_walk : (List A → ℕ) → (A → Bool) → ℕ → List A → List A × List A
  remove_walk skip p k [] = ([], [])
  remove_walk skip p zero (x ∷ xs) =
      let gone = remove_walk skip p (skip xs) xs in
      let kept = remove_walk skip p zero xs in
      if p x then (gone.0, x ∷ gone.1) else (x ∷ kept.0, kept.1)
  remove_walk skip p (suc k) (x ∷ xs) = let kept = remove_walk skip p k xs in (x ∷ kept.0, kept.1)

  -- `hash_for_each` over `n` buckets from `b`.
  unfoldable pub all_nodes : ℕ → ℕ → Table A → List A
  all_nodes zero b t = []
  all_nodes (suc n) b t = t b ++ all_nodes n (b + 1) t
