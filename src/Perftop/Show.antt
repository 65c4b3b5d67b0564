-- ===== src/Perftop/Show.antt =====
-- `perftop_show` and `perftop_exit`.
use sbu_cse_506_operating_sy.Prelude.{
  ℕ, zero, suc, ◌+◌, ◌<◌, ◌≡◌, ◌≢◌, refl, ap, ◌∙◌, List, [], ◌∷◌, ◌++◌, take, drop, All, count,
  arith, reverse,
}
use mathlib.Core.List.{reverse-append}
use sbu_cse_506_operating_sy.Kernel.Chain.{HashApi, Table}
use sbu_cse_506_operating_sy.Kernel.Tree.{in_order, RbApi}
use sbu_cse_506_operating_sy.SearchTree.{Ascending}
use sbu_cse_506_operating_sy.Perftop.{
  Entry, of_pid, print_loop, print_rb_tree, lookup_hash_table, remove_hash_table_all,
}
use sbu_cse_506_operating_sy.Perftop.Probe.{State}
use sbu_cse_506_operating_sy.Perftop.Totals.{tsc_of}
use sbu_cse_506_operating_sy.Perftop.Accounting.{IsValid}

-- The line of counters, and the lines of the tree.
pub record Shown : Type 0 where
  pub pre : ℕ
  pub post : ℕ
  pub switches : ℕ
  pub top : List Entry

unfoldable pub perftop_show : RbApi Entry → State → Shown
perftop_show api st = record {
  pre = st.pre_count;
  post = st.post_count;
  switches = st.context_switch_count;
  top = print_rb_tree api st.myroot;
}

print_loop-take : (xs : List Entry) (n k : ℕ) → n + k ≡ 10 → 0 < k → print_loop xs n ≡ take k xs
unfolding print_loop
print_loop-take [] n zero e h = absurd (omega arith)
print_loop-take [] n (suc k) e h = refl
print_loop-take (x ∷ xs) n zero e h = absurd (omega arith)
print_loop-take (x ∷ xs) n (suc zero) e h = ground arith
print_loop-take (x ∷ xs) n (suc (suc k)) e h = ground (arith, print_loop-take xs (n + 1) (suc k))

-- Falling strictly from left to right.
abbrev pub Falling : List Entry → Type 0
Falling [] = Unit
Falling (x ∷ xs) = All (λ y. y.tsc < x.tsc) xs × Falling xs

-- Every entry of the second list is below every one of the first.
abbrev pub Below : List Entry → List Entry → Type 0
Below xs ys = All (λ x. All (λ y. y.tsc < x.tsc) ys) xs

All-snoc :
    (P : Entry → Type 0) (xs : List Entry) (x : Entry) → All P xs → P x → All P (xs ++ (x ∷ []))
All-snoc P [] x h p = (p, tt)
All-snoc P (y ∷ xs) x h p = (h.0, All-snoc P xs x h.1 p)

Falling-snoc :
    (xs : List Entry) (x : Entry)
    → Falling xs
    → All (λ y. x.tsc < y.tsc) xs
    → Falling (xs ++ (x ∷ []))
Falling-snoc [] x h a = (tt, tt)
Falling-snoc (y ∷ xs) x h a =
    (All-snoc (λ z. z.tsc < y.tsc) xs x h.0 a.0, Falling-snoc xs x h.1 a.1)

All-reverse : (P : Entry → Type 0) (xs : List Entry) → All P xs → All P (reverse xs)
All-reverse P [] h = tt
All-reverse P (x ∷ xs) h =
    rw (reverse-append (x ∷ []) xs) (All-snoc P (reverse xs) x (All-reverse P xs h.1) h.0)

Falling-reverse : (xs : List Entry) → Ascending tsc_of xs → Falling (reverse xs)
Falling-reverse [] h = tt
Falling-reverse (x ∷ xs) h =
    rw (reverse-append (x ∷ []) xs) (
      Falling-snoc (reverse xs) x (Falling-reverse xs h.1)
        (All-reverse (λ y. x.tsc < y.tsc) xs h.0))

All-drop : (P : Entry → Type 0) (k : ℕ) (xs : List Entry) → All P xs → All P (drop k xs)
All-drop P zero xs h = h
All-drop P (suc k) [] h = tt
All-drop P (suc k) (x ∷ xs) h = All-drop P k xs h.1

Below-take-drop : (k : ℕ) (xs : List Entry) → Falling xs → Below (take k xs) (drop k xs)
Below-take-drop zero xs h = tt
Below-take-drop (suc k) [] h = tt
Below-take-drop (suc k) (x ∷ xs) h =
    (All-drop (λ y. y.tsc < x.tsc) k xs h.0, Below-take-drop k xs h.1)

-- In a valid state the lines shown are the first ten of the tree from the largest total down, and
-- every process that is not shown has a smaller total than every one that is.
pub perftop_show_lem :
    (hash : HashApi Entry) (rb : RbApi Entry) (st : State)
    → IsValid hash rb st
    → let falling = reverse (in_order st.myroot) in
      ((perftop_show rb st).top ≡ take 10 falling)
      × Falling falling
      × Below (perftop_show rb st).top (drop 10 falling)
unfolding perftop_show print_rb_tree
perftop_show_lem hash rb st v =
    let falling = Falling-reverse (in_order st.myroot) v.exact.rising in
    let shown =
      print_loop-take (rb.descending st.myroot) 0 10 (omega arith) (omega arith)
      ∙ ap (take 10) (rb.descending_lem st.myroot) in
    (shown, falling, rw shown (Below-take-drop 10 (reverse (in_order st.myroot)) falling))

-- Emptying the hash table at exit leaves alone each pid of another bucket than that of key 0: it keeps
-- its stamp, and its bucket has as many nodes of it as before.
lookup-remove_hash_table_all :
    (api : HashApi Entry) (t : Table Entry) (pid : ℕ)
    → api.hash_min pid ≢ api.hash_min 0
    → (lookup_hash_table api (remove_hash_table_all api t).0 pid ≡ lookup_hash_table api t pid)
      × (count (of_pid pid) ((remove_hash_table_all api t).0 (api.hash_min pid))
          ≡ count (of_pid pid) (t (api.hash_min pid)))
unfolding lookup_hash_table remove_hash_table_all
lookup-remove_hash_table_all api t pid n = ground arith
