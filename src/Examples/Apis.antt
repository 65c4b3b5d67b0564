-- ===== src/Examples/Apis.antt =====
-- Concrete functions in the place of the kernel's, each with the behaviour that its interface states.
use sbu_cse_506_operating_sy.Prelude.{
  ℕ, ◌/◌, ◌%◌, ◌≡◌, refl, ap, true, false, Option, none, some, List, [], ◌∷◌, ◌==◌, if◌then◌else◌,
  reverse, remove_at, arith,
}
use sbu_cse_506_operating_sy.Kernel.Chain.{HashApi}
use sbu_cse_506_operating_sy.Kernel.Tree.{Tree, leaf, node, in_order, RbApi}
use sbu_cse_506_operating_sy.Kernel.Small.{ListApi, BitApi}
use sbu_cse_506_operating_sy.Kernel.Index.{IndexApi}
use sbu_cse_506_operating_sy.S2dsm.Region.{Vm}

-- Four buckets; a new node goes to the front, and a walk ends at a node that it freed.
abbrev pub small_hash : {A : Type 0} → HashApi A
small_hash = record {
  buckets = 4;
  hash_min = λ key. key % 4;
  hash_add = λ x xs. x ∷ xs;
  skip = λ rest. 1000;
  hash_min_lt = λ key. omega arith;
  count-hash_add = λ p x xs. refl;
}

unfoldable pub spine : {A : Type 0} → List A → Tree A
spine [] = leaf
spine (x ∷ xs) = node leaf x (spine xs)

pub in_order-spine : {A : Type 0} (xs : List A) → in_order (spine xs) ≡ xs
unfolding in_order spine
in_order-spine [] = refl
in_order-spine (x ∷ xs) = ap (λ ys. x ∷ ys) (in_order-spine xs)

-- No rebalancing; a tree without a node is built anew.
abbrev pub plain_rb : {A : Type 0} → RbApi A
plain_rb = record {
  rb_insert_color = λ t. t;
  rb_erase = λ t i. spine (remove_at i (in_order t));
  ascending = in_order;
  descending = λ t. reverse (in_order t);
  skip = λ rest. 0;
  in_order-rb_insert_color = λ t. refl;
  in_order-rb_erase = λ t i. in_order-spine (remove_at i (in_order t));
  ascending_lem = λ t. refl;
  descending_lem = λ t. refl;
}

abbrev pub plain_list : {A : Type 0} → ListApi A
plain_list = record {
  list_add = λ x l. x ∷ l;
  list_del = remove_at;
  list_add_lem = λ x l. refl;
  list_del_lem = λ i l. refl;
}

abbrev pub plain_bits : BitApi
plain_bits = record {
  set_bit = λ bit m c. if bit == c then true else m c;
  set_bit_lem = λ bit m c. refl;
}

-- Entries as a function, nothing marked; the first entry at an index stays.
pub insert_first : ℕ → ℕ → (ℕ → Option ℕ) → ℕ → Option ℕ
insert_first k v t j = if j == k then elim (t k) [ none ↦ some v | some w ↦ some w ] else t j

pub load-insert_first :
    (k v : ℕ) (t : ℕ → Option ℕ) (j : ℕ)
    → insert_first k v t j ≡ (
        if j == k
        then elim (t k) [ none ↦ some v | some w ↦ if false then some v else some w ]
        else t j)
unfolding insert_first
load-insert_first k v t j = ground arith

abbrev pub radix : IndexApi (ℕ → Option ℕ)
radix = record {
  empty = λ j. none;
  replaces = false;
  insert = insert_first;
  load = λ t j. t j;
  erase = λ k t j. if j == k then none else t j;
  set_mark = λ k t. t;
  marked = λ t. [];
  marked-empty = refl;
  marked-insert = λ k v t. omega arith;
  marked-set_mark = λ k t. omega arith;
  load-empty = λ j. refl;
  load-insert = load-insert_first;
  load-erase = λ k t j. refl;
  load-set_mark = λ k t j. refl;
}

abbrev pub plain_vm : Vm
plain_vm = record {
  uffdio_copy = λ r p src. record {
    resident = λ q. if p == q then true else r.resident q;
    byte = λ a. if p == a / 4096 then src a else r.byte a;
  };
  dont_need =
      λ r p. record { resident = λ q. if p == q then false else r.resident q; byte = r.byte };
  read_answer = λ text. text;
  read_answer_short = λ text h. refl;
  resident-uffdio_copy = λ r p src q. refl;
  byte-uffdio_copy = λ r p src a. refl;
  resident-dont_need = λ r p q. refl;
  byte-dont_need = λ r p a. refl;
}
