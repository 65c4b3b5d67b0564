-- ===== src/Perftop/Accounting.antt =====
-- The probe as a whole: what stays true over any run of it, and what a context switch does to the
-- time stamps and the totals.
use sbu_cse_506_operating_sy.Prelude.{
  Option, ℕ, ◌+◌, ◌%◌, ◌≡◌, refl, true, false, none, some, List, [], ◌∷◌, ◌==◌, if◌then◌else◌,
  arith, inl, inr, int_mod, Bool-cases,
}
use sbu_cse_506_operating_sy.Kernel.Chain.{HashApi}
use sbu_cse_506_operating_sy.Kernel.Tree.{Tree, in_order, RbApi}
use sbu_cse_506_operating_sy.Perftop.{Entry, lookup_hash_table, remove_hash_table, lookup_rb_tree}
use sbu_cse_506_operating_sy.Perftop.Probe.{
  Task, State, add_slice, charge, switch_to, ret_pick_next_fair, entry_pick_next_fair, Event,
  entered, returned, step, run, initial,
}
use sbu_cse_506_operating_sy.Perftop.Stamps.{
  Unique, remove_hash_table-Unique, insert_hash_table-Unique, lookup-remove_hash_table,
  lookup-insert_hash_table,
}
use sbu_cse_506_operating_sy.Perftop.Totals.{another_has}
use sbu_cse_506_operating_sy.Perftop.Charge.{TreeIsExact, replace-IsExact, lookup-replace}

charge-IsExact :
    (rb : RbApi Entry) (t : Tree Entry) (pid curr old : ℕ)
    → TreeIsExact rb t
    → TreeIsExact rb (charge rb t pid curr old)
unfolding charge
charge-IsExact rb t pid curr old h =
    replace-IsExact rb t pid (add_slice (lookup_rb_tree rb t pid) curr old) h

module _ (hash : HashApi Entry) (rb : RbApi Entry) where
  -- Each pid has one time stamp and one total at most, and the totals rise through the tree.
  pub record IsValid (st : State) : Type 0 where
    pub unique : Unique hash st.myhashtable
    pub exact : TreeIsExact rb st.myroot

  pub switch_to-IsValid :
      (prev next : Task) (curr : ℕ) (st : State)
      → IsValid st
      → IsValid (switch_to hash rb prev next curr st)
  unfolding switch_to
  switch_to-IsValid prev next curr st v =
      let old = lookup_hash_table hash st.myhashtable prev.pid in
      elim (Bool-cases (old == 0)) [
        | inl e ↦ record {
          unique = rw e (insert_hash_table-Unique hash st.myhashtable next.pid curr v.unique);
          exact = rw e v.exact;
        }
        | inr n ↦ record {
          unique = rw n (
              insert_hash_table-Unique hash (remove_hash_table hash st.myhashtable prev.pid)
                next.pid curr (remove_hash_table-Unique hash st.myhashtable prev.pid v.unique));
          exact = rw n (charge-IsExact rb st.myroot prev.pid curr old v.exact);
        }
      ]

  ret-IsValid :
      (held next : Option Task) (curr : ℕ) (st : State)
      → IsValid st
      → IsValid (ret_pick_next_fair hash rb held next curr st)
  unfolding ret_pick_next_fair
  ret-IsValid none next curr st v = record { unique = v.unique; exact = v.exact }
  ret-IsValid (some p) none curr st v = record { unique = v.unique; exact = v.exact }
  ret-IsValid (some p) (some n) curr st v =
      let st' = record st { post_count = (st.post_count + 1) % int_mod } in
      let v' : IsValid st' = record { unique = v.unique; exact = v.exact } in
      elim (Bool-cases (p.address == n.address)) [
        | inl e ↦ rw e v'
        | inr d ↦ rw d (switch_to-IsValid p n curr st' v')
      ]

  -- Every call of a handler keeps the state valid, on each of its branches.
  pub step-IsValid : (e : Event) (st : State) → IsValid st → IsValid (step hash rb e st)
  unfolding step entry_pick_next_fair
  step-IsValid (entered i false prev) st v = record { unique = v.unique; exact = v.exact }
  step-IsValid (entered i true none) st v = record { unique = v.unique; exact = v.exact }
  step-IsValid (entered i true (some p)) st v = record { unique = v.unique; exact = v.exact }
  step-IsValid (returned i next curr) st v = ret-IsValid (st.kept i) next curr st v

  run-IsValid_from : (es : List Event) (st : State) → IsValid st → IsValid (run hash rb es st)
  unfolding run
  run-IsValid_from [] st v = v
  run-IsValid_from (e ∷ es) st v = run-IsValid_from es (step hash rb e st) (step-IsValid e st v)

  -- Any sequence of calls of the two handlers, from the state in which the module starts, leaves each
  -- pid with one time stamp and one total at most and the tree in the order of the totals.
  pub run-IsValid : (es : List Event) → IsValid (run hash rb es initial)
  unfolding in_order
  run-IsValid es = run-IsValid_from es initial (record {
    unique = λ b pid. omega arith;
    exact = record { rising = tt; once = λ pid. omega arith };
  })

  -- A switch from one task to another in a valid state stamps the next one, takes the stamp of the
  -- previous one off, and leaves every other pid its stamp.
  pub stamps-switch_to :
      (prev next : Task) (curr : ℕ) (st : State) (q : ℕ)
      → IsValid st
      → lookup_hash_table hash (switch_to hash rb prev next curr st).myhashtable q ≡ (
          if q == next.pid
          then curr
          else if q == prev.pid
          then 0
          else lookup_hash_table hash st.myhashtable q)
  unfolding switch_to
  stamps-switch_to prev next curr st q v =
      let table = st.myhashtable in
      let removed = remove_hash_table hash table prev.pid in
      ground (
        arith,
        lookup-insert_hash_table hash table next.pid q curr v.unique,
        lookup-insert_hash_table hash removed next.pid q curr
            (remove_hash_table-Unique hash table prev.pid v.unique),
        lookup-remove_hash_table hash table prev.pid q v.unique,
      )

  -- A switch in a valid state adds to the total of the previous task what it ran since its stamp,
  -- modulo 2^64, if it has one, and leaves every other total as it was; but where another process has
  -- that very total, the previous task is left with none.
  pub totals-switch_to :
      (prev next : Task) (curr : ℕ) (st : State) (q : ℕ)
      → IsValid st
      → let old = lookup_hash_table hash st.myhashtable prev.pid in
        let sum = add_slice (lookup_rb_tree rb st.myroot prev.pid) curr old in
        lookup_rb_tree rb (switch_to hash rb prev next curr st).myroot q ≡ (
          if old == 0
          then lookup_rb_tree rb st.myroot q
          else if q == prev.pid
          then (if another_has prev.pid sum (in_order st.myroot) then 0 else sum)
          else lookup_rb_tree rb st.myroot q)
  unfolding switch_to charge
  totals-switch_to prev next curr st q v =
      let old = lookup_hash_table hash st.myhashtable prev.pid in
      let sum = add_slice (lookup_rb_tree rb st.myroot prev.pid) curr old in
      elim (Bool-cases (old == 0)) [
        | inl e ↦ rw e refl
        | inr n ↦ rw n (lookup-replace rb st.myroot prev.pid sum q v.exact)
      ]
