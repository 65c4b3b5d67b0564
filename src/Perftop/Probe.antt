-- ===== src/Perftop/Probe.antt =====
-- The return probe on `pick_next_task_fair`: the handlers on entry and on return, and runs of them.
use sbu_cse_506_operating_sy.Prelude.{
  ℕ, ◌+◌, ◌-◌, ◌%◌, Bool, true, false, Option, none, some, List, [], ◌∷◌, ◌==◌, if◌then◌else◌,
  int_mod,
}
use sbu_cse_506_operating_sy.Kernel.Chain.{HashApi, Table}
use sbu_cse_506_operating_sy.Kernel.Tree.{Tree, leaf, RbApi}
use sbu_cse_506_operating_sy.Perftop.{
  Entry, lookup_hash_table, remove_hash_table, insert_hash_table, insert_redblack_trees,
  remove_rb_tree, lookup_rb_tree,
}

-- `struct task_struct`: where it is, and its pid.
pub record Task : Type 0 where
  pub address : ℕ
  pub pid : ℕ

pub record State : Type 0 where
  pub post_count : ℕ
  pub pre_count : ℕ
  pub context_switch_count : ℕ
  pub myhashtable : Table Entry
  pub myroot : Tree Entry
  pub kept : ℕ → Option Task  -- `data->prev` of each probe instance

-- `sum + curr - old` on `unsigned long long`
abbrev pub add_slice : ℕ → ℕ → ℕ → ℕ
add_slice sum curr old = (sum + curr + (18446744073709551616 - old)) % 18446744073709551616

-- `regs->si` and the `mm` of the current task; the instance's data holds a task from an earlier use
-- until it is overwritten. The result is the state, the data and the return value.
unfoldable pub entry_pick_next_fair :
    Bool → Option Task → State → Option Task → State × Option Task × ℕ
entry_pick_next_fair false prev st held = (st, held, 1)
entry_pick_next_fair true none st held =
    (record st { pre_count = (st.pre_count + 1) % int_mod }, held, 0)
entry_pick_next_fair true (some prev) st held =
    (record st { pre_count = (st.pre_count + 1) % int_mod }, some prev, 0)

-- A call of a handler with a probe instance. What the entry handler keeps there the return handler
-- finds; an instance that is used again has what an earlier use left.
pub data Event : Type 0 where
  entered : ℕ → Bool → Option Task → Event
  returned : ℕ → Option Task → ℕ → Event

abbrev pub set_kept : (ℕ → Option Task) → ℕ → Option Task → ℕ → Option Task
set_kept f i held j = if i == j then held else f j

module _ (rb : RbApi Entry) where
  -- The part under the spin lock: the total of the pid, with the slice added.
  unfoldable pub charge : Tree Entry → ℕ → ℕ → ℕ → Tree Entry
  charge root pid curr old =
      let sum = add_slice (lookup_rb_tree rb root pid) curr old in
      insert_redblack_trees rb (remove_rb_tree rb root pid) pid sum

module _ (hash : HashApi Entry) (rb : RbApi Entry) where
  -- The body of the test in `ret_pick_next_fair`, on a switch from one task to another.
  unfoldable pub switch_to : Task → Task → ℕ → State → State
  switch_to prev next curr st =
      let old = lookup_hash_table hash st.myhashtable prev.pid in
      let charged = record st {
        myhashtable = remove_hash_table hash st.myhashtable prev.pid;
        myroot = charge rb st.myroot prev.pid curr old;
      } in
      let st' = if old == 0 then st else charged in
      record st' {
        myhashtable = insert_hash_table hash st'.myhashtable next.pid curr;
        context_switch_count = (st'.context_switch_count + 1) % int_mod;
      }

  -- `data->prev`, the task returned, and what `rdtsc` reads.
  unfoldable pub ret_pick_next_fair : Option Task → Option Task → ℕ → State → State
  ret_pick_next_fair none next curr st = record st { post_count = (st.post_count + 1) % int_mod }
  ret_pick_next_fair (some prev) none curr st = record st {
    post_count = (st.post_count + 1) % int_mod;
  }
  ret_pick_next_fair (some prev) (some next) curr st =
      let st' = record st { post_count = (st.post_count + 1) % int_mod } in
      if prev.address == next.address then st' else switch_to prev next curr st'

  unfoldable pub step : Event → State → State
  step (entered i has_mm prev) st =
      let (st', held, skipped) = entry_pick_next_fair has_mm prev st (st.kept i) in
      record st' { kept = set_kept st'.kept i held }
  step (returned i next curr) st = ret_pick_next_fair (st.kept i) next curr st

  unfoldable pub run : List Event → State → State
  run [] st = st
  run (e ∷ es) st = run es (step e st)

-- After `hash_init`, and with `RB_ROOT`.
abbrev pub initial : State
initial = record {
  post_count = 0;
  pre_count = 0;
  context_switch_count = 0;
  myhashtable = λ _. [];
  myroot = leaf;
  kept = λ _. none;
}
