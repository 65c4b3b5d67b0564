-- ===== src/Examples/PerftopRuns.antt =====
-- perftop.c on small states.
use sbu_cse_506_operating_sy.Prelude.{
  ℕ, ◌≡◌, arith, refl, true, false, some, List, [], ◌∷◌, ◌==◌, if◌then◌else◌, reverse, take, drop,
}
use sbu_cse_506_operating_sy.Kernel.Chain.{remove_walk}
use sbu_cse_506_operating_sy.SearchTree.{link, erase_walk}
use sbu_cse_506_operating_sy.Kernel.Tree.{in_order}
use sbu_cse_506_operating_sy.Perftop.{
  first_tsc, lookup_hash_table, remove_hash_table, insert_hash_table, insert_rb_tree,
  insert_redblack_trees, remove_rb_tree, lookup_rb_tree,
}
use sbu_cse_506_operating_sy.Perftop.Probe.{
  Task, State, Event, entered, returned, add_slice, charge, switch_to, ret_pick_next_fair,
  entry_pick_next_fair, step, run, initial,
}
use sbu_cse_506_operating_sy.Perftop.Totals.{another_has}
use sbu_cse_506_operating_sy.Perftop.Accounting.{
  IsValid, run-IsValid, stamps-switch_to, totals-switch_to,
}
use sbu_cse_506_operating_sy.Perftop.Show.{perftop_show, Falling, Below, perftop_show_lem}
use sbu_cse_506_operating_sy.Perftop.Counters.{counters, count_events}
use sbu_cse_506_operating_sy.Perftop.Stages as Stages
use sbu_cse_506_operating_sy.Perftop.Stages.{lifetime-counters}
use sbu_cse_506_operating_sy.Perftop.Module.{lifetime}
use sbu_cse_506_operating_sy.Kernel.Chain.{HashApi}
use sbu_cse_506_operating_sy.Perftop.{Entry}
use sbu_cse_506_operating_sy.Perftop.Cpus.{Machine, Switch, look, pass, insert, one_by_one, touches}
use sbu_cse_506_operating_sy.Perftop.Cpus.Runs.{Runs, started, moved, Runs-one_by_one}
use sbu_cse_506_operating_sy.Examples.Apis.{small_hash, plain_rb, spine}

abbrev first : Task
first = record { address = 100; pid = 7 }

abbrev second : Task
second = record { address = 200; pid = 8 }

-- The first task is switched in at 10 and out at 25.
abbrev events : List Event
events =
    entered 0 true (some second)
    ∷ returned 0 (some first) 10
    ∷ entered 1 true (some first)
    ∷ returned 1 (some second) 25
    ∷ []

abbrev later_state : State
later_state = run small_hash plain_rb events initial

run-IsValid_example : IsValid small_hash plain_rb later_state
run-IsValid_example = run-IsValid small_hash plain_rb events

stamps-switch_to_example :
    lookup_hash_table small_hash
      (switch_to small_hash plain_rb second first 40 later_state).myhashtable
      7
    ≡ (if ◌==◌ 7 first.pid
        then 40
        else if ◌==◌ 7 second.pid
        then 0
        else lookup_hash_table small_hash later_state.myhashtable 7)
stamps-switch_to_example =
    stamps-switch_to small_hash plain_rb second first 40 later_state 7 run-IsValid_example

totals-switch_to_example :
    let old = lookup_hash_table small_hash later_state.myhashtable second.pid in
    let sum = add_slice (lookup_rb_tree plain_rb later_state.myroot second.pid) 40 old in
    lookup_rb_tree plain_rb (switch_to small_hash plain_rb second first 40 later_state).myroot 8 ≡ (
      if old == 0
      then lookup_rb_tree plain_rb later_state.myroot 8
      else if ◌==◌ 8 second.pid
      then (if another_has second.pid sum (in_order later_state.myroot) then 0 else sum)
      else lookup_rb_tree plain_rb later_state.myroot 8)
totals-switch_to_example =
    totals-switch_to small_hash plain_rb second first 40 later_state 8 run-IsValid_example

perftop_show_lem_example :
    let falling = reverse (in_order later_state.myroot) in
    ((perftop_show plain_rb later_state).top ≡ take 10 falling)
    × Falling falling
    × Below (perftop_show plain_rb later_state).top (drop 10 falling)
perftop_show_lem_example = perftop_show_lem small_hash plain_rb later_state run-IsValid_example

-- The first task has run for 15.
total_of_first : lookup_rb_tree plain_rb later_state.myroot 7 ≡ 15
unfolding run step ret_pick_next_fair entry_pick_next_fair switch_to charge lookup_hash_table
    remove_hash_table insert_hash_table insert_rb_tree insert_redblack_trees remove_rb_tree
    lookup_rb_tree first_tsc remove_walk erase_walk link in_order spine
total_of_first = refl

lifetime-counters_example :
    let first_life = Stages.lifetime false events (counters initial) in
    let second_life = lifetime small_hash plain_rb false events in
    (Stages.perftop_show (count_events events (counters initial))
      ≡ Stages.line_of (perftop_show plain_rb (run small_hash plain_rb events initial)))
    × (first_life.proc_entry ≡ second_life.proc_entry)
    × (first_life.probe ≡ second_life.probe)
    × (first_life.counted ≡ counters second_life.state)
lifetime-counters_example =
    lifetime-counters small_hash plain_rb false events (refl, (refl, (refl, (refl, tt))))

abbrev plain_hash : HashApi Entry
plain_hash = small_hash

abbrev third : Task
third = record { address = 300; pid = 9 }

abbrev fourth : Task
fourth = record { address = 400; pid = 10 }

-- Processor 0 switches from the first task to the second one while processor 1 does so from the third
-- one to the fourth one, and is the first to charge.
abbrev switches : List Switch
switches =
    record { prev = first; next = second; curr = 50 }
    ∷ record { prev = third; next = fourth; curr = 60 }
    ∷ []

overtaken :
    (m : Machine) × Runs small_hash plain_rb m switches
    × ((c : ℕ) → touches (m.handler c) 8 ≡ false)
unfolding lookup_hash_table first_tsc
overtaken = (
  _,
  moved {cpu = 0}
      (moved {cpu = 0}
        (moved {cpu = 1}
          (moved {cpu = 1}
            (moved {cpu = 0} started (look first second 50 refl refl) (λ c d q o. ground arith))
            (look third fourth 60 refl refl) (λ c d q o. ground arith))
          (pass third fourth 60 0 refl refl) (λ c d q o. ground arith))
        (pass first second 50 0 refl refl) (λ c d q o. ground arith))
      (insert first second 50 refl) (λ c d q o. ground arith),
  λ c. ground arith,
)

Runs-one_by_one_example :
    let m = overtaken.0 in
    let s = one_by_one small_hash plain_rb switches initial in
    (m.state.myroot ≡ s.myroot)
    × (lookup_hash_table small_hash m.state.myhashtable 8
        ≡ lookup_hash_table small_hash s.myhashtable 8)
Runs-one_by_one_example = Runs-one_by_one small_hash plain_rb overtaken.1 8 overtaken.2
