-- ===== src/Perftop/Cpus.antt =====
-- Probe instances on several processors at once. Between its calls on the containers the return handler
-- of one processor can be overtaken by that of another; a call on a container is one move here, and so
-- is the part under the spin lock. Two tasks have different pids.
pub mod Serial
pub mod Moves
pub mod Runs
use sbu_cse_506_operating_sy.Prelude.{
  ℕ, ◌+◌, ◌%◌, ◌≡◌, Bool, true, false, List, [], ◌∷◌, ◌==◌, ◌||◌, if◌then◌else◌, int_mod,
}
use sbu_cse_506_operating_sy.Kernel.Chain.{HashApi}
use sbu_cse_506_operating_sy.Kernel.Tree.{RbApi}
use sbu_cse_506_operating_sy.Perftop.{
  Entry, lookup_hash_table, remove_hash_table, insert_hash_table,
}
use sbu_cse_506_operating_sy.Perftop.Probe.{Task, State, charge, switch_to}

-- What the return handler of a processor is at, with its locals: `data->prev`, `next`, `curr` and `old`.
pub data Handler : Type 0 where
  no_handler : Handler
  looked_up : Task → Task → ℕ → ℕ → Handler  -- after `lookup_hash_table`
  removed : Task → Task → ℕ → ℕ → Handler  -- after `remove_hash_table`
  charged : Task → Task → ℕ → Handler  -- before `insert_hash_table`

pub record Machine : Type 0 where
  pub state : State
  pub handler : ℕ → Handler

abbrev pub set_handler : (ℕ → Handler) → ℕ → Handler → ℕ → Handler
set_handler f cpu h c = if cpu == c then h else f c

-- A switch that a handler has charged.
pub record Switch : Type 0 where
  pub prev : Task
  pub next : Task
  pub curr : ℕ

module _ (hash : HashApi Entry) (rb : RbApi Entry) where
  -- A move of the handler of a processor, with the switches charged so far before and after, the last
  -- one first.
  pub data Move (cpu : ℕ) (m : Machine) (log : List Switch) : Machine → List Switch → Type 0 where
    look :
        (prev next : Task) (curr : ℕ)
        → m.handler cpu ≡ no_handler
        → (prev.pid == next.pid) ≡ false
        → Move cpu m log
            (record {
              state = record (m.state) { post_count = (m.state.post_count + 1) % int_mod };
              handler =
                  set_handler m.handler cpu (
                    looked_up prev next curr (lookup_hash_table hash m.state.myhashtable prev.pid));
            })
            log
    pass :
        (prev next : Task) (curr old : ℕ)
        → m.handler cpu ≡ looked_up prev next curr old
        → (old == 0) ≡ true
        → Move cpu m log
            (record m { handler = set_handler m.handler cpu (charged prev next curr) })
            (record { prev = prev; next = next; curr = curr } ∷ log)
    remove :
        (prev next : Task) (curr old : ℕ)
        → m.handler cpu ≡ looked_up prev next curr old
        → (old == 0) ≡ false
        → Move cpu m log
            (record {
              state = record (m.state) {
                myhashtable = remove_hash_table hash m.state.myhashtable prev.pid;
              };
              handler = set_handler m.handler cpu (removed prev next curr old);
            })
            log
    lock_and_charge :
        (prev next : Task) (curr old : ℕ)
        → m.handler cpu ≡ removed prev next curr old
        → Move cpu m log
            (record {
              state = record (m.state) { myroot = charge rb m.state.myroot prev.pid curr old };
              handler = set_handler m.handler cpu (charged prev next curr);
            })
            (record { prev = prev; next = next; curr = curr } ∷ log)
    insert :
        (prev next : Task) (curr : ℕ)
        → m.handler cpu ≡ charged prev next curr
        → Move cpu m log
            (record {
              state = record (m.state) {
                myhashtable = insert_hash_table hash m.state.myhashtable next.pid curr;
                context_switch_count = (m.state.context_switch_count + 1) % int_mod;
              };
              handler = set_handler m.handler cpu no_handler;
            })
            log

  -- The same switches one after the other, each by a handler that nothing overtakes.
  unfoldable pub one_by_one : List Switch → State → State
  one_by_one [] st = st
  one_by_one (s ∷ log) st = switch_to hash rb s.prev s.next s.curr (one_by_one log st)

-- Whether a handler is at a switch from or to the pid.
abbrev pub touches : Handler → ℕ → Bool
touches no_handler q = false
touches (looked_up prev next curr old) q = prev.pid == q || next.pid == q
touches (removed prev next curr old) q = prev.pid == q || next.pid == q
touches (charged prev next curr) q = prev.pid == q || next.pid == q
