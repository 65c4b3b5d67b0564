-- ===== src/Perftop/Cpus/Runs.antt =====
-- Runs in which handlers overtake one another.
use sbu_cse_506_operating_sy.Prelude.{ℕ, ◌≡◌, refl, false, List, []}
use sbu_cse_506_operating_sy.Kernel.Chain.{HashApi}
use sbu_cse_506_operating_sy.Kernel.Tree.{RbApi}
use sbu_cse_506_operating_sy.Perftop.{Entry, lookup_hash_table}
use sbu_cse_506_operating_sy.Perftop.Probe.{initial, run}
use sbu_cse_506_operating_sy.Perftop.Accounting.{run-IsValid}
use sbu_cse_506_operating_sy.Perftop.Cpus.{
  no_handler, Machine, Switch, Move, look, pass, remove, lock_and_charge, insert, one_by_one,
  touches,
}
use sbu_cse_506_operating_sy.Perftop.Cpus.Serial.{IsDisjoint, Follows, Step-Follows}
use sbu_cse_506_operating_sy.Perftop.Cpus.Moves.{
  look-Step, pass-Step, remove-Step, charge-Step, insert-Step,
}

-- The module after its start, with no handler at work.
abbrev pub at_start : Machine
at_start = record { state = initial; handler = λ c. no_handler }

module _ (hash : HashApi Entry) (rb : RbApi Entry) where
  Move-Follows :
      {cpu : ℕ} {m u : Machine} {log log' : List Switch}
      → Move hash rb cpu m log u log'
      → IsDisjoint m
      → IsDisjoint u
      → Follows hash rb m (one_by_one hash rb log initial)
      → Follows hash rb u (one_by_one hash rb log' initial)
  unfolding one_by_one
  Move-Follows {cpu} {m} {u} {log} {log'} (look prev next curr e n) i j f =
      Step-Follows hash rb cpu _ m _ _ _ i j f (look-Step hash rb cpu m _ prev next curr e n j f)
  Move-Follows {cpu} {m} {u} {log} {log'} (pass prev next curr old e z) i j f =
      Step-Follows hash rb cpu _ m _ _ _ i j f (pass-Step hash rb cpu m _ prev next curr old e z f)
  Move-Follows {cpu} {m} {u} {log} {log'} (remove prev next curr old e z) i j f =
      Step-Follows hash rb cpu _ m _ _ _ i j f
        (remove-Step hash rb cpu m _ prev next curr old e z f)
  Move-Follows {cpu} {m} {u} {log} {log'} (lock_and_charge prev next curr old e) i j f =
      Step-Follows hash rb cpu _ m _ _ _ i j f (charge-Step hash rb cpu m _ prev next curr old e f)
  Move-Follows {cpu} {m} {u} {log} {log'} (insert prev next curr e) i j f =
      Step-Follows hash rb cpu _ m _ _ _ i j f (insert-Step hash rb cpu m _ prev next curr e f)

  -- From the start of the module on, moves of any processors in any order, with no pid at the switches
  -- of two of them at a time; the switches that were charged, the last one first.
  pub data Runs : Machine → List Switch → Type 0 where
    started : Runs at_start []
    moved :
        {cpu : ℕ} {m u : Machine} {log log' : List Switch}
        → Runs m log
        → Move hash rb cpu m log u log'
        → IsDisjoint u
        → Runs u log'

  Runs-IsDisjoint : {m : Machine} {log : List Switch} → Runs m log → IsDisjoint m
  Runs-IsDisjoint started = λ c d q o. refl
  Runs-IsDisjoint (moved r v j) = j

  Runs-Follows :
      {m : Machine} {log : List Switch}
      → Runs m log
      → Follows hash rb m (one_by_one hash rb log initial)
  unfolding one_by_one run
  Runs-Follows started = record {
    root = refl;
    unique = (run-IsValid hash rb []).unique;
    valid = run-IsValid hash rb [];
    proper = λ c. tt;
    link = λ c q t. tt;
    still = λ q away. refl;
  }
  Runs-Follows (moved r v j) = Move-Follows v (Runs-IsDisjoint r) j (Runs-Follows r)

  -- However the return handlers of any number of processors overtake one another between their calls,
  -- if no pid is at two of them at a time, then at every point, for a pid that no handler is at: the
  -- tree of totals is that of the switches charged so far, one after the other in that order, and the
  -- pid has the time stamp that it has there.
  pub Runs-one_by_one :
      {m : Machine} {log : List Switch}
      → Runs m log
      → (q : ℕ) → ((c : ℕ) → touches (m.handler c) q ≡ false)
      → (m.state.myroot ≡ (one_by_one hash rb log initial).myroot)
        × (lookup_hash_table hash m.state.myhashtable q
            ≡ lookup_hash_table hash (one_by_one hash rb log initial).myhashtable q)
  Runs-one_by_one r q away = let f = Runs-Follows r in (f.root, f.still q away)
