-- ===== src/Examples/StartRuns.antt =====
-- Two paired instances of s2dsm.c from the question for the number of pages on, at concrete inputs.
use sbu_cse_506_operating_sy.Prelude.{
  ℕ, ◌*◌, ◌<◌, ◌≡◌, refl, Bool, true, false, Option, none, some, List, [], ◌∷◌, ◌==◌, if◌then◌else◌,
  map, arith,
}
use sbu_cse_506_operating_sy.Calls.{done, exits, faults, exit_failure}
use sbu_cse_506_operating_sy.S2dsm.Region.{Region}
use sbu_cse_506_operating_sy.S2dsm.Protocol.{System, one, every}
use sbu_cse_506_operating_sy.S2dsm.Prompt.{
  Command, read, write, view_states, unknown, Shown, session,
}
use sbu_cse_506_operating_sy.S2dsm.Memory.{without_states, answers}
use sbu_cse_506_operating_sy.S2dsm.Start.{Os, Started, finish, go_on, meet, start}
use sbu_cse_506_operating_sy.S2dsm.Start.Ready.{meet_lem, session-start}
use sbu_cse_506_operating_sy.Local as Local
use sbu_cse_506_operating_sy.Local.Start as Start
use sbu_cse_506_operating_sy.Local.Start.{session-start-each}
use sbu_cse_506_operating_sy.Examples.Apis.{plain_vm}
use sbu_cse_506_operating_sy.Examples.SessionRuns.{hi, hi-IsMessage}

-- Memory of any size but 0 can be had, at one address.
abbrev place : ℕ
place = 139637976727552

abbrev mmap_place : ℕ → ℕ → Option ℕ
mmap_place hint len = if len == 0 then none else some place

mmap_place-lt : (hint len addr : ℕ) → mmap_place hint len ≡ some addr → addr < 18446744073709551616
mmap_place-lt hint len addr h = ground arith

abbrev plain_os : Os
plain_os = record {
  succeeds = λ c. true;
  mmap = mmap_place;
  token = 0;
  byte = λ a. 7;
  mmap_nothing = λ hint. refl;
  mmap_bound = mmap_place-lt;
}

meet_lem_example :
    (◌≡◌ {A = ℕ} 3 0 → meet finish plain_os plain_os (some 3) ≡ (exits exit_failure, faults))
    × (plain_os.mmap 0 (3 * 4096) ≡ none
        → meet finish plain_os plain_os (some 3) ≡ (exits exit_failure, faults))
    × ((addr : ℕ)
        → plain_os.mmap 0 (3 * 4096) ≡ some addr
        → meet finish plain_os plain_os (some 3)
          ≡ (finish plain_os 3 addr, go_on finish plain_os 3 (plain_os.mmap addr (3 * 4096))))
meet_lem_example = meet_lem finish plain_os plain_os (some 3) (omega arith)

-- "hi" is written to page 1 at one prompt and read at the other; then all pages are read there.
abbrev commands : List (Bool × Command)
commands =
    (false, write (one 1) hi)
    ∷ (true, read (one 1))
    ∷ (true, read every)
    ∷ (false, view_states)
    ∷ []

session-start_example :
    (p : Started) × (q : Started) × (t : System) × (outputs : List Shown) × (start plain_os plain_os
        (some 2)
      ≡ (done p, done q))
    × (p.num_pages ≡ 2)
    × (q.num_pages ≡ 2)
    × (session plain_vm 2 commands (record { here = p.node; peer = q.node }) ≡ some (t, outputs))
    × (map without_states outputs ≡ answers 2 commands (λ _. []))
session-start_example =
    session-start plain_vm plain_os plain_os (some 2) place place commands (omega arith) (λ c. refl)
      (λ c. refl) refl refl
      ((omega arith, hi-IsMessage 511 (omega arith)), (omega arith, (omega arith, (tt, tt))))

abbrev local_commands : List Command
local_commands = write (one 1) hi ∷ read every ∷ unknown ∷ []

abbrev peer_commands : List Command
peer_commands = read (one 1) ∷ []

session-start-each_example :
    (p : Start.Started) × (q : Start.Started) × (r : Region) × (r' : Region) × (Start.start plain_os
        plain_os
        (some 200)
      ≡ (done p, done q))
    × (p.num_pages ≡ 200)
    × (q.num_pages ≡ 200)
    × (Local.session plain_vm 200 local_commands p.region
        ≡ some (r, answers 200 (map (λ c. (false, c)) local_commands) (λ _. [])))
    × (Local.session plain_vm 200 peer_commands q.region
        ≡ some (r', answers 200 (map (λ c. (false, c)) peer_commands) (λ _. [])))
session-start-each_example =
    session-start-each plain_vm plain_os plain_os (some 200) place place local_commands
      peer_commands (omega arith) (λ c. refl) (λ c. refl) refl refl (refl, (refl, (refl, tt)))
      ((omega arith, hi-IsMessage 4095 (omega arith)), (omega arith, (tt, tt))) (refl, tt)
      (omega arith, tt)
