-- ===== src/Examples/UffdRuns.antt =====
-- uffd.c on a region of one page.
use sbu_cse_506_operating_sy.Prelude.{
  ℕ, ◌+◌, ◌*◌, ◌<◌, ◌≡◌, refl, true, false, not, ◌==◌, if◌then◌else◌, List, [], ◌∷◌, length, arith,
}
use sbu_cse_506_operating_sy.S2dsm.Region.View.{view}
use sbu_cse_506_operating_sy.Faults.{
  end_of_file, Event, failure, page_fault, s2dsm_thread, local_thread, uffd_thread,
}
use sbu_cse_506_operating_sy.Faults.Threads.{
  served, only_faults, ending, is_page_of, AreMissing, IsServed, lettered, threads-IsServed,
  uffd_thread-lettered,
}
use sbu_cse_506_operating_sy.Uffd.{Demo, touch, fault_handler_thread, read_pass}
use sbu_cse_506_operating_sy.Uffd.Passes.{samples, letters}
use sbu_cse_506_operating_sy.Calls.{done, exits, exit_failure}
use sbu_cse_506_operating_sy.S2dsm.Request.{digits}
use sbu_cse_506_operating_sy.Uffd.Program.{Os, program, program_lem}
use sbu_cse_506_operating_sy.Examples.Apis.{plain_vm}

abbrev untouched : Demo
untouched = record { region = record { resident = λ q. false; byte = λ a. 0 }; fault_cnt = 0 }

-- All memory can be had.
abbrev plain_os : Os
plain_os = record {
  succeeds = λ c. true;
  maps = λ len. not (len == 0);
  byte = λ a. 0;
  maps_nothing = refl;
}

-- "uffd 1"
program_lem_example :
    (program plain_vm plain_os ((b'u' ∷ []) ∷ digits 20 1 ∷ []) ≡ (
      if plain_os.maps (1 * 4096)
      then done (
          samples (4 * 1) 0 (letters 0)
          ∷ samples (4 * 1) 0 (letters 0)
          ∷ samples (4 * 1) 0 (letters 1)
          ∷ samples (4 * 1) 0 (letters 1)
          ∷ samples (4 * 1) 0 (λ _. b'@')
          ∷ samples (4 * 1) 0 (λ _. b'@')
          ∷ samples (4 * 1) 0 (λ _. b'^')
          ∷ samples (4 * 1) 0 (λ _. b'^')
          ∷ [])
      else exits exit_failure))
    × (program plain_vm plain_os ((b'u' ∷ []) ∷ digits 20 0 ∷ []) ≡ exits exit_failure)
    × (program plain_vm plain_os ((b'u' ∷ []) ∷ []) ≡ exits exit_failure)
program_lem_example = program_lem plain_vm plain_os (b'u' ∷ []) 1 (omega arith) (λ c. refl)

-- The first loop on one page.
first_loop : (read_pass plain_vm 5 0 4096 untouched).1 ≡ b'A' ∷ b'A' ∷ b'A' ∷ b'A' ∷ []
unfolding read_pass touch fault_handler_thread
first_loop = refl

-- Faults at pages 1 and 0, the end of the file, and a fault that is not looked at any more.
abbrev events : List Event
events = page_fault 5000 ∷ page_fault 12 ∷ failure end_of_file ∷ page_fault 9000 ∷ []

missing : AreMissing (served events) untouched.region
unfolding served AreMissing is_page_of
missing = (refl, refl, (refl, refl, tt))

few : 0 + length (served events) < 2147483648
unfolding served
few = omega arith

threads-IsServed_example :
    IsServed plain_vm events untouched.region (s2dsm_thread plain_vm true events untouched.region)
    × IsServed plain_vm events untouched.region (local_thread plain_vm true events untouched.region)
threads-IsServed_example = threads-IsServed plain_vm events untouched.region missing

uffd_thread-lettered_example :
    let after = uffd_thread plain_vm true events untouched in
    ((b : ℕ) → view after.0.region b ≡ lettered 0 (served events) (view untouched.region) b)
    × (after.0.fault_cnt ≡ 0 + length (served events))
    × (after.1 ≡ ending (only_faults events))
uffd_thread-lettered_example = uffd_thread-lettered plain_vm events untouched missing few
