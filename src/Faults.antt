-- ===== src/Faults.antt =====
-- `fault_handler_thread` of uffd.c and of s2dsm.c at both stages: the loop that waits for events of the
-- userfaultfd and answers each page fault, and the ways in which it ends the whole process.
pub mod Threads
use sbu_cse_506_operating_sy.Prelude.{ℕ, ◌/◌, Bool, true, false, List, [], ◌∷◌, if◌then◌else◌}
use sbu_cse_506_operating_sy.Calls.{Ending, done, exits, exit_failure}
use sbu_cse_506_operating_sy.S2dsm.Region.{Region, Vm, fault_handler}
use sbu_cse_506_operating_sy.Uffd as Uffd
use sbu_cse_506_operating_sy.Uffd.{Demo}

-- What ends the process in a round: `poll`, the end of the file, `read`, an event of another kind, or
-- the `ioctl` that is to copy the page (which ends it also where the page is there already: EEXIST).
pub data Failure : Type 0 where
  poll_failed end_of_file read_failed other_event copy_failed : Failure

-- What one round comes to: a failure, or a page fault at an address that is answered.
pub data Event : Type 0 where
  failure : Failure → Event
  page_fault : ℕ → Event

module _ {A : Type 0} (present : A → ℕ → Bool) (round : A → ℕ → A) where
  -- The loop, with what a page fault does; without further events it waits in `poll`.
  unfoldable pub handle : List Event → A → A × Ending (Unit {0})
  handle [] a = (a, done tt)
  handle (failure kind ∷ events) a = (a, exits exit_failure)
  handle (page_fault address ∷ events) a =
      let rest = handle events (round a address) in
      if present a address then (a, exits exit_failure) else rest

  -- The thread; the flag says whether the page that is copied from could be mapped.
  abbrev pub thread : Bool → List Event → A → A × Ending (Unit {0})
  thread false events a = (a, exits exit_failure)
  thread true events a = handle events a

abbrev pub is_resident : Region → ℕ → Bool
is_resident r address = r.resident (address / 4096)

module _ (vm : Vm) where
  -- Part 3/s2dsm.c
  unfoldable pub s2dsm_thread : Bool → List Event → Region → Region × Ending (Unit {0})
  s2dsm_thread page_mapped events r = thread is_resident (fault_handler vm) page_mapped events r

  -- Part 1-2/s2dsm.c
  unfoldable pub local_thread : Bool → List Event → Region → Region × Ending (Unit {0})
  local_thread page_mapped events r = thread is_resident (fault_handler vm) page_mapped events r

  -- uffd.c
  unfoldable pub uffd_thread : Bool → List Event → Demo → Demo × Ending (Unit {0})
  uffd_thread page_mapped events d =
      thread (λ e. is_resident e.region) (Uffd.fault_handler_thread vm) page_mapped events d
