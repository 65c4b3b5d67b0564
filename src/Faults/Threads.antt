-- ===== src/Faults/Threads.antt =====
-- What the threads that answer page faults leave of the memory, for any series of events.
use sbu_cse_506_operating_sy.Prelude.{
  ℕ, ◌+◌, ◌/◌, ◌<◌, ◌≡◌, refl, ◌∙◌, Bool, true, false, List, [], ◌∷◌, ◌==◌, ◌||◌, if◌then◌else◌,
  length, arith,
}
use sbu_cse_506_operating_sy.Calls.{Ending, done, exits, exit_failure}
use sbu_cse_506_operating_sy.S2dsm.Region.{Region, Vm, fault_handler}
use sbu_cse_506_operating_sy.S2dsm.Region.View.{view}
use sbu_cse_506_operating_sy.Uffd as Uffd
use sbu_cse_506_operating_sy.Uffd.{Demo, letter}
use sbu_cse_506_operating_sy.Faults.{
  Event, failure, page_fault, is_resident, handle, s2dsm_thread, local_thread, uffd_thread,
}

-- The page faults before anything else, and whether there is nothing else.
unfoldable pub served : List Event → List ℕ
served [] = []
served (failure kind ∷ events) = []
served (page_fault address ∷ events) = address ∷ served events

unfoldable pub only_faults : List Event → Bool
only_faults [] = true
only_faults (failure kind ∷ events) = false
only_faults (page_fault address ∷ events) = only_faults events

abbrev pub ending : Bool → Ending (Unit {0})
ending carries_on = if carries_on then done tt else exits exit_failure

unfoldable pub is_page_of : ℕ → List ℕ → Bool
is_page_of q [] = false
is_page_of q (a ∷ addresses) = (a / 4096 == q) || is_page_of q addresses

-- The addresses are on different pages, all of them missing in the region.
unfoldable pub AreMissing : List ℕ → Region → Type 0
AreMissing [] r = Unit {0}
AreMissing (a ∷ addresses) r =
    (r.resident (a / 4096) ≡ false)
    × (is_page_of (a / 4096) addresses ≡ false)
    × AreMissing addresses r

-- The memory with each of these pages filled with the next letter, in turn.
unfoldable pub lettered : ℕ → List ℕ → (ℕ → ℕ) → ℕ → ℕ
lettered n [] f = f
lettered n (a ∷ addresses) f =
    lettered (n + 1) addresses (λ b. if a / 4096 == b / 4096 then letter n else f b)

module _ (vm : Vm) where
  open vm use {resident-uffdio_copy, byte-uffdio_copy}

  resident-fault_handler :
      (r : Region) (a q : ℕ)
      → (fault_handler vm r a).resident q ≡ (if a / 4096 == q then true else r.resident q)
  unfolding fault_handler
  resident-fault_handler r a q = resident-uffdio_copy r (a / 4096) (λ _. 0) q

  -- A page that is missing is seen as zeros, before and after.
  view-fault_handler :
      (r : Region) (a b : ℕ)
      → r.resident (a / 4096) ≡ false
      → view (fault_handler vm r a) b ≡ view r b
  unfolding fault_handler
  view-fault_handler r a b h = ground (
    arith,
    resident-uffdio_copy r (a / 4096) (λ _. 0) (b / 4096),
    byte-uffdio_copy r (a / 4096) (λ _. 0) b,
  )

  fault_handler-AreMissing :
      (addresses : List ℕ) (a : ℕ) (r : Region)
      → is_page_of (a / 4096) addresses ≡ false
      → AreMissing addresses r
      → AreMissing addresses (fault_handler vm r a)
  unfolding is_page_of AreMissing
  fault_handler-AreMissing [] a r apart h = tt
  fault_handler-AreMissing (x ∷ addresses) a r apart h = (
    ground (arith, resident-fault_handler r a (x / 4096), h.0),
    h.1,
    fault_handler-AreMissing addresses a r (ground arith) h.2,
  )

  -- The memory after a run, and how the run ends.
  pub record IsServed (events : List Event) (r : Region) (after : Region × Ending (Unit {0}))
      : Type 0 where
    pub same : (b : ℕ) → view after.0 b ≡ view r b
    pub present : (q : ℕ) → after.0.resident q ≡ (is_page_of q (served events) || r.resident q)
    pub ends : after.1 ≡ ending (only_faults events)

  handle-IsServed :
      (events : List Event) (r : Region)
      → AreMissing (served events) r
      → IsServed events r (handle is_resident (fault_handler vm) events r)
  unfolding handle served only_faults is_page_of AreMissing
  handle-IsServed [] r h = record { same = λ b. refl; present = λ q. refl; ends = refl }
  handle-IsServed (failure kind ∷ events) r h = record {
    same = λ b. refl;
    present = λ q. refl;
    ends = refl;
  }
  handle-IsServed (page_fault a ∷ events) r h =
      let rest =
        handle-IsServed events (fault_handler vm r a)
          (fault_handler-AreMissing (served events) a r h.1 h.2) in
      rw h.0 (record {
        same = λ b. rest.same b ∙ view-fault_handler r a b h.0;
        present = λ q. rest.present q ∙ ground (arith, resident-fault_handler r a q);
        ends = rest.ends;
      })

  -- At both stages of s2dsm.c, if each page fault is at a page that is missing and was not faulted
  -- before: whatever the events, the program sees the same memory after the thread's run as before it,
  -- exactly the pages of the faults before the first failure have been added to those that are there,
  -- and the process ends, with EXIT_FAILURE, exactly if there is a failure.
  pub threads-IsServed :
      (events : List Event) (r : Region)
      → AreMissing (served events) r
      → IsServed events r (s2dsm_thread vm true events r)
        × IsServed events r (local_thread vm true events r)
  unfolding s2dsm_thread local_thread
  threads-IsServed events r h = (handle-IsServed events r h, handle-IsServed events r h)

  fault_handler_thread-view :
      (d : Demo) (a b : ℕ)
      → view (Uffd.fault_handler_thread vm d a).region b
        ≡ (if a / 4096 == b / 4096 then letter d.fault_cnt else view d.region b)
  unfolding Uffd.fault_handler_thread
  fault_handler_thread-view d a b = ground (
    arith,
    resident-uffdio_copy d.region (a / 4096) (λ _. letter d.fault_cnt) (b / 4096),
    byte-uffdio_copy d.region (a / 4096) (λ _. letter d.fault_cnt) b,
  )

  fault_cnt-fault_handler_thread :
      (d : Demo) (a : ℕ) → (Uffd.fault_handler_thread vm d a).fault_cnt ≡ d.fault_cnt + 1
  unfolding Uffd.fault_handler_thread
  fault_cnt-fault_handler_thread d a = refl

  fault_handler_thread-AreMissing :
      (addresses : List ℕ) (a : ℕ) (d : Demo)
      → is_page_of (a / 4096) addresses ≡ false
      → AreMissing addresses d.region
      → AreMissing addresses (Uffd.fault_handler_thread vm d a).region
  unfolding is_page_of AreMissing Uffd.fault_handler_thread
  fault_handler_thread-AreMissing [] a d apart h = tt
  fault_handler_thread-AreMissing (x ∷ addresses) a d apart h = (
    ground
        (arith, resident-uffdio_copy d.region (a / 4096) (λ _. letter d.fault_cnt) (x / 4096), h.0),
    h.1,
    fault_handler_thread-AreMissing addresses a d (ground arith) h.2,
  )

  lettered-ext :
      (n : ℕ) (addresses : List ℕ) (f g : ℕ → ℕ) (b : ℕ)
      → ((c : ℕ) → f c ≡ g c)
      → lettered n addresses f b ≡ lettered n addresses g b
  unfolding lettered
  lettered-ext n [] f g b h = h b
  lettered-ext n (a ∷ addresses) f g b h = lettered-ext (n + 1) addresses _ _ b (λ c. rw (h c) refl)

  -- In uffd.c, if each page fault is at a page that is missing and was not faulted before, and the count
  -- stays within `int`: whatever the events, each page fault before the first failure fills its page
  -- with the next letter, the count goes up by one for each, and the process ends, with EXIT_FAILURE,
  -- exactly if there is a failure.
  pub uffd_thread-lettered :
      (events : List Event) (d : Demo)
      → AreMissing (served events) d.region
      → d.fault_cnt + length (served events) < 2147483648
      → let after = uffd_thread vm true events d in
        ((b : ℕ) → view after.0.region b ≡ lettered d.fault_cnt (served events) (view d.region) b)
        × (after.0.fault_cnt ≡ d.fault_cnt + length (served events))
        × (after.1 ≡ ending (only_faults events))
  unfolding uffd_thread handle served only_faults lettered AreMissing is_page_of
  uffd_thread-lettered [] d h small = (λ b. refl, omega arith, refl)
  uffd_thread-lettered (failure kind ∷ events) d h small = (λ b. refl, omega arith, refl)
  uffd_thread-lettered (page_fault a ∷ events) d h small =
      let next = Uffd.fault_handler_thread vm d a in
      let counted : next.fault_cnt ≡ d.fault_cnt + 1 = fault_cnt-fault_handler_thread d a in
      let (seen, count, ends) =
        uffd_thread-lettered events next
          (fault_handler_thread-AreMissing (served events) a d h.1 h.2) (omega (arith, counted)) in
      rw h.0 (
        λ b.
            seen b
            ∙ rw counted (
                lettered-ext (d.fault_cnt + 1) (served events) _ _ b
                  (fault_handler_thread-view d a)),
        count ∙ omega (arith, counted),
        ends,
      )
