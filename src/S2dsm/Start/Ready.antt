-- ===== src/S2dsm/Start/Ready.antt =====
-- Where two paired instances end up, and what they show from there on.
use sbu_cse_506_operating_sy.Prelude.{
  ℕ, ◌+◌, ◌*◌, ◌<◌, ◌≡◌, refl, ◌∙◌, Bool, true, false, ◌&&◌, Option, none, some, List, [], ◌∷◌, map,
  All, arith, lt→ltb,
}
use sbu_cse_506_operating_sy.Calls.{
  Ending, done, exits, faults, exit_failure, attempts, Call, open_userfaultfd, agree_on_api,
  register_range, create_fault_thread, create_responder,
}
use sbu_cse_506_operating_sy.S2dsm.Region.{Vm}
use sbu_cse_506_operating_sy.S2dsm.Protocol.{System, max_pages, modified}
use sbu_cse_506_operating_sy.S2dsm.Bounds.{fill_with_invalid_lem, filled}
use sbu_cse_506_operating_sy.S2dsm.Prompt.{Command, Shown, session, untouched}
use sbu_cse_506_operating_sy.S2dsm.Memory.{without_states, answers, IsProper}
use sbu_cse_506_operating_sy.S2dsm.Memory.Commands.{session-Completes, boot-Holds}
use sbu_cse_506_operating_sy.S2dsm.Pairing.{length_of}
use sbu_cse_506_operating_sy.S2dsm.Request.{strtok}
use sbu_cse_506_operating_sy.S2dsm.Offer.{parse_offer}
use sbu_cse_506_operating_sy.S2dsm.Offer.RoundTrip.{parse_offer-offer_text}
use sbu_cse_506_operating_sy.S2dsm.Start.{
  Os, Started, finish, scanned, go_on, share, join, meet, start,
}

module _ {A : Type 0} (finish : Os → ℕ → ℕ → Ending A) where
  meet-unmapped :
      (first second : Os) (typed : Option ℕ)
      → first.mmap 0 (length_of (scanned typed)) ≡ none
      → meet finish first second typed ≡ (exits exit_failure, faults)
  unfolding meet share join parse_offer strtok
  meet-unmapped first second typed h = rw h refl

  meet-mapped :
      (first second : Os) (typed : Option ℕ) (addr : ℕ)
      → let n = scanned typed in
        n < 4503599627370496
        → first.mmap 0 (length_of n) ≡ some addr
        → meet finish first second typed
          ≡ (finish first n addr, go_on finish second n (second.mmap addr (n * 4096)))
  unfolding meet share join
  meet-mapped first second typed addr small h =
      let n = scanned typed in
      let read = parse_offer-offer_text n addr small (first.mmap_bound 0 (length_of n) addr h) in
      rw (h, read) refl

  -- At both stages, if the length of the memory does not wrap around: when `mmap` fails at the instance
  -- that asks, as it does for 0 pages, that one exits with EXIT_FAILURE, and the other one takes a NULL
  -- token for a string; otherwise the other one calls `mmap` with the same length and the address that
  -- the first one got, and either both go on with the same number of pages, each at its own address, or
  -- only the first one does and the other one exits.
  pub meet_lem :
      (first second : Os) (typed : Option ℕ)
      → let n = scanned typed in
        n < 4503599627370496
        → (n ≡ 0 → meet finish first second typed ≡ (exits exit_failure, faults))
          × (first.mmap 0 (n * 4096) ≡ none
              → meet finish first second typed ≡ (exits exit_failure, faults))
          × ((addr : ℕ)
              → first.mmap 0 (n * 4096) ≡ some addr
              → meet finish first second typed
                ≡ (finish first n addr, go_on finish second n (second.mmap addr (n * 4096))))
  meet_lem first second typed small =
      let n = scanned typed in
      let len : length_of n ≡ n * 4096 = omega arith in
      (
        λ zero_pages. meet-unmapped first second typed (rw zero_pages (first.mmap_nothing 0)),
        λ h. meet-unmapped first second typed (rw len h),
        λ addr h. meet-mapped first second typed addr small (rw len h),
      )

-- An instance at its prompt, at the start.
abbrev begun : Os → ℕ → ℕ → Started
begun os num_pages addr = record {
  num_pages = num_pages;
  base_addr = addr;
  node = record {
    msi_array = filled (num_pages + 1) 0 (λ _. modified);
    region = untouched os.byte;
  };
}

-- An instance all of whose calls succeed.
finish-done :
    (os : Os) (num_pages addr : ℕ)
    → ((c : Call) → os.succeeds c ≡ true)
    → num_pages < max_pages
    → finish os num_pages addr ≡ done (begun os num_pages addr)
unfolding finish attempts
finish-done os num_pages addr ok bound =
    rw
      (
        ok open_userfaultfd,
        ok agree_on_api,
        ok register_range,
        ok create_fault_thread,
        fill_with_invalid_lem,
        lt→ltb num_pages max_pages bound,
        ok create_responder,
      )
      refl

anywhere : (cs : List (Bool × Command)) → All {A = Bool × Command} (λ c. (false && c.0) ≡ false) cs
anywhere [] = tt
anywhere (c ∷ cs) = (refl, anywhere cs)

-- If all calls of two instances succeed, `mmap` at both included, and fewer than 100 pages are asked
-- for, then both come to their prompts with that number of pages, and every session of proper commands
-- there, each completed before the next, completes and shows what one memory answers whose pages are
-- empty at first (the listings of states aside). Proper are requests for pages of the region, and
-- messages of 1 to 511 bytes, none of them 0, other than the text "NULL".
pub session-start :
    (vm : Vm) (first second : Os) (typed : Option ℕ) (addr peer_addr : ℕ)
    (cs : List (Bool × Command))
    → let n = scanned typed in
      n < 100
      → ((c : Call) → first.succeeds c ≡ true)
      → ((c : Call) → second.succeeds c ≡ true)
      → first.mmap 0 (n * 4096) ≡ some addr
      → second.mmap addr (n * 4096) ≡ some peer_addr
      → All (λ c. IsProper 511 n c.1) cs
      → (p : Started) × (q : Started) × (t : System) × (outputs : List Shown) × (start first second
            typed
          ≡ (done p, done q))
        × (p.num_pages ≡ n)
        × (q.num_pages ≡ n)
        × (session vm n cs (record { here = p.node; peer = q.node }) ≡ some (t, outputs))
        × (map without_states outputs ≡ answers n cs (λ _. []))
unfolding start
session-start vm first second typed addr peer_addr cs bound ok ok' h g proper =
    let n = scanned typed in
    let (t, outputs, run, agree) =
      session-Completes vm false n bound cs (λ _. []) _ (anywhere cs) proper
        (boot-Holds false n (λ _. modified) first.byte second.byte) in
    let (_, _, ready) = meet_lem finish first second typed (omega arith) in
    (
      begun first n addr,
      begun second n peer_addr,
      t,
      outputs,
      ready addr h
          ∙ rw (g, finish-done first n addr ok bound, finish-done second n peer_addr ok' bound)
              refl,
      refl,
      refl,
      run,
      agree,
    )
