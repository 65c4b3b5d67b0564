-- ===== src/Local/Start.antt =====
-- How two paired processes of Part 1-2/s2dsm.c come to their prompts, and what they show there.
use sbu_cse_506_operating_sy.Prelude.{
  ℕ, ◌*◌, ◌<◌, ◌≡◌, refl, ◌∙◌, Bool, true, false, Option, some, List, [], All, map, arith,
}
use sbu_cse_506_operating_sy.Calls.{
  Call, open_userfaultfd, agree_on_api, register_range, create_fault_thread, Ending, done, and_then,
  attempts, fault_calls,
}
use sbu_cse_506_operating_sy.S2dsm.Region.{Region, Vm}
use sbu_cse_506_operating_sy.S2dsm.Prompt.{Command, untouched}
use sbu_cse_506_operating_sy.S2dsm.Memory.{answers, IsProper}
use sbu_cse_506_operating_sy.S2dsm.Start.{Os, scanned, meet}
use sbu_cse_506_operating_sy.S2dsm.Start.Ready.{meet_lem}
use sbu_cse_506_operating_sy.Local.{session}
use sbu_cse_506_operating_sy.Local.Session.{is_local, session-HasTexts, untouched-HasTexts}

-- A process at its prompt.
pub record Started : Type 0 where
  pub num_pages : ℕ
  pub addr : ℕ
  pub region : Region

unfoldable pub finish : Os → ℕ → ℕ → Ending Started
finish os num_pages addr =
    and_then (attempts os.succeeds fault_calls)
      (λ _. done (record { num_pages = num_pages; addr = addr; region = untouched os.byte }))

unfoldable pub start : Os → Os → Option ℕ → Ending Started × Ending Started
start first second typed = meet finish first second typed

-- A process at its prompt, at the start.
abbrev begun : Os → ℕ → ℕ → Started
begun os num_pages addr = record { num_pages = num_pages; addr = addr; region = untouched os.byte }

finish-done :
    (os : Os) (num_pages addr : ℕ)
    → ((c : Call) → os.succeeds c ≡ true)
    → finish os num_pages addr ≡ done (begun os num_pages addr)
unfolding finish attempts
finish-done os num_pages addr ok =
    rw (ok open_userfaultfd, ok agree_on_api, ok register_range, ok create_fault_thread) refl

abbrev at_prompt : List Command → List (Bool × Command)
at_prompt cs = map (λ c. (false, c)) cs

-- If all calls of two processes succeed, `mmap` at both included, and the length of the memory is within
-- `int`, then both come to their prompts with the number of pages that was typed in, and from
-- there on the proper commands without `v` at either prompt complete and show what a memory of its own
-- answers whose pages are empty at first: neither shows what is written at the other one. Proper are
-- requests for pages of the region, and messages of 1 to 4095 bytes, none of them 0, other than the
-- text "NULL".
pub session-start-each :
    (vm : Vm) (first second : Os) (typed : Option ℕ) (addr peer_addr : ℕ)
    (cs peer_cs : List Command)
    → let n = scanned typed in
      n < 524288
      → ((c : Call) → first.succeeds c ≡ true)
      → ((c : Call) → second.succeeds c ≡ true)
      → first.mmap 0 (n * 4096) ≡ some addr
      → second.mmap addr (n * 4096) ≡ some peer_addr
      → All (λ c. is_local c ≡ true) cs
      → All (IsProper 4095 n) cs
      → All (λ c. is_local c ≡ true) peer_cs
      → All (IsProper 4095 n) peer_cs
      → (p : Started) × (q : Started) × (r : Region) × (r' : Region) × (start first second typed
          ≡ (done p, done q))
        × (p.num_pages ≡ n)
        × (q.num_pages ≡ n)
        × (session vm n cs p.region ≡ some (r, answers n (at_prompt cs) (λ _. [])))
        × (session vm n peer_cs q.region ≡ some (r', answers n (at_prompt peer_cs) (λ _. [])))
unfolding start
session-start-each vm first second typed addr peer_addr cs peer_cs small ok ok' h g l p l' p' =
    let n = scanned typed in
    let (_, _, ready) = meet_lem finish first second typed (omega (arith, small)) in
    let (r, run) = session-HasTexts vm n cs (λ _. []) _ l p (untouched-HasTexts first.byte) in
    let (r', run') =
      session-HasTexts vm n peer_cs (λ _. []) _ l' p' (untouched-HasTexts second.byte) in
    (
      begun first n addr,
      begun second n peer_addr,
      r,
      r',
      ready addr h ∙ rw (g, finish-done first n addr ok, finish-done second n peer_addr ok') refl,
      refl,
      refl,
      run,
      run',
    )
