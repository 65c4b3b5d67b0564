-- ===== src/S2dsm/Memory/Commands.antt =====
-- A command at either prompt completes, keeps the memory and shows what the memory answers; so does a
-- whole session.
use sbu_cse_506_operating_sy.Prelude.{
  ℕ, ◌+◌, ◌*◌, ◌<◌, ◌≡◌, refl, ap₂, ◌∙◌, Bool, true, false, Option, some, ◌>>=◌, List, [], ◌∷◌, ltb,
  leb, ◌&&◌, All, map, arith, lt→ltb,
}
use sbu_cse_506_operating_sy.S2dsm.Region.{page_size, Vm}
use sbu_cse_506_operating_sy.S2dsm.Text.{string_at_zero}
use sbu_cse_506_operating_sy.S2dsm.Region.View.{view}
use sbu_cse_506_operating_sy.S2dsm.Bounds.{filled, fill_with_invalid_lem}
use sbu_cse_506_operating_sy.S2dsm.Protocol.{
  MsiState, modified, shared, invalid, System, swap, max_pages, first_page, rounds, read_command,
  write_command,
}
use sbu_cse_506_operating_sy.S2dsm.Prompt.{
  Command, read, write, view_states, unknown, Shown, texts, states, refused, execute, execute_at,
  session, print_msi_array, boot, untouched,
}
use sbu_cse_506_operating_sy.S2dsm.Memory.{
  Memory, longest, Holds, IsKept, write_pages, read_pages, memory_after, answer, answers,
  without_states, IsProper,
}
use sbu_cse_506_operating_sy.S2dsm.Memory.Loops.{read_loop, show_loop, write_loop, pages-within}

IsKept-swap :
    (alone : Bool) (a b : MsiState) (m : List ℕ)
    → IsKept (longest alone) a b m
    → IsKept (longest alone) b a m
IsKept-swap alone modified modified m k = k
IsKept-swap alone modified shared m k = k
IsKept-swap alone modified invalid m k = k
IsKept-swap alone shared modified m k = k
IsKept-swap alone shared shared m k = k
IsKept-swap alone shared invalid m k = k
IsKept-swap alone invalid modified m k = k
IsKept-swap alone invalid shared m k = k
IsKept-swap alone invalid invalid m k = k

module _ (vm : Vm) (alone : Bool) (num_pages : ℕ) (bound : num_pages < 100) where
  -- What a command does, completed, over a memory.
  abbrev pub Completes : Option (System × Shown) → Shown → Memory → Type 0
  Completes run expected_answer mem =
      (t : System) × (shown : Shown) × (run ≡ some (t, shown))
      × (without_states shown ≡ expected_answer)
      × Holds alone num_pages mem t

  execute-Completes :
      (c : Command) (mem : Memory) (s : System)
      → IsProper (longest alone) num_pages c
      → Holds alone num_pages mem s
      → Completes (execute vm num_pages c s) (answer num_pages c mem) (memory_after num_pages c mem)
  unfolding execute read_command write_command
  execute-Completes (read request) mem s ok h =
      let (t, run, kept) =
        read_loop vm alone num_pages bound (rounds num_pages request) (first_page request) mem s
          (pages-within vm alone num_pages bound request ok) h in
      (
        t,
        texts (read_pages (rounds num_pages request) (first_page request) mem),
        rw run refl,
        refl,
        kept,
      )
  execute-Completes (write request message) mem s ok h =
      let k = rounds num_pages request in
      let page = first_page request in
      let within = pages-within vm alone num_pages bound request ok.0 in
      let (u, updated, written, states_after) =
        write_loop vm alone num_pages bound k page message mem s within ok.1 h in
      let (t, run, kept) =
        show_loop vm alone num_pages bound k page false (write_pages k page message mem) u within
          (λ q a b. ground (arith, states_after q)) written in
      (
        t,
        texts (read_pages k page (write_pages k page message mem)),
        rw (updated, run) refl,
        refl,
        kept,
      )
  execute-Completes view_states mem s ok h =
      (s, states (print_msi_array num_pages 0 s.here.msi_array), refl, refl, h)
  execute-Completes unknown mem s ok h = (s, refused, refl, refl, h)

  Holds-swap :
      (mem : Memory) (s : System)
      → alone ≡ false
      → Holds alone num_pages mem s
      → Holds alone num_pages mem (swap s)
  Holds-swap mem s pair h = record {
    here_text = h.peer_text;
    peer_text = h.here_text;
    kept = λ q l. IsKept-swap alone (s.here.msi_array q) (s.peer.msi_array q) (mem q) (h.kept q l);
    peer_lacks = λ e. absurd (cc (e, pair));
  }

  execute_at-Completes :
      (at_peer : Bool) (c : Command) (mem : Memory) (s : System)
      → (alone && at_peer) ≡ false
      → IsProper (longest alone) num_pages c
      → Holds alone num_pages mem s
      → Completes
          (execute_at vm num_pages at_peer c s)
          (answer num_pages c mem)
          (memory_after num_pages c mem)
  unfolding execute_at
  execute_at-Completes false c mem s here ok h = execute-Completes c mem s ok h
  execute_at-Completes true c mem s here ok h =
      let (t, shown, run, same, kept) =
        execute-Completes c mem (swap s) ok (Holds-swap mem s (ground arith) h) in
      (
        swap t,
        shown,
        rw run refl,
        same,
        Holds-swap (memory_after num_pages c mem) t (ground arith) kept,
      )

  pub session-Completes :
      (cs : List (Bool × Command)) (mem : Memory) (s : System)
      → All {A = Bool × Command} (λ c. (alone && c.0) ≡ false) cs
      → All (λ c. IsProper (longest alone) num_pages c.1) cs
      → Holds alone num_pages mem s
      → (t : System) × (outputs : List Shown) × (session vm num_pages cs s ≡ some (t, outputs))
        × (map without_states outputs ≡ answers num_pages cs mem)
  unfolding session answers
  session-Completes [] mem s at ok h = (s, [], refl, refl)
  session-Completes ((at_peer, c) ∷ cs) mem s at ok h =
      let (u, shown, run, same, kept) = execute_at-Completes at_peer c mem s at.0 ok.0 h in
      let (t, outputs, rest, agree) =
        session-Completes cs (memory_after num_pages c mem) u at.1 ok.1 kept in
      (t, shown ∷ outputs, rw (run, rest) refl, ap₂ ◌∷◌ same agree)

-- At the start every page is in state I at both processes, and none is there.
inside : (num_pages q : ℕ) → q < num_pages → (leb 0 q && ltb q (0 + (num_pages + 1))) ≡ true
inside num_pages q l = ground arith

pub boot-Holds :
    (alone : Bool) (num_pages : ℕ) (f : ℕ → MsiState) (byte peer_byte : ℕ → ℕ)
    → let states = filled (num_pages + 1) 0 f in
      Holds alone num_pages
        (λ _. [])
        (record {
          here = record { msi_array = states; region = untouched byte };
          peer = record { msi_array = states; region = untouched peer_byte };
        })
boot-Holds alone num_pages f byte peer_byte =
    let nothing =
      λ (b : ℕ → ℕ) (q : ℕ). string_at_zero 4096 (q * page_size) (view (untouched b)) refl in
    record {
      here_text = λ q l. nothing byte q ∙ ground arith;
      peer_text = λ q l. nothing peer_byte q ∙ ground arith;
      kept = λ q l. rw (inside num_pages q l) refl;
      peer_lacks = λ e q l. rw (inside num_pages q l) refl;
    }

-- With fewer than 100 pages, every session of proper commands at the two prompts, each completed
-- before the next, completes from the start on, and shows what one memory answers whose pages are
-- empty at first (the listings of states aside): each read shows, at whichever prompt, the message
-- that was last written to each of its pages, and each write the message on each of its pages.
-- Proper are requests for pages of the region, and messages of 1 to 511 bytes, none of them 0, other
-- than the text "NULL"; with all commands at one prompt, of up to 4095 bytes.
pub session-boot :
    (vm : Vm) (alone : Bool) (num_pages : ℕ) (byte : ℕ → ℕ) (cs : List (Bool × Command))
    → num_pages < 100
    → All {A = Bool × Command} (λ c. (alone && c.0) ≡ false) cs
    → All (λ c. IsProper (longest alone) num_pages c.1) cs
    → (t : System) × (outputs : List Shown) × ((boot num_pages byte >>= session vm num_pages cs)
        ≡ some (t, outputs))
      × (map without_states outputs ≡ answers num_pages cs (λ _. []))
unfolding boot
session-boot vm alone num_pages byte cs bound at ok =
    let (t, outputs, run, agree) =
      session-Completes vm alone num_pages bound cs (λ _. []) _ at ok
        (boot-Holds alone num_pages (λ _. modified) byte byte) in
    (t, outputs, rw (fill_with_invalid_lem, lt→ltb num_pages max_pages bound) run, agree)
