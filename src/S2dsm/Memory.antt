-- ===== src/S2dsm/Memory.antt =====
-- One memory in place of the two processes: each page has one text, and a process that reads a page
-- sees what was last written to it, at whichever prompt. That s2dsm.c behaves so is shown below here.
pub mod Pages
pub mod Loops
pub mod Commands
use sbu_cse_506_operating_sy.Prelude.{
  ℕ, zero, suc, ◌+◌, ◌≤◌, ◌<◌, ◌≡◌, arith, Bool, true, false, List, [], ◌∷◌, ltb, leb, ◌&&◌,
  if◌then◌else◌, length, All,
}
use sbu_cse_506_operating_sy.S2dsm.Protocol.{
  MsiState, modified, shared, invalid, Node, System, null_text, text_eq, Request, one, every,
  first_page, rounds,
}
use sbu_cse_506_operating_sy.S2dsm.Text.{text_of}
use sbu_cse_506_operating_sy.S2dsm.Prompt.{
  Command, read, write, view_states, unknown, Shown, texts, states, refused,
}

abbrev pub Memory : Type 0
Memory = ℕ → List ℕ

abbrev pub write_pages : ℕ → ℕ → List ℕ → Memory → Memory
write_pages n page message mem q = if leb page q && ltb q (page + n) then message else mem q

unfoldable pub read_pages : ℕ → ℕ → Memory → List (List ℕ)
read_pages zero page mem = []
read_pages (suc n) page mem = mem page ∷ read_pages n (page + 1) mem

-- The memory after a command, and what is shown for it; the states of pages are not its matter.
abbrev pub memory_after : ℕ → Command → Memory → Memory
memory_after num_pages (read request) mem = mem
memory_after num_pages (write request message) mem =
    write_pages (rounds num_pages request) (first_page request) message mem
memory_after num_pages view_states mem = mem
memory_after num_pages unknown mem = mem

abbrev pub answer : ℕ → Command → Memory → Shown
answer num_pages (read request) mem =
    texts (read_pages (rounds num_pages request) (first_page request) mem)
answer num_pages (write request message) mem = texts (
    read_pages (rounds num_pages request) (first_page request)
      (memory_after num_pages (write request message) mem))
answer num_pages view_states mem = states []
answer num_pages unknown mem = refused

unfoldable pub answers : ℕ → List (Bool × Command) → Memory → List Shown
answers num_pages [] mem = []
answers num_pages ((at_peer, c) ∷ cs) mem =
    answer num_pages c mem ∷ answers num_pages cs (memory_after num_pages c mem)

abbrev pub without_states : Shown → Shown
without_states (texts pages) = texts pages
without_states (states letters) = states []
without_states refused = refused

-- What may be typed as a message, up to so many bytes: what `%[^\n]` reads is not empty and has no NUL;
-- it is not the text "NULL".
pub record IsMessage (limit : ℕ) (message : List ℕ) : Type 0 where
  pub no_nul : All (λ c. 0 < c) message
  pub not_empty : 0 < length message
  pub short : length message ≤ limit
  pub not_null : text_eq null_text message ≡ false

pub within_page :
    {limit : ℕ} {message : List ℕ} → limit ≤ 4095 → IsMessage limit message → length message ≤ 4095
within_page bound m = omega (arith, m.short)

-- A message that the other process may ask for is short enough to be found whole in an answer; one of a
-- process whose peer has no pages is shorter than a page.
abbrev pub longest : Bool → ℕ
longest false = 511
longest true = 4095

pub longest-le : (alone : Bool) → longest alone ≤ 4095
longest-le false = omega arith
longest-le true = omega arith

-- A request for the pages of the region.
abbrev pub IsWithin : ℕ → Request → Type 0
IsWithin num_pages (one page) = page < num_pages
IsWithin num_pages every = 0 < num_pages

abbrev pub IsProper : ℕ → ℕ → Command → Type 0
IsProper limit num_pages (read request) = IsWithin num_pages request
IsProper limit num_pages (write request message) =
    IsWithin num_pages request × IsMessage limit message
IsProper limit num_pages view_states = Unit
IsProper limit num_pages unknown = Unit

-- The text that a process has of a page in that state.
abbrev pub expected : MsiState → List ℕ → List ℕ
expected modified text = text
expected shared text = text
expected invalid text = []

-- A page that neither process has was never written; another one has a message.
abbrev pub IsKept : ℕ → MsiState → MsiState → List ℕ → Type 0
IsKept limit invalid invalid text = text ≡ []
IsKept limit invalid modified text = IsMessage limit text
IsKept limit invalid shared text = IsMessage limit text
IsKept limit modified _ text = IsMessage limit text
IsKept limit shared _ text = IsMessage limit text

-- The two processes hold the memory, of so many pages; the flag says that the other one has none.
pub record Holds (alone : Bool) (num_pages : ℕ) (mem : Memory) (s : System) : Type 0 where
  pub here_text :
      (q : ℕ) → q < num_pages → text_of q s.here.region ≡ expected (s.here.msi_array q) (mem q)
  pub peer_text :
      (q : ℕ) → q < num_pages → text_of q s.peer.region ≡ expected (s.peer.msi_array q) (mem q)
  pub kept :
      (q : ℕ)
      → q < num_pages
      → IsKept (longest alone) (s.here.msi_array q) (s.peer.msi_array q) (mem q)
  pub peer_lacks : alone ≡ true → (q : ℕ) → q < num_pages → s.peer.msi_array q ≡ invalid
