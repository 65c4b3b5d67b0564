-- ===== src/Local/Session.antt =====
-- A session at one process against a memory, and against the stage with the protocol.
use sbu_cse_506_operating_sy.Prelude.{
  ℕ, zero, suc, ◌+◌, ◌*◌, ◌≤◌, ◌<◌, ◌≡◌, refl, ap, ap₂, ◌∙◌, Bool, true, false, some, ◌>>=◌, List,
  [], ◌∷◌, ◌&&◌, length, All, map, arith,
}
use sbu_cse_506_operating_sy.S2dsm.Region.{page_size, Region, Vm, write_string, read_string}
use sbu_cse_506_operating_sy.S2dsm.Text.{
  text_of, read_text, text_of-read_string, text_of-write_string, string_at_zero,
}
use sbu_cse_506_operating_sy.S2dsm.Protocol.{System, first_page, rounds}
use sbu_cse_506_operating_sy.S2dsm.Prompt as Prompt
use sbu_cse_506_operating_sy.S2dsm.Prompt.{
  Command, read, write, view_states, unknown, Shown, texts, states, refused, untouched, boot,
}
use sbu_cse_506_operating_sy.S2dsm.Memory.{
  Memory, IsMessage, within_page, write_pages, read_pages, memory_after, answer, answers,
  without_states, IsProper,
}
use sbu_cse_506_operating_sy.S2dsm.Memory.Loops.{write_pages-suc, write_pages-zero}
use sbu_cse_506_operating_sy.S2dsm.Memory.Commands.{session-boot}
use sbu_cse_506_operating_sy.S2dsm.Region.View.{view}
use sbu_cse_506_operating_sy.Local.{
  print_page, print_page_contents, update_page_contents, execute, session,
}

-- The pages of the region have the texts of the memory, each within its page.
pub record HasTexts (mem : Memory) (r : Region) : Type 0 where
  pub same : (q : ℕ) → text_of q r ≡ mem q
  pub within : (q : ℕ) → length (mem q) ≤ 4095

pub untouched-HasTexts : (byte : ℕ → ℕ) → HasTexts (λ _. []) (untouched byte)
untouched-HasTexts byte = record {
  same = λ q. string_at_zero 4096 (q * page_size) (view (untouched byte)) refl;
  within = λ q. omega arith;
}

module _ (vm : Vm) where
  print_page_lem :
      (page : ℕ) (mem : Memory) (r : Region)
      → HasTexts mem r
      → print_page vm page r ≡ some ((read_string vm 4097 (page * page_size) r).0, mem page)
  unfolding print_page
  print_page_lem page mem r h =
      let short : length (text_of page r) ≤ 4095 = rw h.same (h.within page) in
      let text = read_text vm 4097 page r short (omega arith) ∙ h.same page in
      ground (arith, h.within page)

  read_string-HasTexts :
      (n a : ℕ) (mem : Memory) (r : Region) → HasTexts mem r → HasTexts mem (read_string vm n a r).0
  read_string-HasTexts n a mem r h = record {
    same = λ q. text_of-read_string vm q n a r ∙ h.same q;
    within = h.within;
  }

  print_page_contents-HasTexts :
      (n page : ℕ) (mem : Memory) (r : Region)
      → HasTexts mem r
      → (r' : Region) × (print_page_contents vm n page r ≡ some (r', read_pages n page mem))
        × HasTexts mem r'
  unfolding print_page_contents read_pages
  print_page_contents-HasTexts zero page mem r h = (r, refl, h)
  print_page_contents-HasTexts (suc n) page mem r h =
      let kept = read_string-HasTexts 4097 (page * page_size) mem r h in
      let (r', rest, done) = print_page_contents-HasTexts n (page + 1) mem _ kept in
      (r', rw (print_page_lem page mem r h, rest) refl, done)

  write_string-HasTexts :
      (page : ℕ) (message : List ℕ) (mem : Memory) (r : Region)
      → IsMessage 4095 message
      → HasTexts mem r
      → HasTexts (write_pages 1 page message mem) (write_string vm (page * page_size) message r)
  write_string-HasTexts page message mem r m h = record {
    same = λ q.
        text_of-write_string vm q page message r m.no_nul (within_page (omega arith) m)
        ∙ ground (arith, h.same q);
    within = λ q. ground (arith, h.within q, (within_page (omega arith) m));
  }

  update_page_contents-HasTexts :
      (n page : ℕ) (message : List ℕ) (mem : Memory) (r : Region)
      → IsMessage 4095 message
      → HasTexts mem r
      → HasTexts (write_pages n page message mem) (update_page_contents vm n page message r)
  unfolding update_page_contents
  update_page_contents-HasTexts zero page message mem r m h =
      rw (write_pages-zero page message mem) h
  update_page_contents-HasTexts (suc n) page message mem r m h =
      rw (← write_pages-suc n page message mem) (
        update_page_contents-HasTexts n (page + 1) message (write_pages 1 page message mem) _ m
          (write_string-HasTexts page message mem r m h))

-- The commands of this stage.
abbrev pub is_local : Command → Bool
is_local (read request) = true
is_local (write request message) = true
is_local view_states = false
is_local unknown = true

module _ (vm : Vm) (num_pages : ℕ) where
  execute-HasTexts :
      (c : Command) (mem : Memory) (r : Region)
      → is_local c ≡ true
      → IsProper 4095 num_pages c
      → HasTexts mem r
      → (r' : Region) × (execute vm num_pages c r ≡ some (r', answer num_pages c mem))
        × HasTexts (memory_after num_pages c mem) r'
  unfolding execute
  execute-HasTexts (read request) mem r l ok h =
      let (r', run, kept) =
        print_page_contents-HasTexts vm (rounds num_pages request) (first_page request) mem r h in
      (r', rw run refl, kept)
  execute-HasTexts (write request message) mem r l ok h =
      let n = rounds num_pages request in
      let page = first_page request in
      let written = update_page_contents-HasTexts vm n page message mem r ok.1 h in
      let (r', run, kept) =
        print_page_contents-HasTexts vm n page (write_pages n page message mem) _ written in
      (r', rw run refl, kept)
  execute-HasTexts view_states mem r l ok h = cc
  execute-HasTexts unknown mem r l ok h = (r, refl, h)

  pub session-HasTexts :
      (cs : List Command) (mem : Memory) (r : Region)
      → All (λ c. is_local c ≡ true) cs
      → All (IsProper 4095 num_pages) cs
      → HasTexts mem r
      → (r' : Region) × (session vm num_pages cs r
          ≡ some (r', answers num_pages (map (λ c. (false, c)) cs) mem))
  unfolding session answers
  session-HasTexts [] mem r l ok h = (r, refl)
  session-HasTexts (c ∷ cs) mem r l ok h =
      let (r1, run, kept) = execute-HasTexts c mem r l.0 ok.0 h in
      let (r2, rest) = session-HasTexts cs (memory_after num_pages c mem) r1 l.1 ok.1 kept in
      (r2, rw (run, rest) refl)

-- What is shown is not a listing of states.
abbrev has_no_states : Shown → Bool
has_no_states (texts pages) = true
has_no_states (states letters) = false
has_no_states refused = true

shown_whole : (x y : Shown) → without_states x ≡ y → has_no_states y ≡ true → x ≡ y
shown_whole (texts pages) y e h = e
shown_whole (states letters) y e h = absurd (cc (ap has_no_states e, h))
shown_whole refused y e h = e

shown_whole_each :
    (xs ys : List Shown)
    → map without_states xs ≡ ys
    → All (λ y. has_no_states y ≡ true) ys
    → xs ≡ ys
shown_whole_each [] [] e h = refl
shown_whole_each [] (y ∷ ys) e h = cc
shown_whole_each (x ∷ xs) [] e h = cc
shown_whole_each (x ∷ xs) (y ∷ ys) e h =
    ap₂ ◌∷◌ (shown_whole x y (cc) h.0) (shown_whole_each xs ys (cc) h.1)

answer-no_states :
    (num_pages : ℕ) (c : Command) (mem : Memory)
    → is_local c ≡ true
    → has_no_states (answer num_pages c mem) ≡ true
answer-no_states num_pages (read request) mem l = refl
answer-no_states num_pages (write request message) mem l = refl
answer-no_states num_pages view_states mem l = cc
answer-no_states num_pages unknown mem l = refl

answers-no_states :
    (num_pages : ℕ) (cs : List Command) (mem : Memory)
    → All (λ c. is_local c ≡ true) cs
    → All (λ y. has_no_states y ≡ true) (answers num_pages (map (λ c. (false, c)) cs) mem)
unfolding answers
answers-no_states num_pages [] mem l = tt
answers-no_states num_pages (c ∷ cs) mem l = (
  answer-no_states num_pages c mem l.0,
  answers-no_states num_pages cs (memory_after num_pages c mem) l.1,
)

at_one_prompt :
    (num_pages : ℕ) (cs : List Command)
    → All (IsProper 4095 num_pages) cs
    → All {A = Bool × Command}
        (λ c. IsProper 4095 num_pages c.1)
        (map (λ (c : Command). (false, c)) cs)
at_one_prompt num_pages [] ok = tt
at_one_prompt num_pages (c ∷ cs) ok = (ok.0, at_one_prompt num_pages cs ok.1)

at_first_prompt :
    (cs : List Command)
    → All {A = Bool × Command} (λ c. (true && c.0) ≡ false) (map (λ (c : Command). (false, c)) cs)
at_first_prompt [] = tt
at_first_prompt (c ∷ cs) = (refl, at_first_prompt cs)

-- With fewer than 100 pages, the same proper commands without `v` show the same at a process of this
-- stage, whose region was not touched before, and at one prompt of the stage with the protocol from
-- its start on; both complete, and show what a memory answers whose pages are empty at first. Proper are
-- requests for pages of the region, and messages of 1 to 4095 bytes, none of them 0, other than the text
-- "NULL".
pub session-boot-session :
    (vm : Vm) (num_pages : ℕ) (byte : ℕ → ℕ) (cs : List Command)
    → num_pages < 100
    → All (λ c. is_local c ≡ true) cs
    → All (IsProper 4095 num_pages) cs
    → (r : Region) × (t : System) × (outputs : List Shown) × (session vm num_pages cs
          (untouched byte)
        ≡ some (r, outputs))
      × ((boot num_pages byte >>= Prompt.session vm num_pages (map (λ c. (false, c)) cs))
          ≡ some (t, outputs))
      × (outputs ≡ answers num_pages (map (λ c. (false, c)) cs) (λ _. []))
session-boot-session vm num_pages byte cs bound l ok =
    let (r, run) =
      session-HasTexts vm num_pages cs (λ _. []) (untouched byte) l ok (untouched-HasTexts byte) in
    let (t, outputs, run', agree) =
      session-boot vm true num_pages byte (map (λ c. (false, c)) cs) bound (at_first_prompt cs)
        (at_one_prompt num_pages cs ok) in
    let whole = shown_whole_each outputs _ agree (answers-no_states num_pages cs (λ _. []) l) in
    (r, t, outputs, rw whole run, run', whole)
