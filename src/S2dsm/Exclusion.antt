-- ===== src/S2dsm/Exclusion.antt =====
-- One writer or many readers: a page that one process has in state M is in state I at the other.
use sbu_cse_506_operating_sy.Prelude.{
  ℕ, zero, suc, ◌+◌, ◌*◌, ◌≡◌, refl, Bool, true, false, none, some, >>=-eq-some, List, ltb,
  if◌then◌else◌, arith,
}
use sbu_cse_506_operating_sy.S2dsm.Region.{page_size, Vm, write_string, read_string}
use sbu_cse_506_operating_sy.S2dsm.Protocol.{
  MsiState, modified, shared, invalid, System, swap, max_pages, set_state, get_response,
  transition_state_on_read, respond, communicate_with_peer, transition_state_on_write, update_page,
  fetch_page, print_page, Request, first_page, rounds, update_page_contents, print_page_contents,
  read_command, write_command,
}

abbrev pub compatible : MsiState → MsiState → Bool
compatible modified invalid = true
compatible modified modified = false
compatible modified shared = false
compatible shared modified = false
compatible shared shared = true
compatible shared invalid = true
compatible invalid _ = true

abbrev pub IsExclusive : ℕ → System → Type 0
IsExclusive q s = compatible (s.here.msi_array q) (s.peer.msi_array q) ≡ true

module _ (vm : Vm) where
  -- Where a write to a page leads.
  abbrev pub write_outcome : ℕ → List ℕ → System → System
  write_outcome page message s = record {
    here = record {
      msi_array = set_state s.here.msi_array page modified;
      region = write_string vm (page * page_size) message s.here.region;
    };
    peer = record {
      msi_array = set_state s.peer.msi_array page invalid;
      region = vm.dont_need s.peer.region page;
    };
  }

  -- A write returns, and leads there, unless the page is outside the array of states.
  pub update_page-write :
      (page : ℕ) (message : List ℕ) (s : System)
      → update_page vm page message true s
        ≡ (if ltb page max_pages then some (write_outcome page message s) else none)
  unfolding update_page transition_state_on_write communicate_with_peer respond
  update_page-write page message s = refl

  -- The process after the text of a page was read, whatever pages that brought in.
  abbrev pub after_reading : ℕ → System → System
  after_reading page s = record s {
    here = record (s.here) { region = (read_string vm 4097 (page * page_size) s.here.region).0 };
  }

  -- A command at a prompt, of one process or of the other.
  pub data Step (num_pages : ℕ) (s : System) : System → Type 0 where
    reading :
        {t : System} (request : Request) (texts : List (List ℕ))
        → read_command vm num_pages request s ≡ some (t, texts)
        → Step num_pages s t
    writing :
        {t : System} (request : Request) (message : List ℕ) (texts : List (List ℕ))
        → write_command vm num_pages request message s ≡ some (t, texts)
        → Step num_pages s t
    switching : Step num_pages s (swap s)

  pub data Reach (num_pages : ℕ) (s : System) : System → Type 0 where
    start : Reach num_pages s s
    later : {t u : System} → Reach num_pages s t → Step num_pages t u → Reach num_pages s u

module _ (vm : Vm) (q : ℕ) where
  update_page-IsExclusive :
      (page : ℕ) (message : List ℕ) (s : System) {t : System}
      → update_page vm page message true s ≡ some t
      → IsExclusive q s
      → IsExclusive q t
  update_page-IsExclusive page message s e h =
      ground (arith, update_page-write vm page message s, h)

  fetch_page-compatible :
      (page : ℕ) (s t : System) (text : List ℕ)
      → IsExclusive q s
      → fetch_page vm page s ≡ some (t, text)
      → s.here.msi_array page ≡ invalid
      → compatible (t.here.msi_array q) (t.peer.msi_array q) ≡ true
  unfolding fetch_page communicate_with_peer respond get_response transition_state_on_read
      update_page
  fetch_page-compatible page s t text h e i = ground (arith, h)

  print_page-IsExclusive :
      (page : ℕ) (fetch : Bool) (s t : System) (text : List ℕ)
      → print_page vm page fetch s ≡ some (t, text)
      → IsExclusive q s
      → IsExclusive q t
  unfolding print_page
  print_page-IsExclusive page fetch s t text e h =
      ground (arith, h, fetch_page-compatible page (after_reading vm page s) t text h)

  update_page_contents-IsExclusive :
      (n page : ℕ) (message : List ℕ) (s t : System)
      → update_page_contents vm n page message true s ≡ some t
      → IsExclusive q s
      → IsExclusive q t
  unfolding update_page_contents
  update_page_contents-IsExclusive zero page message s t e h = ground (arith, h)
  update_page_contents-IsExclusive (suc n) page message s t e h =
      let (u, first, rest) = >>=-eq-some (update_page vm page message true s) _ e in
      update_page_contents-IsExclusive n (page + 1) message u t rest
        (update_page-IsExclusive page message s first h)

  print_page_contents-IsExclusive :
      (n page : ℕ) (fetch : Bool) (s t : System) (texts : List (List ℕ))
      → print_page_contents vm n page fetch s ≡ some (t, texts)
      → IsExclusive q s
      → IsExclusive q t
  unfolding print_page_contents
  print_page_contents-IsExclusive zero page fetch s t texts e h = ground (arith, h)
  print_page_contents-IsExclusive (suc n) page fetch s t texts e h =
      let (first, one_page, more) = >>=-eq-some (print_page vm page fetch s) _ e in
      let (rest, others, done) =
        >>=-eq-some (print_page_contents vm n (page + 1) fetch first.0) _ more in
      let kept =
        print_page_contents-IsExclusive n (page + 1) fetch first.0 rest.0 rest.1 others
          (print_page-IsExclusive page fetch s first.0 first.1 one_page h) in
      ground (arith, kept)

  Step-IsExclusive :
      {num_pages : ℕ} {s t : System} → Step vm num_pages s t → IsExclusive q s → IsExclusive q t
  unfolding read_command write_command
  Step-IsExclusive {num_pages} {s} {t} (reading request texts e) h =
      print_page_contents-IsExclusive (rounds num_pages request) (first_page request) true s t texts
        e h
  Step-IsExclusive {num_pages} {s} {t} (writing request message texts e) h =
      let n = rounds num_pages request in
      let (u, updated, printed) =
        >>=-eq-some (update_page_contents vm n (first_page request) message true s) _ e in
      print_page_contents-IsExclusive n (first_page request) false u t texts printed
        (update_page_contents-IsExclusive n (first_page request) message s u updated h)
  Step-IsExclusive {s = s} switching h = ground (arith, h)

  -- A page that is not in M at one process and out of I at the other at the same time stays so through
  -- any sequence of commands at the two prompts on any pages, each completed before the next.
  pub Reach-IsExclusive :
      {num_pages : ℕ} {s t : System} → IsExclusive q s → Reach vm num_pages s t → IsExclusive q t
  Reach-IsExclusive h start = h
  Reach-IsExclusive h (later r st) = Step-IsExclusive st (Reach-IsExclusive h r)
