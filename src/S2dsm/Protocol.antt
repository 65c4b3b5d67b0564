-- ===== src/S2dsm/Protocol.antt =====
-- The state of the two processes, the thread that answers requests, and the operations on a page.
-- A request is handed to the other process as its two numbers, and is answered before the operation
-- goes on; what is answered to it arrives whole.
use sbu_cse_506_operating_sy.Prelude.{
  ℕ, zero, suc, ◌+◌, ◌*◌, ◌%◌, Bool, true, false, Option, none, some, ◌>>=◌, List, [], ◌∷◌, ltb,
  ◌==◌, if◌then◌else◌, length,
}
use sbu_cse_506_operating_sy.S2dsm.Region.{page_size, Region, Vm, write_string, read_string}

-- `enum state {m, s, i}`
pub data MsiState : Type 0 where
  modified shared invalid : MsiState

pub record Node : Type 0 where
  pub msi_array : ℕ → MsiState
  pub region : Region

-- The process at whose prompt a command is given, and the other one.
pub record System : Type 0 where
  pub here : Node
  pub peer : Node

abbrev pub swap : System → System
swap s = record { here = s.peer; peer = s.here }

-- The length of `msi_array`; an index from there on is outside it.
abbrev pub max_pages : ℕ
max_pages = 100

abbrev pub read_op : ℕ
read_op = 1

abbrev pub invalidate_op : ℕ
invalidate_op = 2

-- "NULL" and "Success"
abbrev pub null_text : List ℕ
null_text = b'N' ∷ b'U' ∷ b'L' ∷ b'L' ∷ []

abbrev pub success_text : List ℕ
success_text = b'S' ∷ b'u' ∷ b'c' ∷ b'c' ∷ b'e' ∷ b's' ∷ b's' ∷ []

-- `strcmp` with "NULL"
unfoldable pub text_eq : List ℕ → List ℕ → Bool
text_eq [] [] = true
text_eq [] (y ∷ ys) = false
text_eq (x ∷ xs) [] = false
text_eq (x ∷ xs) (y ∷ ys) = let rest = text_eq xs ys in if x == y then rest else false

abbrev pub set_state : (ℕ → MsiState) → ℕ → MsiState → ℕ → MsiState
set_state f page st q = if page == q then st else f q

-- The pages of a command: the one asked for, or all from 0 to `num_pages - 1`, computed on
-- `unsigned long`, for the request -1.
pub data Request : Type 0 where
  one : ℕ → Request
  every : Request

abbrev pub first_page : Request → ℕ
first_page (one page) = page
first_page every = 0

abbrev pub rounds : ℕ → Request → ℕ
rounds num_pages (one page) = 1
rounds num_pages every = (num_pages + 18446744073709551615) % 18446744073709551616 + 1

module _ (vm : Vm) where
  open vm use {dont_need, read_answer}

  -- `getResponse`, with the text that the pointer leads to, of which `snprintf` takes 4095 bytes.
  unfoldable pub get_response : ℕ → Node → Node × List ℕ
  get_response page n =
      let (r, text) = read_string vm 4095 (page * page_size) n.region in
      elim (n.msi_array page) [
        | modified ↦ (record n { msi_array = set_state n.msi_array page shared; region = r }, text)
        | shared ↦ (record n { region = r }, text)
        | invalid ↦ (n, null_text)
      ]

  unfoldable pub transition_state_on_read : ℕ → Node → Node
  transition_state_on_read page n = elim (n.msi_array page) [
    | modified ↦ record n { msi_array = set_state n.msi_array page shared }
    | shared ↦ n
    | invalid ↦ n
  ]

  -- One round of `responder`. Nothing is known of the answer to another operation; none is asked.
  unfoldable pub respond : ℕ → ℕ → Node → Node × List ℕ
  respond request_page operation n =
      let (asked, text) = get_response request_page n in
      let dropped = record n {
        msi_array = set_state n.msi_array request_page invalid;
        region = dont_need n.region request_page;
      } in
      if operation == invalidate_op
      then (dropped, success_text)
      else if operation == read_op
      then (transition_state_on_read request_page asked, text)
      else (n, [])

  -- `communicateWithPeer`: an answer of no bytes never arrives.
  unfoldable pub communicate_with_peer : ℕ → ℕ → Node → Option (Node × List ℕ)
  communicate_with_peer request_page operation peer =
      let (peer', answer) = respond request_page operation peer in
      if length answer == 0 then none else some (peer', answer)

  unfoldable pub transition_state_on_write : ℕ → System → Option System
  transition_state_on_write page s = communicate_with_peer page invalidate_op s.peer >>= λ answer.
      some (record {
        here = record (s.here) { msi_array = set_state s.here.msi_array page modified };
        peer = answer.0;
      })

  -- One round of the loop of `updatePageContents`.
  unfoldable pub update_page : ℕ → List ℕ → Bool → System → Option System
  update_page page message transition s =
      let written = record s {
        here = record (s.here) {
          region = write_string vm (page * page_size) message s.here.region;
        };
      } in
      let moved = transition_state_on_write page written in
      let guarded = if ltb page max_pages then moved else none in
      if transition then guarded else some written

  -- The branch of `printPageContents` for a page in state I, with what is printed: the answer is
  -- compared, stored and printed as it is found in the array of the call that is over.
  unfoldable pub fetch_page : ℕ → System → Option (System × List ℕ)
  fetch_page page s = communicate_with_peer page read_op s.peer >>= λ answer.
      let asked = record s { peer = answer.0 } in
      let text = read_answer answer.1 in
      let fetched = update_page page text false asked >>= λ t. some (
        record t { here = record (t.here) { msi_array = set_state t.here.msi_array page shared } },
        text,
      ) in
      let refused = some (
        record asked { here = record (asked.here) { region = dont_need asked.here.region page } },
        [],
      ) in
      if text_eq null_text text then refused else fetched

  -- One round of the loop of `printPageContents`: a text that does not end in the 4097 bytes of
  -- `page_output` overruns it.
  unfoldable pub print_page : ℕ → Bool → System → Option (System × List ℕ)
  print_page page fetch s =
      let (r, text) = read_string vm 4097 (page * page_size) s.here.region in
      let s' = record s { here = record (s.here) { region = r } } in
      let fetched = fetch_page page s' in
      let on_invalid = if fetch then fetched else some (s', []) in
      let printed : Option (System × List ℕ) = elim (s.here.msi_array page) [
        | modified ↦ some (s', text)
        | shared ↦ some (s', text)
        | invalid ↦ on_invalid
      ] in
      if ltb page max_pages then (if ltb (length text) 4097 then printed else none) else none

  unfoldable pub update_page_contents : ℕ → ℕ → List ℕ → Bool → System → Option System
  update_page_contents zero page message transition s = some s
  update_page_contents (suc n) page message transition s =
      update_page page message transition s >>= λ t.
      update_page_contents n (page + 1) message transition t

  unfoldable pub print_page_contents : ℕ → ℕ → Bool → System → Option (System × List (List ℕ))
  print_page_contents zero page fetch s = some (s, [])
  print_page_contents (suc n) page fetch s = print_page page fetch s >>= λ first.
      print_page_contents n (page + 1) fetch first.0 >>= λ rest. some (rest.0, first.1 ∷ rest.1)

  -- The commands `r` and `w` of the prompt.
  unfoldable pub read_command : ℕ → Request → System → Option (System × List (List ℕ))
  read_command num_pages request s =
      print_page_contents (rounds num_pages request) (first_page request) true s

  unfoldable pub write_command : ℕ → Request → List ℕ → System → Option (System × List (List ℕ))
  write_command num_pages request message s =
      update_page_contents (rounds num_pages request) (first_page request) message true s >>= λ t.
      print_page_contents (rounds num_pages request) (first_page request) false t

-- `fillWithInvalid`: the index runs to `num_pages` inclusive.
unfoldable pub fill_loop : ℕ → ℕ → (ℕ → MsiState) → Option (ℕ → MsiState)
fill_loop zero j f = some f
fill_loop (suc n) j f =
    let rest = fill_loop n (j + 1) (set_state f j invalid) in if ltb j max_pages then rest else none

unfoldable pub fill_with_invalid : ℕ → (ℕ → MsiState) → Option (ℕ → MsiState)
fill_with_invalid num_pages f = fill_loop (num_pages + 1) 0 f
