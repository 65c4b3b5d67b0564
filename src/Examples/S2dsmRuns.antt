-- ===== src/Examples/S2dsmRuns.antt =====
-- s2dsm.c on two pages.
use sbu_cse_506_operating_sy.Prelude.{
  ℕ, ◌+◌, ◌/◌, ◌≡◌, refl, false, none, some, ◌>>=◌, List, [], ◌∷◌, ◌++◌, ltb, if◌then◌else◌, arith,
  map,
}
use sbu_cse_506_operating_sy.S2dsm.Region.{fault_handler, access, store, write_string, read_string}
use sbu_cse_506_operating_sy.S2dsm.Region.View.{view}
use sbu_cse_506_operating_sy.S2dsm.Protocol.{
  invalidate_op, set_state, modified, shared, invalid, Node, System, swap, null_text, text_eq,
  get_response, respond, communicate_with_peer, transition_state_on_write, update_page, print_page,
  one, update_page_contents, print_page_contents, write_command, fill_with_invalid,
}
use sbu_cse_506_operating_sy.S2dsm.Exclusion.{
  IsExclusive, write_outcome, writing, start, later, Reach-IsExclusive,
}
use sbu_cse_506_operating_sy.S2dsm.Race.{begin_write, finish_write, finish_write-crossing}
use sbu_cse_506_operating_sy.S2dsm.Request.{digits, request_text}
use sbu_cse_506_operating_sy.S2dsm.Bounds.{filled, fill_with_invalid_lem}
use sbu_cse_506_operating_sy.Calls.{done, exits, exit_failure}
use sbu_cse_506_operating_sy.S2dsm.Responder.{read_failed, text, responder}
use sbu_cse_506_operating_sy.S2dsm.Responder.Answers.{
  Asked, idle, fetch, take_away, arrival_of, answer_each, responder-answer_each,
}
use sbu_cse_506_operating_sy.Examples.Apis.{plain_vm}

abbrev fresh : Node
fresh = record {
  msi_array = λ q. invalid;
  region = record { resident = λ q. false; byte = λ a. 0 };
}

abbrev fresh_pair : System
fresh_pair = record { here = fresh; peer = fresh }

-- "hi"
abbrev hi : List ℕ
hi = b'h' ∷ b'i' ∷ []

-- A write of page 1 at one prompt, and a read of it at the other.
abbrev written : System
written = write_outcome plain_vm 1 hi fresh_pair

hi_is_not_null : text_eq null_text hi ≡ false
unfolding text_eq
hi_is_not_null = refl

fill_with_invalid_lem_example :
    fill_with_invalid 2 (λ q. shared)
    ≡ (if ltb 2 100 then some (filled (2 + 1) 0 (λ q. shared)) else none)
fill_with_invalid_lem_example = fill_with_invalid_lem 2 (λ q. shared)

after_write :
    (t : System) × (texts : List (List ℕ)) × (write_command plain_vm 2 (one 1) hi fresh_pair
      ≡ some (t, texts))
unfolding write_command update_page_contents print_page_contents update_page print_page
    transition_state_on_write communicate_with_peer respond get_response read_string write_string
    store access fault_handler
after_write = (_, _, refl)

Reach-IsExclusive_example : IsExclusive 1 after_write.0
Reach-IsExclusive_example =
    Reach-IsExclusive plain_vm 1 {num_pages = 2} {s = fresh_pair} refl
      (later start (writing (one 1) hi after_write.1 after_write.2))

-- Both write "hi" to page 1.
abbrev crossing : System
crossing = begin_write plain_vm 1 hi (swap (begin_write plain_vm 1 hi fresh_pair))

finish_write-crossing_example :
    (crossing.here.msi_array 1 ≡ modified)
    × (crossing.peer.msi_array 1 ≡ modified)
    × (t : System) × ((finish_write plain_vm 1 crossing >>= λ u. finish_write plain_vm 1 (swap u))
        ≡ some t)
    × (t.here.msi_array 1 ≡ invalid)
    × (t.peer.msi_array 1 ≡ invalid)
    × ((b : ℕ) → b / 4096 ≡ 1 → (view t.here.region b ≡ 0) × (view t.peer.region b ≡ 0))
finish_write-crossing_example = finish_write-crossing plain_vm 1 hi hi fresh_pair

-- "12-1"
request_for_12 : request_text 12 1 ≡ b'1' ∷ b'2' ∷ b'-' ∷ b'1' ∷ []
unfolding request_text digits
request_for_12 = refl

-- A read without bytes, a request for the bytes of page 1, and one for its invalidation.
abbrev asked : List Asked
asked = idle ∷ fetch 1 ∷ take_away 1 ∷ []

responder-answer_each_example :
    let (n', sent) = answer_each plain_vm asked fresh_pair.peer in
    (responder plain_vm (map arrival_of asked) fresh_pair.peer ≡ (n', sent, done tt))
    × (responder plain_vm (map arrival_of asked ++ (read_failed ∷ [])) fresh_pair.peer
        ≡ (n', sent, exits exit_failure))
    × (responder plain_vm
          (map arrival_of asked ++ (text false (request_text 0 invalidate_op) ∷ []))
          fresh_pair.peer
        ≡ (record n' { msi_array = set_state n'.msi_array 0 invalid }, sent, exits exit_failure))
responder-answer_each_example =
    responder-answer_each plain_vm asked [] 0 fresh_pair.peer (tt, (omega arith, (omega arith, tt)))
      (omega arith)
