-- ===== src/S2dsm/Responder.antt =====
-- The loop of `responder` in Part 3/s2dsm.c, and the ways in which it ends the whole process. What
-- arrives is shorter than a page and has no byte 0 in it. A page from 100 on, behind the end of
-- `msi_array`, is outside what C defines.
pub mod Answers
use sbu_cse_506_operating_sy.Prelude.{
  ℕ, Bool, Option, none, some, List, [], ◌∷◌, ◌==◌, ◌&&◌, not, ltb, if◌then◌else◌,
}
use sbu_cse_506_operating_sy.Calls.{Ending, done, exits, faults, exit_failure}
use sbu_cse_506_operating_sy.S2dsm.Region.{Vm}
use sbu_cse_506_operating_sy.S2dsm.Protocol.{
  Node, max_pages, invalid, invalidate_op, set_state, respond,
}
use sbu_cse_506_operating_sy.S2dsm.Request.{parse_request}

-- What `read` gives in one round: an error, no bytes (the other process has closed the connection), or
-- a text, with the success of `madvise` where the round calls it.
pub data Arrival : Type 0 where
  read_failed : Arrival
  no_bytes : Arrival
  text : Bool → List ℕ → Arrival

-- The node that is left, what was sent, and whether the loop goes on.
abbrev pub Served : Type 0
Served = Node × List (List ℕ) × Ending (Unit {0})

abbrev pub stop : ℕ → Node → Served
stop status n = (n, [], exits status)

module _ (vm : Vm) where
  -- A round has no answer if `madvise` fails, which is called for an invalidation.
  unfoldable pub responder : List Arrival → Node → Served
  responder [] n = (n, [], done tt)
  responder (read_failed ∷ arrivals) n = stop exit_failure n
  responder (no_bytes ∷ arrivals) n = responder arrivals n
  responder (text advised buffer ∷ arrivals) n = elim (parse_request buffer) [
    | none ↦ (n, [], faults)
    | some (page, operation) ↦
        let (asked, answer) = respond vm page operation n in
        let (last, answers, ending) = responder arrivals asked in
        if not (ltb page max_pages)
        then (n, [], faults)
        else if operation == invalidate_op && not advised
        then stop exit_failure (record n { msi_array = set_state n.msi_array page invalid })
        else (last, answer ∷ answers, ending)
  ]
