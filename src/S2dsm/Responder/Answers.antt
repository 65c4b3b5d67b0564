-- ===== src/S2dsm/Responder/Answers.antt =====
-- What the loop of `responder` answers to the requests that the other process writes.
use sbu_cse_506_operating_sy.Prelude.{
  ℕ, ◌<◌, ◌≡◌, refl, ap, sym, ◌∙◌, true, false, List, [], ◌∷◌, ◌++◌, map, All, arith, append-nil,
}
use sbu_cse_506_operating_sy.Calls.{done, exits, exit_failure}
use sbu_cse_506_operating_sy.S2dsm.Region.{Vm}
use sbu_cse_506_operating_sy.S2dsm.Protocol.{
  Node, max_pages, invalid, read_op, invalidate_op, set_state, respond,
}
use sbu_cse_506_operating_sy.S2dsm.Request.{request_text}
use sbu_cse_506_operating_sy.S2dsm.Request.RoundTrip.{parse_request-request_text}
use sbu_cse_506_operating_sy.S2dsm.Responder.{
  Arrival, read_failed, no_bytes, text, Served, responder,
}

-- A request as the other process makes it, or a round without one.
pub data Asked : Type 0 where
  idle : Asked
  fetch : ℕ → Asked
  take_away : ℕ → Asked

abbrev pub arrival_of : Asked → Arrival
arrival_of idle = no_bytes
arrival_of (fetch page) = text true (request_text page read_op)
arrival_of (take_away page) = text true (request_text page invalidate_op)

abbrev pub IsPage : Asked → Type 0
IsPage idle = Unit {0}
IsPage (fetch page) = page < max_pages
IsPage (take_away page) = page < max_pages

module _ (vm : Vm) where
  -- One answer after the other.
  unfoldable pub answer_each : List Asked → Node → Node × List (List ℕ)
  answer_each [] n = (n, [])
  answer_each (idle ∷ asked) n = answer_each asked n
  answer_each (fetch page ∷ asked) n =
      let (n', answer) = respond vm page read_op n in
      let (last, answers) = answer_each asked n' in (last, answer ∷ answers)
  answer_each (take_away page ∷ asked) n =
      let (n', answer) = respond vm page invalidate_op n in
      let (last, answers) = answer_each asked n' in (last, answer ∷ answers)

  -- The answers of a run before those of another one.
  abbrev before : List (List ℕ) → Served → Served
  before sent (n, answers, ending) = (n, sent ++ answers, ending)

  responder-request_text :
      (page operation : ℕ) (rest : List Arrival) (n : Node)
      → page < max_pages
      → operation < 2147483648
      → responder vm (text true (request_text page operation) ∷ rest) n ≡ (
          let (asked, answer) = respond vm page operation n in
          before (answer ∷ []) (responder vm rest asked))
  unfolding responder
  responder-request_text page operation rest n h g =
      rw (responder, parse_request-request_text page operation (omega (arith, h)) g) ground arith

  responder-append :
      (asked : List Asked) (tail : List Arrival) (n : Node)
      → All IsPage asked
      → let (n', sent) = answer_each asked n in
        responder vm (map arrival_of asked ++ tail) n ≡ before sent (responder vm tail n')
  unfolding responder answer_each
  responder-append [] tail n h = refl
  responder-append (idle ∷ asked) tail n h = responder-append asked tail n h.1
  responder-append (fetch page ∷ asked) tail n h =
      responder-request_text page read_op (map arrival_of asked ++ tail) n h.0 (omega arith)
      ∙ ap (before ((respond vm page read_op n).1 ∷ []))
          (responder-append asked tail (respond vm page read_op n).0 h.1)
  responder-append (take_away page ∷ asked) tail n h =
      responder-request_text page invalidate_op (map arrival_of asked ++ tail) n h.0 (omega arith)
      ∙ ap (before ((respond vm page invalidate_op n).1 ∷ []))
          (responder-append asked tail (respond vm page invalidate_op n).0 h.1)

  -- The loop answers the requests of the other process one after the other, each on the states and the
  -- memory that the one before it left, reads without bytes aside, and it goes on; it stops, with
  -- EXIT_FAILURE and no further answer, at a read that fails, and at a request for an invalidation
  -- whose `madvise` fails, with the page in state I by then. Pages are below 100.
  pub responder-answer_each :
      (asked : List Asked) (more : List Arrival) (page : ℕ) (n : Node)
      → All IsPage asked
      → page < max_pages
      → let (n', sent) = answer_each asked n in
        (responder vm (map arrival_of asked) n ≡ (n', sent, done tt))
        × (responder vm (map arrival_of asked ++ (read_failed ∷ more)) n
            ≡ (n', sent, exits exit_failure))
        × (responder vm
              (map arrival_of asked ++ (text false (request_text page invalidate_op) ∷ more))
              n
            ≡ (
              record n' { msi_array = set_state n'.msi_array page invalid },
              sent,
              exits exit_failure,
            ))
  unfolding responder
  responder-answer_each asked more page n h g =
      let sent = (answer_each asked n).1 in
      let none_more = append-nil sent in
      (
        ap (λ xs. responder vm xs n) (sym (append-nil (map arrival_of asked)))
            ∙ responder-append asked [] n h
            ∙ rw none_more refl,
        responder-append asked (read_failed ∷ more) n h ∙ rw none_more refl,
        responder-append asked _ n h
            ∙ rw
                (
                  responder,
                  parse_request-request_text page invalidate_op (omega (arith, g)) (omega arith),
                )
                (ground (arith, none_more)),
      )
