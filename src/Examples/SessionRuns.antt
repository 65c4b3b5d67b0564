-- ===== src/Examples/SessionRuns.antt =====
-- Sessions, overlapping commands and the start of two processes, at concrete inputs.
use sbu_cse_506_operating_sy.Prelude.{
  ℕ, ◌*◌, ◌≡◌, ◌≤◌, ◌⊎◌, refl, ap, Bool, true, false, some, ◌>>=◌, List, [], ◌∷◌, ◌&&◌, map, arith,
}
use sbu_cse_506_operating_sy.S2dsm.Region.{page_size, write_string}
use sbu_cse_506_operating_sy.S2dsm.Text.{text_of, text_of-write_string}
use sbu_cse_506_operating_sy.S2dsm.Protocol.{
  modified, shared, invalid, Node, System, text_eq, one, every, set_state, fill_with_invalid,
  fill_loop, communicate_with_peer, respond,
}
use sbu_cse_506_operating_sy.S2dsm.Prompt.{
  Command, read, write, view_states, unknown, Shown, untouched, boot, session,
}
use sbu_cse_506_operating_sy.S2dsm.Memory.{IsMessage, answers}
use sbu_cse_506_operating_sy.S2dsm.Overlap.{
  at_prompt, stored, marked, waiting, Duo, store_message, mark, invalidate, mine, theirs, Turns,
  no_turn, turned,
}
use sbu_cse_506_operating_sy.S2dsm.Overlap.Disjoint.{is_at}
use sbu_cse_506_operating_sy.S2dsm.Overlap.Coherence.{Coherent}
use sbu_cse_506_operating_sy.S2dsm.Overlap.Coherence.Runs.{
  ProperTurns, none_so_far, next, both_idle, ProperTurns-Coherent,
}
use sbu_cse_506_operating_sy.S2dsm.Overlap.Writers.{Turns-one_writer}
use sbu_cse_506_operating_sy.S2dsm.Overlap.Idle.{may_finish, Turns-idle}
use sbu_cse_506_operating_sy.S2dsm.Overlap.Stale.{IsStale, Turns-IsStale}
use sbu_cse_506_operating_sy.S2dsm.Pairing.{ready, advance, length_of, turn, turns, fresh_pair}
use sbu_cse_506_operating_sy.S2dsm.Pairing.Roles.{alternating, turns-one_first, turns-ready}
use sbu_cse_506_operating_sy.S2dsm.Pairing.Crossing.{turns-crossing}
use sbu_cse_506_operating_sy.S2dsm.Offer.{offer_text, parse_offer}
use sbu_cse_506_operating_sy.S2dsm.Offer.RoundTrip.{parse_offer-offer_text}
use sbu_cse_506_operating_sy.Local as Local
use sbu_cse_506_operating_sy.Local.Session.{session-boot-session}
use sbu_cse_506_operating_sy.Examples.Apis.{plain_vm}

-- "hi" and "yo"
abbrev pub hi : List ℕ
hi = b'h' ∷ b'i' ∷ []

abbrev yo : List ℕ
yo = b'y' ∷ b'o' ∷ []

pub hi-IsMessage : (limit : ℕ) → 2 ≤ limit → IsMessage limit hi
unfolding text_eq
hi-IsMessage limit l = record {
  no_nul = (omega arith, (omega arith, tt));
  not_empty = omega arith;
  short = omega arith;
  not_null = refl;
}

yo-IsMessage : (limit : ℕ) → 2 ≤ limit → IsMessage limit yo
unfolding text_eq
yo-IsMessage limit l = record {
  no_nul = (omega arith, (omega arith, tt));
  not_empty = omega arith;
  short = omega arith;
  not_null = refl;
}

-- "hi" is written to page 1 at one prompt and read at the other; then all pages are read there.
abbrev commands : List (Bool × Command)
commands =
    (false, write (one 1) hi)
    ∷ (true, read (one 1))
    ∷ (true, read every)
    ∷ (false, view_states)
    ∷ []

abbrev local_commands : List Command
local_commands = write (one 1) hi ∷ read every ∷ unknown ∷ []

session-boot-session_example :
    (r : _) × (t : System) × (outputs : List Shown) × (Local.session plain_vm 2 local_commands
        (untouched (λ a. 0))
      ≡ some (r, outputs))
    × ((boot 2 (λ a. 0) >>= session plain_vm 2 (map (λ c. (false, c)) local_commands))
        ≡ some (t, outputs))
    × (outputs ≡ answers 2 (map (λ c. (false, c)) local_commands) (λ _. []))
session-boot-session_example =
    session-boot-session plain_vm 2 (λ a. 0) local_commands (omega arith) (refl, (refl, (refl, tt)))
      ((omega arith, hi-IsMessage 4095 (omega arith)), (omega arith, (tt, tt)))

abbrev empty_node : Node
empty_node = record { msi_array = λ q. invalid; region = untouched (λ a. 0) }

not_modified : ¬ (invalid ≡ modified)
not_modified e = cc

abbrev idle : Duo
idle = record { here = empty_node; peer = empty_node; doing = at_prompt; peer_doing = at_prompt }

-- "hi" is stored in page 0 here, while "yo" is stored in page 1 there.
abbrev one_stored : Duo
one_stored = record idle {
  here = record empty_node {
    region = write_string plain_vm (0 * page_size) hi (untouched (λ a. 0));
  };
  doing = stored 0;
}

abbrev both_stored : Duo
both_stored = record one_stored {
  peer = record empty_node {
    region = write_string plain_vm (1 * page_size) yo (untouched (λ a. 0));
  };
  peer_doing = stored 1;
}

booted : (s : System) × (boot 2 (λ a. 0) ≡ some s)
unfolding boot fill_with_invalid fill_loop
booted = (_, refl)

-- "hi" is written to page 0 here, while "yo" is stored in page 1 there.
write_beside_store :
    (u : Duo) × ProperTurns plain_vm 2 (both_idle plain_vm booted.0) u
    × (u.doing ≡ at_prompt)
    × (u.peer_doing ≡ stored 1)
unfolding communicate_with_peer respond
write_beside_store = (
  _,
  next
      (next
        (next
          (next none_so_far (mine (store_message 0 hi refl))
            (omega arith, hi-IsMessage 511 (omega arith)) (λ q. ground arith))
          (theirs (store_message 1 yo refl) refl) (omega arith, yo-IsMessage 511 (omega arith))
          (λ q. ground arith))
        (mine (mark 0 refl (omega arith))) (omega arith) (λ q. ground arith))
      (mine (invalidate 0 refl refl)) (omega arith) (λ q. ground arith),
  refl,
  refl,
)

ProperTurns-Coherent_example :
    let u = write_beside_store.0 in
    Coherent
      (u.here.msi_array 0)
      (u.peer.msi_array 0)
      (text_of 0 u.here.region)
      (text_of 0 u.peer.region)
ProperTurns-Coherent_example =
    ProperTurns-Coherent plain_vm 2 (λ a. 0) (omega arith) booted.1 write_beside_store.1 0
      (omega arith) (ap (λ p. is_at p 0) write_beside_store.2)
      (ap (λ p. is_at p 0) write_beside_store.3)

-- "hi" is stored in page 1 here, and page 1 is marked; then the same with "yo" there.
abbrev one_marked : Duo
one_marked = record idle {
  here = record {
    msi_array = set_state (λ q. invalid) 1 modified;
    region = write_string plain_vm (1 * page_size) hi (untouched (λ a. 0));
  };
  doing = marked 1;
}

abbrev both_marked : Duo
both_marked = record one_marked {
  peer = record {
    msi_array = set_state (λ q. invalid) 1 modified;
    region = write_string plain_vm (1 * page_size) yo (untouched (λ a. 0));
  };
  peer_doing = marked 1;
}

two_marks : Turns plain_vm idle both_marked
two_marks =
    turned
      (turned
        (turned (turned no_turn (mine (store_message 1 hi refl)))
          (mine (mark 1 refl (omega arith))))
        (theirs (store_message 1 yo refl) refl))
      (theirs (mark 1 refl (omega arith)) refl)

Turns-one_writer_example : (both_marked.doing ≡ marked 1) ⊎ (both_marked.peer_doing ≡ marked 1)
Turns-one_writer_example =
    Turns-one_writer plain_vm 1 {d = idle} {u = both_marked} (λ both. not_modified both.0) two_marks
      refl refl

Turns-idle_example :
    (may_finish both_stored.doing ≡ true
      → may_finish both_stored.peer_doing ≡ true
      → (u : Duo) × Turns plain_vm both_stored u
        × (u.doing ≡ at_prompt)
        × (u.peer_doing ≡ at_prompt))
    × ((q : ℕ) (u : Duo)
        → Turns plain_vm both_stored u
        → both_stored.doing ≡ waiting q
        → u.doing ≡ waiting q)
Turns-idle_example = Turns-idle plain_vm both_stored

-- Page 1 has "hi" in state S at the other process.
abbrev hi_there : Duo
hi_there = record idle {
  peer = record {
    msi_array = λ q. shared;
    region = write_string plain_vm (1 * page_size) hi (untouched (λ a. 0));
  };
}

hi_is_there : text_of 1 hi_there.peer.region ≡ hi
hi_is_there =
    text_of-write_string plain_vm 1 1 hi (untouched (λ a. 0))
      (hi-IsMessage 511 (omega arith)).no_nul (omega arith)

Turns-IsStale_example : (u : Duo) × Turns plain_vm hi_there u × IsStale 1 hi yo u
Turns-IsStale_example =
    Turns-IsStale plain_vm 1 hi yo hi_there (omega arith) refl refl refl refl hi_is_there
      (hi-IsMessage 511 (omega arith)) (yo-IsMessage 4095 (omega arith))

-- One instance listens and tries to connect before the other one starts.
abbrev first_turns : List Bool
first_turns = false ∷ false ∷ []

turns-ready_example :
    let q = turns true 5 (alternating 10) (turns true 5 first_turns fresh_pair) in
    (q.here.phase ≡ ready)
    × (q.there.phase ≡ ready)
    × (q.here.len ≡ length_of 5)
    × (q.there.len ≡ length_of 5)
unfolding turns turn advance
turns-ready_example = turns-ready 5 first_turns refl

turns-one_first_example :
    let p = turns false 5 first_turns fresh_pair in
    ((p.here.first_connection_failed && p.there.first_connection_failed) ≡ false)
    × (p.here.phase ≡ ready → p.here.len ≡ length_of 5)
    × (p.there.phase ≡ ready → p.there.len ≡ length_of 5)
turns-one_first_example = turns-one_first false 5 first_turns

turns-crossing_example :
    let p = turns true 5 (false ∷ true ∷ first_turns) fresh_pair in
    (¬ (p.here.phase ≡ ready)) × (¬ (p.there.phase ≡ ready)) × (p.here.len ≡ 0) × (p.there.len ≡ 0)
turns-crossing_example = turns-crossing true 5 first_turns

parse_offer-offer_text_example :
    parse_offer (offer_text (length_of 5) 139637976727552)
    ≡ some (record { len = 5 * 4096; num_pages = 5; addr = some 139637976727552 })
parse_offer-offer_text_example =
    parse_offer-offer_text 5 139637976727552 (omega arith) (omega arith)
