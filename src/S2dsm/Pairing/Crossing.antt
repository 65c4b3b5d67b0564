-- ===== src/S2dsm/Pairing/Crossing.antt =====
-- Two instances that both listen before either connects: neither asks for the number of pages.
use sbu_cse_506_operating_sy.Prelude.{ℕ, ◌≡◌, ap, Bool, true, false, none, List, [], ◌∷◌, arith}
use sbu_cse_506_operating_sy.S2dsm.Pairing.{
  Phase, starting, listening, attempted, accepted, offering, awaiting, ready, ended, Instance,
  advance, Pair, turn, turns, fresh_pair,
}

-- The phases of an instance whose first attempt to connect did not fail, up to its `read`.
abbrev waits_in : Phase → Bool
waits_in starting = false
waits_in listening = true
waits_in attempted = true
waits_in accepted = true
waits_in offering = false
waits_in awaiting = true
waits_in ready = false
waits_in ended = false

record IsCrossing (me : Instance) : Type 0 where
  phase : waits_in me.phase ≡ true
  no_failure : me.first_connection_failed ≡ false
  nothing_arrived : me.arrived ≡ none
  no_length : me.len ≡ 0

turns-IsCrossing :
    (maps : Bool) (num_pages : ℕ) (bs : List Bool) (p : Pair)
    → IsCrossing p.here
    → IsCrossing p.there
    → IsCrossing (turns maps num_pages bs p).here × IsCrossing (turns maps num_pages bs p).there
unfolding turns turn advance
turns-IsCrossing maps num_pages [] p h g = (h, g)
turns-IsCrossing maps num_pages (false ∷ bs) p h g =
    turns-IsCrossing maps num_pages bs (turn maps num_pages false p) (ground arith) (ground arith)
turns-IsCrossing maps num_pages (true ∷ bs) p h g =
    turns-IsCrossing maps num_pages bs (turn maps num_pages true p) (ground arith) (ground arith)

-- If two fresh instances both listen before either tries to connect, then whatever turns they take
-- from there on, neither ever becomes ready, and neither learns the length of the memory.
pub turns-crossing :
    (maps : Bool) (num_pages : ℕ) (bs : List Bool)
    → let p = turns maps num_pages (false ∷ true ∷ bs) fresh_pair in
      (¬ (p.here.phase ≡ ready))
      × (¬ (p.there.phase ≡ ready))
      × (p.here.len ≡ 0)
      × (p.there.len ≡ 0)
unfolding turns turn advance
turns-crossing maps num_pages bs =
    let both = turn maps num_pages true (turn maps num_pages false fresh_pair) in
    let (h, g) = turns-IsCrossing maps num_pages bs both (ground arith) (ground arith) in
    (λ e. cc (ap waits_in e, h.phase), λ e. cc (ap waits_in e, g.phase), h.no_length, g.no_length)
