-- ===== src/S2dsm/Pairing/Roles.antt =====
-- Who asks for the number of pages: at most one instance, and if there is one whose `mmap` succeeds, both
-- end up ready.
use sbu_cse_506_operating_sy.Prelude.{
  ℕ, refl, zero, suc, ◌+◌, ◌≤◌, ◌<◌, ◌≡◌, ◌⊎◌, ap, inl, inr, lt_or_le, Bool, true, false, Option,
  none, some, List, [], ◌∷◌, ◌&&◌, ◌||◌, not, if◌then◌else◌, arith,
}
use sbu_cse_506_operating_sy.S2dsm.Pairing.{
  Phase, starting, listening, attempted, accepted, offering, awaiting, ready, ended, Instance,
  length_of, advance, Pair, turn, turns, fresh_pair,
}

-- Whether the instance has a connection in that phase.
abbrev connected_in : Phase → Bool → Bool
connected_in starting failed = false
connected_in listening failed = false
connected_in attempted failed = not failed
connected_in accepted failed = not failed
connected_in offering failed = true
connected_in awaiting failed = true
connected_in ready failed = true
connected_in ended failed = true

-- Whether the first attempt may have failed, or may have succeeded, in that phase.
abbrev failed_in : Phase → Bool → Bool
failed_in starting failed = not failed
failed_in listening failed = not failed
failed_in attempted failed = true
failed_in accepted failed = true
failed_in offering failed = failed
failed_in awaiting failed = not failed
failed_in ready failed = true
failed_in ended failed = true

-- Whether the instance has accepted in that phase.
abbrev has_accepted : Phase → Bool
has_accepted starting = false
has_accepted listening = false
has_accepted attempted = false
has_accepted accepted = true
has_accepted offering = true
has_accepted awaiting = true
has_accepted ready = true
has_accepted ended = true

abbrev is_ready : Phase → Bool
is_ready starting = false
is_ready listening = false
is_ready attempted = false
is_ready accepted = false
is_ready offering = false
is_ready awaiting = false
is_ready ready = true
is_ready ended = false

abbrev has_listened : Phase → Bool
has_listened starting = false
has_listened listening = true
has_listened attempted = true
has_listened accepted = true
has_listened offering = true
has_listened awaiting = true
has_listened ready = true
has_listened ended = true

abbrev has_ended : Phase → Bool
has_ended starting = false
has_ended listening = false
has_ended attempted = false
has_ended accepted = false
has_ended offering = false
has_ended awaiting = false
has_ended ready = false
has_ended ended = true

-- What was sent to the instance, when the other one is in that phase.
abbrev sent : ℕ → Phase → Bool → Option ℕ
sent num_pages phase failed = if is_ready phase && failed then some (length_of num_pages) else none

-- What is true of an instance beside another one.
pub record IsSound (maps : Bool) (num_pages : ℕ) (me you : Instance) : Type 0 where
  pub connection : me.connected ≡ connected_in me.phase me.first_connection_failed
  pub failure : failed_in me.phase me.first_connection_failed ≡ true
  pub one_first : (me.first_connection_failed && you.first_connection_failed) ≡ false
  pub tried : me.first_connection_failed ≡ true → has_listened me.phase ≡ true
  pub acceptance : has_accepted me.phase ≡ true → you.connected ≡ true
  pub arrival : me.arrived ≡ sent num_pages you.phase you.first_connection_failed
  pub known : is_ready me.phase ≡ true → me.len ≡ length_of num_pages
  pub served :
      is_ready me.phase ≡ true
      → me.first_connection_failed ≡ false
      → (is_ready you.phase && you.first_connection_failed) ≡ true
  pub going : maps ≡ true → has_ended me.phase ≡ false

turn-IsSound :
    (maps : Bool) (num_pages : ℕ) (b : Bool) (p : Pair)
    → IsSound maps num_pages p.here p.there
    → IsSound maps num_pages p.there p.here
    → IsSound maps num_pages (turn maps num_pages b p).here (turn maps num_pages b p).there
      × IsSound maps num_pages (turn maps num_pages b p).there (turn maps num_pages b p).here
unfolding turn advance
turn-IsSound maps num_pages b p h g = ground arith

turns-IsSound :
    (maps : Bool) (num_pages : ℕ) (bs : List Bool) (p : Pair)
    → IsSound maps num_pages p.here p.there
    → IsSound maps num_pages p.there p.here
    → IsSound maps num_pages (turns maps num_pages bs p).here (turns maps num_pages bs p).there
      × IsSound maps num_pages (turns maps num_pages bs p).there (turns maps num_pages bs p).here
unfolding turns
turns-IsSound maps num_pages [] p h g = (h, g)
turns-IsSound maps num_pages (b ∷ bs) p h g =
    let (h', g') = turn-IsSound maps num_pages b p h g in
    turns-IsSound maps num_pages bs (turn maps num_pages b p) h' g'

fresh-IsSound :
    (maps : Bool) (num_pages : ℕ) → IsSound maps num_pages fresh_pair.here fresh_pair.there
fresh-IsSound maps num_pages = ground arith

-- Whatever turns two fresh instances have taken, and whether `mmap` succeeds or not: the first attempt to connect failed at one of them at
-- most, so that at most one asks for the number of pages; and two instances that are ready have the
-- same length of memory, that of the pages typed in.
pub turns-one_first :
    (maps : Bool) (num_pages : ℕ) (bs : List Bool)
    → let p = turns maps num_pages bs fresh_pair in
      ((p.here.first_connection_failed && p.there.first_connection_failed) ≡ false)
      × (p.here.phase ≡ ready → p.here.len ≡ length_of num_pages)
      × (p.there.phase ≡ ready → p.there.len ≡ length_of num_pages)
turns-one_first maps num_pages bs =
    let (h, g) =
      turns-IsSound maps num_pages bs fresh_pair (fresh-IsSound maps num_pages)
        (fresh-IsSound maps num_pages) in
    (h.one_first, λ e. h.known (ap is_ready e), λ e. g.known (ap is_ready e))

-- How far an instance has come.
abbrev rank : Phase → ℕ
rank starting = 0
rank listening = 1
rank attempted = 2
rank accepted = 3
rank offering = 4
rank awaiting = 4
rank ready = 5
rank ended = 5

abbrev ranks : Pair → ℕ
ranks p = rank p.here.phase + rank p.there.phase

abbrev someone_first : Pair → Bool
someone_first p = p.here.first_connection_failed || p.there.first_connection_failed

turn-someone_first :
    (maps : Bool) (num_pages : ℕ) (b : Bool) (p : Pair)
    → someone_first p ≡ true
    → someone_first (turn maps num_pages b p) ≡ true
unfolding turn advance
turn-someone_first maps num_pages b p f = ground arith

ranks-turn :
    (maps : Bool) (num_pages : ℕ) (b : Bool) (p : Pair) → ranks p ≤ ranks (turn maps num_pages b p)
unfolding turn advance
ranks-turn maps num_pages b p = ground arith

-- A turn that does not take an instance further leaves both as they are.
turn-same :
    (maps : Bool) (num_pages : ℕ) (b : Bool) (p : Pair)
    → (ranks p < ranks (turn maps num_pages b p)) ⊎ (turn maps num_pages b p ≡ p)
unfolding turn advance
turn-same maps num_pages b p = ground arith

-- One of the two can go on, until both are ready.
ranks-progress :
    (maps : Bool) (num_pages : ℕ) (p : Pair)
    → IsSound maps num_pages p.here p.there
    → IsSound maps num_pages p.there p.here
    → someone_first p ≡ true
    → ranks p < 10
    → (ranks p < ranks (turn maps num_pages false p))
      ⊎ (ranks p < ranks (turn maps num_pages true p))
unfolding turn advance
ranks-progress maps num_pages p h g f l = ground arith

abbrev round : Bool → ℕ → Pair → Pair
round maps num_pages p = turn maps num_pages true (turn maps num_pages false p)

ranks-round :
    (maps : Bool) (num_pages : ℕ) (p : Pair)
    → IsSound maps num_pages p.here p.there
    → IsSound maps num_pages p.there p.here
    → someone_first p ≡ true
    → ranks p < 10
    → ranks p < ranks (round maps num_pages p)
ranks-round maps num_pages p h g f l =
    let first = ranks-turn maps num_pages false p in
    let second = ranks-turn maps num_pages true (turn maps num_pages false p) in
    elim (turn-same maps num_pages false p) [
      | inl up ↦ omega arith
      | inr same ↦ elim (ranks-progress maps num_pages p h g f l) [
        | inl up ↦ omega arith
        | inr up ↦ rw same up
      ]
    ]

-- Turns of the two in alternation, so many of each.
unfoldable pub alternating : ℕ → List Bool
alternating zero = []
alternating (suc n) = false ∷ true ∷ alternating n

ranks-alternating :
    (n : ℕ) (maps : Bool) (num_pages : ℕ) (p : Pair)
    → IsSound maps num_pages p.here p.there
    → IsSound maps num_pages p.there p.here
    → someone_first p ≡ true
    → 10 ≤ ranks p + n
    → 10 ≤ ranks (turns maps num_pages (alternating n) p)
unfolding turns alternating
ranks-alternating zero maps num_pages p h g f l = omega arith
ranks-alternating (suc n) maps num_pages p h g f l =
    let (h1, g1) = turn-IsSound maps num_pages false p h g in
    let p1 = turn maps num_pages false p in
    let (h2, g2) = turn-IsSound maps num_pages true p1 h1 g1 in
    ranks-alternating n maps num_pages (turn maps num_pages true p1) h2 g2
      (turn-someone_first maps num_pages true p1 (turn-someone_first maps num_pages false p f))
      (elim (lt_or_le (ranks p) 10) [
        | inl small ↦ omega (arith, ranks-round maps num_pages p h g f small)
        | inr full ↦
            omega (arith, ranks-turn maps num_pages false p, ranks-turn maps num_pages true p1)
      ])

ready_at_5 : (phase : Phase) → has_ended phase ≡ false → 5 ≤ rank phase → phase ≡ ready
ready_at_5 phase e h = ground arith

rank-le : (phase : Phase) → rank phase ≤ 5
rank-le phase = ground arith

-- If `mmap` succeeds at the instance that asks: once the first attempt to connect has failed at one of
-- two instances, ten turns of each in alternation, from wherever they are, make both ready, with the
-- length of the pages typed in.
pub turns-ready :
    (num_pages : ℕ) (bs : List Bool)
    → let p = turns true num_pages bs fresh_pair in
      (p.here.first_connection_failed || p.there.first_connection_failed) ≡ true
      → let q = turns true num_pages (alternating 10) p in
        (q.here.phase ≡ ready)
        × (q.there.phase ≡ ready)
        × (q.here.len ≡ length_of num_pages)
        × (q.there.len ≡ length_of num_pages)
turns-ready num_pages bs f =
    let p = turns true num_pages bs fresh_pair in
    let (h, g) =
      turns-IsSound true num_pages bs fresh_pair (fresh-IsSound true num_pages)
        (fresh-IsSound true num_pages) in
    let q = turns true num_pages (alternating 10) p in
    let far = ranks-alternating 10 true num_pages p h g f (omega arith) in
    let (h', g') = turns-IsSound true num_pages (alternating 10) p h g in
    let here = ready_at_5 q.here.phase (h'.going refl) (omega (arith, rank-le q.there.phase)) in
    let there = ready_at_5 q.there.phase (g'.going refl) (omega (arith, rank-le q.here.phase)) in
    (here, there, h'.known (ap is_ready here), g'.known (ap is_ready there))
