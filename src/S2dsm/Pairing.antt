-- ===== src/S2dsm/Pairing.antt =====
-- How two instances find each other, at the beginning of `main`, in both stages of s2dsm.c. A
-- connection succeeds exactly when the other instance listens; an instance that waits, in `accept` for
-- a connection or in `read` for bytes, makes no move.
pub mod Roles
pub mod Crossing
use sbu_cse_506_operating_sy.Prelude.{
  ℕ, zero, suc, ◌*◌, ◌%◌, Bool, true, false, Option, none, some, List, [], ◌∷◌, if◌then◌else◌, not,
}

pub data Phase : Type 0 where
  starting : Phase  -- before `listen`
  listening : Phase  -- before the first `connect`
  attempted : Phase  -- in `accept`
  accepted : Phase  -- after it
  offering : Phase  -- at the question for the number of pages
  awaiting : Phase  -- in `read`
  ready : Phase  -- the length of the memory is known
  ended : Phase  -- the process has ended

-- `connected` is the state of `remote_socket`, `arrived` what was sent to `new_socket`, and `len` is 0
-- until it is set.
pub record Instance : Type 0 where
  pub phase : Phase
  pub first_connection_failed : Bool
  pub connected : Bool
  pub arrived : Option ℕ
  pub len : ℕ

abbrev pub listens : Phase → Bool
listens starting = false
listens listening = true
listens attempted = true
listens accepted = true
listens offering = true
listens awaiting = true
listens ready = true
listens ended = false

-- `num_pages * page_size` on `unsigned long`
abbrev pub length_of : ℕ → ℕ
length_of num_pages = num_pages * 4096 % 18446744073709551616

-- `read`, with the length that is in the bytes; if the other process has ended, it returns no bytes,
-- and `strtok` leaves `strtoul` a NULL.
abbrev pub receive : Option ℕ → Instance → Instance → Option (Instance × Instance)
receive none me you = elim (you.phase) [
  | starting ↦ none
  | listening ↦ none
  | attempted ↦ none
  | accepted ↦ none
  | offering ↦ none
  | awaiting ↦ none
  | ready ↦ none
  | ended ↦ some (record me { phase = ended }, you)
]
receive (some len) me you = some (record me { phase = ready; len = len }, you)

-- The next move of an instance, with what it does to the other one; the flag says whether `mmap`
-- succeeds at the instance that asks, and the number is the one that is typed in. It is `none` while the
-- instance waits, when it is at the end, and where a `send` without a connection would end it.
unfoldable pub advance : Bool → ℕ → Phase → Instance → Instance → Option (Instance × Instance)
advance maps num_pages starting me you = some (record me { phase = listening }, you)
advance maps num_pages listening me you =
    if listens you.phase
    then some (record me { phase = attempted; connected = true }, you)
    else some (record me { phase = attempted; first_connection_failed = true }, you)
advance maps num_pages attempted me you =
    if you.connected then some (record me { phase = accepted }, you) else none
advance maps num_pages accepted me you =
    if me.first_connection_failed
    then some (record me { phase = offering; connected = listens you.phase }, you)
    else some (record me { phase = awaiting }, you)
advance maps num_pages offering me you =
    if not maps
    then some (record me { phase = ended }, you)
    else if me.connected
    then some (
      record me { phase = ready; len = length_of num_pages },
      record you { arrived = some (length_of num_pages) },
    )
    else none
advance maps num_pages awaiting me you = receive me.arrived me you
advance maps num_pages ready me you = none
advance maps num_pages ended me you = none

pub record Pair : Type 0 where
  pub here : Instance
  pub there : Instance

-- A turn of one instance or of the other; one that waits stays as it is.
unfoldable pub turn : Bool → ℕ → Bool → Pair → Pair
turn maps num_pages false p = elim (advance maps num_pages p.here.phase p.here p.there) [
  | none ↦ p
  | some (me, you) ↦ record { here = me; there = you }
]
turn maps num_pages true p = elim (advance maps num_pages p.there.phase p.there p.here) [
  | none ↦ p
  | some (me, you) ↦ record { here = you; there = me }
]

unfoldable pub turns : Bool → ℕ → List Bool → Pair → Pair
turns maps num_pages [] p = p
turns maps num_pages (b ∷ bs) p = turns maps num_pages bs (turn maps num_pages b p)

abbrev pub fresh_instance : Instance
fresh_instance = record {
  phase = starting;
  first_connection_failed = false;
  connected = false;
  arrived = none;
  len = 0;
}

abbrev pub fresh_pair : Pair
fresh_pair = record { here = fresh_instance; there = fresh_instance }
