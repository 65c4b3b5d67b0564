-- ===== src/Calls.antt =====
-- The calls with which the user programs set themselves up: each is made after the one before it has
-- succeeded, and one that fails ends the program (`errExit`, `exit(EXIT_FAILURE)`, or `return -1`).
use sbu_cse_506_operating_sy.Prelude.{ℕ, Bool, List, [], ◌∷◌, if◌then◌else◌}

pub data Call : Type 0 where
  arguments : Call  -- the test of `argc`
  make_socket : Call
  make_peer_socket : Call
  set_options : Call
  bind_port : Call
  convert_address : Call  -- `inet_pton`
  listen_on : Call
  connect_to : Call
  accept_from : Call
  read_from : Call
  map_memory : Call
  open_userfaultfd : Call
  agree_on_api : Call
  register_range : Call
  create_fault_thread : Call
  create_responder : Call

-- How a part of a program ends: it goes on with a value, exits with a status, or goes outside what C
-- defines, as with a NULL string or behind the end of an array.
pub data Ending (A : Type 0) : Type 0 where
  done : A → Ending A
  exits : ℕ → Ending A
  faults : Ending A

module _ {A B : Type 0} where
  abbrev pub and_then : Ending A → (A → Ending B) → Ending B
  and_then (done a) k = k a
  and_then (exits status) k = exits status
  and_then faults k = faults

-- EXIT_FAILURE, and what a shell sees of -1
abbrev pub exit_failure : ℕ
exit_failure = 1

abbrev pub minus_one_status : ℕ
minus_one_status = 255

-- A call, and the status with which the program ends if it fails.
pub record Attempt : Type 0 where
  pub call : Call
  pub status : ℕ

abbrev pub or_exit : Call → Attempt
or_exit c = record { call = c; status = exit_failure }

abbrev pub or_minus_one : Call → Attempt
or_minus_one c = record { call = c; status = minus_one_status }

unfoldable pub attempts : (Call → Bool) → List Attempt → Ending (Unit {0})
attempts succeeds [] = done tt
attempts succeeds (a ∷ rest) =
    let further = attempts succeeds rest in if succeeds a.call then further else exits a.status

-- The programs whose set-up is one series of calls, or two with the pairing of the instances between.
pub data Program : Type 0 where
  socket_server : Program
  socket_client : Program
  demonstration : Program
  before_pairing : Program  -- s2dsm.c
  after_mapping : Program

-- code-socket/server.c
abbrev pub server_calls : List Attempt
server_calls =
    or_exit make_socket
    ∷ or_exit set_options
    ∷ or_exit bind_port
    ∷ or_exit listen_on
    ∷ or_exit accept_from
    ∷ or_exit read_from
    ∷ []

-- code-socket/client.c
abbrev pub client_calls : List Attempt
client_calls =
    or_minus_one make_socket
    ∷ or_minus_one convert_address
    ∷ or_minus_one connect_to
    ∷ or_minus_one read_from
    ∷ []

-- uffd.c
abbrev pub uffd_calls : List Attempt
uffd_calls =
    or_exit arguments
    ∷ or_exit open_userfaultfd
    ∷ or_exit agree_on_api
    ∷ or_exit map_memory
    ∷ or_exit register_range
    ∷ or_exit create_fault_thread
    ∷ []

-- s2dsm.c up to `listen`, which is the same at both stages.
abbrev pub pairing_calls : List Attempt
pairing_calls =
    or_exit arguments
    ∷ or_exit make_socket
    ∷ or_exit make_peer_socket
    ∷ or_exit set_options
    ∷ or_exit bind_port
    ∷ or_minus_one convert_address
    ∷ or_exit listen_on
    ∷ []

-- s2dsm.c from the mapping of the memory to `fillWithInvalid`, and to the loop at the first stage.
abbrev pub fault_calls : List Attempt
fault_calls =
    or_exit open_userfaultfd
    ∷ or_exit agree_on_api
    ∷ or_exit register_range
    ∷ or_exit create_fault_thread
    ∷ []

abbrev pub calls_of : Program → List Attempt
calls_of socket_server = server_calls
calls_of socket_client = client_calls
calls_of demonstration = uffd_calls
calls_of before_pairing = pairing_calls
calls_of after_mapping = fault_calls
