-- ===== src/Greeting.antt =====
-- Assignment 1 System Calls/code-socket: server.c and client.c, which greet one another. The calls that
-- only set a socket up succeed; a connection succeeds exactly when the server listens; a message is
-- read whole, and by a process that waits for it.
pub mod Finish
use sbu_cse_506_operating_sy.Prelude.{
  ℕ, Bool, true, false, Option, none, some, List, [], ◌∷◌, if◌then◌else◌,
}

-- "Hello from server" and "Hello from client"
abbrev pub server_hello : List ℕ
server_hello =
    b'H' ∷ b'e' ∷ b'l' ∷ b'l' ∷ b'o' ∷ b' ' ∷ b'f' ∷ b'r' ∷ b'o' ∷ b'm' ∷ b' ' ∷ b's' ∷ b'e' ∷ b'r'
    ∷ b'v' ∷ b'e' ∷ b'r' ∷ []

abbrev pub client_hello : List ℕ
client_hello =
    b'H' ∷ b'e' ∷ b'l' ∷ b'l' ∷ b'o' ∷ b' ' ∷ b'f' ∷ b'r' ∷ b'o' ∷ b'm' ∷ b' ' ∷ b'c' ∷ b'l' ∷ b'i'
    ∷ b'e' ∷ b'n' ∷ b't' ∷ []

pub data Server : Type 0 where
  starting : Server  -- before `listen`
  accepting : Server
  accepted : Server  -- at `getchar`
  reading : Server
  replying : Server
  finished : Server

pub data Client : Type 0 where
  unconnected : Client
  connected : Client  -- at `getchar`
  sending : Client
  waiting : Client  -- in `read`
  done : Client
  refused : Client  -- it has returned -1

-- The two processes, what is on the way to each, and what each has printed of the other.
pub record Meeting : Type 0 where
  pub server : Server
  pub client : Client
  pub to_server : Option (List ℕ)
  pub to_client : Option (List ℕ)
  pub server_shows : Option (List ℕ)
  pub client_shows : Option (List ℕ)

abbrev pub is_connected : Client → Bool
is_connected unconnected = false
is_connected connected = true
is_connected sending = true
is_connected waiting = true
is_connected done = true
is_connected refused = false

abbrev pub is_listening : Server → Bool
is_listening starting = false
is_listening accepting = true
is_listening accepted = true
is_listening reading = true
is_listening replying = true
is_listening finished = true

-- `main` of server.c from `listen` on, one call at a time; a call that waits changes nothing.
unfoldable pub serve : Server → Meeting → Meeting
serve starting w = record w { server = accepting }
serve accepting w = if is_connected w.client then record w { server = accepted } else w
serve accepted w = record w { server = reading }
serve reading w = elim (w.to_server) [
  | none ↦ w
  | some text ↦ record w { server = replying; server_shows = some text }
]
serve replying w = record w { server = finished; to_client = some server_hello }
serve finished w = w

-- `main` of client.c from `connect` on.
unfoldable pub visit : Client → Meeting → Meeting
visit unconnected w =
    if is_listening w.server then record w { client = connected } else record w { client = refused }
visit connected w = record w { client = sending }
visit sending w = record w { client = waiting; to_server = some client_hello }
visit waiting w = elim (w.to_client) [
  | none ↦ w
  | some text ↦ record w { client = done; client_shows = some text }
]
visit done w = w
visit refused w = w

-- A turn of the client, or of the server.
unfoldable pub go_on : Bool → Meeting → Meeting
go_on true w = visit w.client w
go_on false w = serve w.server w

unfoldable pub go_on_by : List Bool → Meeting → Meeting
go_on_by [] w = w
go_on_by (b ∷ bs) w = go_on_by bs (go_on b w)

abbrev pub apart : Meeting
apart = record {
  server = starting;
  client = unconnected;
  to_server = none;
  to_client = none;
  server_shows = none;
  client_shows = none;
}
