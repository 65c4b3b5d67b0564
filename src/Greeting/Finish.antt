-- ===== src/Greeting/Finish.antt =====
-- How a meeting ends.
use sbu_cse_506_operating_sy.Prelude.{
  ℕ, zero, suc, ◌+◌, ◌≤◌, ◌<◌, ◌≡◌, ◌⊎◌, Bool, true, false, Option, none, some, List, [], ◌∷◌,
  arith, inl, inr, lt_or_le,
}
use sbu_cse_506_operating_sy.Greeting.{
  server_hello, client_hello, Server, starting, accepting, accepted, reading, replying, finished,
  Client, unconnected, connected, sending, waiting, done, refused, Meeting, is_connected,
  is_listening, serve, visit, go_on, go_on_by, apart,
}

abbrev sent_by_client : Client → Option (List ℕ)
sent_by_client unconnected = none
sent_by_client connected = none
sent_by_client sending = none
sent_by_client waiting = some client_hello
sent_by_client done = some client_hello
sent_by_client refused = none

abbrev shown_by_client : Client → Option (List ℕ)
shown_by_client unconnected = none
shown_by_client connected = none
shown_by_client sending = none
shown_by_client waiting = none
shown_by_client done = some server_hello
shown_by_client refused = none

abbrev sent_by_server : Server → Option (List ℕ)
sent_by_server starting = none
sent_by_server accepting = none
sent_by_server accepted = none
sent_by_server reading = none
sent_by_server replying = none
sent_by_server finished = some server_hello

abbrev shown_by_server : Server → Option (List ℕ)
shown_by_server starting = none
shown_by_server accepting = none
shown_by_server accepted = none
shown_by_server reading = none
shown_by_server replying = some client_hello
shown_by_server finished = some client_hello

-- Whether the server has a connection.
abbrev has_accepted : Server → Bool
has_accepted starting = false
has_accepted accepting = false
has_accepted accepted = true
has_accepted reading = true
has_accepted replying = true
has_accepted finished = true

-- What is on the way and on the screens follows from where the two processes are.
pub record IsMeeting (w : Meeting) : Type 0 where
  pub request : w.to_server ≡ sent_by_client w.client
  pub reply : w.to_client ≡ sent_by_server w.server
  pub server_screen : w.server_shows ≡ shown_by_server w.server
  pub client_screen : w.client_shows ≡ shown_by_client w.client
  pub listener : is_connected w.client ≡ true → is_listening w.server ≡ true
  pub connection : has_accepted w.server ≡ true → is_connected w.client ≡ true

go_on-IsMeeting : (b : Bool) (w : Meeting) → IsMeeting w → IsMeeting (go_on b w)
unfolding go_on serve visit
go_on-IsMeeting b w h = ground arith

go_on_by-IsMeeting : (bs : List Bool) (w : Meeting) → IsMeeting w → IsMeeting (go_on_by bs w)
unfolding go_on_by
go_on_by-IsMeeting [] w h = h
go_on_by-IsMeeting (b ∷ bs) w h = go_on_by-IsMeeting bs (go_on b w) (go_on-IsMeeting b w h)

abbrev client_rank : Client → ℕ
client_rank unconnected = 0
client_rank connected = 1
client_rank sending = 2
client_rank waiting = 3
client_rank done = 4
client_rank refused = 4

abbrev server_rank : Server → ℕ
server_rank starting = 0
server_rank accepting = 1
server_rank accepted = 2
server_rank reading = 3
server_rank replying = 4
server_rank finished = 5

abbrev ranks : Meeting → ℕ
ranks w = client_rank w.client + server_rank w.server

ranks-go_on : (b : Bool) (w : Meeting) → ranks w ≤ ranks (go_on b w)
unfolding go_on serve visit
ranks-go_on b w = ground arith

-- A turn takes its process further, or changes nothing.
go_on_same : (b : Bool) (w : Meeting) → (ranks w < ranks (go_on b w)) ⊎ (go_on b w ≡ w)
unfolding go_on serve visit
go_on_same b w = ground arith

connected_stays :
    (b : Bool) (w : Meeting) → is_connected w.client ≡ true → is_connected (go_on b w).client ≡ true
unfolding go_on serve visit
connected_stays b w c = ground arith

ranks-progress :
    (w : Meeting)
    → IsMeeting w
    → is_connected w.client ≡ true
    → ranks w < 9
    → (ranks w < ranks (go_on false w)) ⊎ (ranks w < ranks (go_on true w))
unfolding go_on serve visit
ranks-progress w h c l = ground arith

ranks-round :
    (w : Meeting)
    → IsMeeting w
    → is_connected w.client ≡ true
    → ranks w < 9
    → ranks w < ranks (go_on true (go_on false w))
ranks-round w h c l =
    let first = ranks-go_on false w in
    let second = ranks-go_on true (go_on false w) in
    elim (go_on_same false w) [
      | inl up ↦ omega arith
      | inr same ↦ elim (ranks-progress w h c l) [ inl up ↦ omega arith | inr up ↦ rw same up ]
    ]

-- Turns of the server and the client in alternation, so many of each.
unfoldable pub alternating : ℕ → List Bool
alternating zero = []
alternating (suc n) = false ∷ true ∷ alternating n

ranks-alternating :
    (n : ℕ) (w : Meeting)
    → IsMeeting w
    → is_connected w.client ≡ true
    → 9 ≤ ranks w + n
    → 9 ≤ ranks (go_on_by (alternating n) w)
unfolding go_on_by alternating
ranks-alternating zero w h c l = omega arith
ranks-alternating (suc n) w h c l =
    let w1 = go_on false w in
    ranks-alternating n (go_on true w1) (go_on-IsMeeting true w1 (go_on-IsMeeting false w h))
      (connected_stays true w1 (connected_stays false w c))
      (elim (lt_or_le (ranks w) 9) [
        | inl small ↦ omega (arith, ranks-round w h c small)
        | inr full ↦ omega (arith, ranks-go_on false w, ranks-go_on true w1)
      ])

at_the_end :
    (w : Meeting)
    → IsMeeting w
    → is_connected w.client ≡ true
    → 9 ≤ ranks w
    → (w.server ≡ finished)
      × (w.client ≡ done)
      × (w.server_shows ≡ some client_hello)
      × (w.client_shows ≡ some server_hello)
at_the_end w h c l = ground arith

connected_stays_by :
    (bs : List Bool) (w : Meeting)
    → is_connected w.client ≡ true
    → is_connected (go_on_by bs w).client ≡ true
unfolding go_on_by
connected_stays_by [] w c = c
connected_stays_by (b ∷ bs) w c = connected_stays_by bs (go_on b w) (connected_stays b w c)

apart-IsMeeting : IsMeeting apart
apart-IsMeeting = ground arith

-- Once the client is connected, wherever the two have come to, nine turns of each in alternation end
-- both programs, and each has printed the greeting of the other.
pub go_on_by-finished :
    (bs : List Bool)
    → is_connected (go_on_by bs apart).client ≡ true
    → let w = go_on_by (alternating 9) (go_on_by bs apart) in
      (w.server ≡ finished)
      × (w.client ≡ done)
      × (w.server_shows ≡ some client_hello)
      × (w.client_shows ≡ some server_hello)
go_on_by-finished bs c =
    let w = go_on_by bs apart in
    let h = go_on_by-IsMeeting bs apart apart-IsMeeting in
    at_the_end (go_on_by (alternating 9) w) (go_on_by-IsMeeting (alternating 9) w h)
      (connected_stays_by (alternating 9) w c) (ranks-alternating 9 w h c (omega arith))
