-- ===== src/S2dsm/Overlap/Idle.antt =====
-- Commands that overlap on any pages: their ends.
use sbu_cse_506_operating_sy.Prelude.{
  ℕ, ◌<◌, ◌≡◌, refl, ◌∙◌, Bool, true, false, List, ltb, inl, inr, Bool-cases, arith,
}
use sbu_cse_506_operating_sy.S2dsm.Region.{Vm}
use sbu_cse_506_operating_sy.S2dsm.Protocol.{
  modified, set_state, null_text, text_eq, communicate_with_peer, respond, max_pages,
}
use sbu_cse_506_operating_sy.S2dsm.Overlap.{
  Progress, at_prompt, stored, marked, fetched, waiting, Duo, exchange_sides, Move, store_message,
  mark, invalidate, ask, wait, keep, drop, mine, theirs, Turns, no_turn, turned,
}

-- Whether the process can finish what it is at: it does not wait for an answer of no bytes, and it is
-- not to mark a page behind the end of `msi_array`.
abbrev pub may_finish : Progress → Bool
may_finish at_prompt = true
may_finish (stored page) = ltb page max_pages
may_finish (marked page) = true
may_finish (fetched page answer) = true
may_finish (waiting page) = false

module _ (vm : Vm) where
  Turns-append : {d t u : Duo} → Turns vm d t → Turns vm t u → Turns vm d u
  Turns-append r no_turn = r
  Turns-append r (turned s m) = turned (Turns-append r s) m

  -- The process finishes what it is at, while the other one stands still in between.
  abbrev Finishes : Duo → Type 0
  Finishes d = (u : Duo) × Turns vm d u × (u.doing ≡ at_prompt) × (u.peer_doing ≡ d.peer_doing)

  marked-Finishes : (page : ℕ) (d : Duo) → d.doing ≡ marked page → Finishes d
  unfolding communicate_with_peer respond
  marked-Finishes page d e = (_, turned no_turn (mine (invalidate page e refl)), refl, refl)

  stored-Finishes : (page : ℕ) (d : Duo) → page < max_pages → d.doing ≡ stored page → Finishes d
  stored-Finishes page d b e =
      let d1 = record d {
        here = record (d.here) { msi_array = set_state d.here.msi_array page modified };
        doing = marked page;
      } in
      let (u, rest, idle, other) = marked-Finishes page d1 refl in
      (u, Turns-append (turned no_turn (mine (mark page e b))) rest, idle, other)

  fetched-Finishes :
      (page : ℕ) (answer : List ℕ) (d : Duo) → d.doing ≡ fetched page answer → Finishes d
  fetched-Finishes page answer d e = elim (Bool-cases (text_eq null_text answer)) [
    | inl y ↦ (_, turned no_turn (mine (drop page answer e y)), refl, refl)
    | inr o ↦ (_, turned no_turn (mine (keep page answer e o)), refl, refl)
  ]

  one-Finishes : (p : Progress) (d : Duo) → may_finish p ≡ true → d.doing ≡ p → Finishes d
  one-Finishes at_prompt d m e = (d, no_turn, e, refl)
  one-Finishes (stored page) d m e = stored-Finishes page d (ground (arith, m)) e
  one-Finishes (marked page) d m e = marked-Finishes page d e
  one-Finishes (fetched page answer) d m e = fetched-Finishes page answer d e
  one-Finishes (waiting page) d m e = cc

  Turns-exchange : {d u : Duo} → Turns vm d u → Turns vm (exchange_sides d) (exchange_sides u)
  Turns-exchange no_turn = no_turn
  Turns-exchange (turned r (mine m)) = turned (Turns-exchange r) (theirs m refl)
  Turns-exchange (turned {t} {u} r (theirs {v} m e)) = turned (Turns-exchange r) (mine (rw e m))

  Move-waiting : (q : ℕ) {d u : Duo} → Move vm d u → ¬ (d.doing ≡ waiting q)
  Move-waiting q (store_message page message e) w = cc (w, e)
  Move-waiting q (mark page e b) w = cc (w, e)
  Move-waiting q (invalidate page e c) w = cc (w, e)
  Move-waiting q (ask page e b f c) w = cc (w, e)
  Move-waiting q (wait page e b f c) w = cc (w, e)
  Move-waiting q (keep page answer e f) w = cc (w, e)
  Move-waiting q (drop page answer e f) w = cc (w, e)

  Move-peer_doing : {d u : Duo} → Move vm d u → u.peer_doing ≡ d.peer_doing
  Move-peer_doing (store_message page message e) = refl
  Move-peer_doing (mark page e b) = refl
  Move-peer_doing (invalidate page e c) = refl
  Move-peer_doing (ask page e b f c) = refl
  Move-peer_doing (wait page e b f c) = refl
  Move-peer_doing (keep page answer e f) = refl
  Move-peer_doing (drop page answer e f) = refl

  Turns-waiting : (q : ℕ) {d u : Duo} → Turns vm d u → d.doing ≡ waiting q → u.doing ≡ waiting q
  Turns-waiting q no_turn w = w
  Turns-waiting q (turned r (mine m)) w = absurd (Move-waiting q m (Turns-waiting q r w))
  Turns-waiting q (turned r (theirs m e)) w = rw e (Move-peer_doing m ∙ Turns-waiting q r w)

  -- From every state in which neither process waits for an answer of no bytes, whatever else the two
  -- are at, on pages below 100, there are moves that take both to their prompts. From a state in which
  -- a process waits so, whatever moves the two make, it still waits.
  pub Turns-idle :
      (d : Duo)
      → (may_finish d.doing ≡ true
          → may_finish d.peer_doing ≡ true
          → (u : Duo) × Turns vm d u × (u.doing ≡ at_prompt) × (u.peer_doing ≡ at_prompt))
        × ((q : ℕ) (u : Duo) → Turns vm d u → d.doing ≡ waiting q → u.doing ≡ waiting q)
  Turns-idle d = (
    λ m m'.
        let (t, first, idle, other) = one-Finishes d.doing d m refl in
        let (u, second, idle', other') = one-Finishes d.peer_doing (exchange_sides t) m' other in
        (exchange_sides u, Turns-append first (Turns-exchange second), other' ∙ idle, idle'),
    λ q u r w. Turns-waiting q r w,
  )
