-- ===== src/S2dsm/Overlap/Writers.antt =====
-- Commands that overlap on any pages: two writers of one page.
use sbu_cse_506_operating_sy.Prelude.{
  ℕ, ◌≡◌, ◌⊎◌, refl, ap, Bool, true, false, ◌==◌, ◌&&◌, ◌||◌, arith, inl, inr, Bool-cases,
}
use sbu_cse_506_operating_sy.S2dsm.Region.{Vm}
use sbu_cse_506_operating_sy.S2dsm.Protocol.{
  MsiState, modified, shared, invalid, communicate_with_peer, respond, get_response,
  transition_state_on_read,
}
use sbu_cse_506_operating_sy.S2dsm.Overlap.{
  Progress, at_prompt, stored, marked, fetched, waiting, Duo, exchange_sides, Move, store_message,
  mark, invalidate, ask, wait, keep, drop, Turn, mine, theirs, Turns, no_turn, turned,
}

abbrev is_modified : MsiState → Bool
is_modified modified = true
is_modified shared = false
is_modified invalid = false

-- Whether the process has the page in state M and is yet to ask for its invalidation.
abbrev is_marked : Progress → ℕ → Bool
is_marked at_prompt q = false
is_marked (stored page) q = false
is_marked (marked page) q = page == q
is_marked (fetched page answer) q = false
is_marked (waiting page) q = false

-- Two writers of a page are about to invalidate one another's copy.
abbrev IsContested : ℕ → Duo → Type 0
IsContested q d =
    (is_modified (d.here.msi_array q) && is_modified (d.peer.msi_array q)) ≡ true
    → (is_marked d.doing q || is_marked d.peer_doing q) ≡ true

marked_at : (p : Progress) (q : ℕ) → is_marked p q ≡ true → p ≡ marked q
marked_at at_prompt q h = cc
marked_at (stored page) q h = cc
marked_at (marked page) q h = ap marked (ground arith)
marked_at (fetched page answer) q h = cc
marked_at (waiting page) q h = cc

IsContested-exchange : (q : ℕ) (d : Duo) → IsContested q d → IsContested q (exchange_sides d)
IsContested-exchange q d h m = ground (arith, h)

module _ (vm : Vm) (q : ℕ) where
  Move-IsContested : {d u : Duo} → Move vm d u → IsContested q d → IsContested q u
  unfolding communicate_with_peer respond get_response transition_state_on_read
  Move-IsContested {d} {u} (store_message page message e) h m = ground (arith, h)
  Move-IsContested {d} {u} (mark page e b) h m = ground (arith, h)
  Move-IsContested {d} {u} (invalidate page e c) h m = ground (arith, h)
  Move-IsContested {d} {u} (ask page e b f c) h m = ground (arith, h)
  Move-IsContested {d} {u} (wait page e b f c) h m = ground (arith, h)
  Move-IsContested {d} {u} (keep page answer e n) h m = ground (arith, h)
  Move-IsContested {d} {u} (drop page answer e n) h m = ground (arith, h)

  Turn-IsContested : {d u : Duo} → Turn vm d u → IsContested q d → IsContested q u
  Turn-IsContested (mine m) h = Move-IsContested m h
  Turn-IsContested {d} {u} (theirs {v} m e) h =
      rw e (IsContested-exchange q v (Move-IsContested m (IsContested-exchange q d h)))

  Turns-IsContested : {d u : Duo} → Turns vm d u → IsContested q d → IsContested q u
  Turns-IsContested no_turn h = h
  Turns-IsContested (turned r m) h = Turn-IsContested m (Turns-IsContested r h)

  -- From a state in which a page is not in M at both processes, every interleaving of any commands
  -- leads to states in which it is in M at both only while one of them has marked it and is yet to ask
  -- for its invalidation at the other one: never when both are at their prompts.
  pub Turns-one_writer :
      {d u : Duo}
      → ¬ ((d.here.msi_array q ≡ modified) × (d.peer.msi_array q ≡ modified))
      → Turns vm d u
      → u.here.msi_array q ≡ modified
      → u.peer.msi_array q ≡ modified
      → (u.doing ≡ marked q) ⊎ (u.peer_doing ≡ marked q)
  Turns-one_writer {d} {u} h r e f =
      let contested = Turns-IsContested r (λ m. ground (arith, h)) (rw (e, f) refl) in
      elim (Bool-cases (is_marked u.doing q)) [
        | inl y ↦ inl (marked_at u.doing q y)
        | inr o ↦ inr (marked_at u.peer_doing q (ground arith))
      ]
