-- ===== src/S2dsm/Overlap/Disjoint.antt =====
-- Commands that overlap, but on different pages, keep one writer or many readers.
use sbu_cse_506_operating_sy.Prelude.{
  ℕ, ◌≡◌, refl, sym, ap, Bool, true, false, ◌==◌, ◌&&◌, not, if◌then◌else◌, arith,
}
use sbu_cse_506_operating_sy.S2dsm.Region.{Vm}
use sbu_cse_506_operating_sy.S2dsm.Protocol.{
  MsiState, modified, shared, invalid, communicate_with_peer, respond, get_response,
  transition_state_on_read,
}
use sbu_cse_506_operating_sy.S2dsm.Exclusion.{compatible}
use sbu_cse_506_operating_sy.S2dsm.Overlap.{
  Progress, at_prompt, stored, marked, fetched, waiting, Duo, exchange_sides, Move, store_message,
  mark, invalidate, ask, wait, keep, drop, Turn, mine, theirs,
}

-- Whether a process is at a command on the page.
abbrev pub is_at : Progress → ℕ → Bool
is_at at_prompt q = false
is_at (stored page) q = page == q
is_at (marked page) q = page == q
is_at (fetched page answer) q = page == q
is_at (waiting page) q = page == q

-- No page has commands of both processes in progress.
abbrev pub IsDisjoint : Duo → Type 0
IsDisjoint d = (q : ℕ) → (is_at d.doing q && is_at d.peer_doing q) ≡ false

abbrev is_modified : MsiState → Bool
is_modified modified = true
is_modified shared = false
is_modified invalid = false

abbrev is_invalid : MsiState → Bool
is_invalid modified = false
is_invalid shared = false
is_invalid invalid = true

-- What a command in progress may find of its page: here a state and the other one's.
abbrev allowed : Progress → ℕ → MsiState → MsiState → Bool
allowed at_prompt q a b = compatible a b
allowed (stored page) q a b = compatible a b
allowed (marked page) q a b = if page == q then true else compatible a b
allowed (fetched page answer) q a b =
    if page == q then is_invalid a && not (is_modified b) else compatible a b
allowed (waiting page) q a b = compatible a b

-- By the command that is at the page, if there is one.
abbrev pub Fits : ℕ → Duo → Type 0
Fits q d =
    (if is_at d.peer_doing q
      then allowed d.peer_doing q (d.peer.msi_array q) (d.here.msi_array q)
      else allowed d.doing q (d.here.msi_array q) (d.peer.msi_array q))
    ≡ true

compatible-sym : (a b : MsiState) → compatible a b ≡ compatible b a
compatible-sym modified modified = refl
compatible-sym modified shared = refl
compatible-sym modified invalid = refl
compatible-sym shared modified = refl
compatible-sym shared shared = refl
compatible-sym shared invalid = refl
compatible-sym invalid modified = refl
compatible-sym invalid shared = refl
compatible-sym invalid invalid = refl

allowed_elsewhere :
    (p : Progress) (q : ℕ) (a b : MsiState) → is_at p q ≡ false → allowed p q a b ≡ compatible a b
allowed_elsewhere at_prompt q a b h = refl
allowed_elsewhere (stored page) q a b h = refl
allowed_elsewhere (marked page) q a b h = ground arith
allowed_elsewhere (fetched page answer) q a b h = ground arith
allowed_elsewhere (waiting page) q a b h = refl

pub IsDisjoint-exchange : (d : Duo) → IsDisjoint d → IsDisjoint (exchange_sides d)
IsDisjoint-exchange d i q = ground (arith, i q)

Fits-exchange : (q : ℕ) (d : Duo) → IsDisjoint d → Fits q d → Fits q (exchange_sides d)
Fits-exchange q d i h =
    let a = d.here.msi_array q in
    let b = d.peer.msi_array q in
    ground (
      arith,
      h,
      i q,
      compatible-sym a b,
      allowed_elsewhere d.doing q a b,
      allowed_elsewhere d.peer_doing q b a,
    )

module _ (vm : Vm) where
  -- Turns through states in which the two processes are never at one page.
  pub data DisjointTurns (d : Duo) : Duo → Type 0 where
    none_yet : DisjointTurns d d
    one_more : {t u : Duo} → DisjointTurns d t → Turn vm t u → IsDisjoint u → DisjointTurns d u

module _ (vm : Vm) (q : ℕ) where
  Move-Fits : {d u : Duo} → Move vm d u → IsDisjoint d → IsDisjoint u → Fits q d → Fits q u
  unfolding communicate_with_peer respond get_response transition_state_on_read
  Move-Fits {d} {u} (store_message page message e) i j h = ground (arith, h, i q, j q)
  Move-Fits {d} {u} (mark page e b) i j h = ground (arith, h, i q, j q)
  Move-Fits {d} {u} (invalidate page e c) i j h = ground (arith, h, i q, j q)
  Move-Fits {d} {u} (ask page e b f c) i j h = ground (arith, h, i q, j q)
  Move-Fits {d} {u} (wait page e b f c) i j h = ground (arith, h, i q, j q)
  Move-Fits {d} {u} (keep page answer e n) i j h = ground (arith, h, i q, j q)
  Move-Fits {d} {u} (drop page answer e n) i j h = ground (arith, h, i q, j q)

  Turn-Fits : {d u : Duo} → Turn vm d u → IsDisjoint d → IsDisjoint u → Fits q d → Fits q u
  Turn-Fits (mine m) i j h = Move-Fits m i j h
  Turn-Fits {d} {u} (theirs {v} m e) i j h =
      let j' : IsDisjoint (exchange_sides u) = IsDisjoint-exchange u j in
      let back : v ≡ exchange_sides u = ap exchange_sides (sym e) in
      rw e (
        Fits-exchange q v (rw back j')
          (Move-Fits m (IsDisjoint-exchange d i) (rw back j') (Fits-exchange q d i h)))

  DisjointTurns-IsDisjoint : {d u : Duo} → DisjointTurns vm d u → IsDisjoint d → IsDisjoint u
  DisjointTurns-IsDisjoint none_yet i = i
  DisjointTurns-IsDisjoint (one_more r m j) i = j

  DisjointTurns-Fits : {d u : Duo} → DisjointTurns vm d u → IsDisjoint d → Fits q d → Fits q u
  DisjointTurns-Fits none_yet i h = h
  DisjointTurns-Fits (one_more r m j) i h =
      Turn-Fits m (DisjointTurns-IsDisjoint r i) j (DisjointTurns-Fits r i h)

  -- From two processes at their prompts that do not have the page in M at one and out of I at the
  -- other, any interleaving of their commands, on any pages, in which the two are never at one page at
  -- the same time leaves the page so whenever neither is at it.
  DisjointTurns-compatible :
      {d u : Duo}
      → d.doing ≡ at_prompt
      → d.peer_doing ≡ at_prompt
      → compatible (d.here.msi_array q) (d.peer.msi_array q) ≡ true
      → DisjointTurns vm d u
      → is_at u.doing q ≡ false
      → is_at u.peer_doing q ≡ false
      → compatible (u.here.msi_array q) (u.peer.msi_array q) ≡ true
  DisjointTurns-compatible {d} {u} e f h r i j =
      let fits = DisjointTurns-Fits r (λ p. ground arith) (ground (arith, h)) in
      ground (arith, allowed_elsewhere u.doing q (u.here.msi_array q) (u.peer.msi_array q))
