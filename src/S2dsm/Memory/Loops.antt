-- ===== src/S2dsm/Memory/Loops.antt =====
-- The loops of a command over pages complete, keep the memory and show what it has.
use sbu_cse_506_operating_sy.Prelude.{
  ℕ, zero, suc, ◌+◌, ◌≤◌, ◌<◌, ◌≡◌, ◌⊎◌, refl, sym, ap, ◌∙◌, Bool, true, false, some, List, [], ltb,
  leb, ◌&&◌, if◌then◌else◌, length, arith, lt→ltb, inl, inr, fun_ext,
}
use mathlib.Core.Path.{subst₂}
use sbu_cse_506_operating_sy.S2dsm.Region.{Vm}
use sbu_cse_506_operating_sy.S2dsm.Text.{text_of, read_text}
use sbu_cse_506_operating_sy.S2dsm.Protocol.{
  MsiState, modified, shared, invalid, System, max_pages, print_page, update_page_contents,
  print_page_contents, Request, one, every, first_page, rounds,
}
use sbu_cse_506_operating_sy.S2dsm.Exclusion.{write_outcome, update_page-write, after_reading}
use sbu_cse_506_operating_sy.S2dsm.Memory.{
  Memory, IsMessage, within_page, longest, longest-le, Holds, expected, IsKept, write_pages,
  read_pages, IsWithin,
}
use sbu_cse_506_operating_sy.S2dsm.Memory.Pages.{
  is_valid, print_page-valid, fetched, print_page-fetched, not_fetched, print_page-not_fetched,
  after_reading-Holds, not_fetched-Holds, fetched-Holds, write_outcome-Holds,
}

state_cases : (st : MsiState) → (is_valid st ≡ true) ⊎ (st ≡ invalid)
state_cases modified = inl refl
state_cases shared = inl refl
state_cases invalid = inr refl

expected-valid : (st : MsiState) (m : List ℕ) → is_valid st ≡ true → expected st m ≡ m
expected-valid modified m v = refl
expected-valid shared m v = refl
expected-valid invalid m v = cc

-- What a process has of a page it may use is a message.
here-IsMessage :
    (alone : Bool) (a b : MsiState) (m : List ℕ)
    → is_valid a ≡ true
    → IsKept (longest alone) a b m
    → IsMessage (longest alone) m
here-IsMessage alone modified b m v k = k
here-IsMessage alone shared b m v k = k
here-IsMessage alone invalid b m v k = absurd (cc v)

peer-IsMessage :
    (alone : Bool) (a b : MsiState) (m : List ℕ)
    → is_valid b ≡ true
    → IsKept (longest alone) a b m
    → IsMessage (longest alone) m
peer-IsMessage alone modified b m v k = k
peer-IsMessage alone shared b m v k = k
peer-IsMessage alone invalid modified m v k = k
peer-IsMessage alone invalid shared m v k = k
peer-IsMessage alone invalid invalid m v k = absurd (cc v)

-- A process whose peer has a page is not alone.
shared_peer :
    (alone : Bool) (st : MsiState)
    → is_valid st ≡ true
    → (alone ≡ true → st ≡ invalid)
    → alone ≡ false
shared_peer false st v h = refl
shared_peer true st v h = absurd (cc (ap is_valid (h refl), v))

pair_longest : (alone : Bool) → alone ≡ false → longest alone ≡ 511
pair_longest alone e = ap longest e

pub write_pages-suc :
    (n page : ℕ) (message : List ℕ) (mem : Memory)
    → write_pages n (page + 1) message (write_pages 1 page message mem)
      ≡ write_pages (suc n) page message mem
write_pages-suc n page message mem = fun_ext (λ q. ground arith)

pub write_pages-zero :
    (page : ℕ) (message : List ℕ) (mem : Memory) → write_pages 0 page message mem ≡ mem
write_pages-zero page message mem = fun_ext (λ q. ground arith)

module _ (vm : Vm) (alone : Bool) (num_pages : ℕ) (bound : num_pages < 100) where
  -- Reading a page that this process has.
  read_valid :
      (page : ℕ) (fetch : Bool) (mem : Memory) (s : System)
      → page < num_pages
      → is_valid (s.here.msi_array page) ≡ true
      → Holds alone num_pages mem s
      → print_page vm page fetch s ≡ some (after_reading vm page s, mem page)
  read_valid page fetch mem s p v h =
      let m =
        here-IsMessage alone (s.here.msi_array page) (s.peer.msi_array page) (mem page) v
          (h.kept page p) in
      let text = h.here_text page p ∙ expected-valid (s.here.msi_array page) (mem page) v in
      let short : length (text_of page s.here.region) ≤ 4095 =
        rw text (within_page (longest-le alone) m) in
      print_page-valid vm page fetch s (mem page) (omega arith) v
        (read_text vm 4097 page s.here.region short (omega arith) ∙ text)
        (within_page (longest-le alone) m)

  -- Reading a page that it lacks.
  read_invalid :
      (page : ℕ) (mem : Memory) (s : System)
      → page < num_pages
      → s.here.msi_array page ≡ invalid
      → Holds alone num_pages mem s
      → (t : System) × (print_page vm page true s ≡ some (t, mem page))
        × Holds alone num_pages mem t
  read_invalid page mem s p i h =
      let nothing : text_of page s.here.region ≡ [] =
        h.here_text page p ∙ ap (λ (st : MsiState). expected st (mem page)) i in
      let short : length (text_of page s.here.region) ≤ 4095 = rw nothing (omega arith) in
      let own = read_text vm 4097 page s.here.region short (omega arith) ∙ nothing in
      elim (state_cases (s.peer.msi_array page)) [
        | inl v ↦
            let pair = shared_peer alone (s.peer.msi_array page) v (λ e. h.peer_lacks e page p) in
            let m =
              peer-IsMessage alone (s.here.msi_array page) (s.peer.msi_array page) (mem page) v
                (h.kept page p) in
            let text = h.peer_text page p ∙ expected-valid (s.peer.msi_array page) (mem page) v in
            let short' : length (text_of page s.peer.region) ≤ 4095 =
              rw text (within_page (longest-le alone) m) in
            (
              fetched vm page (mem page) s,
              print_page-fetched vm page s (mem page) (omega arith) i v own
                  (read_text vm 4095 page s.peer.region short' short' ∙ text) m.not_empty
                  (rw (← pair_longest alone pair) m.short) m.not_null,
              fetched-Holds vm alone num_pages page mem s pair m h,
            )
        | inr j ↦
            let never : mem page ≡ [] =
              subst₂ (λ a b. IsKept (longest alone) a b (mem page)) i j (h.kept page p) in
            (
              not_fetched vm page s,
              print_page-not_fetched vm page s (omega arith) i j own
                  ∙ ap (λ (m : List ℕ). some (not_fetched vm page s, m)) (sym never),
              not_fetched-Holds vm alone num_pages page mem s i h,
            )
      ]

  read_page :
      (page : ℕ) (mem : Memory) (s : System)
      → page < num_pages
      → Holds alone num_pages mem s
      → (t : System) × (print_page vm page true s ≡ some (t, mem page))
        × Holds alone num_pages mem t
  read_page page mem s p h = elim (state_cases (s.here.msi_array page)) [
    | inl v ↦ (
      after_reading vm page s,
      read_valid page true mem s p v h,
      after_reading-Holds vm alone num_pages page mem s h,
    )
    | inr i ↦ read_invalid page mem s p i h
  ]

  -- The loops over pages.
  pub read_loop :
      (n page : ℕ) (mem : Memory) (s : System)
      → page + n ≤ num_pages
      → Holds alone num_pages mem s
      → (t : System) × (print_page_contents vm n page true s ≡ some (t, read_pages n page mem))
        × Holds alone num_pages mem t
  unfolding print_page_contents read_pages
  read_loop zero page mem s p h = (s, refl, h)
  read_loop (suc n) page mem s p h =
      let (u, first, kept) = read_page page mem s (omega arith) h in
      let (t, rest, done) = read_loop n (page + 1) mem u (omega arith) kept in
      (t, rw (first, rest) refl, done)

  -- The same for pages that this process has, with or without fetching.
  pub show_loop :
      (n page : ℕ) (fetch : Bool) (mem : Memory) (s : System)
      → page + n ≤ num_pages
      → ((q : ℕ) → page ≤ q → q < page + n → is_valid (s.here.msi_array q) ≡ true)
      → Holds alone num_pages mem s
      → (t : System) × (print_page_contents vm n page fetch s ≡ some (t, read_pages n page mem))
        × Holds alone num_pages mem t
  unfolding print_page_contents read_pages
  show_loop zero page fetch mem s p v h = (s, refl, h)
  show_loop (suc n) page fetch mem s p v h =
      let first =
        read_valid page fetch mem s (omega arith) (v page (omega arith) (omega arith)) h in
      let (t, rest, done) =
        show_loop n (page + 1) fetch mem (after_reading vm page s) (omega arith)
          (λ q a b. v q (omega arith) (omega arith))
          (after_reading-Holds vm alone num_pages page mem s h) in
      (t, rw (first, rest) refl, done)

  pub write_loop :
      (n page : ℕ) (message : List ℕ) (mem : Memory) (s : System)
      → page + n ≤ num_pages
      → IsMessage (longest alone) message
      → Holds alone num_pages mem s
      → (t : System) × (update_page_contents vm n page message true s ≡ some t)
        × Holds alone num_pages (write_pages n page message mem) t
        × ((q : ℕ)
            → t.here.msi_array q
              ≡ (if leb page q && ltb q (page + n) then modified else s.here.msi_array q))
  unfolding update_page_contents
  write_loop zero page message mem s p m h =
      (s, refl, rw (write_pages-zero page message mem) h, λ q. ground arith)
  write_loop (suc n) page message mem s p m h =
      let w = write_outcome vm page message s in
      let first = update_page-write vm page message s in
      let (t, rest, kept, states_after) =
        write_loop n (page + 1) message (write_pages 1 page message mem) w (omega arith) m
          (write_outcome-Holds vm alone num_pages page message mem s m h) in
      (
        t,
        rw (first, lt→ltb page max_pages (omega arith)) rest,
        rw (← write_pages-suc n page message mem) kept,
        λ q. states_after q ∙ ground arith,
      )

  pub pages-within :
      (request : Request)
      → IsWithin num_pages request
      → first_page request + rounds num_pages request ≤ num_pages
  pages-within (one page) w = omega arith
  pages-within every w = omega arith
