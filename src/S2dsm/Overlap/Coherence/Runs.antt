-- ===== src/S2dsm/Overlap/Coherence/Runs.antt =====
-- Runs in which no page is used by both processes at a time.
use sbu_cse_506_operating_sy.Prelude.{
  ℕ, ◌+◌, ◌*◌, ◌≡◌, ◌<◌, refl, sym, ap, ◌∙◌, true, false, some, ◌&&◌, leb, ltb, lt→ltb, arith,
  eq_or_ne, inl, inr,
}
use mathlib.Core.Path.{subst}
use sbu_cse_506_operating_sy.S2dsm.Region.{page_size, Vm}
use sbu_cse_506_operating_sy.S2dsm.Text.{
  text_of, text_of-read_string, text_of-dont_need, text_of-write_string,
}
use sbu_cse_506_operating_sy.S2dsm.Protocol.{modified, Node, System, max_pages}
use sbu_cse_506_operating_sy.S2dsm.Overlap.{
  at_prompt, fetched, Duo, exchange_sides, Move, store_message, mark, invalidate, ask, wait, keep,
  drop, Turn, mine, theirs,
}
use sbu_cse_506_operating_sy.S2dsm.Overlap.Disjoint.{is_at, IsDisjoint, IsDisjoint-exchange}
use sbu_cse_506_operating_sy.S2dsm.Overlap.Coherence.{Coherent, Sound, elsewhere, Sound-exchange}
use sbu_cse_506_operating_sy.S2dsm.Overlap.Coherence.Pages.{
  finished, same_page, at_own_page, store-Sound, mark-Sound, invalidate-Sound, ask-Sound,
  keep-Sound, drop-Sound,
}
use sbu_cse_506_operating_sy.S2dsm.Memory.{within_page}
use sbu_cse_506_operating_sy.S2dsm.Prompt.{boot, untouched}
use sbu_cse_506_operating_sy.S2dsm.Bounds.{filled, fill_with_invalid_lem}
use sbu_cse_506_operating_sy.S2dsm.Text.{string_at_zero}
use sbu_cse_506_operating_sy.S2dsm.Region.View.{view}
use sbu_cse_506_operating_sy.S2dsm.Overlap.Coherence.Moves.{
  IsProperMove, invalidated_peer, read_states, read_texts, waited_states, waited_texts,
  kept-IsMessage,
}

module _ (vm : Vm) where
  -- A move keeps every page sound.
  Move-Sound :
      (n : ℕ) {d u : Duo} (m : Move vm d u)
      → IsProperMove vm n m
      → IsDisjoint d
      → IsDisjoint u
      → ((q : ℕ) → q < n → Sound q d)
      → (q : ℕ) → q < n
      → Sound q u
  Move-Sound n {d} {u} (store_message page message e) k i j h q l = elim (eq_or_ne page q) [
    | inl same ↦ subst (λ p. Sound p u) same.0 (store-Sound vm page message d u refl k.1 j)
    | inr other ↦
        elsewhere q d u refl refl
          (text_of-write_string vm q page message d.here.region k.1.no_nul
              (within_page (omega arith) k.1)
            ∙ rw other.1 refl)
          refl (ap (λ p. is_at p q) e) other.1 refl (h q l)
  ]
  Move-Sound n {d} {u} (mark page e b) k i j h q l = elim (eq_or_ne page q) [
    | inl same ↦ subst (λ p. Sound p u) same.0 (mark-Sound vm page d e (h page k) j)
    | inr other ↦
        elsewhere q d u (rw other.1 refl) refl refl refl (ap (λ p. is_at p q) e ∙ other.1) other.1
          refl (h q l)
  ]
  Move-Sound n {d} {u} (invalidate page {peer'} {answer} e c) k i j h q l = elim (eq_or_ne page q) [
    | inl same ↦
        subst (λ p. Sound p u) same.0 (invalidate-Sound vm page d peer' answer e c i (h page k))
    | inr other ↦
        let gone = invalidated_peer vm page d.peer peer' answer c in
        elsewhere q d u refl (ap (λ (n : Node). n.msi_array q) gone ∙ rw other.1 refl) refl
          (ap (λ (n : Node). text_of q n.region) gone
            ∙ text_of-dont_need vm q page d.peer.region
            ∙ rw other.1 refl)
          (ap (λ p. is_at p q) e ∙ other.1) refl refl (h q l)
  ]
  Move-Sound n {d} {u} (ask page {peer'} {answer} e b s c) k i j h q l = elim (eq_or_ne page q) [
    | inl same ↦ subst (λ p. Sound p u) same.0 (ask-Sound vm page d peer' answer e s c (h page k) j)
    | inr other ↦
        elsewhere q d u refl (read_states vm page q d.peer peer' answer c other.1)
          (text_of-read_string vm q 4097 (page * page_size) d.here.region)
          (read_texts vm page q d.peer peer' answer c) (ap (λ p. is_at p q) e) other.1 refl (h q l)
  ]
  Move-Sound n {d} {u} (wait page {peer'} e b s c) k i j h q l = elim (eq_or_ne page q) [
    | inl same ↦
        subst (λ p. Sound p u) same.0
          (record {
            here_at = λ g. tt;
            peer_at = λ g. absurd (cc (j page, same_page page, g));
            idle = λ g _. absurd (cc (g, same_page page));
          })
    | inr other ↦
        elsewhere q d u refl (waited_states vm page q d.peer peer' c other.1)
          (text_of-read_string vm q 4097 (page * page_size) d.here.region)
          (waited_texts vm page q d.peer peer' c) (ap (λ p. is_at p q) e) other.1 refl (h q l)
  ]
  Move-Sound n {d} {u} (keep page answer e f) k i j h q l = elim (eq_or_ne page q) [
    | inl same ↦ subst (λ p. Sound p u) same.0 (keep-Sound vm page answer d e f i (h page k))
    | inr other ↦
        let (state, said) =
          at_own_page (fetched page answer) page d e (same_page page) (h page k) in
        let m =
          kept-IsMessage vm answer (d.peer.msi_array page) (text_of page d.peer.region) f said in
        elsewhere q d u (rw other.1 refl) refl
          (text_of-write_string vm q page answer d.here.region m.no_nul
              (within_page (omega arith) m)
            ∙ rw other.1 refl)
          refl (ap (λ p. is_at p q) e ∙ other.1) refl refl (h q l)
  ]
  Move-Sound n {d} {u} (drop page answer e f) k i j h q l = elim (eq_or_ne page q) [
    | inl same ↦ subst (λ p. Sound p u) same.0 (drop-Sound vm page answer d e f i (h page k))
    | inr other ↦
        elsewhere q d u refl refl (text_of-dont_need vm q page d.here.region ∙ rw other.1 refl) refl
          (ap (λ p. is_at p q) e ∙ other.1) refl refl (h q l)
  ]

  abbrev pub IsProperTurn : ℕ → {d u : Duo} → Turn vm d u → Type 0
  IsProperTurn n (mine m) = IsProperMove vm n m
  IsProperTurn n (theirs m e) = IsProperMove vm n m

  Turn-Sound :
      (n : ℕ) {d u : Duo} (t : Turn vm d u)
      → IsProperTurn n t
      → IsDisjoint d
      → IsDisjoint u
      → ((q : ℕ) → q < n → Sound q d)
      → (q : ℕ) → q < n
      → Sound q u
  Turn-Sound n (mine m) k i j h q l = Move-Sound n m k i j h q l
  Turn-Sound n {d} {u} (theirs {v} m e) k i j h q l =
      let back : v ≡ exchange_sides u = ap exchange_sides (sym e) in
      let j' : IsDisjoint v = rw back (IsDisjoint-exchange u j) in
      rw e (
        Sound-exchange q v
          (Move-Sound n m k (IsDisjoint-exchange d i) j' (λ p b. Sound-exchange p d (h p b)) q l))

  -- Proper turns through states in which the two processes are never at one page.
  pub data ProperTurns (n : ℕ) (d : Duo) : Duo → Type 0 where
    none_so_far : ProperTurns n d d
    next :
        {t u : Duo}
        → ProperTurns n d t
        → (turn : Turn vm t u) → IsProperTurn n turn
        → IsDisjoint u
        → ProperTurns n d u

  ProperTurns-IsDisjoint : {n : ℕ} {d u : Duo} → ProperTurns n d u → IsDisjoint d → IsDisjoint u
  ProperTurns-IsDisjoint none_so_far i = i
  ProperTurns-IsDisjoint (next r t k j) i = j

  ProperTurns-Sound :
      {n : ℕ} {d u : Duo}
      → ProperTurns n d u
      → IsDisjoint d
      → ((q : ℕ) → q < n → Sound q d)
      → (q : ℕ) → q < n
      → Sound q u
  ProperTurns-Sound none_so_far i h q l = h q l
  ProperTurns-Sound {n} (next r t k j) i h q l =
      Turn-Sound n t k (ProperTurns-IsDisjoint r i) j (ProperTurns-Sound r i h) q l

  -- Both processes at their prompts.
  abbrev pub both_idle : System → Duo
  both_idle s = record { here = s.here; peer = s.peer; doing = at_prompt; peer_doing = at_prompt }

  abbrev started : ℕ → (ℕ → ℕ) → System
  started num_pages byte =
      let n : Node = record {
        msi_array = filled (num_pages + 1) 0 (λ _. modified);
        region = untouched byte;
      } in
      record { here = n; peer = n }

  inside : (num_pages q : ℕ) → q < num_pages → (leb 0 q && ltb q (0 + (num_pages + 1))) ≡ true
  inside num_pages q l = ground arith

  boot-Sound :
      (num_pages : ℕ) (byte : ℕ → ℕ) (s : System)
      → num_pages < 100
      → boot num_pages byte ≡ some s
      → (q : ℕ) → q < num_pages
      → Sound q (both_idle s)
  unfolding boot
  boot-Sound num_pages byte s bound e q l =
      let run : boot num_pages byte ≡ some (started num_pages byte) =
        rw (fill_with_invalid_lem, lt→ltb num_pages max_pages bound) refl in
      let same : s ≡ started num_pages byte = cc (e, run) in
      let nothing = string_at_zero 4096 (q * page_size) (view (untouched byte)) refl in
      rw same (
        finished q (both_idle (started num_pages byte)) refl refl
          (rw (inside num_pages q l) (nothing, nothing)))

  -- With fewer than 100 pages: from the start on, any interleaving of commands of the two processes on
  -- pages of the region, in which the two are never at one page at the same time, leaves every page
  -- that neither is at coherent. A page in state M at one process is in state I at the other, one in
  -- state S at both has the same message at both, and a process has no text of a page in state I.
  -- Messages are proper ones: 1 to 511 bytes, none of them 0, and not the text "NULL".
  pub ProperTurns-Coherent :
      (num_pages : ℕ) (byte : ℕ → ℕ) {s : System} {u : Duo}
      → num_pages < 100
      → boot num_pages byte ≡ some s
      → ProperTurns num_pages (both_idle s) u
      → (q : ℕ) → q < num_pages
      → is_at u.doing q ≡ false
      → is_at u.peer_doing q ≡ false
      → Coherent
          (u.here.msi_array q)
          (u.peer.msi_array q)
          (text_of q u.here.region)
          (text_of q u.peer.region)
  ProperTurns-Coherent num_pages byte {s} {u} bound e r q l f g =
      (ProperTurns-Sound r (λ p. refl) (boot-Sound num_pages byte s bound e) q l).idle f g
