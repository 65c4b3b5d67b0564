-- ===== src/S2dsm/Overlap/Coherence/Pages.antt =====
-- Each move at its own page.
use sbu_cse_506_operating_sy.Prelude.{
  ℕ, ◌*◌, ◌≡◌, refl, ap, ◌∙◌, Bool, true, false, some, List, ◌==◌, if◌then◌else◌, arith,
}
use mathlib.Core.Path.{subst}
use sbu_cse_506_operating_sy.S2dsm.Region.{page_size, Vm, write_string, read_string}
use sbu_cse_506_operating_sy.S2dsm.Text.{text_of, text_of-dont_need, text_of-write_string}
use sbu_cse_506_operating_sy.S2dsm.Protocol.{
  modified, shared, invalid, Node, set_state, text_eq, null_text, communicate_with_peer,
  invalidate_op, read_op,
}
use sbu_cse_506_operating_sy.S2dsm.Memory.{IsMessage, within_page}
use sbu_cse_506_operating_sy.S2dsm.Overlap.{Progress, at_prompt, stored, marked, fetched, Duo}
use sbu_cse_506_operating_sy.S2dsm.Overlap.Disjoint.{is_at, IsDisjoint}
use sbu_cse_506_operating_sy.S2dsm.Overlap.Coherence.{Coherent, Held, Sound}
use sbu_cse_506_operating_sy.S2dsm.Overlap.Coherence.Moves.{
  invalidated_peer, read-IsAnswer, kept-Coherent, kept-IsMessage, dropped-Coherent,
}

begun :
    (q : ℕ) (u : Duo)
    → IsDisjoint u
    → is_at u.doing q ≡ true
    → Held u.doing
        (u.here.msi_array q)
        (u.peer.msi_array q)
        (text_of q u.here.region)
        (text_of q u.peer.region)
    → Sound q u
begun q u j a h = record {
  here_at = λ e. h;
  peer_at = λ e. absurd (ground (arith, j q));
  idle = λ e f. absurd (cc (a, e));
}

pub finished :
    (q : ℕ) (u : Duo)
    → is_at u.doing q ≡ false
    → is_at u.peer_doing q ≡ false
    → Coherent
        (u.here.msi_array q)
        (u.peer.msi_array q)
        (text_of q u.here.region)
        (text_of q u.peer.region)
    → Sound q u
finished q u a b h = record {
  here_at = λ e. absurd (cc (a, e));
  peer_at = λ e. absurd (cc (b, e));
  idle = λ e f. h;
}

pub same_page : (page : ℕ) → (page == page) ≡ true
same_page page = ground arith

peer_elsewhere :
    (q : ℕ) (d : Duo) → IsDisjoint d → is_at d.doing q ≡ true → is_at d.peer_doing q ≡ false
peer_elsewhere q d i a = ground (arith, i q)

-- What is held where the process is at the page, or at its prompt.
pub at_own_page :
    (p : Progress) (q : ℕ) (d : Duo)
    → d.doing ≡ p
    → is_at p q ≡ true
    → Sound q d
    → Held p
        (d.here.msi_array q)
        (d.peer.msi_array q)
        (text_of q d.here.region)
        (text_of q d.peer.region)
at_own_page p q d e a h = rw (← e) (h.here_at (rw e a))

elsewhere_at :
    (p : Progress) (q : ℕ) (d : Duo)
    → d.doing ≡ p
    → is_at p q ≡ true
    → IsDisjoint d
    → is_at d.peer_doing q ≡ false
elsewhere_at p q d e a i = peer_elsewhere q d i (rw e a)

module _ (vm : Vm) where
  pub store-Sound :
      (page : ℕ) (message : List ℕ) (d u : Duo)
      → u ≡ record d {
        here = record (d.here) {
          region = write_string vm (page * page_size) message d.here.region;
        };
        doing = stored page;
      }
      → IsMessage 511 message
      → IsDisjoint u
      → Sound page u
  store-Sound page message d u e m j =
      let written =
        text_of-write_string vm page page message d.here.region m.no_nul
          (within_page (omega arith) m)
        ∙ rw (same_page page) refl in
      begun page u j (rw e (same_page page)) (rw e (rw written m))

  pub mark-Sound :
      (page : ℕ) (d : Duo)
      → d.doing ≡ stored page
      → Sound page d
      → let u = record d {
        here = record (d.here) { msi_array = set_state d.here.msi_array page modified };
        doing = marked page;
      } in
        IsDisjoint u → Sound page u
  mark-Sound page d e h j =
      begun page _ j (same_page page)
        (at_own_page (stored page) page d e (same_page page) h, rw (same_page page) refl)

  pub invalidate-Sound :
      (page : ℕ) (d : Duo) (peer' : Node) (answer : List ℕ)
      → d.doing ≡ marked page
      → communicate_with_peer vm page invalidate_op d.peer ≡ some (peer', answer)
      → IsDisjoint d
      → Sound page d
      → Sound page (record d { peer = peer'; doing = at_prompt })
  invalidate-Sound page d peer' answer e c i h =
      let gone = invalidated_peer vm page d.peer peer' answer c in
      let (message, state) = at_own_page (marked page) page d e (same_page page) h in
      let empty = text_of-dont_need vm page page d.peer.region ∙ rw (same_page page) refl in
      finished page _ refl (elsewhere_at (marked page) page d e (same_page page) i)
        (rw (gone, state, same_page page) (message, empty))

  pub ask-Sound :
      (page : ℕ) (d : Duo) (peer' : Node) (answer : List ℕ)
      → d.doing ≡ at_prompt
      → d.here.msi_array page ≡ invalid
      → communicate_with_peer vm page read_op d.peer ≡ some (peer', answer)
      → Sound page d
      → let u = record d {
        here = record (d.here) {
          region = (read_string vm 4097 (page * page_size) d.here.region).0;
        };
        peer = peer';
        doing = fetched page (vm.read_answer answer);
      } in
        IsDisjoint u → Sound page u
  ask-Sound page d peer' answer e s c h j =
      let away : is_at d.peer_doing page ≡ false = ground (arith, j page) in
      let before = h.idle (ap (λ p. is_at p page) e) away in
      begun page _ j (same_page page) (
        s,
        read-IsAnswer vm (d.peer.msi_array page) page d.peer peer' answer
            (text_of page d.here.region) refl c
            (subst
              (λ st.
                Coherent st (d.peer.msi_array page) (text_of page d.here.region)
                  (text_of page d.peer.region))
              s before),
      )

  pub keep-Sound :
      (page : ℕ) (answer : List ℕ) (d : Duo)
      → d.doing ≡ fetched page answer
      → text_eq null_text answer ≡ false
      → IsDisjoint d
      → Sound page d
      → Sound page (record d {
        here = record {
          msi_array = set_state d.here.msi_array page shared;
          region = write_string vm (page * page_size) answer d.here.region;
        };
        doing = at_prompt;
      })
  keep-Sound page answer d e n i h =
      let (state, said) = at_own_page (fetched page answer) page d e (same_page page) h in
      let after =
        kept-Coherent vm answer (d.peer.msi_array page) (text_of page d.peer.region) n said in
      let m =
        kept-IsMessage vm answer (d.peer.msi_array page) (text_of page d.peer.region) n said in
      let written =
        text_of-write_string vm page page answer d.here.region m.no_nul
          (within_page (omega arith) m)
        ∙ ap (λ (b : Bool). if b then answer else text_of page d.here.region) (same_page page) in
      finished page _ refl (elsewhere_at (fetched page answer) page d e (same_page page) i)
        (rw (same_page page) (rw written after))

  pub drop-Sound :
      (page : ℕ) (answer : List ℕ) (d : Duo)
      → d.doing ≡ fetched page answer
      → text_eq null_text answer ≡ true
      → IsDisjoint d
      → Sound page d
      → Sound page (record d {
        here = record (d.here) { region = vm.dont_need d.here.region page };
        doing = at_prompt;
      })
  drop-Sound page answer d e n i h =
      let (state, said) = at_own_page (fetched page answer) page d e (same_page page) h in
      let after =
        dropped-Coherent vm answer (d.peer.msi_array page) (text_of page d.peer.region) n said in
      let empty = text_of-dont_need vm page page d.here.region ∙ rw (same_page page) refl in
      finished page _ refl (elsewhere_at (fetched page answer) page d e (same_page page) i)
        (rw (state, empty) after)
