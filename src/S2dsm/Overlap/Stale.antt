-- ===== src/S2dsm/Overlap/Stale.antt =====
-- A read and a write of one page that overlap, at two processes.
use sbu_cse_506_operating_sy.Prelude.{ℕ, ◌*◌, ◌<◌, ◌≤◌, ◌≡◌, refl, some, List, length, arith, ◌∙◌}
use mathlib.Core.Path.{subst}
use sbu_cse_506_operating_sy.S2dsm.Region.{page_size, Vm, write_string, read_string}
use sbu_cse_506_operating_sy.S2dsm.Text.{text_of, read_text, text_of-write_string}
use sbu_cse_506_operating_sy.S2dsm.Protocol.{
  modified, shared, invalid, Node, set_state, read_op, invalidate_op, success_text,
  communicate_with_peer, respond, get_response, transition_state_on_read, max_pages,
}
use sbu_cse_506_operating_sy.S2dsm.Memory.{IsMessage, within_page}
use sbu_cse_506_operating_sy.S2dsm.Overlap.{
  Move, at_prompt, stored, marked, fetched, Duo, store_message, mark, invalidate, ask, keep, mine,
  theirs, Turns, no_turn, turned,
}

-- The reader of the page has the old text in state S, the writer the new one in state M, and both are
-- at the prompt again.
pub record IsStale (page : ℕ) (old new : List ℕ) (u : Duo) : Type 0 where
  pub reader_idle : u.doing ≡ at_prompt
  pub writer_idle : u.peer_doing ≡ at_prompt
  pub reader_state : u.here.msi_array page ≡ shared
  pub writer_state : u.peer.msi_array page ≡ modified
  pub reader_text : text_of page u.here.region ≡ old
  pub writer_text : text_of page u.peer.region ≡ new

module _ (vm : Vm) where
  answered_read :
      (page : ℕ) (n : Node) (text : List ℕ)
      → n.msi_array page ≡ shared
      → (read_string vm 4095 (page * page_size) n.region).1 ≡ text
      → 0 < length text
      → communicate_with_peer vm page read_op n
        ≡ some (record n { region = (read_string vm 4095 (page * page_size) n.region).0 }, text)
  unfolding communicate_with_peer respond get_response transition_state_on_read
  answered_read page n text s t l = ground arith

  answered_invalidate :
      (page : ℕ) (n : Node)
      → communicate_with_peer vm page invalidate_op n
        ≡ some (
          record {
            msi_array = set_state n.msi_array page invalid;
            region = vm.dont_need n.region page;
          },
          success_text,
        )
  unfolding communicate_with_peer respond
  answered_invalidate page n = refl

  -- The states after each of five moves: the reader asks, the writer stores its message, marks its page
  -- and has it invalidated at the reader, and the reader keeps what it was answered.
  abbrev asked : ℕ → List ℕ → Duo → Duo
  asked page old d = record d {
    here = record (d.here) { region = (read_string vm 4097 (page * page_size) d.here.region).0 };
    peer = record (d.peer) { region = (read_string vm 4095 (page * page_size) d.peer.region).0 };
    doing = fetched page old;
  }

  abbrev put : ℕ → List ℕ → Duo → Duo
  put page new d = record d {
    peer = record (d.peer) { region = write_string vm (page * page_size) new d.peer.region };
    peer_doing = stored page;
  }

  abbrev marked_there : ℕ → Duo → Duo
  marked_there page d = record d {
    peer = record (d.peer) { msi_array = set_state d.peer.msi_array page modified };
    peer_doing = marked page;
  }

  abbrev invalidated : ℕ → Duo → Duo
  invalidated page d = record d {
    here = record {
      msi_array = set_state d.here.msi_array page invalid;
      region = vm.dont_need d.here.region page;
    };
    peer_doing = at_prompt;
  }

  abbrev kept : ℕ → List ℕ → Duo → Duo
  kept page old d = record d {
    here = record {
      msi_array = set_state d.here.msi_array page shared;
      region = write_string vm (page * page_size) old d.here.region;
    };
    doing = at_prompt;
  }

  -- From every state in which both processes are at the prompt and one has a page, below 100, in state I
  -- that the other has in state S with some message of 1 to 511 bytes, a read at the one and a write of
  -- any message of 1 to 4095 bytes at the other can overlap so that the reader ends up with the old
  -- message in state S while the writer has the new one in state M. In both messages no byte is 0, and
  -- they are not the text "NULL".
  pub Turns-IsStale :
      (page : ℕ) (old new : List ℕ) (d : Duo)
      → page < max_pages
      → d.doing ≡ at_prompt
      → d.peer_doing ≡ at_prompt
      → d.here.msi_array page ≡ invalid
      → d.peer.msi_array page ≡ shared
      → text_of page d.peer.region ≡ old
      → IsMessage 511 old
      → IsMessage 4095 new
      → (u : Duo) × Turns vm d u × IsStale page old new u
  Turns-IsStale page old new d b e f i j t m n =
      let short : length (text_of page d.peer.region) ≤ 4095 = rw t (within_page (omega arith) m) in
      let sent = read_text vm 4095 page d.peer.region short short ∙ t in
      let request =
        subst (λ found. Move vm d (asked page found d)) (vm.read_answer_short old m.short)
          (ask page e b i (answered_read page d.peer old j sent m.not_empty)) in
      let d1 = asked page old d in
      let d2 = put page new d1 in
      let d3 = marked_there page d2 in
      let d4 = invalidated page d3 in
      (
        kept page old d4,
        turned
            (turned
              (turned
                (turned (turned no_turn (mine request)) (theirs (store_message page new f) refl))
                (theirs (mark page refl b) refl))
              (theirs (invalidate page refl (answered_invalidate page d3.here)) refl))
            (mine (keep page old refl m.not_null)),
        record {
          reader_idle = refl;
          writer_idle = refl;
          reader_state = ground arith;
          writer_state = ground arith;
          reader_text =
              text_of-write_string vm page page old d4.here.region m.no_nul
                (within_page (omega arith) m)
              ∙ ground arith;
          writer_text =
              text_of-write_string vm page page new d1.peer.region n.no_nul
                (within_page (omega arith) n)
              ∙ ground arith;
        },
      )
