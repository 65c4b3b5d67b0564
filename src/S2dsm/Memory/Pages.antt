-- ===== src/S2dsm/Memory/Pages.antt =====
-- A read and a write of one page keep the memory, and a read shows its text.
use sbu_cse_506_operating_sy.Prelude.{
  ℕ, ◌+◌, ◌*◌, ◌≤◌, ◌<◌, ◌≡◌, sym, ap, ◌∙◌, Bool, true, false, some, List, [], ltb, leb, ◌&&◌, ◌==◌,
  length, arith, eq_or_ne, ==_iff, inl, inr,
}
use sbu_cse_506_operating_sy.S2dsm.Region.{page_size, Vm, write_string, read_string}
use sbu_cse_506_operating_sy.S2dsm.Text.{
  text_of-read_string, text_of-dont_need, text_of-write_string,
}
use sbu_cse_506_operating_sy.S2dsm.Protocol.{
  MsiState, modified, shared, invalid, System, max_pages, set_state, get_response,
  transition_state_on_read, respond, communicate_with_peer, update_page, fetch_page, print_page,
  null_text, text_eq, read_op,
}
use sbu_cse_506_operating_sy.S2dsm.Exclusion.{write_outcome, after_reading}
use sbu_cse_506_operating_sy.S2dsm.Memory.{
  Memory, IsMessage, within_page, longest, longest-le, Holds, expected, write_pages,
}

abbrev pub is_valid : MsiState → Bool
is_valid invalid = false
is_valid modified = true
is_valid shared = true

-- The states at a process after it has answered a read of the page.
abbrev pub answered : ℕ → (ℕ → MsiState) → ℕ → MsiState
answered page f = elim (f page) [ modified ↦ set_state f page shared | shared ↦ f | invalid ↦ f ]

one_page : (page q : ℕ) → (leb page q && ltb q (page + 1)) ≡ (page == q)
one_page page q = ground arith

expected-answered :
    (page q : ℕ) (f : ℕ → MsiState) (m : List ℕ) → expected (answered page f q) m ≡ expected (f q) m
expected-answered page q f m = ground (arith, ==_iff page q, ap f)

answered_other : (page q : ℕ) (f : ℕ → MsiState) → page == q ≡ false → answered page f q ≡ f q
answered_other page q f n = ground arith

module _ (vm : Vm) where
  pub print_page-valid :
      (page : ℕ) (fetch : Bool) (s : System) (m : List ℕ)
      → page < max_pages
      → is_valid (s.here.msi_array page) ≡ true
      → (read_string vm 4097 (page * page_size) s.here.region).1 ≡ m
      → length m ≤ 4095
      → print_page vm page fetch s ≡ some (after_reading vm page s, m)
  unfolding print_page
  print_page-valid page fetch s m p v t l = ground arith

  -- Where the read of a page leads that this process lacks and the other one has.
  abbrev pub fetched : ℕ → List ℕ → System → System
  fetched page m s = record {
    here = record {
      msi_array = set_state s.here.msi_array page shared;
      region =
          write_string vm (page * page_size) m
            (read_string vm 4097 (page * page_size) s.here.region).0;
    };
    peer = record {
      msi_array = answered page s.peer.msi_array;
      region = (read_string vm 4095 (page * page_size) s.peer.region).0;
    };
  }

  pub print_page-fetched :
      (page : ℕ) (s : System) (m : List ℕ)
      → page < max_pages
      → s.here.msi_array page ≡ invalid
      → is_valid (s.peer.msi_array page) ≡ true
      → (read_string vm 4097 (page * page_size) s.here.region).1 ≡ []
      → (read_string vm 4095 (page * page_size) s.peer.region).1 ≡ m
      → 0 < length m
      → length m ≤ 511
      → text_eq null_text m ≡ false
      → print_page vm page true s ≡ some (fetched page m s, m)
  unfolding print_page fetch_page communicate_with_peer respond get_response
      transition_state_on_read update_page
  print_page-fetched page s m p i v e t l w n =
      ground
        (arith, vm.read_answer_short (respond vm page read_op s.peer).1, vm.read_answer_short m w)

  -- Where it leads if neither has it.
  abbrev pub not_fetched : ℕ → System → System
  not_fetched page s = record s {
    here = record (s.here) {
      region = vm.dont_need (read_string vm 4097 (page * page_size) s.here.region).0 page;
    };
  }

  pub print_page-not_fetched :
      (page : ℕ) (s : System)
      → page < max_pages
      → s.here.msi_array page ≡ invalid
      → s.peer.msi_array page ≡ invalid
      → (read_string vm 4097 (page * page_size) s.here.region).1 ≡ []
      → print_page vm page true s ≡ some (not_fetched page s, [])
  unfolding print_page fetch_page communicate_with_peer respond get_response
      transition_state_on_read text_eq
  print_page-not_fetched page s p i j e =
      ground (arith, vm.read_answer_short null_text (omega arith))

  pub after_reading-Holds :
      (alone : Bool) (num_pages page : ℕ) (mem : Memory) (s : System)
      → Holds alone num_pages mem s
      → Holds alone num_pages mem (after_reading vm page s)
  after_reading-Holds alone num_pages page mem s h = record {
    here_text =
        λ q l. text_of-read_string vm q 4097 (page * page_size) s.here.region ∙ h.here_text q l;
    peer_text = h.peer_text;
    kept = h.kept;
    peer_lacks = h.peer_lacks;
  }

  pub not_fetched-Holds :
      (alone : Bool) (num_pages page : ℕ) (mem : Memory) (s : System)
      → s.here.msi_array page ≡ invalid
      → Holds alone num_pages mem s
      → Holds alone num_pages mem (not_fetched page s)
  not_fetched-Holds alone num_pages page mem s i h =
      let r = (read_string vm 4097 (page * page_size) s.here.region).0 in
      record {
        here_text = λ q l.
            text_of-dont_need vm q page r
            ∙ ground (
              arith,
              text_of-read_string vm q 4097 (page * page_size) s.here.region,
              h.here_text q l,
              i,
              ap s.here.msi_array,
            );
        peer_text = h.peer_text;
        kept = h.kept;
        peer_lacks = h.peer_lacks;
      }

  pub fetched-Holds :
      (alone : Bool) (num_pages page : ℕ) (mem : Memory) (s : System)
      → alone ≡ false
      → IsMessage (longest alone) (mem page)
      → Holds alone num_pages mem s
      → Holds alone num_pages mem (fetched page (mem page) s)
  fetched-Holds alone num_pages page mem s pair m h =
      let r = (read_string vm 4097 (page * page_size) s.here.region).0 in
      record {
        here_text = λ q l.
            text_of-write_string vm q page (mem page) r m.no_nul (within_page (longest-le alone) m)
            ∙ ground (
              arith,
              ==_iff page q,
              ap mem,
              text_of-read_string vm q 4097 (page * page_size) s.here.region,
              h.here_text q l,
            );
        peer_text = λ q l.
            text_of-read_string vm q 4095 (page * page_size) s.peer.region
            ∙ h.peer_text q l
            ∙ sym (expected-answered page q s.peer.msi_array (mem q));
        kept = λ q l. elim (eq_or_ne page q) [
          | inl same ↦ rw (same.1, ← same.0) m
          | inr other ↦ rw (other.1, answered_other page q s.peer.msi_array other.1) (h.kept q l)
        ];
        peer_lacks = λ e. absurd (cc (e, pair));
      }

  pub write_outcome-Holds :
      (alone : Bool) (num_pages page : ℕ) (message : List ℕ) (mem : Memory) (s : System)
      → IsMessage (longest alone) message
      → Holds alone num_pages mem s
      → Holds alone num_pages (write_pages 1 page message mem) (write_outcome vm page message s)
  write_outcome-Holds alone num_pages page message mem s m h = record {
    here_text = λ q l.
        text_of-write_string vm q page message s.here.region m.no_nul
          (within_page (longest-le alone) m)
        ∙ ground (arith, h.here_text q l);
    peer_text = λ q l. text_of-dont_need vm q page s.peer.region ∙ ground (arith, h.peer_text q l);
    kept = λ q l. elim (eq_or_ne page q) [
      | inl same ↦ rw (same.1, one_page page q, same.1) m
      | inr other ↦ rw (other.1, one_page page q, other.1) (h.kept q l)
    ];
    peer_lacks = λ e q l. ground (arith, h.peer_lacks e q l);
  }
