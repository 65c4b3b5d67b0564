-- ===== src/S2dsm/Overlap/Coherence.antt =====
-- Commands that overlap, but on different pages: the texts of the pages.
pub mod Moves
pub mod Pages
pub mod Runs
use sbu_cse_506_operating_sy.Prelude.{
  ℕ, ◌+◌, ◌*◌, ◌≡◌, ◌⊎◌, refl, sym, ap, ◌∙◌, Bool, true, false, some, List, [], ◌==◌, ◌&&◌,
  if◌then◌else◌, arith, eq_or_ne, inl, inr, length,
}
use sbu_cse_506_operating_sy.S2dsm.Region.{Vm}
use sbu_cse_506_operating_sy.S2dsm.Text.{text_of}
use sbu_cse_506_operating_sy.S2dsm.Protocol.{
  MsiState, modified, shared, invalid, null_text, text_eq,
}
use sbu_cse_506_operating_sy.S2dsm.Memory.{IsMessage}
use sbu_cse_506_operating_sy.S2dsm.Overlap.{
  Progress, at_prompt, stored, marked, fetched, waiting, Duo, exchange_sides, Move, store_message,
  mark, invalidate, ask, wait, keep, drop, Turn, mine, theirs,
}
use sbu_cse_506_operating_sy.S2dsm.Overlap.Disjoint.{is_at, IsDisjoint}

-- The states of a page at two processes, and its texts there: what both have is the same message, what
-- one has alone is a message, and a process in state I has no text.
abbrev pub Coherent : MsiState → MsiState → List ℕ → List ℕ → Type 0
Coherent invalid invalid text text' = (text ≡ []) × (text' ≡ [])
Coherent invalid modified text text' = (text ≡ []) × IsMessage 511 text'
Coherent invalid shared text text' = (text ≡ []) × IsMessage 511 text'
Coherent modified invalid text text' = IsMessage 511 text × (text' ≡ [])
Coherent shared invalid text text' = IsMessage 511 text × (text' ≡ [])
Coherent shared shared text text' = IsMessage 511 text × (text ≡ text')
Coherent modified modified text text' = false ≡ true
Coherent modified shared text text' = false ≡ true
Coherent shared modified text text' = false ≡ true

-- What was answered: that the other process does not have the page, or its text.
abbrev pub IsAnswer : List ℕ → MsiState → List ℕ → Type 0
IsAnswer answer b text' =
    ((text_eq null_text answer ≡ true) × (b ≡ invalid) × (text' ≡ []))
    ⊎ (IsMessage 511 answer × (b ≡ shared) × (text' ≡ answer))

-- What a process that is at the page has of it, and the other one.
abbrev pub Held : Progress → MsiState → MsiState → List ℕ → List ℕ → Type 0
Held at_prompt a b text text' = Coherent a b text text'
Held (stored page) a b text text' = IsMessage 511 text
Held (marked page) a b text text' = IsMessage 511 text × (a ≡ modified)
Held (fetched page answer) a b text text' = (a ≡ invalid) × IsAnswer answer b text'
Held (waiting page) a b text text' = Unit {0}

pub record Sound (q : ℕ) (d : Duo) : Type 0 where
  pub here_at :
      is_at d.doing q ≡ true
      → Held d.doing
          (d.here.msi_array q)
          (d.peer.msi_array q)
          (text_of q d.here.region)
          (text_of q d.peer.region)
  pub peer_at :
      is_at d.peer_doing q ≡ true
      → Held d.peer_doing
          (d.peer.msi_array q)
          (d.here.msi_array q)
          (text_of q d.peer.region)
          (text_of q d.here.region)
  pub idle :
      is_at d.doing q ≡ false
      → is_at d.peer_doing q ≡ false
      → Coherent
          (d.here.msi_array q)
          (d.peer.msi_array q)
          (text_of q d.here.region)
          (text_of q d.peer.region)

Coherent-sym : (a b : MsiState) (m n : List ℕ) → Coherent a b m n → Coherent b a n m
Coherent-sym invalid invalid m n h = (h.1, h.0)
Coherent-sym invalid modified m n h = (h.1, h.0)
Coherent-sym invalid shared m n h = (h.1, h.0)
Coherent-sym modified invalid m n h = (h.1, h.0)
Coherent-sym shared invalid m n h = (h.1, h.0)
Coherent-sym shared shared m n h = (rw (← h.1) h.0, sym h.1)
Coherent-sym modified modified m n h = h
Coherent-sym modified shared m n h = h
Coherent-sym shared modified m n h = h

pub Sound-exchange : (q : ℕ) (d : Duo) → Sound q d → Sound q (exchange_sides d)
Sound-exchange q d h = record {
  here_at = h.peer_at;
  peer_at = h.here_at;
  idle = λ e f. Coherent-sym (d.here.msi_array q) (d.peer.msi_array q) _ _ (h.idle f e);
}

-- Moves at another page.
pub elsewhere :
    (q : ℕ) (d u : Duo)
    → u.here.msi_array q ≡ d.here.msi_array q
    → u.peer.msi_array q ≡ d.peer.msi_array q
    → text_of q u.here.region ≡ text_of q d.here.region
    → text_of q u.peer.region ≡ text_of q d.peer.region
    → is_at d.doing q ≡ false
    → is_at u.doing q ≡ false
    → u.peer_doing ≡ d.peer_doing
    → Sound q d
    → Sound q u
elsewhere q d u a b t t' e f p h = record {
  here_at = λ g. absurd (cc (f, g));
  peer_at = λ g. rw (a, b, t, t', p) (h.peer_at (cc (g, p)));
  idle = λ g k. rw (a, b, t, t') (h.idle e (cc (k, p)));
}
