-- ===== src/S2dsm/Overlap/Coherence/Moves.antt =====
-- One move of a process, at its page and at the others.
use sbu_cse_506_operating_sy.Prelude.{
  ℕ, ◌*◌, ◌≡◌, ◌⊎◌, ◌<◌, refl, sym, ap, ◌∙◌, true, false, some, List, [], ◌==◌, arith, inl, inr,
}
use sbu_cse_506_operating_sy.S2dsm.Region.{page_size, Vm, read_string}
use sbu_cse_506_operating_sy.S2dsm.Text.{text_of, read_text, text_of-read_string}
use sbu_cse_506_operating_sy.S2dsm.Protocol.{
  MsiState, modified, shared, invalid, Node, set_state, read_op, invalidate_op, null_text, text_eq,
  communicate_with_peer, respond, get_response, transition_state_on_read,
}
use sbu_cse_506_operating_sy.S2dsm.Memory.{IsMessage, within_page}
use sbu_cse_506_operating_sy.S2dsm.Overlap.{
  Duo, Move, store_message, mark, invalidate, ask, wait, keep, drop,
}
use sbu_cse_506_operating_sy.S2dsm.Overlap.Coherence.{Coherent, IsAnswer}

module _ (vm : Vm) where
  -- A move at one of the first `n` pages; a message that is stored is one that may be typed.
  abbrev pub IsProperMove : ℕ → {d u : Duo} → Move vm d u → Type 0
  IsProperMove n (store_message page message e) = (page < n) × IsMessage 511 message
  IsProperMove n (mark page e b) = page < n
  IsProperMove n (invalidate page e c) = page < n
  IsProperMove n (ask page e b i c) = page < n
  IsProperMove n (wait page e b i c) = page < n
  IsProperMove n (keep page answer e f) = page < n
  IsProperMove n (drop page answer e f) = page < n

  -- The other process after it has answered.
  pub invalidated_peer :
      (page : ℕ) (n n' : Node) (answer : List ℕ)
      → communicate_with_peer vm page invalidate_op n ≡ some (n', answer)
      → n' ≡ record {
        msi_array = set_state n.msi_array page invalid;
        region = vm.dont_need n.region page;
      }
  unfolding communicate_with_peer respond
  invalidated_peer page n n' answer c = ground (arith, c)

  pub read_states :
      (page q : ℕ) (n n' : Node) (answer : List ℕ)
      → communicate_with_peer vm page read_op n ≡ some (n', answer)
      → page == q ≡ false
      → n'.msi_array q ≡ n.msi_array q
  unfolding communicate_with_peer respond get_response transition_state_on_read
  read_states page q n n' answer c o = ground (arith, c)

  read_region :
      (page : ℕ) (n n' : Node) (answer : List ℕ)
      → communicate_with_peer vm page read_op n ≡ some (n', answer)
      → (n'.region ≡ n.region) ⊎ (n'.region ≡ (read_string vm 4095 (page * page_size) n.region).0)
  unfolding communicate_with_peer respond get_response transition_state_on_read
  read_region page n n' answer c = ground (arith, c)

  pub read_texts :
      (page q : ℕ) (n n' : Node) (answer : List ℕ)
      → communicate_with_peer vm page read_op n ≡ some (n', answer)
      → text_of q n'.region ≡ text_of q n.region
  read_texts page q n n' answer c = elim (read_region page n n' answer c) [
    | inl same ↦ ap (text_of q) same
    | inr read ↦ ap (text_of q) read ∙ text_of-read_string vm q 4095 (page * page_size) n.region
  ]

  -- The same where there are no bytes in the answer.
  pub waited_states :
      (page q : ℕ) (n n' : Node)
      → respond vm page read_op n ≡ (n', [])
      → page == q ≡ false
      → n'.msi_array q ≡ n.msi_array q
  unfolding respond get_response transition_state_on_read
  waited_states page q n n' c o = ground (arith, c)

  waited_region :
      (page : ℕ) (n n' : Node)
      → respond vm page read_op n ≡ (n', [])
      → (n'.region ≡ n.region) ⊎ (n'.region ≡ (read_string vm 4095 (page * page_size) n.region).0)
  unfolding respond get_response transition_state_on_read
  waited_region page n n' c = ground (arith, c)

  pub waited_texts :
      (page q : ℕ) (n n' : Node)
      → respond vm page read_op n ≡ (n', [])
      → text_of q n'.region ≡ text_of q n.region
  waited_texts page q n n' c = elim (waited_region page n n' c) [
    | inl same ↦ ap (text_of q) same
    | inr read ↦ ap (text_of q) read ∙ text_of-read_string vm q 4095 (page * page_size) n.region
  ]

  read_invalid :
      (page : ℕ) (n n' : Node) (answer : List ℕ)
      → communicate_with_peer vm page read_op n ≡ some (n', answer)
      → n.msi_array page ≡ invalid
      → (answer ≡ null_text) × (n'.msi_array page ≡ invalid)
  unfolding communicate_with_peer respond get_response transition_state_on_read
  read_invalid page n n' answer c i = ground (arith, c)

  read_held :
      (page : ℕ) (n n' : Node) (answer : List ℕ)
      → communicate_with_peer vm page read_op n ≡ some (n', answer)
      → (n.msi_array page ≡ modified) ⊎ (n.msi_array page ≡ shared)
      → (answer ≡ (read_string vm 4095 (page * page_size) n.region).1)
        × (n'.msi_array page ≡ shared)
  unfolding communicate_with_peer respond get_response transition_state_on_read
  read_held page n n' answer c v = ground (arith, c)

  -- What an answer says of the page, which the process that asked has in state I.
  pub read-IsAnswer :
      (st : MsiState) (page : ℕ) (n n' : Node) (answer text : List ℕ)
      → n.msi_array page ≡ st
      → communicate_with_peer vm page read_op n ≡ some (n', answer)
      → Coherent invalid st text (text_of page n.region)
      → IsAnswer (vm.read_answer answer) (n'.msi_array page) (text_of page n'.region)
  unfolding text_eq
  read-IsAnswer invalid page n n' answer text i c h =
      let (said, state) = read_invalid page n n' answer c i in
      inl (
        rw (said, vm.read_answer_short null_text (omega arith)) refl,
        state,
        read_texts page page n n' answer c ∙ h.1,
      )
  read-IsAnswer modified page n n' answer text i c h =
      let (said, state) = read_held page n n' answer c (inl i) in
      let whole =
        said
        ∙ read_text vm 4095 page n.region (within_page (omega arith) h.1)
            (within_page (omega arith) h.1) in
      let found = ap vm.read_answer whole ∙ vm.read_answer_short _ (h.1.short) in
      inr (rw found h.1, state, read_texts page page n n' answer c ∙ sym found)
  read-IsAnswer shared page n n' answer text i c h =
      let (said, state) = read_held page n n' answer c (inr i) in
      let whole =
        said
        ∙ read_text vm 4095 page n.region (within_page (omega arith) h.1)
            (within_page (omega arith) h.1) in
      let found = ap vm.read_answer whole ∙ vm.read_answer_short _ (h.1.short) in
      inr (rw found h.1, state, read_texts page page n n' answer c ∙ sym found)

  -- After an answer that is kept, and after one that is not.
  pub kept-Coherent :
      (answer : List ℕ) (b : MsiState) (text' : List ℕ)
      → text_eq null_text answer ≡ false
      → IsAnswer answer b text'
      → Coherent shared b answer text'
  kept-Coherent answer b text' n (inl there) = absurd (cc (n, there.0))
  kept-Coherent answer b text' n (inr there) = rw (there.1) (there.0, sym (there.2))

  pub kept-IsMessage :
      (answer : List ℕ) (b : MsiState) (text' : List ℕ)
      → text_eq null_text answer ≡ false
      → IsAnswer answer b text'
      → IsMessage 511 answer
  kept-IsMessage answer b text' n (inl there) = absurd (cc (n, there.0))
  kept-IsMessage answer b text' n (inr there) = there.0

  pub dropped-Coherent :
      (answer : List ℕ) (b : MsiState) (text' : List ℕ)
      → text_eq null_text answer ≡ true
      → IsAnswer answer b text'
      → Coherent invalid b [] text'
  dropped-Coherent answer b text' n (inl there) = rw (there.1) (refl, there.2)
  dropped-Coherent answer b text' n (inr there) = absurd (cc (n, there.0.not_null))
