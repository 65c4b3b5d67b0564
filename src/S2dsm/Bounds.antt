-- ===== src/S2dsm/Bounds.antt =====
-- `fillWithInvalid`, and where it writes past the array of states.
use sbu_cse_506_operating_sy.Prelude.{
  ℕ, zero, suc, ◌+◌, ◌≤◌, ◌<◌, ◌≡◌, refl, ap, ◌∙◌, fun_ext, none, some, ltb, leb, ◌&&◌,
  if◌then◌else◌, arith, Bool-cases, inl, inr, lt→ltb, le→ltb,
}
use sbu_cse_506_operating_sy.S2dsm.Protocol.{
  MsiState, invalid, max_pages, set_state, fill_loop, fill_with_invalid,
}

-- The array with `n` entries from `j` on in state I.
abbrev pub filled : ℕ → ℕ → (ℕ → MsiState) → ℕ → MsiState
filled n j f q = if leb j q && ltb q (j + n) then invalid else f q

fill_loop_within :
    (n j : ℕ) (f : ℕ → MsiState) → j + n ≤ max_pages → fill_loop n j f ≡ some (filled n j f)
unfolding fill_loop
fill_loop_within zero j f h = ap some (fun_ext λ q. ground arith)
fill_loop_within (suc n) j f h = rw (lt→ltb j max_pages (omega arith)) (
    fill_loop_within n (j + 1) (set_state f j invalid) (omega arith)
    ∙ ap some (fun_ext λ q. ground arith))

fill_loop_beyond : (n j : ℕ) (f : ℕ → MsiState) → max_pages < j + n → 0 < n → fill_loop n j f ≡ none
unfolding fill_loop
fill_loop_beyond zero j f h p = absurd (omega arith)
fill_loop_beyond (suc zero) j f h p = rw (le→ltb j max_pages (omega arith)) refl
fill_loop_beyond (suc (suc n)) j f h p =
    ground (arith, fill_loop_beyond (suc n) (j + 1) (set_state f j invalid))

-- With fewer than 100 pages every page starts in state I, and so does the entry behind the last; with
-- 100 pages or more the loop writes past the array of 100 states.
pub fill_with_invalid_lem :
    (num_pages : ℕ) (f : ℕ → MsiState)
    → fill_with_invalid num_pages f
      ≡ (if ltb num_pages max_pages then some (filled (num_pages + 1) 0 f) else none)
unfolding fill_with_invalid
fill_with_invalid_lem num_pages f = elim (Bool-cases (ltb num_pages max_pages)) [
  | inl y ↦ rw y (fill_loop_within (num_pages + 1) 0 f (ground arith))
  | inr n ↦ rw n (fill_loop_beyond (num_pages + 1) 0 f (ground arith) (omega arith))
]
