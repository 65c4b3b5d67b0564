-- ===== src/Uffd/Program.antt =====
-- The whole program: its argument, the calls before its loops, and the loops.
use sbu_cse_506_operating_sy.Prelude.{
  ℕ, ◌*◌, ◌%◌, ◌/◌, ◌<◌, ◌≡◌, refl, Bool, true, false, List, [], ◌∷◌, ◌==◌, if◌then◌else◌, length,
  arith, Bool-cases, inl, inr,
}
use sbu_cse_506_operating_sy.Calls.{
  Call, arguments, open_userfaultfd, agree_on_api, map_memory, register_range, create_fault_thread,
  Ending, done, exits, and_then, exit_failure, attempts, uffd_calls,
}
use sbu_cse_506_operating_sy.S2dsm.Region.{Vm}
use sbu_cse_506_operating_sy.S2dsm.Request.{digits}
use sbu_cse_506_operating_sy.S2dsm.Offer.{strtoul}
use sbu_cse_506_operating_sy.S2dsm.Offer.RoundTrip.{strtoul-digits}
use sbu_cse_506_operating_sy.Uffd.{Demo, main}
use sbu_cse_506_operating_sy.Uffd.Passes.{samples, letters}
use sbu_cse_506_operating_sy.Uffd.Whole.{main_lem}

-- The system of the program: whether `mmap` has memory of a length, which is not 0, whether each of the
-- other calls succeeds, and the region when nothing of it was touched.
pub record Os : Type 0 where
  pub succeeds : Call → Bool
  pub maps : ℕ → Bool
  pub byte : ℕ → ℕ
  pub maps_nothing : maps 0 ≡ false

abbrev pub fresh : (ℕ → ℕ) → Demo
fresh byte = record { region = record { resident = λ _. false; byte = byte }; fault_cnt = 0 }

-- The length for the text of the argument, on `unsigned long`.
abbrev pub length_for : List (List ℕ) → ℕ
length_for [] = 0
length_for (name ∷ []) = 0
length_for (name ∷ num_pages ∷ rest) = strtoul num_pages * 4096 % 18446744073709551616

module _ (vm : Vm) (os : Os) where
  abbrev pub outcome : List (List ℕ) → Call → Bool
  outcome argv arguments = length argv == 2
  outcome argv map_memory = os.maps (length_for argv)
  outcome argv c = os.succeeds c

  -- `main`, from the texts of its arguments, its own name among them.
  unfoldable pub program : List (List ℕ) → Ending (List (List ℕ))
  program argv =
      and_then (attempts (outcome argv) uffd_calls)
        (λ _. done (main vm (length_for argv / 4096) (fresh os.byte)).1)

  -- Where the other calls succeed and the number of pages, in digits, has a length within `int`: if
  -- `mmap` has the memory, the program prints, four times for each page, one letter for each page, from
  -- A on in a cycle of 20, twice; then the letters that follow these, twice; then each of the two
  -- characters that it writes, twice. If `mmap` fails, as it does for 0 pages, or if there is no
  -- argument, it exits with EXIT_FAILURE.
  pub program_lem :
      (name : List ℕ) (n : ℕ)
      → n < 524288
      → ((c : Call) → os.succeeds c ≡ true)
      → (program (name ∷ digits 20 n ∷ []) ≡ (
          if os.maps (n * 4096)
          then done (
              samples (4 * n) 0 (letters 0)
              ∷ samples (4 * n) 0 (letters 0)
              ∷ samples (4 * n) 0 (letters n)
              ∷ samples (4 * n) 0 (letters n)
              ∷ samples (4 * n) 0 (λ _. b'@')
              ∷ samples (4 * n) 0 (λ _. b'@')
              ∷ samples (4 * n) 0 (λ _. b'^')
              ∷ samples (4 * n) 0 (λ _. b'^')
              ∷ [])
          else exits exit_failure))
        × (program (name ∷ digits 20 0 ∷ []) ≡ exits exit_failure)
        × (program (name ∷ []) ≡ exits exit_failure)
  unfolding program attempts
  program_lem name n small ok =
      let whole : n * 4096 % 18446744073709551616 ≡ n * 4096 = omega arith in
      let pages : n * 4096 / 4096 ≡ n = omega arith in
      let ready = main_lem vm n (fresh os.byte) (λ q p. refl) refl in
      (
        elim (Bool-cases (os.maps (n * 4096))) [
          | inl y ↦
              rw
                (
                  strtoul-digits n (omega arith),
                  whole,
                  ok open_userfaultfd,
                  ok agree_on_api,
                  y,
                  ok register_range,
                  ok create_fault_thread,
                  pages,
                  ready,
                )
                refl
          | inr o ↦
              rw (strtoul-digits n (omega arith), whole, ok open_userfaultfd, ok agree_on_api, o)
                refl
        ],
        rw (strtoul-digits 0 (omega arith), ok open_userfaultfd, ok agree_on_api, os.maps_nothing)
            refl,
        refl,
      )
