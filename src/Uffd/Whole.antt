-- ===== src/Uffd/Whole.antt =====
-- What the eight loops of `main` print.
use sbu_cse_506_operating_sy.Prelude.{ℕ, suc, ◌+◌, ◌*◌, ◌≡◌, refl, ◌∙◌, [], ◌∷◌, arith}
use sbu_cse_506_operating_sy.S2dsm.Region.{Vm}
use sbu_cse_506_operating_sy.Uffd.{Demo, read_pass, write_pass, drop_pages, main}
use sbu_cse_506_operating_sy.Uffd.Passes.{
  samples, IsFilled, IsBare, letters, read_filled, read_bare, IsBare-IsReadUpTo,
  IsReadUpTo-IsFilled, fault_cnt-drop_pages, drop_pages-IsBare,
}
use sbu_cse_506_operating_sy.Uffd.Writes.{write_fills}

module _ (vm : Vm) where
  -- The passes that `main` makes over a region, one by one.
  first_reads :
      (n k : ℕ) (d : Demo)
      → IsBare n d
      → d.fault_cnt ≡ k
      → (t : Demo) × (read_pass vm (n * 4 + 1) 0 (n * 4096) d ≡ (t, samples (4 * n) 0 (letters k)))
        × (t.fault_cnt ≡ k + n)
        × IsFilled (4096 * n) (letters k) t
  first_reads n k d h c =
      let rounds : n * 4 + 1 ≡ suc (4 * n) = omega arith in
      let (t, eq, up) =
        read_bare vm (4 * n) 0 n k 0 (n * 4096) d refl (omega arith) (omega arith)
          (IsBare-IsReadUpTo vm n k d h c) in
      (t, rw rounds eq, omega (arith, up.faults), IsReadUpTo-IsFilled vm n k t up)

  later_reads :
      (n : ℕ) (f : ℕ → ℕ) (d : Demo)
      → IsFilled (4096 * n) f d
      → read_pass vm (n * 4 + 1) 0 (n * 4096) d ≡ (d, samples (4 * n) 0 f)
  later_reads n f d h =
      let rounds : n * 4 + 1 ≡ suc (4 * n) = omega arith in
      rw rounds
        (read_filled vm (4 * n) 0 0 (n * 4096) f d refl (omega arith) (λ a p. h a (omega arith)))

  writes :
      (n v : ℕ) (d : Demo)
      → (t : Demo) × (write_pass vm (n * 4 + 1) 0 (n * 4096) v d ≡ (t, samples (4 * n) 0 (λ _. v)))
        × IsFilled (4096 * n) (λ _. v) t
  writes n v d =
      let rounds : n * 4 + 1 ≡ suc (4 * n) = omega arith in
      let (t, eq, up) =
        write_fills vm (4 * n) 0 0 (n * 4096) v d refl (omega arith)
          (λ a p. absurd (omega arith)) in
      (t, rw rounds eq, λ a p. up a (omega arith))

  -- On a region of `n` pages, none of them there yet and with no fault so far: the first two loops
  -- print for each page, four times, the letter of its place among 20 from A on; the next two, after
  -- the pages were dropped, the letter `n` places on; then two print @, and the last two print ^.
  pub main_lem :
      (n : ℕ) (d : Demo)
      → IsBare n d
      → d.fault_cnt ≡ 0
      → (main vm n d).1
        ≡ samples (4 * n) 0 (letters 0)
          ∷ samples (4 * n) 0 (letters 0)
          ∷ samples (4 * n) 0 (letters n)
          ∷ samples (4 * n) 0 (letters n)
          ∷ samples (4 * n) 0 (λ _. b'@')
          ∷ samples (4 * n) 0 (λ _. b'@')
          ∷ samples (4 * n) 0 (λ _. b'^')
          ∷ samples (4 * n) 0 (λ _. b'^')
          ∷ []
  unfolding main
  main_lem n d h c =
      let (d1, first, count, filled) = first_reads n 0 d h c in
      let second = later_reads n (letters 0) d1 filled in
      let (d3, third, _, again) =
        first_reads n n (drop_pages vm n d1) (drop_pages-IsBare vm n d1)
          (fault_cnt-drop_pages vm n d1 ∙ count ∙ omega arith) in
      let fourth = later_reads n (letters n) d3 again in
      let (d5, fifth, ats) = writes n b'@' (drop_pages vm n d3) in
      let sixth = later_reads n (λ _. b'@') d5 ats in
      let (d7, seventh, hats) = writes n b'^' d5 in
      let eighth = later_reads n (λ _. b'^') d7 hats in
      rw (first, second, third, fourth, fifth, sixth, seventh, eighth) refl
