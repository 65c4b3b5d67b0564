-- ===== src/Uffd/Writes.antt =====
-- What the loops with `memset` print, and in which state they leave the region.
use sbu_cse_506_operating_sy.Prelude.{
  ℕ, zero, suc, ◌+◌, ◌*◌, ◌/◌, ◌≤◌, ◌<◌, ◌≡◌, refl, ap, ◌∙◌, List, [], ◌∷◌, arith, lt→ltb, le→ltb,
}
use sbu_cse_506_operating_sy.S2dsm.Region.{Vm}
use sbu_cse_506_operating_sy.Uffd.{Demo, letter, fault_handler_thread, touch, memset, write_pass}
use sbu_cse_506_operating_sy.Uffd.Passes.{samples, IsFilled, touch_present}

module _ (vm : Vm) where
  open vm use {resident-uffdio_copy, byte-uffdio_copy}

  memset-IsFilled :
      (n a e v : ℕ) (d : Demo)
      → e ≡ a + n
      → IsFilled a (λ _. v) d
      → IsFilled e (λ _. v) (memset vm n a v d)
  unfolding memset touch fault_handler_thread
  memset-IsFilled zero a e v d q h = λ b p. h b (omega arith)
  memset-IsFilled (suc n) a e v d q h = memset-IsFilled n (a + 1) e v _ (omega arith) (λ b p. (
    ground
        (arith, h b, resident-uffdio_copy d.region (a / 4096) (λ _. letter d.fault_cnt) (b / 4096)),
    ground (arith, h b, byte-uffdio_copy d.region (a / 4096) (λ _. letter d.fault_cnt) b),
  ))

  write_stops : (l len v : ℕ) (d : Demo) → len ≤ l → write_pass vm 1 l len v d ≡ (d, [])
  unfolding write_pass
  write_stops l len v d h = rw (le→ltb l len h) refl

  write_goes_on :
      (fuel l len v : ℕ) (d t : Demo) (rest : List ℕ)
      → l < len
      → write_pass vm fuel (l + 1024) len v (touch vm (memset vm 1024 l v d) l) ≡ (t, rest)
      → write_pass vm (suc fuel) l len v d
        ≡ (t, (touch vm (memset vm 1024 l v d) l).region.byte l ∷ rest)
  unfolding write_pass
  write_goes_on fuel l len v d t rest h e = rw (lt→ltb l len h, e) refl

  pub write_fills :
      (m j l len v : ℕ) (d : Demo)
      → l ≡ 1024 * j
      → len ≡ 1024 * (j + m)
      → IsFilled l (λ _. v) d
      → (t : Demo) × (write_pass vm (suc m) l len v d ≡ (t, samples m j (λ _. v)))
        × IsFilled len (λ _. v) t
  unfolding samples
  write_fills zero j l len v d e g h =
      (d, write_stops l len v d (omega arith), λ a p. h a (omega arith))
  write_fills (suc m) j l len v d e g h =
      let set = memset vm 1024 l v d in
      let filled = memset-IsFilled 1024 l (l + 1024) v d refl h in
      let same = touch_present vm set l (filled l (omega arith)).0 in
      let (t, eq, up) =
        write_fills m (j + 1) (l + 1024) len v set (omega arith) (omega arith) filled in
      (
        t,
        write_goes_on (suc m) l len v d t (samples m (j + 1) (λ _. v)) (omega arith)
              (ap (write_pass vm (suc m) (l + 1024) len v) same ∙ eq)
            ∙ ap (λ (b : ℕ). (t, b ∷ samples m (j + 1) (λ _. v)))
                (ap (λ (u : Demo). u.region.byte l) same ∙ (filled l (omega arith)).1),
        up,
      )
