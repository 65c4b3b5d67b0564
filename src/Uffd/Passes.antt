-- ===== src/Uffd/Passes.antt =====
-- What each loop prints, and in which state it leaves the region.
use sbu_cse_506_operating_sy.Prelude.{
  ℕ, zero, suc, ◌+◌, ◌*◌, ◌/◌, ◌≤◌, ◌<◌, ◌≡◌, refl, sym, ap, ◌∙◌, true, false, List, [], ◌∷◌, ltb,
  if◌then◌else◌, arith, lt→ltb, le→ltb,
}
use sbu_cse_506_operating_sy.S2dsm.Region.{Vm}
use sbu_cse_506_operating_sy.Uffd.{Demo, letter, fault_handler_thread, touch, read_pass, drop_pages}

-- The bytes at the addresses from `1024 * j` on, 1024 apart.
unfoldable pub samples : ℕ → ℕ → (ℕ → ℕ) → List ℕ
samples zero j f = []
samples (suc m) j f = f (1024 * j) ∷ samples m (j + 1) f

-- Every byte below the length is there and is as given.
abbrev pub IsFilled : ℕ → (ℕ → ℕ) → Demo → Type 0
IsFilled len f d =
    (a : ℕ) → a < len → (d.region.resident (a / 4096) ≡ true) × (d.region.byte a ≡ f a)

-- No page of a region is there, and so many faults have happened.
abbrev pub IsBare : ℕ → Demo → Type 0
IsBare n d = (q : ℕ) → q < n → d.region.resident q ≡ false

-- The letters of a region whose first page is filled at fault `k`.
abbrev pub letters : ℕ → ℕ → ℕ
letters k a = letter (k + a / 4096)

module _ (vm : Vm) where
  open vm use {resident-uffdio_copy, byte-uffdio_copy, resident-dont_need}

  pub touch_present : (d : Demo) (a : ℕ) → d.region.resident (a / 4096) ≡ true → touch vm d a ≡ d
  unfolding touch
  touch_present d a h = rw h refl

  read_stops : (l len : ℕ) (d : Demo) → len ≤ l → read_pass vm 1 l len d ≡ (d, [])
  unfolding read_pass
  read_stops l len d h = rw (le→ltb l len h) refl

  read_goes_on :
      (fuel l len : ℕ) (d t : Demo) (rest : List ℕ)
      → l < len
      → read_pass vm fuel (l + 1024) len (touch vm d l) ≡ (t, rest)
      → read_pass vm (suc fuel) l len d ≡ (t, (touch vm d l).region.byte l ∷ rest)
  unfolding read_pass
  read_goes_on fuel l len d t rest h e = rw (lt→ltb l len h, e) refl

  -- A region that is filled is read as it is, and stays so.
  pub read_filled :
      (m j l len : ℕ) (f : ℕ → ℕ) (d : Demo)
      → l ≡ 1024 * j
      → len ≡ 1024 * (j + m)
      → IsFilled len f d
      → read_pass vm (suc m) l len d ≡ (d, samples m j f)
  unfolding samples
  read_filled zero j l len f d e g h = read_stops l len d (omega arith)
  read_filled (suc m) j l len f d e g h =
      let same = touch_present d l (h l (omega arith)).0 in
      read_goes_on (suc m) l len d d (samples m (j + 1) f) (omega arith) (
        ap (read_pass vm (suc m) (l + 1024) len) same
        ∙ read_filled m (j + 1) (l + 1024) len f d (omega arith) (omega arith) h)
      ∙ ap (λ (b : ℕ). (d, b ∷ samples m (j + 1) f))
          (ap (λ (u : Demo). u.region.byte l) same ∙ (h l (omega arith)).1 ∙ ap f e)

  -- A region read up to an address: the pages up to there have their letters, the others are missing.
  pub record IsReadUpTo (k j n : ℕ) (d : Demo) : Type 0 where
    pub faults : d.fault_cnt ≡ k + (j + 3) / 4
    pub there : (q : ℕ) → q < n → d.region.resident q ≡ ltb (4 * q) j
    pub bytes : (a : ℕ) → 4 * (a / 4096) < j → d.region.byte a ≡ letters k a

  touch-IsReadUpTo :
      (k j n l : ℕ) (d : Demo)
      → l ≡ 1024 * j
      → j < 4 * n
      → IsReadUpTo k j n d
      → IsReadUpTo k (j + 1) n (touch vm d l)
  unfolding touch fault_handler_thread
  touch-IsReadUpTo k j n l d e g h = record {
    faults = ground (arith, h.faults, h.there (l / 4096));
    there = λ q p. ground (
      arith,
      h.there (l / 4096),
      h.there q,
      resident-uffdio_copy d.region (l / 4096) (λ _. letter d.fault_cnt) q,
    );
    bytes = λ a p. ground (
      arith,
      h.there (l / 4096),
      h.bytes a,
      h.faults,
      byte-uffdio_copy d.region (l / 4096) (λ _. letter d.fault_cnt) a,
    );
  }

  pub read_bare :
      (m j n k l len : ℕ) (d : Demo)
      → l ≡ 1024 * j
      → len ≡ 1024 * (j + m)
      → j + m ≡ 4 * n
      → IsReadUpTo k j n d
      → (t : Demo) × (read_pass vm (suc m) l len d ≡ (t, samples m j (letters k)))
        × IsReadUpTo k (4 * n) n t
  unfolding samples
  read_bare zero j n k l len d e g z h =
      let done : j ≡ 4 * n = omega arith in (d, read_stops l len d (omega arith), rw (sym done) h)
  read_bare (suc m) j n k l len d e g z h =
      let touched = touch-IsReadUpTo k j n l d e (omega arith) h in
      let (t, eq, up) =
        read_bare m (j + 1) n k (l + 1024) len (touch vm d l) (omega arith) (omega arith)
          (omega arith) touched in
      (
        t,
        read_goes_on (suc m) l len d t (samples m (j + 1) (letters k)) (omega arith) eq
            ∙ ap (λ (b : ℕ). (t, b ∷ samples m (j + 1) (letters k)))
                (touched.bytes l (omega arith) ∙ ap (letters k) e),
        up,
      )

  pub IsBare-IsReadUpTo : (n k : ℕ) (d : Demo) → IsBare n d → d.fault_cnt ≡ k → IsReadUpTo k 0 n d
  IsBare-IsReadUpTo n k d h c = record {
    faults = ground (arith, c);
    there = λ q p. ground (arith, h q);
    bytes = λ a p. absurd (omega arith);
  }

  pub IsReadUpTo-IsFilled :
      (n k : ℕ) (d : Demo) → IsReadUpTo k (4 * n) n d → IsFilled (4096 * n) (letters k) d
  IsReadUpTo-IsFilled n k d h a p = (ground (arith, h.there (a / 4096)), h.bytes a (omega arith))

  resident-drop_pages :
      (p : ℕ) (d : Demo) (q : ℕ)
      → (drop_pages vm p d).region.resident q ≡ (if ltb q p then false else d.region.resident q)
  unfolding drop_pages
  resident-drop_pages zero d q = ground arith
  resident-drop_pages (suc p) d q =
      resident-drop_pages p (record d { region = vm.dont_need d.region p }) q
      ∙ ground (arith, resident-dont_need d.region p q)

  pub fault_cnt-drop_pages : (p : ℕ) (d : Demo) → (drop_pages vm p d).fault_cnt ≡ d.fault_cnt
  unfolding drop_pages
  fault_cnt-drop_pages zero d = refl
  fault_cnt-drop_pages (suc p) d =
      fault_cnt-drop_pages p (record d { region = vm.dont_need d.region p })

  pub drop_pages-IsBare : (n : ℕ) (d : Demo) → IsBare n (drop_pages vm n d)
  drop_pages-IsBare n d q p = ground (arith, resident-drop_pages n d q)
