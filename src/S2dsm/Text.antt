-- ===== src/S2dsm/Text.antt =====
-- The text of a page, as the program sees it, under the operations on a region.
use sbu_cse_506_operating_sy.Prelude.{
  ℕ, zero, suc, ◌+◌, ◌*◌, ◌≤◌, ◌<◌, ◌≡◌, ◌≢◌, ◌⊎◌, refl, sym, ap, ◌∙◌, List, [], ◌==◌,
  if◌then◌else◌, arith, length, All, inl, inr, eq_or_ne,
}
use sbu_cse_506_operating_sy.S2dsm.Region.{page_size, Region, Vm, write_string, read_string}
use sbu_cse_506_operating_sy.S2dsm.Region.View.{
  view, string_at, view-write_string, view-dont_need, read_string-text, view-read_string,
  string_at-overlay, string_at-ext, overlay_outside,
}

abbrev pub text_of : ℕ → Region → List ℕ
text_of page r = string_at 4096 (page * page_size) (view r)

pub string_at_zero : (n a : ℕ) (f : ℕ → ℕ) → f a ≡ 0 → string_at n a f ≡ []
unfolding string_at
string_at_zero zero a f h = refl
string_at_zero (suc n) a f h = rw h refl

string_at-ext_within :
    (n a : ℕ) (f g : ℕ → ℕ)
    → ((b : ℕ) → a ≤ b → b < a + n → f b ≡ g b)
    → string_at n a f ≡ string_at n a g
unfolding string_at
string_at-ext_within zero a f g h = refl
string_at-ext_within (suc n) a f g h =
    ground
      (arith, h a, string_at-ext_within n (a + 1) f g (λ b l u. h b (omega arith) (omega arith)))

-- A string that ends within `n` bytes is the same for each bound that it fits.
string_at-bound :
    (n m a : ℕ) (f : ℕ → ℕ)
    → length (string_at n a f) < n
    → length (string_at n a f) ≤ m
    → string_at m a f ≡ string_at n a f
unfolding string_at
string_at-bound zero m a f h l = absurd (omega arith)
string_at-bound (suc n) zero a f h l = ground arith
string_at-bound (suc n) (suc m) a f h l = ground (arith, string_at-bound n m (a + 1) f)

outside :
    (q page b k : ℕ)
    → page ≢ q
    → q * page_size ≤ b
    → b < q * page_size + 4096
    → k ≤ 4095
    → (b < page * page_size) ⊎ (page * page_size + k < b)
outside q page b k n g u l = ground arith

module _ (vm : Vm) where
  -- The text that is sent for a page that was written here.
  pub written_text :
      (page : ℕ) (message : List ℕ) (r : Region) (n : ℕ)
      → All (λ c. 0 < c) message
      → length message ≤ n
      → (read_string vm n (page * page_size) (write_string vm (page * page_size) message r)).1
        ≡ message
  written_text page message r n h l =
      read_string-text vm n (page * page_size) (write_string vm (page * page_size) message r)
      ∙ string_at-ext n (page * page_size) _ _
          (λ b g. view-write_string vm (page * page_size) message r b)
      ∙ string_at-overlay n (page * page_size) message (view r) h l

  -- The page at the other process reads as empty after a write.
  pub dropped_text :
      (page : ℕ) (r : Region) (n : ℕ)
      → (read_string vm n (page * page_size) (vm.dont_need r page)).1 ≡ []
  dropped_text page r n =
      read_string-text vm n (page * page_size) (vm.dont_need r page)
      ∙ string_at_zero n (page * page_size) (view (vm.dont_need r page))
          (view-dont_need vm r page (page * page_size) ∙ ground arith)

  -- A text of 4095 bytes at most is read whole for each bound that it fits.
  pub read_text :
      (n page : ℕ) (r : Region)
      → length (text_of page r) ≤ 4095
      → length (text_of page r) ≤ n
      → (read_string vm n (page * page_size) r).1 ≡ text_of page r
  read_text n page r h l =
      read_string-text vm n (page * page_size) r
      ∙ string_at-bound 4096 n (page * page_size) (view r) (omega arith) l

  pub text_of-read_string :
      (q n a : ℕ) (r : Region) → text_of q (read_string vm n a r).0 ≡ text_of q r
  text_of-read_string q n a r =
      string_at-ext 4096 (q * page_size) _ _ (λ b g. view-read_string vm n a r b)

  pub text_of-dont_need :
      (q page : ℕ) (r : Region)
      → text_of q (vm.dont_need r page) ≡ (if page == q then [] else text_of q r)
  text_of-dont_need q page r = elim (eq_or_ne page q) [
    | inl same ↦ rw same.1 (
        string_at_zero 4096 (q * page_size) (view (vm.dont_need r page))
          (view-dont_need vm r page (q * page_size) ∙ ground (arith, same.0)))
    | inr other ↦ rw other.1 (
        string_at-ext_within 4096 (q * page_size) (view (vm.dont_need r page)) (view r)
          (λ b l u. ground (arith, view-dont_need vm r page b, other.0)))
  ]

  pub text_of-write_string :
      (q page : ℕ) (message : List ℕ) (r : Region)
      → All (λ c. 0 < c) message
      → length message ≤ 4095
      → text_of q (write_string vm (page * page_size) message r)
        ≡ (if page == q then message else text_of q r)
  text_of-write_string q page message r h l =
      let seen = view-write_string vm (page * page_size) message r in
      elim (eq_or_ne page q) [
        | inl same ↦ rw same.1 (
            ap (λ (p : ℕ). text_of p (write_string vm (page * page_size) message r)) (sym same.0)
            ∙ string_at-ext 4096 (page * page_size) _ _ (λ b g. seen b)
            ∙ string_at-overlay 4096 (page * page_size) message (view r) h (omega arith))
        | inr other ↦ rw other.1 (
            string_at-ext_within 4096 (q * page_size) _ _ (λ b g u.
              seen b
              ∙ overlay_outside (page * page_size) message (view r) b
                  (outside q page b (length message) other.0 g u l)))
      ]
