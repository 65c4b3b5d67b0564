-- ===== src/S2dsm/Region/View.antt =====
-- A region as the program sees it: a page that is missing reads as zeros.
use sbu_cse_506_operating_sy.Prelude.{
  ℕ, zero, suc, ◌+◌, ◌/◌, ◌≤◌, ◌<◌, ◌≡◌, refl, ap, fun_ext, ◌⊎◌, true, List, [], ◌∷◌, ◌++◌, ◌==◌,
  if◌then◌else◌, arith, length, All,
}
use sbu_cse_506_operating_sy.S2dsm.Region.{
  Region, Vm, fault_handler, access, store, write_string, read_string,
}

abbrev pub view : Region → ℕ → ℕ
view r a = if r.resident (a / 4096) then r.byte a else 0

-- Bytes with a C string put in at an address.
unfoldable pub overlay : ℕ → List ℕ → (ℕ → ℕ) → ℕ → ℕ
overlay a [] f b = if a == b then 0 else f b
overlay a (c ∷ message) f b = if a == b then c else overlay (a + 1) message f b

-- The C string at an address, up to `n` bytes.
unfoldable pub string_at : ℕ → ℕ → (ℕ → ℕ) → List ℕ
string_at zero a f = []
string_at (suc n) a f = let rest = string_at n (a + 1) f in if f a == 0 then [] else f a ∷ rest

module _ (vm : Vm) where
  open vm use {
    uffdio_copy, resident-uffdio_copy, byte-uffdio_copy, dont_need, resident-dont_need,
    byte-dont_need,
  }

  view-access : (r : Region) (a b : ℕ) → view (access vm r a) b ≡ view r b
  unfolding access fault_handler
  view-access r a b = ground (
    arith,
    resident-uffdio_copy r (a / 4096) (λ _. 0) (b / 4096),
    byte-uffdio_copy r (a / 4096) (λ _. 0) b,
  )

  byte-access : (r : Region) (a : ℕ) → (access vm r a).byte a ≡ view r a
  unfolding access fault_handler
  byte-access r a = ground (arith, byte-uffdio_copy r (a / 4096) (λ _. 0) a)

  resident-access : (r : Region) (a : ℕ) → (access vm r a).resident (a / 4096) ≡ true
  unfolding access fault_handler
  resident-access r a = ground (arith, resident-uffdio_copy r (a / 4096) (λ _. 0) (a / 4096))

  view-store : (r : Region) (a v b : ℕ) → view (store vm r a v) b ≡ (if a == b then v else view r b)
  unfolding store
  view-store r a v b = ground (arith, view-access r a b, resident-access r a)

  pub view-dont_need :
      (r : Region) (p b : ℕ) → view (dont_need r p) b ≡ (if p == b / 4096 then 0 else view r b)
  view-dont_need r p b = ground (arith, resident-dont_need r p (b / 4096), byte-dont_need r p b)

  overlay-ext :
      (a : ℕ) (message : List ℕ) (f g : ℕ → ℕ) (b : ℕ)
      → f b ≡ g b
      → overlay a message f b ≡ overlay a message g b
  unfolding overlay
  overlay-ext a [] f g b h = ground arith
  overlay-ext a (c ∷ message) f g b h = ground (arith, overlay-ext (a + 1) message f g b h)

  overlay-below :
      (a : ℕ) (message : List ℕ) (f : ℕ → ℕ) (b : ℕ) → b < a → overlay a message f b ≡ f b
  unfolding overlay
  overlay-below a [] f b h = ground arith
  overlay-below a (c ∷ message) f b h = ground (arith, overlay-below (a + 1) message f b)

  -- Copying a string in, page faults and all, is an overlay.
  pub view-write_string :
      (a : ℕ) (message : List ℕ) (r : Region) (b : ℕ)
      → view (write_string vm a message r) b ≡ overlay a message (view r) b
  unfolding write_string overlay
  view-write_string a [] r b = view-store r a 0 b
  view-write_string a (c ∷ message) r b = ground (
    arith,
    view-write_string (a + 1) message (store vm r a c) b,
    view-store r a c b,
    overlay-ext (a + 1) message (view (store vm r a c)) (view r) b,
    overlay-below (a + 1) message (view (store vm r a c)) b,
  )

  -- Reading a string yields what is seen there.
  pub read_string-text : (n a : ℕ) (r : Region) → (read_string vm n a r).1 ≡ string_at n a (view r)
  unfolding read_string string_at
  read_string-text zero a r = refl
  read_string-text (suc n) a r = ground (
    arith,
    byte-access r a,
    read_string-text n (a + 1) (access vm r a),
    ap (string_at n (a + 1)) (fun_ext (view-access r a)),
  )

  -- It changes nothing that is seen.
  pub view-read_string : (n a : ℕ) (r : Region) (b : ℕ) → view (read_string vm n a r).0 b ≡ view r b
  unfolding read_string
  view-read_string zero a r b = refl
  view-read_string (suc n) a r b =
      ground (arith, view-read_string n (a + 1) (access vm r a) b, view-access r a b)

pub string_at-ext :
    (n a : ℕ) (f g : ℕ → ℕ) → ((b : ℕ) → a ≤ b → f b ≡ g b) → string_at n a f ≡ string_at n a g
unfolding string_at
string_at-ext zero a f g h = refl
string_at-ext (suc n) a f g h =
    ground (arith, h a, string_at-ext n (a + 1) f g (λ b l. h b (omega arith)))

-- A string of `n` bytes at most, none of them NUL, reads back as it was put in.
pub string_at-overlay :
    (n a : ℕ) (message : List ℕ) (f : ℕ → ℕ)
    → All (λ c. 0 < c) message
    → length message ≤ n
    → string_at n a (overlay a message f) ≡ message
unfolding string_at overlay
string_at-overlay zero a [] f h l = refl
string_at-overlay zero a (c ∷ message) f h l = absurd (omega arith)
string_at-overlay (suc n) a [] f h l = ground arith
string_at-overlay (suc n) a (c ∷ message) f h l = ground (
  arith,
  string_at-overlay n (a + 1) message f h.1,
  string_at-ext n (a + 1) (overlay a (c ∷ message) f) (overlay (a + 1) message f)
      (λ b g. ground arith),
)

-- Bytes outside the string and its NUL stay as they were.
pub overlay_outside :
    (a : ℕ) (message : List ℕ) (f : ℕ → ℕ) (b : ℕ)
    → (b < a) ⊎ (a + length message < b)
    → overlay a message f b ≡ f b
unfolding overlay
overlay_outside a [] f b h = ground arith
overlay_outside a (c ∷ message) f b h = ground (arith, overlay_outside (a + 1) message f b)

-- The byte behind the first part of a string.
pub overlay-append :
    (a k : ℕ) (before : List ℕ) (c : ℕ) (after : List ℕ) (f : ℕ → ℕ)
    → k ≡ a + length before
    → overlay a (before ++ (c ∷ after)) f k ≡ c
unfolding overlay
overlay-append a k [] c after f h = ground arith
overlay-append a k (x ∷ before) c after f h =
    ground (arith, overlay-append (a + 1) k before c after f)
