-- ===== src/Kds/Bitmap.antt =====
-- The bitmap part of kds.c.
use sbu_cse_506_operating_sy.Prelude.{
  ℕ, zero, suc, ◌+◌, ◌-◌, ◌/◌, ◌%◌, ◌<◌, ◌≡◌, refl, ◌∙◌, Bool, false, ◌&&◌, ◌||◌, List, [], ◌∷◌,
  leb, ◌==◌, int_ltb, if◌then◌else◌, arith, Bool-cases, inl, inr, zero_or_pos, ap, fun_ext, All,
}
use sbu_cse_506_operating_sy.Kernel.Small.{BitApi}

-- Binary digit `c` of a number.
unfoldable pub digit : ℕ → ℕ → Bool
digit zero n = n % 2 == 1
digit (suc c) n = digit c (n / 2)

-- An element sets a bit if it is positive and has that digit.
unfoldable pub any_sets : List ℕ → ℕ → Bool
any_sets [] c = false
any_sets (v ∷ vs) c = (int_ltb 0 v && digit c v) || any_sets vs c

pub power : ℕ → ℕ
power zero = 1
power (suc f) = power f + power f

digit-zero : (c : ℕ) → digit c 0 ≡ false
unfolding digit
digit-zero zero = refl
digit-zero (suc c) = digit-zero c

digit_first : (k n : ℕ) → k ≡ 0 → digit k n ≡ (n % 2 == 1)
unfolding digit
digit_first zero n h = refl
digit_first (suc k) n h = absurd (omega arith)

digit_later : (k j n : ℕ) → k ≡ j + 1 → digit k n ≡ digit j (n / 2)
unfolding digit
digit_later zero j n h = absurd (omega arith)
digit_later (suc k) j n h = let e : k ≡ j = omega arith in ap (λ t. digit t (n / 2)) e

power_32 : power 32 ≡ 4294967296
unfolding power
power_32 = refl

sub-zero : (n : ℕ) → n - 0 ≡ n
sub-zero n = omega arith

-- `for_each_set_bit` over `n` bits from `bit`.
unfoldable pub set_bits : ℕ → ℕ → (ℕ → Bool) → List ℕ
set_bits zero bit mybitmap = []
set_bits (suc n) bit mybitmap =
    let rest = set_bits n (bit + 1) mybitmap in if mybitmap bit then bit ∷ rest else rest

module _ (api : BitApi) where
  open api use {set_bit, set_bit_lem}

  -- `while (number > 0)`: an `int` has 32 bits, so it is halved less than 32 times.
  unfoldable pub set_digits : ℕ → ℕ → ℕ → (ℕ → Bool) → ℕ → Bool
  set_digits zero number bit mybitmap = mybitmap
  set_digits (suc fuel) number bit mybitmap =
      let marked = if number % 2 == 1 then set_bit bit mybitmap else mybitmap in
      let rest = set_digits fuel (number / 2) (bit + 1) marked in
      if int_ltb 0 number then rest else mybitmap

  unfoldable pub insert_each : List ℕ → (ℕ → Bool) → ℕ → Bool
  insert_each [] mybitmap = mybitmap
  insert_each (number ∷ vs) mybitmap = insert_each vs (set_digits 32 number 0 mybitmap)

  -- The bits that are printed, of the first ten.
  unfoldable pub run_bitmap : List ℕ → List ℕ
  run_bitmap int_array = set_bits 10 0 (insert_each int_array (λ _. false))

  -- With enough rounds the loop sets bit `bit + c` for each digit `c` of the number, and no other.
  set_digits_lem :
      (fuel number bit : ℕ) (m : ℕ → Bool) (c : ℕ)
      → number < power fuel
      → number < 2147483648
      → set_digits fuel number bit m c ≡ (m c || (leb bit c && digit (c - bit) number))
  unfolding set_digits power
  set_digits_lem zero number bit m c h g =
      let none_left : number ≡ 0 = omega arith in
      ground (arith, ap (digit (c - bit)) none_left, digit-zero (c - bit))
  set_digits_lem (suc fuel) number bit m c h g = elim (zero_or_pos number) [
    | inl z ↦ ground (arith, ap (digit (c - bit)) z, digit-zero (c - bit))
    | inr p ↦
        let marked = if number % 2 == 1 then set_bit bit m else m in
        ground (
          arith,
          set_digits_lem fuel (number / 2) (bit + 1) marked c,
          set_bit_lem bit m c,
          digit_first (c - bit) number,
          digit_later (c - bit) (c - (bit + 1)) number,
        )
  ]

  -- A number that is not positive sets no bit.
  set_digits_stop :
      (fuel number bit : ℕ) (m : ℕ → Bool) (c : ℕ)
      → int_ltb 0 number ≡ false
      → set_digits (suc fuel) number bit m c ≡ m c
  unfolding set_digits
  set_digits_stop fuel number bit m c h = rw h

  set_digits_any :
      (number : ℕ) (m : ℕ → Bool) (c : ℕ)
      → number < 4294967296
      → set_digits 32 number 0 m c ≡ (m c || (int_ltb 0 number && digit c number))
  set_digits_any number m c h = elim (Bool-cases (int_ltb 0 number)) [
    | inl p ↦ rw p (
        ground (
          arith,
          set_digits_lem 32 number 0 m c (omega (arith, power_32)) (ground arith),
          ap (λ t. digit t number) (sub-zero c),
        ))
    | inr n ↦ rw n (set_digits_stop 31 number 0 m c n ∙ ground arith)
  ]

  -- After all elements, a bit is set exactly if some positive one has that binary digit.
  pub insert_each_lem :
      (vs : List ℕ) (m : ℕ → Bool) (c : ℕ)
      → All (λ v. v < 4294967296) vs
      → insert_each vs m c ≡ (m c || any_sets vs c)
  unfolding insert_each any_sets
  insert_each_lem [] m c h = ground arith
  insert_each_lem (v ∷ vs) m c h =
      ground (arith, insert_each_lem vs (set_digits 32 v 0 m) c h.1, set_digits_any v m c h.0)

  -- For an input of 32-bit elements, the bits printed are those below 10 that some positive element
  -- has as a binary digit.
  pub run_bitmap_lem :
      (int_array : List ℕ)
      → All (λ v. v < 4294967296) int_array
      → run_bitmap int_array ≡ set_bits 10 0 (any_sets int_array)
  unfolding run_bitmap
  run_bitmap_lem vs h = ap (set_bits 10 0) (fun_ext λ c. insert_each_lem vs (λ _. false) c h)
