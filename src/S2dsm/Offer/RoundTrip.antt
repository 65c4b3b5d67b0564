-- ===== src/S2dsm/Offer/RoundTrip.antt =====
-- The second instance takes from the offer what the first one put in.
use sbu_cse_506_operating_sy.Prelude.{
  ℕ, zero, suc, ◌+◌, ◌*◌, ◌/◌, ◌%◌, ◌<◌, ◌≡◌, refl, ◌∙◌, Bool, true, false, some, List, [], ◌∷◌,
  ◌++◌, ltb, ◌==◌, length, All, arith, Bool-cases, inl, inr, zero_or_pos, ◌≤◌, length-append,
}
use sbu_cse_506_operating_sy.S2dsm.Protocol.{text_eq}
use sbu_cse_506_operating_sy.S2dsm.Request.{digits, atoi_from}
use sbu_cse_506_operating_sy.S2dsm.Request.Tokens.{HasNoDash, strtok-append, strtok_last}
use sbu_cse_506_operating_sy.S2dsm.Request.RoundTrip.{
  power_of_ten, digits-HasNoDash, length-digits, atoi_from-digits,
}
use sbu_cse_506_operating_sy.S2dsm.Pairing.{length_of}
use sbu_cse_506_operating_sy.S2dsm.Offer.{
  hex_digit, hex_digits, pointer_text, offer_text, is_hex, hex_value, hex_from, strtoul,
  scan_pointer, scan_hex, saturated, parse_offer,
}

power_of_sixteen : ℕ → ℕ
power_of_sixteen zero = 1
power_of_sixteen (suc f) = 16 * power_of_sixteen f

abbrev AreHex : List ℕ → Type 0
AreHex s = All (λ c. is_hex c ≡ true) s

All-snoc : (s : List ℕ) (c : ℕ) → AreHex s → is_hex c ≡ true → AreHex (s ++ (c ∷ []))
All-snoc [] c h d = (d, tt)
All-snoc (x ∷ s) c h d = (h.0, All-snoc s c h.1 d)

is_hex-hex_digit : (d : ℕ) → d < 16 → is_hex (hex_digit d) ≡ true
is_hex-hex_digit d h = ground arith

hex_value-hex_digit : (d : ℕ) → d < 16 → hex_value (hex_digit d) ≡ d
hex_value-hex_digit d h = ground arith

hex_digits-AreHex : (f n : ℕ) → AreHex (hex_digits f n)
unfolding hex_digits
hex_digits-AreHex zero n = tt
hex_digits-AreHex (suc f) n =
    let front = hex_digits-AreHex f (n / 16) in
    let last = is_hex-hex_digit (n % 16) (omega arith) in
    elim (Bool-cases (ltb n 16)) [
      | inl y ↦ rw y (is_hex-hex_digit n (ground arith), tt)
      | inr o ↦ rw o (All-snoc (hex_digits f (n / 16)) (hex_digit (n % 16)) front last)
    ]

AreHex-HasNoDash : (s : List ℕ) → AreHex s → HasNoDash s
AreHex-HasNoDash [] h = tt
AreHex-HasNoDash (c ∷ s) h = (ground (arith, h.0), AreHex-HasNoDash s h.1)

hex_from-snoc :
    (sum : ℕ) (s : List ℕ) (c : ℕ)
    → AreHex s
    → is_hex c ≡ true
    → hex_from sum (s ++ (c ∷ [])) ≡ hex_from sum s * 16 + hex_value c
unfolding hex_from
hex_from-snoc sum [] c h d = rw d refl
hex_from-snoc sum (x ∷ s) c h d = rw h.0 (hex_from-snoc (sum * 16 + hex_value x) s c h.1 d)

hex_from-hex_digits : (f n : ℕ) → n < power_of_sixteen f → hex_from 0 (hex_digits f n) ≡ n
unfolding hex_digits power_of_sixteen hex_from
hex_from-hex_digits zero n h = omega arith
hex_from-hex_digits (suc f) n h = elim (Bool-cases (ltb n 16)) [
  | inl y ↦
      let small : n < 16 = ground arith in
      rw (y, is_hex-hex_digit n small) (ground (arith, hex_value-hex_digit n small))
  | inr o ↦
      let last : n % 16 < 16 = omega arith in
      rw o (
        hex_from-snoc 0 (hex_digits f (n / 16)) (hex_digit (n % 16)) (hex_digits-AreHex f (n / 16))
          (is_hex-hex_digit (n % 16) last)
        ∙ omega (
          arith,
          hex_from-hex_digits f (n / 16) (omega arith),
          hex_value-hex_digit (n % 16) last,
        ))
]

-- A number that is not 0 is not written with a 0 in front.
abbrev starts_with_zero : List ℕ → Bool
starts_with_zero [] = false
starts_with_zero (c ∷ s) = c == b'0'

starts_with_zero-append :
    (s t : List ℕ) → 0 < length s → starts_with_zero (s ++ t) ≡ starts_with_zero s
starts_with_zero-append [] t h = absurd (omega arith)
starts_with_zero-append (c ∷ s) t h = refl

at_least_one : (f n : ℕ) → n < power_of_ten (suc f) → 10 ≤ n → 0 < f
unfolding power_of_ten
at_least_one zero n h g = absurd (omega arith)
at_least_one (suc f) n h g = omega arith

starts_with_zero-digits :
    (f n : ℕ) → 0 < n → n < power_of_ten f → starts_with_zero (digits f n) ≡ false
unfolding digits power_of_ten
starts_with_zero-digits zero n p h = absurd (omega arith)
starts_with_zero-digits (suc f) n p h = elim (Bool-cases (ltb n 10)) [
  | inl y ↦ rw y (ground arith)
  | inr o ↦
      let some_front : 0 < f = at_least_one f n h (ground arith) in
      rw o (
        starts_with_zero-append (digits f (n / 10)) _ (length-digits f (n / 10) some_front)
        ∙ starts_with_zero-digits f (n / 10) (ground arith) (omega arith))
]

power_20 : power_of_ten 20 ≡ 100000000000000000000
unfolding power_of_ten
power_20 = refl

sixteen_16 : power_of_sixteen 16 ≡ 18446744073709551616
unfolding power_of_sixteen
sixteen_16 = refl

strtoul_of_zero : strtoul (digits 20 0) ≡ 0
unfolding strtoul digits
strtoul_of_zero = refl

strtoul_decimal : (s : List ℕ) → starts_with_zero s ≡ false → strtoul s ≡ saturated (atoi_from 0 s)
unfolding strtoul atoi_from
strtoul_decimal [] h = refl
strtoul_decimal (c ∷ s) h = rw h refl

pub strtoul-digits : (n : ℕ) → n < 18446744073709551616 → strtoul (digits 20 n) ≡ n
strtoul-digits n h = elim (zero_or_pos n) [
  | inl z ↦ rw z strtoul_of_zero
  | inr p ↦
      strtoul_decimal (digits 20 n) (starts_with_zero-digits 20 n p (omega (arith, power_20)))
      ∙ ground (arith, atoi_from-digits 20 n (omega (arith, power_20)))
]

-- A number whose first digit is there.
scan_hex-AreHex :
    (s : List ℕ) → AreHex s → 0 < length s → scan_hex s ≡ some (saturated (hex_from 0 s))
scan_hex-AreHex [] h l = absurd (omega arith)
scan_hex-AreHex (c ∷ s) h l = rw h.0 refl

length-hex_digits : (f n : ℕ) → 0 < f → 0 < length (hex_digits f n)
unfolding hex_digits
length-hex_digits zero n h = absurd (omega arith)
length-hex_digits (suc f) n h =
    ground (arith, length-append (hex_digits f (n / 16)) (hex_digit (n % 16) ∷ []))

scan_pointer-pointer_text :
    (addr : ℕ) → addr < 18446744073709551616 → scan_pointer (pointer_text addr) ≡ some addr
unfolding scan_pointer pointer_text text_eq
scan_pointer-pointer_text addr h = elim (Bool-cases (addr == 0)) [
  | inl y ↦ rw y (ground arith)
  | inr o ↦
      let number = hex_from-hex_digits 16 addr (omega (arith, sixteen_16)) in
      let read =
        scan_hex-AreHex (hex_digits 16 addr) (hex_digits-AreHex 16 addr)
          (length-hex_digits 16 addr (omega arith)) in
      rw (o, read, number) (ground arith)
]

pointer_text-HasNoDash : (addr : ℕ) → HasNoDash (pointer_text addr)
unfolding pointer_text
pointer_text-HasNoDash addr = elim (Bool-cases (addr == 0)) [
  | inl y ↦ rw y (refl, (refl, (refl, (refl, (refl, tt)))))
  | inr o ↦ rw o (refl, (refl, AreHex-HasNoDash (hex_digits 16 addr) (hex_digits-AreHex 16 addr)))
]

length-pointer_text : (addr : ℕ) → 0 < length (pointer_text addr)
unfolding pointer_text
length-pointer_text addr = ground arith

-- The second instance takes from the offer the address and the number of pages of the first one, if
-- the length of the memory does not wrap around and the address is one of 64 bits.
pub parse_offer-offer_text :
    (num_pages addr : ℕ)
    → num_pages < 4503599627370496
    → addr < 18446744073709551616
    → parse_offer (offer_text (length_of num_pages) addr)
      ≡ some (record { len = num_pages * 4096; num_pages = num_pages; addr = some addr })
unfolding parse_offer offer_text
parse_offer-offer_text num_pages addr h g =
    let len : length_of num_pages ≡ num_pages * 4096 = omega arith in
    let n = num_pages * 4096 in
    let back : num_pages * 4096 / 4096 ≡ num_pages = omega arith in
    let first =
      strtok-append (digits 20 n) (pointer_text addr) (digits-HasNoDash 20 n)
        (length-digits 20 n (omega arith)) in
    let second =
      strtok_last (pointer_text addr) (pointer_text-HasNoDash addr) (length-pointer_text addr) in
    rw (len, first, second, strtoul-digits n (omega arith), back, scan_pointer-pointer_text addr g)
      refl
