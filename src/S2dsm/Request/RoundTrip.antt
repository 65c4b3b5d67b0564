-- ===== src/S2dsm/Request/RoundTrip.antt =====
-- The text of a request is read back as the two numbers that it was made of.
use sbu_cse_506_operating_sy.Prelude.{
  ℕ, zero, suc, ◌+◌, ◌-◌, ◌*◌, ◌/◌, ◌%◌, ◌<◌, ◌≡◌, refl, ◌∙◌, true, some, List, [], ◌∷◌, ◌++◌, ltb,
  Bool-cases, inl, inr, length, All, arith, lt→ltb,
}
use sbu_cse_506_operating_sy.S2dsm.Region.{Vm}
use sbu_cse_506_operating_sy.S2dsm.Protocol.{Node, max_pages, respond}
use sbu_cse_506_operating_sy.S2dsm.Request.Tokens.{HasNoDash, strtok-append, strtok_last}
use sbu_cse_506_operating_sy.S2dsm.Request.{
  digits, request_text, is_digit, atoi_from, parse_request, receive,
}

unfoldable pub power_of_ten : ℕ → ℕ
power_of_ten zero = 1
power_of_ten (suc f) = 10 * power_of_ten f

abbrev AreDigits : List ℕ → Type 0
AreDigits s = All (λ c. is_digit c ≡ true) s

All-snoc : (s : List ℕ) (c : ℕ) → AreDigits s → is_digit c ≡ true → AreDigits (s ++ (c ∷ []))
All-snoc [] c h d = (d, tt)
All-snoc (x ∷ s) c h d = (h.0, All-snoc s c h.1 d)

digits-AreDigits : (f n : ℕ) → AreDigits (digits f n)
unfolding digits
digits-AreDigits zero n = tt
digits-AreDigits (suc f) n =
    let snoc =
      All-snoc (digits f (n / 10)) (b'0' + n % 10) (digits-AreDigits f (n / 10)) (ground arith) in
    elim (Bool-cases (ltb n 10)) [ inl y ↦ rw y (ground arith, tt) | inr o ↦ rw o snoc ]

pub length-snoc : (s : List ℕ) (c : ℕ) → 0 < length (s ++ (c ∷ []))
length-snoc [] c = omega arith
length-snoc (x ∷ s) c = omega arith

pub length-digits : (f n : ℕ) → 0 < f → 0 < length (digits f n)
unfolding digits
length-digits zero n h = absurd (omega arith)
length-digits (suc f) n h = elim (Bool-cases (ltb n 10)) [
  | inl y ↦ rw y (omega arith)
  | inr o ↦ rw o (length-snoc (digits f (n / 10)) (b'0' + n % 10))
]

atoi_from-snoc :
    (sum : ℕ) (s : List ℕ) (c : ℕ)
    → AreDigits s
    → is_digit c ≡ true
    → atoi_from sum (s ++ (c ∷ [])) ≡ atoi_from sum s * 10 + (c - b'0')
unfolding atoi_from
atoi_from-snoc sum [] c h d = rw d refl
atoi_from-snoc sum (x ∷ s) c h d = rw h.0 (atoi_from-snoc (sum * 10 + (x - b'0')) s c h.1 d)

pub atoi_from-digits : (f n : ℕ) → n < power_of_ten f → atoi_from 0 (digits f n) ≡ n
unfolding digits power_of_ten atoi_from
atoi_from-digits zero n h = omega arith
atoi_from-digits (suc f) n h = elim (Bool-cases (ltb n 10)) [
  | inl y ↦ rw y (ground arith)
  | inr o ↦ rw o (
      atoi_from-snoc 0 (digits f (n / 10)) (b'0' + n % 10) (digits-AreDigits f (n / 10))
        (ground arith)
      ∙ ground (arith, atoi_from-digits f (n / 10) (omega arith)))
]

AreDigits-HasNoDash : (s : List ℕ) → AreDigits s → HasNoDash s
AreDigits-HasNoDash [] h = tt
AreDigits-HasNoDash (c ∷ s) h = (ground (arith, h.0), AreDigits-HasNoDash s h.1)

pub digits-HasNoDash : (f n : ℕ) → HasNoDash (digits f n)
digits-HasNoDash f n = AreDigits-HasNoDash (digits f n) (digits-AreDigits f n)

power_10 : power_of_ten 10 ≡ 10000000000
unfolding power_of_ten
power_10 = refl

-- A request for any page and operation that are not negative is read back as these two numbers.
pub parse_request-request_text :
    (request_page operation : ℕ)
    → request_page < 2147483648
    → operation < 2147483648
    → parse_request (request_text request_page operation) ≡ some (request_page, operation)
unfolding parse_request request_text
parse_request-request_text p o h g =
    let first =
      strtok-append (digits 10 p) (digits 10 o) (digits-HasNoDash 10 p)
        (length-digits 10 p (omega arith)) in
    let second =
      strtok_last (digits 10 o) (digits-HasNoDash 10 o) (length-digits 10 o (omega arith)) in
    let page = atoi_from-digits 10 p (omega (arith, power_10)) in
    let op = atoi_from-digits 10 o (omega (arith, power_10)) in rw (first, second, page, op) refl

module _ (vm : Vm) where
  -- The responder does with the text of a request, for a page below 100 and an operation that is not
  -- negative, what it does with the two numbers.
  pub receive-request_text :
      (request_page operation : ℕ) (n : Node)
      → request_page < max_pages
      → operation < 2147483648
      → receive vm (request_text request_page operation) n
        ≡ some (respond vm request_page operation n)
  unfolding receive
  receive-request_text p o n h g =
      rw (parse_request-request_text p o (omega (arith, h)) g, lt→ltb p max_pages h) refl
