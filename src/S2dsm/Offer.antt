-- ===== src/S2dsm/Offer.antt =====
-- What the first of two instances sends to the second one: the length of the memory and its address,
-- `snprintf` with "%lu-%p" at one, `strtok`, `strtoul` and `sscanf` at the other.
pub mod RoundTrip
use sbu_cse_506_operating_sy.Prelude.{
  ℕ, zero, suc, ◌+◌, ◌-◌, ◌*◌, ◌/◌, ◌%◌, Option, some, ◌>>=◌, List, [], ◌∷◌, ◌++◌, ltb, leb, ◌==◌,
  ◌&&◌, ◌||◌, Bool, none, if◌then◌else◌,
}
use sbu_cse_506_operating_sy.S2dsm.Protocol.{text_eq}
use sbu_cse_506_operating_sy.S2dsm.Request.{dash, digits, is_digit, atoi_from, strtok}

abbrev pub hex_digit : ℕ → ℕ
hex_digit d = if ltb d 10 then b'0' + d else b'a' + (d - 10)

unfoldable pub hex_digits : ℕ → ℕ → List ℕ
hex_digits zero n = []
hex_digits (suc fuel) n =
    let front = hex_digits fuel (n / 16) in
    if ltb n 16 then hex_digit n ∷ [] else front ++ (hex_digit (n % 16) ∷ [])

-- "(nil)"
abbrev pub nil_text : List ℕ
nil_text = b'(' ∷ b'n' ∷ b'i' ∷ b'l' ∷ b')' ∷ []

-- `%p`
unfoldable pub pointer_text : ℕ → List ℕ
pointer_text addr = if addr == 0 then nil_text else b'0' ∷ b'x' ∷ hex_digits 16 addr

-- `snprintf(buffer, BUFF_SIZE, "%lu-%p", len, addr)`
unfoldable pub offer_text : ℕ → ℕ → List ℕ
offer_text len addr = digits 20 len ++ (dash ∷ pointer_text addr)

abbrev pub is_hex : ℕ → Bool
is_hex c = is_digit c || ((leb b'a' c && ltb c (b'a' + 6)) || (leb b'A' c && ltb c (b'A' + 6)))

abbrev pub hex_value : ℕ → ℕ
hex_value c = if is_digit c then c - b'0' else if leb b'a' c then c - b'a' + 10 else c - b'A' + 10

-- The number at the start of a string, in base sixteen and in base eight.
unfoldable pub hex_from : ℕ → List ℕ → ℕ
hex_from sum [] = sum
hex_from sum (c ∷ s) =
    let further = hex_from (sum * 16 + hex_value c) s in if is_hex c then further else sum

unfoldable pub octal_from : ℕ → List ℕ → ℕ
octal_from sum [] = sum
octal_from sum (c ∷ s) =
    let further = octal_from (sum * 8 + (c - b'0')) s in
    if leb b'0' c && ltb c (b'0' + 8) then further else sum

abbrev pub strtoul_zero : List ℕ → ℕ
strtoul_zero [] = 0
strtoul_zero (c ∷ s) = if c == b'x' || c == b'X' then hex_from 0 s else octal_from 0 (c ∷ s)

-- A number that is too large is read as the largest one.
abbrev pub saturated : ℕ → ℕ
saturated n = if ltb n 18446744073709551616 then n else 18446744073709551615

-- `strtoul(token, NULL, 0)`, which finds out the base; no spaces or signs stand before the number.
unfoldable pub strtoul : List ℕ → ℕ
strtoul [] = 0
strtoul (c ∷ s) = saturated (if c == b'0' then strtoul_zero s else atoi_from 0 (c ∷ s))

-- A number in base sixteen, of one digit at least.
abbrev pub scan_hex : List ℕ → Option ℕ
scan_hex [] = none
scan_hex (c ∷ s) = if is_hex c then some (saturated (hex_from 0 (c ∷ s))) else none

abbrev pub scan_number : List ℕ → Option ℕ
scan_number [] = none
scan_number (c ∷ []) = scan_hex (c ∷ [])
scan_number (c ∷ d ∷ s) =
    if c == b'0' && (d == b'x' || d == b'X') then scan_hex s else scan_hex (c ∷ d ∷ s)

-- `sscanf(token, "%p", &addr)`: `none` where `addr` stays as it was, the address of the token.
unfoldable pub scan_pointer : List ℕ → Option ℕ
scan_pointer s = if text_eq nil_text s then some 0 else scan_number s

-- What the second instance takes from it.
pub record Offer : Type 0 where
  pub len : ℕ
  pub num_pages : ℕ
  pub addr : Option ℕ

unfoldable pub parse_offer : List ℕ → Option Offer
parse_offer buffer = strtok buffer >>= λ first. strtok first.1 >>= λ second. some (record {
  len = strtoul first.0;
  num_pages = strtoul first.0 / 4096;
  addr = scan_pointer second.0;
})
