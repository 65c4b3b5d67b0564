-- ===== src/S2dsm/Request.antt =====
-- The text of a request: `sprintf` with "%d-%d" at one process, `strtok` and `atoi` at the other. The
-- two numbers are not negative, and a text that is read begins with no spaces or signs.
pub mod Tokens
pub mod RoundTrip
use sbu_cse_506_operating_sy.Prelude.{
  ℕ, zero, suc, ◌+◌, ◌-◌, ◌*◌, ◌/◌, ◌%◌, ◌≤◌, ◌<◌, ◌≡◌, refl, ap, sym, ◌∙◌, Bool, true, false,
  Option, none, some, ◌>>=◌, List, [], ◌∷◌, ◌++◌, ltb, leb, ◌==◌, ◌&&◌, Bool-cases, inl, inr,
  if◌then◌else◌, length, All, arith, append-nil,
}
use sbu_cse_506_operating_sy.S2dsm.Region.{Vm}
use sbu_cse_506_operating_sy.S2dsm.Protocol.{Node, max_pages, respond}

abbrev pub dash : ℕ
dash = b'-'

-- `%d` of a number that is not negative; an `int` has ten digits at most.
unfoldable pub digits : ℕ → ℕ → List ℕ
digits zero n = []
digits (suc fuel) n =
    let front = digits fuel (n / 10) in
    if ltb n 10 then (b'0' + n) ∷ [] else front ++ ((b'0' + n % 10) ∷ [])

-- `sprintf(message, "%d-%d", request_page, operation)`
unfoldable pub request_text : ℕ → ℕ → List ℕ
request_text request_page operation = digits 10 request_page ++ (dash ∷ digits 10 operation)

abbrev pub is_digit : ℕ → Bool
is_digit c = leb b'0' c && ltb c (b'0' + 10)

unfoldable pub atoi_from : ℕ → List ℕ → ℕ
atoi_from sum [] = sum
atoi_from sum (c ∷ s) =
    let further = atoi_from (sum * 10 + (c - b'0')) s in if is_digit c then further else sum

-- The token at the start of a string, and what is behind its delimiter.
unfoldable pub token : List ℕ → List ℕ × List ℕ
token [] = ([], [])
token (c ∷ s) = let (t, rest) = token s in if c == dash then ([], s) else (c ∷ t, rest)

-- `strtok(…, "-")`, which passes over delimiters at the start.
unfoldable pub strtok : List ℕ → Option (List ℕ × List ℕ)
strtok [] = none
strtok (c ∷ s) = let later = strtok s in if c == dash then later else some (token (c ∷ s))

-- What `responder` takes the request apart into; `atoi(NULL)` faults.
unfoldable pub parse_request : List ℕ → Option (ℕ × ℕ)
parse_request buffer = strtok buffer >>= λ first.
    strtok first.1 >>= λ second. some (atoi_from 0 first.0, atoi_from 0 second.0)

module _ (vm : Vm) where
  -- One round of `responder`, from the text that it reads; a page of 100 or more is behind the end of
  -- `msi_array`.
  unfoldable pub receive : List ℕ → Node → Option (Node × List ℕ)
  receive buffer n = parse_request buffer >>= λ request.
      if ltb request.0 max_pages then some (respond vm request.0 request.1 n) else none
