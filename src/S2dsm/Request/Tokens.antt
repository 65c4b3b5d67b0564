-- ===== src/S2dsm/Request/Tokens.antt =====
-- `strtok` over strings that have no delimiter in them, joined by one.
use sbu_cse_506_operating_sy.Prelude.{
  ℕ, ◌<◌, ◌≡◌, refl, ap, false, some, List, [], ◌∷◌, ◌++◌, ◌==◌, length, All, arith,
}
use sbu_cse_506_operating_sy.S2dsm.Request.{dash, token, strtok}

abbrev pub HasNoDash : List ℕ → Type 0
HasNoDash s = All (λ c. (c == dash) ≡ false) s

token-append : (s rest : List ℕ) → HasNoDash s → token (s ++ (dash ∷ rest)) ≡ (s, rest)
unfolding token
token-append [] rest h = refl
token-append (c ∷ s) rest h = ground (arith, h.0, token-append s rest h.1)

token_last : (s : List ℕ) → HasNoDash s → token s ≡ (s, [])
unfolding token
token_last [] h = refl
token_last (c ∷ s) h = ground (arith, h.0, token_last s h.1)

pub strtok-append :
    (s rest : List ℕ) → HasNoDash s → 0 < length s → strtok (s ++ (dash ∷ rest)) ≡ some (s, rest)
unfolding strtok
strtok-append [] rest h l = absurd (omega arith)
strtok-append (c ∷ s) rest h l = rw h.0 (ap some (token-append (c ∷ s) rest h))

pub strtok_last : (s : List ℕ) → HasNoDash s → 0 < length s → strtok s ≡ some (s, [])
unfolding strtok
strtok_last [] h l = absurd (omega arith)
strtok_last (c ∷ s) h l = rw h.0 (ap some (token_last (c ∷ s) h))
