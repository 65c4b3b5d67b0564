-- ===== src/Examples/CallRuns.antt =====
-- The system call and the greeting of Assignment 1, at concrete inputs.
use sbu_cse_506_operating_sy.Prelude.{
  ℕ, ◌+◌, ◌≤◌, ◌<◌, ◌≡◌, refl, Bool, true, false, some, none, List, [], ◌∷◌, ltb, ◌==◌, ◌||◌,
  if◌then◌else◌, length, arith, Option,
}
use sbu_cse_506_operating_sy.Encrypt.{success, einval, UserMemory, s2_encrypt}
use sbu_cse_506_operating_sy.Encrypt.Strings.{shifted, s2_encrypt_lem}
use sbu_cse_506_operating_sy.Encrypt.Runner.{
  Choice, key_option, string_option, unknown_option, atoi, main,
}
use sbu_cse_506_operating_sy.Encrypt.Runner.Options.{
  last_string, last_key, unknown_letters, all_fit, main-s2_encrypt,
}
use sbu_cse_506_operating_sy.S2dsm.Request.{atoi_from}
use sbu_cse_506_operating_sy.Greeting.{
  server_hello, client_hello, finished, done, go_on, go_on_by, apart, serve, visit,
}
use sbu_cse_506_operating_sy.Greeting.Finish.{alternating, go_on_by-finished}

-- "hi"
abbrev hi : List ℕ
hi = b'h' ∷ b'i' ∷ []

abbrev strnlen : Option (List ℕ) → ℕ → ℕ
strnlen none n = 0
strnlen (some s) n = if ltb n (length s + 1) then n + 1 else length s + 1

strnlen_long : (s : List ℕ) (n : ℕ) → n < length s + 1 → n < strnlen (some s) n
strnlen_long s n h = ground arith

strnlen_short : (s : List ℕ) (n : ℕ) → length s + 1 ≤ n → strnlen (some s) n ≡ length s + 1
strnlen_short s n h = ground arith

abbrev plain_user : UserMemory
plain_user = record {
  strnlen_user = strnlen;
  copy_from_user = λ s n. 0;
  strnlen_user_some = strnlen_short;
  strnlen_user_long = strnlen_long;
  strnlen_user_none = λ n. refl;
  copy_nothing = λ s. refl;
}

s2_encrypt_lem_example : s2_encrypt plain_user (some hi) 3 ≡ (
    if ltb 255 (length hi)
    then record { code = einval; printed = none; leaked = false }
    else if length hi == 0 || (ltb 3 1 || ltb 5 3)
    then record { code = einval; printed = none; leaked = true }
    else record { code = success; printed = some (shifted 3 hi); leaked = false })
s2_encrypt_lem_example =
    s2_encrypt_lem plain_user hi 3 ((omega arith, omega arith), ((omega arith, omega arith), tt))
      (omega arith) (λ n. refl)

-- The server listens, and the client connects.
abbrev first_turns : List Bool
first_turns = false ∷ true ∷ []

go_on_by-finished_example :
    let w = go_on_by (alternating 9) (go_on_by first_turns apart) in
    (w.server ≡ finished)
    × (w.client ≡ done)
    × (w.server_shows ≡ some client_hello)
    × (w.client_shows ≡ some server_hello)
unfolding go_on_by go_on serve visit
go_on_by-finished_example = go_on_by-finished first_turns refl

-- "-k 9 -x -s hi -k 3"
abbrev choices : List Choice
choices =
    key_option (b'9' ∷ []) ∷ unknown_option b'x' ∷ string_option hi ∷ key_option (b'3' ∷ []) ∷ []

main-s2_encrypt_example :
    let key = last_key 0 choices in
    main plain_user [] choices ≡ (
      if all_fit choices
      then some (record {
        complaints = unknown_letters choices;
        arguments = record { str = hi; key = key };
        outcome =
            if length hi == 0 || (ltb key 1 || ltb 5 key)
            then record { code = einval; printed = none; leaked = true }
            else record { code = success; printed = some (shifted key hi); leaked = false };
      })
      else none)
unfolding last_string
main-s2_encrypt_example =
    main-s2_encrypt plain_user [] choices (omega arith)
      ((omega arith, omega arith), ((omega arith, omega arith), tt)) (λ n. refl)

-- Its key is 3, and its string fits.
choices_read :
    (last_key 0 choices ≡ 3) × (all_fit choices ≡ true) × (unknown_letters choices ≡ b'x' ∷ [])
unfolding last_key all_fit unknown_letters atoi atoi_from
choices_read = (refl, refl, refl)
