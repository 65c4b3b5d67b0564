-- ===== src/Encrypt/Runner/Options.antt =====
-- What comes of the options: the call that is made, and how it ends.
use sbu_cse_506_operating_sy.Prelude.{
  ℕ, ◌<◌, ◌≡◌, refl, Bool, true, false, none, some, List, [], ◌∷◌, ltb, ◌==◌, ◌&&◌, ◌||◌,
  if◌then◌else◌, length, All, arith, Bool-cases, inl, inr,
}
use sbu_cse_506_operating_sy.Encrypt.{success, einval, UserMemory, Outcome}
use sbu_cse_506_operating_sy.Encrypt.Strings.{shifted, s2_encrypt_lem}
use sbu_cse_506_operating_sy.Encrypt.Runner.{
  Choice, key_option, string_option, unknown_option, atoi, Arguments, read_options, main,
}

-- The options by themselves: the last string, the last key, the unknown letters, and whether all
-- strings fit into the array.
unfoldable pub last_string : List ℕ → List Choice → List ℕ
last_string s [] = s
last_string s (key_option optarg ∷ choices) = last_string s choices
last_string s (string_option optarg ∷ choices) = last_string optarg choices
last_string s (unknown_option letter ∷ choices) = last_string s choices

unfoldable pub last_key : ℕ → List Choice → ℕ
last_key key [] = key
last_key key (key_option optarg ∷ choices) = last_key (atoi optarg) choices
last_key key (string_option optarg ∷ choices) = last_key key choices
last_key key (unknown_option letter ∷ choices) = last_key key choices

unfoldable pub unknown_letters : List Choice → List ℕ
unknown_letters [] = []
unknown_letters (key_option optarg ∷ choices) = unknown_letters choices
unknown_letters (string_option optarg ∷ choices) = unknown_letters choices
unknown_letters (unknown_option letter ∷ choices) = letter ∷ unknown_letters choices

abbrev fits : Choice → Bool
fits (key_option optarg) = true
fits (string_option optarg) = ltb (length optarg) 100
fits (unknown_option letter) = true

unfoldable pub all_fit : List Choice → Bool
all_fit [] = true
all_fit (c ∷ choices) = fits c && all_fit choices

atoi-lt : (s : List ℕ) → atoi s < 4294967296
unfolding atoi
atoi-lt [] = omega arith
atoi-lt (c ∷ s) = ground (arith, atoi-lt s)

last_key-lt :
    (key : ℕ) (choices : List Choice) → key < 4294967296 → last_key key choices < 4294967296
unfolding last_key
last_key-lt key [] h = h
last_key-lt key (key_option optarg ∷ choices) h = last_key-lt (atoi optarg) choices (atoi-lt optarg)
last_key-lt key (string_option optarg ∷ choices) h = last_key-lt key choices h
last_key-lt key (unknown_option letter ∷ choices) h = last_key-lt key choices h

length-last_string :
    (s : List ℕ) (choices : List Choice)
    → length s < 100
    → all_fit choices ≡ true
    → length (last_string s choices) < 100
unfolding last_string all_fit
length-last_string s [] h fit = h
length-last_string s (key_option optarg ∷ choices) h fit = length-last_string s choices h fit
length-last_string s (string_option optarg ∷ choices) h fit =
    length-last_string optarg choices (ground arith) (ground arith)
length-last_string s (unknown_option letter ∷ choices) h fit = length-last_string s choices h fit

read_options_lem :
    (choices : List Choice) (a : Arguments)
    → read_options choices a ≡ (
        if all_fit choices
        then some (
          record { str = last_string a.str choices; key = last_key a.key choices },
          unknown_letters choices,
        )
        else none)
unfolding read_options last_string last_key unknown_letters all_fit
read_options_lem [] a = refl
read_options_lem (key_option optarg ∷ choices) a =
    read_options_lem choices (record a { key = atoi optarg })
read_options_lem (string_option optarg ∷ choices) a =
    ground (arith, read_options_lem choices (record a { str = optarg }))
read_options_lem (unknown_option letter ∷ choices) a = elim (Bool-cases (all_fit choices)) [
  | inl y ↦ rw (read_options_lem choices a, y) refl
  | inr o ↦ rw (read_options_lem choices a, o) refl
]

module _ (user : UserMemory) where
  -- If the last string (what the array held before, where there is none) has bytes from 1 to 250 and
  -- all its bytes can be copied: a string of 100 bytes or more, wherever among the options it stands,
  -- overruns the array; otherwise the call is made with the last string and the last key, 0 where there
  -- is none, it is never refused for its length, and it succeeds with the shifted string in the log
  -- exactly if the string is not empty and the key is from 1 to 5.
  pub main-s2_encrypt :
      (garbage : List ℕ) (choices : List Choice)
      → length garbage < 100
      → All (λ c. (0 < c) × (c < 251)) (last_string garbage choices)
      → ((n : ℕ) → user.copy_from_user (some (last_string garbage choices)) n ≡ 0)
      → let s = last_string garbage choices in
        let key = last_key 0 choices in
        let refused : Outcome = record { code = einval; printed = none; leaked = true } in
        let logged : Outcome = record {
          code = success;
          printed = some (shifted key s);
          leaked = false;
        } in
        main user garbage choices ≡ (
          if all_fit choices
          then some (record {
            complaints = unknown_letters choices;
            arguments = record { str = s; key = key };
            outcome = if length s == 0 || (ltb key 1 || ltb 5 key) then refused else logged;
          })
          else none)
  unfolding main
  main-s2_encrypt garbage choices short readable copied =
      let s = last_string garbage choices in
      let key = last_key 0 choices in
      elim (Bool-cases (all_fit choices)) [
        | inr o ↦ rw (read_options_lem choices (record { str = garbage; key = 0 }), o) refl
        | inl y ↦
            let small = length-last_string garbage choices short y in
            rw
              (
                read_options_lem choices (record { str = garbage; key = 0 }),
                y,
                s2_encrypt_lem user s key readable (last_key-lt 0 choices (omega arith)) copied,
              )
              (ground arith)
      ]
