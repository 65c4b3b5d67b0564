-- ===== src/Encrypt/Runner.antt =====
-- Assignment 1 System Calls/syscall/runner.c: the program that reads a string and a key from its options
-- and calls s2_encrypt with them. `getopt` gives the options one after the other.
pub mod Options
use sbu_cse_506_operating_sy.Prelude.{
  ℕ, ◌+◌, ◌-◌, ◌%◌, Bool, Option, none, some, ◌>>=◌, List, [], ◌∷◌, ltb, ◌==◌, ◌&&◌, ◌||◌,
  if◌then◌else◌, int_mod, length,
}
use sbu_cse_506_operating_sy.S2dsm.Request.{atoi_from}
use sbu_cse_506_operating_sy.Encrypt.{UserMemory, Outcome, s2_encrypt}

-- What `getopt` returns: `k` or `s` with its argument, or `?` with the letter in `optopt`.
pub data Choice : Type 0 where
  key_option : List ℕ → Choice
  string_option : List ℕ → Choice
  unknown_option : ℕ → Choice

abbrev pub is_space : ℕ → Bool
is_space c = c == 32 || (ltb 8 c && ltb c 14)

-- What `strtol` makes of a number that is not within `long`: its bound.
abbrev pub saturated : ℕ → ℕ → ℕ
saturated bound n = if ltb bound n then bound else n

abbrev pub minus : ℕ → ℕ
minus n = (int_mod - n % int_mod) % int_mod

abbrev pub signed_number : List ℕ → ℕ
signed_number [] = 0
signed_number (c ∷ s) =
    if c == b'-'
    then minus (saturated 9223372036854775808 (atoi_from 0 s))
    else if c == b'+'
    then saturated 9223372036854775807 (atoi_from 0 s) % int_mod
    else saturated 9223372036854775807 (atoi_from 0 (c ∷ s)) % int_mod

-- `atoi`, as the bits of an `int`: the low ones of what `strtol` returns.
unfoldable pub atoi : List ℕ → ℕ
atoi [] = 0
atoi (c ∷ s) = let later = atoi s in if is_space c then later else signed_number (c ∷ s)

-- `str`, an array of 100 bytes, and `key`.
pub record Arguments : Type 0 where
  pub str : List ℕ
  pub key : ℕ

-- The loop, with the letters that it complains of: `strcpy` writes past the array if the string and
-- its NUL do not fit.
unfoldable pub read_options : List Choice → Arguments → Option (Arguments × List ℕ)
read_options [] a = some (a, [])
read_options (key_option optarg ∷ choices) a = read_options choices (record a { key = atoi optarg })
read_options (string_option optarg ∷ choices) a =
    let rest = read_options choices (record a { str = optarg }) in
    if ltb (length optarg) 100 then rest else none
read_options (unknown_option letter ∷ choices) a =
    read_options choices a >>= λ rest. some (rest.0, letter ∷ rest.1)

-- What the program prints, and the outcome of its call.
pub record Report : Type 0 where
  pub complaints : List ℕ
  pub arguments : Arguments
  pub outcome : Outcome

module _ (user : UserMemory) where
  -- `main`, with what the array happens to hold before it is set.
  unfoldable pub main : List ℕ → List Choice → Option Report
  main garbage choices = read_options choices (record { str = garbage; key = 0 }) >>= λ read.
      some (record {
        complaints = read.1;
        arguments = read.0;
        outcome = s2_encrypt user (some read.0.str) read.0.key;
      })
