-- ===== src/Kds/Parse.antt =====
-- The first part of `lkp_init`, which counts the integers of `int_str`, and
-- `convert_str_to_integers`. The string is the list of its bytes before the NUL.
pub mod Words
pub mod Conversion
use sbu_cse_506_operating_sy.Prelude.{
  ℕ, ◌+◌, ◌*◌, ◌%◌, Bool, true, false, Option, none, some, List, [], ◌∷◌, ltb, ◌==◌, not,
  if◌then◌else◌, ◌>>=◌, length, set,
}

abbrev pub space : ℕ
space = b' '

-- `char` is signed, and widens to `int` with its sign.
abbrev pub int_of_char : ℕ → ℕ
int_of_char c = if ltb c 128 then c else c + 4294967040

-- `sum * 10 + (int_str[i] - '0')`
abbrev pub push_digit : ℕ → ℕ → ℕ
push_digit sum c = (sum * 10 + (int_of_char c + 4294967248)) % 4294967296

-- `int_str[i-1] != ' '` where `i` is the length, false for the empty string.
unfoldable pub ends_in_number : List ℕ → Bool
ends_in_number [] = false
ends_in_number (c ∷ []) = not (c == space)
ends_in_number (c ∷ d ∷ s) = ends_in_number (d ∷ s)

unfoldable pub count_spaces : List ℕ → ℕ
count_spaces [] = 0
count_spaces (c ∷ s) = (if c == space then 1 else 0) + count_spaces s

unfoldable pub count_integers : List ℕ → ℕ
count_integers s = if ends_in_number s then count_spaces s + 1 else count_spaces s

-- `int_array[j] = v`; an index past the end of the allocation is a fault.
unfoldable pub store : List ℕ → ℕ → ℕ → Option (List ℕ)
store int_array j v = if ltb j (length int_array) then some (set int_array j v) else none

unfoldable pub convert_loop : List ℕ → List ℕ → ℕ → ℕ → ℕ → Option (List ℕ)
convert_loop [] int_array bound j sum = store int_array j sum
convert_loop (c ∷ s) int_array bound j sum =
    let next_number = store int_array j sum >>= λ a. convert_loop s a bound (j + 1) 0 in
    let next_digit = convert_loop s int_array bound j (push_digit sum c) in
    if ltb j bound then (if c == space then next_number else next_digit) else store int_array j sum

unfoldable pub convert_str_to_integers : List ℕ → List ℕ → ℕ → Option (List ℕ)
convert_str_to_integers int_str int_array bound = convert_loop int_str int_array bound 0 0
