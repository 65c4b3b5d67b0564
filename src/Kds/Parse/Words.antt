-- ===== src/Kds/Parse/Words.antt =====
-- What a list of integers in a string means: the pieces between single spaces, each read in base ten.
use sbu_cse_506_operating_sy.Prelude.{
  ℕ, ◌+◌, ◌<◌, ◌≡◌, refl, false, List, [], ◌∷◌, map, ◌==◌, if◌then◌else◌, length, arith,
}
use sbu_cse_506_operating_sy.Kds.Parse.{
  space, push_digit, ends_in_number, count_spaces, count_integers,
}

-- Put a byte before the first piece.
abbrev pub extend : ℕ → List (List ℕ) → List (List ℕ)
extend c [] = (c ∷ []) ∷ []
extend c (w ∷ ws) = (c ∷ w) ∷ ws

unfoldable pub words : List ℕ → List (List ℕ)
words [] = [] ∷ []
words (c ∷ s) = if c == space then [] ∷ words s else extend c (words s)

abbrev pub number_from : ℕ → List ℕ → ℕ
number_from sum [] = sum
number_from sum (c ∷ w) = number_from (push_digit sum c) w

abbrev pub number : List ℕ → ℕ
number w = number_from 0 w

-- The numbers of the pieces, where `sum` was already read of the first.
abbrev pub numbers_from : ℕ → List (List ℕ) → List ℕ
numbers_from sum [] = []
numbers_from sum (w ∷ ws) = number_from sum w ∷ map number ws

length-extend : (c : ℕ) (ws : List (List ℕ)) → 0 < length ws → length (extend c ws) ≡ length ws
length-extend c [] h = absurd (omega arith)
length-extend c (w ∷ ws) h = refl

pub length-words : (s : List ℕ) → length (words s) ≡ count_spaces s + 1
unfolding words count_spaces
length-words [] = refl
length-words (c ∷ s) = ground (arith, length-words s)

pub length-words_digit :
    (c : ℕ) (s : List ℕ) → (c == space) ≡ false → length (words (c ∷ s)) ≡ length (words s)
unfolding words
length-words_digit c s e = rw e (length-extend c (words s) (omega (arith, length-words s)))

pub count_integers-words :
    (s : List ℕ)
    → length (words s) ≡ (if ends_in_number s then count_integers s else count_integers s + 1)
unfolding count_integers
count_integers-words s = ground (arith, length-words s)
