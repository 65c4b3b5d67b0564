-- ===== src/Kds/Parse/Conversion.antt =====
-- `convert_str_to_integers` against the pieces of the string.
use sbu_cse_506_operating_sy.Prelude.{
  ℕ, ◌+◌, ◌<◌, ◌≡◌, ap, sym, ◌∙◌, refl, List, [], ◌∷◌, ◌++◌, map, ◌==◌, if◌then◌else◌, length, set,
  arith, Bool-cases, inl, inr, none, some, append-nil, append_assoc, length-append, lt→ltb, le→ltb,
}
use sbu_cse_506_operating_sy.Kds.Parse.{
  space, push_digit, ends_in_number, count_integers, store, convert_loop, convert_str_to_integers,
}
use sbu_cse_506_operating_sy.Kds.Parse.Words.{
  words, length-words, length-words_digit, number, numbers_from, extend, count_integers-words,
}

set-append :
    (xs : List ℕ) (y v : ℕ) (ys : List ℕ)
    → set (xs ++ (y ∷ ys)) (length xs) v ≡ (xs ++ (v ∷ [])) ++ ys
set-append [] y v ys = refl
set-append (x ∷ xs) y v ys = ap (λ zs. x ∷ zs) (set-append xs y v ys)

store_next :
    (xs : List ℕ) (y v : ℕ) (ys : List ℕ)
    → store (xs ++ (y ∷ ys)) (length xs) v ≡ some ((xs ++ (v ∷ [])) ++ ys)
unfolding store
store_next xs y v ys = ground (arith, set-append xs y v ys, length-append xs (y ∷ ys))

store_full : (xs : List ℕ) (v : ℕ) → store xs (length xs) v ≡ none
unfolding store
store_full xs v = ground arith

length-snoc : (xs : List ℕ) (v : ℕ) → length (xs ++ (v ∷ [])) ≡ length xs + 1
length-snoc xs v = length-append xs (v ∷ [])

numbers_from-extend :
    (sum c : ℕ) (ws : List (List ℕ))
    → 0 < length ws
    → numbers_from sum (extend c ws) ≡ numbers_from (push_digit sum c) ws
numbers_from-extend sum c [] h = absurd (omega arith)
numbers_from-extend sum c (w ∷ ws) h = refl

length-words_pos : (s : List ℕ) → 0 < length (words s)
length-words_pos s = omega (arith, length-words s)

numbers_from_zero : (ws : List (List ℕ)) → numbers_from 0 ws ≡ map number ws
numbers_from_zero [] = refl
numbers_from_zero (w ∷ ws) = refl

snoc-append : (xs : List ℕ) (v : ℕ) (ys : List ℕ) → (xs ++ (v ∷ [])) ++ ys ≡ xs ++ (v ∷ ys)
snoc-append xs v ys = append_assoc xs (v ∷ []) ys

-- With one free element for each number that is left, the loop fills them all.
convert_loop_fills :
    (s done rest : List ℕ) (sum j bound : ℕ)
    → j ≡ length done
    → bound ≡ length done + length rest
    → length rest ≡ length (words s)
    → convert_loop s (done ++ rest) bound j sum ≡ some (done ++ numbers_from sum (words s))
unfolding convert_loop words
convert_loop_fills s done [] sum j bound p q h = absurd (omega (arith, length-words_pos s))
convert_loop_fills [] done (r ∷ []) sum j bound p q h = rw (p, store_next) (rw append-nil)
convert_loop_fills [] done (r ∷ t ∷ rest) sum j bound p q h = absurd (omega arith)
convert_loop_fills (c ∷ s) done (r ∷ rest) sum j bound p q h = elim (Bool-cases (c == space)) [
  | inl e ↦
      rw (lt→ltb j bound (omega arith), e, p, store_next done r sum rest)
        (convert_loop_fills s (done ++ sum ∷ []) rest 0 _ bound (sym (length-snoc done sum))
            (omega (arith, length-snoc done sum)) (ground arith)
          ∙ ap some
              (snoc-append done sum _ ∙ ap (λ t. done ++ sum ∷ t) (numbers_from_zero (words s))))
  | inr e ↦
      rw (lt→ltb j bound (omega arith), e)
        (rw (numbers_from-extend sum c (words s) (length-words_pos s)) (
          convert_loop_fills s done (r ∷ rest) (push_digit sum c) j bound p q
            (h ∙ length-words_digit c s e)))
]

-- With one element fewer, the write after the last one faults.
convert_loop_faults :
    (s done rest : List ℕ) (sum j bound : ℕ)
    → j ≡ length done
    → bound ≡ length done + length rest
    → length rest + 1 ≡ length (words s)
    → convert_loop s (done ++ rest) bound j sum ≡ none
unfolding convert_loop words
convert_loop_faults [] done [] sum j bound p q h = rw (append-nil, p) (store_full done sum)
convert_loop_faults (c ∷ s) done [] sum j bound p q h =
    rw (le→ltb j bound (omega arith), append-nil, p) (store_full done sum)
convert_loop_faults [] done (r ∷ rest) sum j bound p q h = absurd (omega arith)
convert_loop_faults (c ∷ s) done (r ∷ rest) sum j bound p q h = elim (Bool-cases (c == space)) [
  | inl e ↦
      rw (lt→ltb j bound (omega arith), e, p, store_next done r sum rest)
        (convert_loop_faults s (done ++ sum ∷ []) rest 0 _ bound (sym (length-snoc done sum))
          (omega (arith, length-snoc done sum)) (ground arith))
  | inr e ↦
      rw (lt→ltb j bound (omega arith), e)
        (convert_loop_faults s done (r ∷ rest) (push_digit sum c) j bound p q
          (h ∙ length-words_digit c s e))
]

-- Over an allocation of as many elements as `count_integers` finds, the conversion yields the number
-- of each space-separated piece when the string ends in something other than a space, and writes
-- past the end of the allocation when it is empty or ends in a space.
pub convert_str_to_integers_lem :
    (int_str int_array : List ℕ)
    → length int_array ≡ count_integers int_str
    → convert_str_to_integers int_str int_array (count_integers int_str)
      ≡ (if ends_in_number int_str then some (map number (words int_str)) else none)
unfolding convert_str_to_integers
convert_str_to_integers_lem s a h = elim (Bool-cases (ends_in_number s)) [
  | inl e ↦ rw e (
      convert_loop_fills s [] a 0 0 _ refl (omega arith)
        (omega (arith, rw e at (count_integers-words s)))
      ∙ ap some (numbers_from_zero (words s)))
  | inr e ↦ rw e (
      convert_loop_faults s [] a 0 0 _ refl (omega arith)
        (omega (arith, rw e at (count_integers-words s))))
]
