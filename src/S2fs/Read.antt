-- ===== src/S2fs/Read.antt =====
-- `s2fs_read_file`, and a reader that calls it until it returns 0. The offset is not negative: the
-- kernel refuses other ones before it calls the handler.
use sbu_cse_506_operating_sy.Prelude.{
  ℕ, zero, suc, ◌+◌, ◌-◌, ◌≤◌, ◌<◌, ◌≡◌, refl, sym, ◌∙◌, ap, List, [], ◌∷◌, ◌++◌, ltb, ◌==◌,
  if◌then◌else◌, length, take, drop, arith, append-nil, le→ltb,
}

-- "Hello World!\n"
abbrev pub greeting : List ℕ
greeting =
    b'H' ∷ b'e' ∷ b'l' ∷ b'l' ∷ b'o' ∷ b' ' ∷ b'W' ∷ b'o' ∷ b'r' ∷ b'l' ∷ b'd' ∷ b'!' ∷ 10 ∷ []

pub data Status : Type 0 where
  bytes : ℕ → Status
  efault : Status

pub record Reply : Type 0 where
  pub status : Status
  pub offset : ℕ
  pub copied : List ℕ

add-two : (n : ℕ) → n + 2 ≡ suc (suc n)
add-two n = omega arith

clamp : ℕ → ℕ → ℕ
clamp room n = if ltb room n then room else n

take-nil : (n : ℕ) → take {A = ℕ} n [] ≡ []
take-nil zero = refl
take-nil (suc n) = refl

take-clamp : (n room : ℕ) (xs : List ℕ) → length xs ≡ room → take (clamp room n) xs ≡ take n xs
unfolding clamp
take-clamp n room [] h = take-nil (clamp room n) ∙ sym (take-nil n)
take-clamp zero room (x ∷ xs) h = ground arith
take-clamp (suc n) zero (x ∷ xs) h = absurd (omega arith)
take-clamp (suc n) (suc room) (x ∷ xs) h = ground (arith, take-clamp n room xs)

length-take : (n room : ℕ) (xs : List ℕ) → length xs ≡ room → length (take n xs) ≡ clamp room n
unfolding clamp
length-take zero room xs h = ground arith
length-take (suc n) room [] h = ground arith
length-take (suc n) zero (x ∷ xs) h = absurd (omega arith)
length-take (suc n) (suc room) (x ∷ xs) h = ground (arith, length-take n room xs)

length-drop : (n : ℕ) (xs : List ℕ) → length (drop n xs) ≡ length xs - n
length-drop zero xs = omega arith
length-drop (suc n) [] = omega arith
length-drop (suc n) (x ∷ xs) = omega (arith, length-drop n xs)

-- What a reader has after a call, if `rest` is what it gets from then on.
abbrev gather : Status → List ℕ → List ℕ → List ℕ
gather (bytes zero) copied rest = []
gather (bytes (suc n)) copied rest = copied ++ rest
gather efault copied rest = []

-- `copy_to_user` returns how many of the bytes it could not copy.
module _ (copy_to_user : List ℕ → ℕ) where
  unfoldable pub s2fs_read_file : ℕ → ℕ → Reply
  s2fs_read_file count offset =
      let len : ℕ = 13 in
      let count' = if ltb (len - offset) count then len - offset else count in
      let text = take count' (drop offset greeting) in
      let done : Reply = record { status = bytes count'; offset = offset + len; copied = text } in
      let failed : Reply = record { status = efault; offset = offset; copied = [] } in
      if ltb len offset
      then record { status = bytes 0; offset = offset; copied = [] }
      else if copy_to_user text == 0
      then done
      else failed

  -- What a program gets that reads with a buffer of `count` bytes until a call returns 0 or fails.
  unfoldable pub read_all : ℕ → ℕ → ℕ → List ℕ
  read_all zero count offset = []
  read_all (suc fuel) count offset =
      let reply : Reply = s2fs_read_file count offset in
      let rest = read_all fuel count reply.offset in gather reply.status reply.copied rest

  -- Where the copy succeeds and the offset is 13 at most, a call returns as many bytes of the text
  -- from the offset on as the buffer holds and the text has left, and moves the offset on by 13.
  s2fs_read_file_lem :
      (count offset : ℕ)
      → offset ≤ 13
      → ((text : List ℕ) → copy_to_user text ≡ 0)
      → s2fs_read_file count offset ≡ record {
        status = bytes (length (take count (drop offset greeting)));
        offset = offset + 13;
        copied = take count (drop offset greeting);
      }
  unfolding s2fs_read_file clamp
  s2fs_read_file_lem count offset h ok =
      let room = length-drop offset greeting in
      rw (le→ltb 13 offset h, ok)
        (rw (length-take count (13 - offset) (drop offset greeting) room)
          (rw (← take-clamp count (13 - offset) (drop offset greeting) room) refl))

  read_all-step :
      (fuel count offset : ℕ) (r : Reply)
      → s2fs_read_file count offset ≡ r
      → read_all (suc fuel) count offset ≡ gather r.status r.copied (read_all fuel count r.offset)
  unfolding read_all
  read_all-step fuel count offset r e =
      ap (λ x. gather x.status x.copied (read_all fuel count x.offset)) e

  -- Where every copy succeeds, a reader whose buffer has `count` bytes, 1 at least, and that makes two
  -- calls or more, gets the first `count` bytes of the text and no others: the rest is lost, since the
  -- offset moves by the length of the text and not by what was read.
  pub read_all_lem :
      (fuel count : ℕ)
      → 0 < count
      → ((text : List ℕ) → copy_to_user text ≡ 0)
      → read_all (fuel + 2) count 0 ≡ take count greeting
  unfolding read_all
  read_all_lem fuel zero h ok = absurd (omega arith)
  read_all_lem fuel (suc n) h ok = rw (add-two fuel) (
      read_all-step (suc fuel) (suc n) 0 _ (s2fs_read_file_lem (suc n) 0 (omega arith) ok)
      ∙ ap (λ rest. take (suc n) greeting ++ rest)
          (read_all-step fuel (suc n) 13 _ (s2fs_read_file_lem (suc n) 13 (omega arith) ok))
      ∙ append-nil (take (suc n) greeting))
