-- ===== src/Encrypt/Strings.antt =====
-- What s2_encrypt does with each string and key.
use sbu_cse_506_operating_sy.Prelude.{
  ℕ, ◌+◌, ◌≤◌, ◌<◌, ◌≡◌, refl, true, false, none, some, List, [], ◌∷◌, ◌++◌, ltb, ◌==◌, ◌||◌,
  if◌then◌else◌, int_ltb, length, All, map, arith, lt_or_le, inl, inr,
}
use sbu_cse_506_operating_sy.Encrypt.{
  success, einval, oops, UserMemory, encrypt_loop, until_nul, encrypt_input, s2_encrypt,
}

abbrev pub shifted : ℕ → List ℕ → List ℕ
shifted key s = map (λ c. c + key) s

printed-shifted :
    (key : ℕ) (s : List ℕ)
    → key ≤ 5
    → All (λ c. (0 < c) × (c < 251)) s
    → until_nul (encrypt_loop key (s ++ (0 ∷ []))) ≡ shifted key s
unfolding until_nul encrypt_loop
printed-shifted key [] k h = refl
printed-shifted key (c ∷ s) k h = ground (arith, printed-shifted key s k h.1, h.0)

key_test :
    (key : ℕ) → key < 4294967296 → (int_ltb key 1 || int_ltb 5 key) ≡ (ltb key 1 || ltb 5 key)
key_test key k = ground arith

module _ (user : UserMemory) where
  encrypt_input_lem :
      (s : List ℕ) (key : ℕ)
      → All (λ c. (0 < c) × (c < 251)) s
      → key < 4294967296
      → encrypt_input user (s ++ (0 ∷ [])) key ≡ (
          if length s == 0 || (int_ltb key 1 || int_ltb 5 key)
          then record { code = einval; printed = none; leaked = true }
          else record { code = success; printed = some (shifted key s); leaked = false })
  unfolding encrypt_input
  encrypt_input_lem [] key h k = refl
  encrypt_input_lem (c ∷ s) key h k = ground (arith, h.0, printed-shifted key (c ∷ s))

  -- On a string that can be read and copied, of bytes from 1 to 250: it is refused with EINVAL if it
  -- has more than 255 bytes, or none, or if the key is not from 1 to 5; otherwise the call succeeds and
  -- logs the string with the key added to each byte. The copy leaks on each refusal that comes after
  -- its allocation.
  pub s2_encrypt_lem :
      (s : List ℕ) (key : ℕ)
      → All (λ c. (0 < c) × (c < 251)) s
      → key < 4294967296
      → ((n : ℕ) → user.copy_from_user (some s) n ≡ 0)
      → s2_encrypt user (some s) key ≡ (
          if ltb 255 (length s)
          then record { code = einval; printed = none; leaked = false }
          else if length s == 0 || (ltb key 1 || ltb 5 key)
          then record { code = einval; printed = none; leaked = true }
          else record { code = success; printed = some (shifted key s); leaked = false })
  unfolding s2_encrypt
  s2_encrypt_lem s key h k c = elim (lt_or_le 255 (length s)) [
    | inl long ↦ ground (arith, user.strnlen_user_long s 256)
    | inr short ↦ ground (
      arith,
      user.strnlen_user_some s 256,
      key_test key k,
      c (length s + 1),
      encrypt_input_lem s key h k,
    )
  ]

  -- A pointer that cannot be read is not refused, but used.
  s2_encrypt_unreadable :
      (key : ℕ) → s2_encrypt user none key ≡ record { code = oops; printed = none; leaked = false }
  unfolding s2_encrypt encrypt_input
  s2_encrypt_unreadable key = ground (arith, user.strnlen_user_none 256, user.copy_nothing none)
