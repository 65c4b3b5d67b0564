-- ===== src/Encrypt.antt =====
-- Assignment 1 System Calls/syscall.patch: kernel/encrypt.c, the system call s2_encrypt.
pub mod Strings
pub mod Runner
use sbu_cse_506_operating_sy.Prelude.{
  ℕ, zero, suc, ◌+◌, ◌%◌, ◌≤◌, ◌<◌, ◌≡◌, Bool, true, false, Option, none, some, List, [], ◌∷◌, ◌++◌,
  ltb, ◌==◌, ◌||◌, if◌then◌else◌, int_ltb, length,
}

-- `MAX`
abbrev pub max_length : ℕ
max_length = 256

-- What the call returns, or that it dereferences what `kmalloc(0)` gives.
pub data Code : Type 0 where
  success : Code
  einval : Code
  efault : Code
  oops : Code

-- The line that is printed, as the log has it, and whether the copy is still allocated at the end.
pub record Outcome : Type 0 where
  pub code : Code
  pub printed : Option (List ℕ)
  pub leaked : Bool

-- Access to user memory: `strnlen_user` is the length of a string with its NUL, more than the bound if
-- it is longer, and 0 if it cannot be read; `copy_from_user` is the number of bytes that it could not
-- copy. The string does not change between the two.
pub record UserMemory : Type 0 where
  pub strnlen_user : Option (List ℕ) → ℕ → ℕ
  pub copy_from_user : Option (List ℕ) → ℕ → ℕ
  pub strnlen_user_some :
      (s : List ℕ) (n : ℕ) → length s + 1 ≤ n → strnlen_user (some s) n ≡ length s + 1
  pub strnlen_user_long : (s : List ℕ) (n : ℕ) → n < length s + 1 → n < strnlen_user (some s) n
  pub strnlen_user_none : (n : ℕ) → strnlen_user none n ≡ 0
  pub copy_nothing : (s : Option (List ℕ)) → copy_from_user s 0 ≡ 0

-- `while (input[i] != '\0')`, over the bytes that were copied.
unfoldable pub encrypt_loop : ℕ → List ℕ → List ℕ
encrypt_loop key [] = []
encrypt_loop key (c ∷ input) =
    let further = ((c + key) % 256) ∷ encrypt_loop key input in
    if c == 0 then c ∷ input else further

-- What `%s` prints of them.
unfoldable pub until_nul : List ℕ → List ℕ
until_nul [] = []
until_nul (c ∷ input) = let further = c ∷ until_nul input in if c == 0 then [] else further

-- The bytes in the buffer: the string and its NUL, or none.
abbrev pub bytes_of : Option (List ℕ) → List ℕ
bytes_of none = []
bytes_of (some s) = s ++ (0 ∷ [])

module _ (user : UserMemory) where
  -- The test of `input[0]` and of the key, and what follows, on a buffer that was copied.
  unfoldable pub encrypt_input : List ℕ → ℕ → Outcome
  encrypt_input [] key = record { code = oops; printed = none; leaked = false }
  encrypt_input (c ∷ input) key =
      if c == 0 || (int_ltb key 1 || int_ltb 5 key)
      then record { code = einval; printed = none; leaked = true }
      else record {
        code = success;
        printed = some (until_nul (encrypt_loop key (c ∷ input)));
        leaked = false;
      }

  -- The pointer is given by the string at it, `none` if it cannot be read.
  unfoldable pub s2_encrypt : Option (List ℕ) → ℕ → Outcome
  s2_encrypt str key =
      let len = user.strnlen_user str max_length in
      if ltb max_length len
      then record { code = einval; printed = none; leaked = false }
      else if user.copy_from_user str len == 0
      then encrypt_input (bytes_of str) key
      else record { code = efault; printed = none; leaked = true }
