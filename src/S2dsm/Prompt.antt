-- ===== src/S2dsm/Prompt.antt =====
-- The loop of `main`: the commands at the prompt of either process, one at a time, and what they show.
use sbu_cse_506_operating_sy.Prelude.{
  ℕ, zero, suc, ◌+◌, Bool, true, false, Option, some, ◌>>=◌, List, [], ◌∷◌,
}
use sbu_cse_506_operating_sy.S2dsm.Region.{Region, Vm}
use sbu_cse_506_operating_sy.S2dsm.Protocol.{
  MsiState, modified, shared, invalid, System, swap, Request, read_command, write_command,
  fill_with_invalid, Node,
}

-- `getMSItype`
abbrev pub get_msi_type : MsiState → ℕ
get_msi_type modified = b'M'
get_msi_type shared = b'S'
get_msi_type invalid = b'I'

-- `printMsiArray`, for `n` pages from `j` on.
unfoldable pub print_msi_array : ℕ → ℕ → (ℕ → MsiState) → List ℕ
print_msi_array zero j f = []
print_msi_array (suc n) j f = get_msi_type (f j) ∷ print_msi_array n (j + 1) f

-- What is typed at the prompt: `r`, `w` or `v`, with what is asked for after it, or another letter.
pub data Command : Type 0 where
  read : Request → Command
  write : Request → List ℕ → Command
  view_states : Command
  unknown : Command

-- What is shown for it: the texts of the pages, their states, or the request for a valid option.
pub data Shown : Type 0 where
  texts : List (List ℕ) → Shown
  states : List ℕ → Shown
  refused : Shown

abbrev pub show_texts : System × List (List ℕ) → Option (System × Shown)
show_texts (s, pages) = some (s, texts pages)

module _ (vm : Vm) where
  unfoldable pub execute : ℕ → Command → System → Option (System × Shown)
  execute num_pages (read request) s = read_command vm num_pages request s >>= show_texts
  execute num_pages (write request message) s =
      write_command vm num_pages request message s >>= show_texts
  execute num_pages view_states s = some (s, states (print_msi_array num_pages 0 s.here.msi_array))
  execute num_pages unknown s = some (s, refused)

  -- A command at the prompt of this process, or of the other one.
  unfoldable pub execute_at : ℕ → Bool → Command → System → Option (System × Shown)
  execute_at num_pages false c s = execute num_pages c s
  execute_at num_pages true c s =
      execute num_pages c (swap s) >>= λ result. some (swap result.0, result.1)

  unfoldable pub session : ℕ → List (Bool × Command) → System → Option (System × List Shown)
  session num_pages [] s = some (s, [])
  session num_pages ((at_peer, c) ∷ cs) s = execute_at num_pages at_peer c s >>= λ result.
      session num_pages cs result.0 >>= λ rest. some (rest.0, result.1 ∷ rest.1)

-- A region that was mapped and not touched; the kernel has the bytes of its pages to come.
abbrev pub untouched : (ℕ → ℕ) → Region
untouched byte = record { resident = λ _. false; byte = byte }

-- Both processes when the loops begin: `msi_array` is static, so it has the first state throughout
-- before `fillWithInvalid`.
unfoldable pub boot : ℕ → (ℕ → ℕ) → Option System
boot num_pages byte = fill_with_invalid num_pages (λ _. modified) >>= λ f.
    let n : Node = record { msi_array = f; region = untouched byte } in
    some (record { here = n; peer = n })
