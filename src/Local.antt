-- ===== src/Local.antt =====
-- Assignment 3 User faults/Part 1-2/s2dsm.c: the stage of s2dsm before the protocol, in which each
-- process reads and writes its own copy of the region. Pages that are asked for are in the
-- region, whose length is within `int`.
pub mod Session
pub mod Start
use sbu_cse_506_operating_sy.Prelude.{
  ℕ, zero, suc, ◌+◌, ◌*◌, Option, none, some, ◌>>=◌, List, [], ◌∷◌, ltb, if◌then◌else◌, length,
}
use sbu_cse_506_operating_sy.S2dsm.Region.{page_size, Region, Vm, write_string, read_string}
use sbu_cse_506_operating_sy.S2dsm.Protocol.{Request, first_page, rounds}
use sbu_cse_506_operating_sy.S2dsm.Prompt.{
  Command, read, write, view_states, unknown, Shown, texts, refused,
}

module _ (vm : Vm) where
  -- One round of the loop of `printPageContents`: a text that does not end in the 4097 bytes of
  -- `page_output` overruns it.
  unfoldable pub print_page : ℕ → Region → Option (Region × List ℕ)
  print_page page r =
      let result = read_string vm 4097 (page * page_size) r in
      if ltb (length result.1) 4097 then some result else none

  unfoldable pub print_page_contents : ℕ → ℕ → Region → Option (Region × List (List ℕ))
  print_page_contents zero page r = some (r, [])
  print_page_contents (suc n) page r = print_page page r >>= λ first.
      print_page_contents n (page + 1) first.0 >>= λ rest. some (rest.0, first.1 ∷ rest.1)

  unfoldable pub update_page_contents : ℕ → ℕ → List ℕ → Region → Region
  update_page_contents zero page message r = r
  update_page_contents (suc n) page message r =
      update_page_contents n (page + 1) message (write_string vm (page * page_size) message r)

  -- The loop of `main`; this stage has no command `v`, which is a letter like any other.
  unfoldable pub execute : ℕ → Command → Region → Option (Region × Shown)
  execute num_pages (read request) r =
      print_page_contents (rounds num_pages request) (first_page request) r >>= λ result.
      some (result.0, texts result.1)
  execute num_pages (write request message) r =
      print_page_contents (rounds num_pages request) (first_page request)
        (update_page_contents (rounds num_pages request) (first_page request) message r)
      >>= λ result. some (result.0, texts result.1)
  execute num_pages view_states r = some (r, refused)
  execute num_pages unknown r = some (r, refused)

  unfoldable pub session : ℕ → List Command → Region → Option (Region × List Shown)
  session num_pages [] r = some (r, [])
  session num_pages (c ∷ cs) r = execute num_pages c r >>= λ result.
      session num_pages cs result.0 >>= λ rest. some (rest.0, result.1 ∷ rest.1)
