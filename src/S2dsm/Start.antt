-- ===== src/S2dsm/Start.antt =====
-- How two paired instances of s2dsm.c come to their prompts: `main` from the question for the number of
-- pages on, with what the one that asks sends to the other one. Up to the mapping of the memory the
-- text is the same at both stages; what follows is that of Part 3.
pub mod Ready
use sbu_cse_506_operating_sy.Prelude.{ℕ, ◌<◌, ◌≡◌, Bool, Option, none, some, List, [], ◌∷◌}
use sbu_cse_506_operating_sy.Calls.{
  Call, create_responder, Ending, done, exits, faults, and_then, exit_failure, or_exit, attempts,
  fault_calls,
}
use sbu_cse_506_operating_sy.S2dsm.Protocol.{MsiState, modified, Node, fill_with_invalid}
use sbu_cse_506_operating_sy.S2dsm.Prompt.{untouched}
use sbu_cse_506_operating_sy.S2dsm.Pairing.{length_of}
use sbu_cse_506_operating_sy.S2dsm.Offer.{offer_text, Offer, parse_offer}

-- The system of one instance: which of its calls succeed, `mmap` with a hint (0 for NULL) and a
-- length, which refuses the length 0 (EINVAL), where the text that was received stands in the memory,
-- and the bytes that the kernel has for the pages to come.
pub record Os : Type 0 where
  pub succeeds : Call → Bool
  pub mmap : ℕ → ℕ → Option ℕ
  pub token : ℕ
  pub byte : ℕ → ℕ
  pub mmap_nothing : (hint : ℕ) → mmap hint 0 ≡ none
  pub mmap_bound : (hint len addr : ℕ) → mmap hint len ≡ some addr → addr < 18446744073709551616

-- What `scanf("%lu", &num_pages)` leaves in `num_pages`, which is static, from the input or its end.
abbrev pub scanned : Option ℕ → ℕ
scanned none = 0
scanned (some n) = n

-- The address that `mmap` is asked for: that of the token, where no number could be read from it.
abbrev pub hint_of : ℕ → Option ℕ → ℕ
hint_of token none = token
hint_of token (some addr) = addr

-- The rest of `main`, which begins with the number of pages and the address, is a parameter.
module _ {A : Type 0} (finish : Os → ℕ → ℕ → Ending A) where
  abbrev pub share_mapping : Os → ℕ → Option ℕ → List ℕ × Ending A
  share_mapping os num_pages none = ([], exits exit_failure)
  share_mapping os num_pages (some addr) =
      (offer_text (length_of num_pages) addr, finish os num_pages addr)

  -- The instance that asks: what it sends, and how it ends.
  unfoldable pub share : Os → Option ℕ → List ℕ × Ending A
  share os typed = share_mapping os (scanned typed) (os.mmap 0 (length_of (scanned typed)))

  abbrev pub go_on : Os → ℕ → Option ℕ → Ending A
  go_on os num_pages none = exits exit_failure
  go_on os num_pages (some addr) = finish os num_pages addr

  abbrev pub take_up : Os → Option Offer → Ending A
  take_up os none = faults
  take_up os (some o) = go_on os o.num_pages (os.mmap (hint_of os.token o.addr) o.len)

  -- The other instance, with the bytes that arrived; with none, `strtok` returns NULL.
  unfoldable pub join : Os → List ℕ → Ending A
  join os buffer = take_up os (parse_offer buffer)

  -- Both instances; one that ends before it has sent anything closes the connection, and `read` at
  -- the other one returns no bytes.
  unfoldable pub meet : Os → Os → Option ℕ → Ending A × Ending A
  meet first second typed = let (sent, ending) = share first typed in (ending, join second sent)

-- An instance at its prompt.
pub record Started : Type 0 where
  pub num_pages : ℕ
  pub base_addr : ℕ
  pub node : Node

abbrev pub answer_requests : Os → ℕ → ℕ → Option (ℕ → MsiState) → Ending Started
answer_requests os num_pages addr none = faults
answer_requests os num_pages addr (some f) =
    and_then (attempts os.succeeds (or_exit create_responder ∷ [])) (λ _. done (record {
      num_pages = num_pages;
      base_addr = addr;
      node = record { msi_array = f; region = untouched os.byte };
    }))

-- From the assignment to `baseAddr` to the loop.
unfoldable pub finish : Os → ℕ → ℕ → Ending Started
finish os num_pages addr =
    and_then (attempts os.succeeds fault_calls)
      (λ _. answer_requests os num_pages addr (fill_with_invalid num_pages (λ _. modified)))

unfoldable pub start : Os → Os → Option ℕ → Ending Started × Ending Started
start first second typed = meet finish first second typed
