-- ===== src/S2dsm/Region.antt =====
-- The mapped region of one process, and `fault_handler_thread`, which fills a page with zeros when it
-- is first touched. Addresses count from the start of the region; a page has 4096 bytes. A region has no
-- end here: what is proved of commands is for pages inside the mapping.
pub mod View
use sbu_cse_506_operating_sy.Prelude.{
  ℕ, zero, suc, ◌+◌, ◌*◌, ◌/◌, ◌≡◌, ◌≤◌, length, Bool, true, false, List, [], ◌∷◌, ◌==◌,
  if◌then◌else◌,
}

abbrev pub page_size : ℕ
page_size = 4096

pub record Region : Type 0 where
  pub resident : ℕ → Bool
  pub byte : ℕ → ℕ

-- The system calls on a region: `UFFDIO_COPY` puts a page of the given bytes in, and
-- `madvise(MADV_DONTNEED)` drops a page, so that the next access to it faults. `communicateWithPeer`
-- returns a pointer to its own local array, which its callers read when the function is over:
-- `read_answer` is what they then find of an answer. Of an answer of up to 511 bytes they are assumed to
-- find all; of a longer one they may find anything.
pub record Vm : Type 0 where
  pub uffdio_copy : Region → ℕ → (ℕ → ℕ) → Region
  pub dont_need : Region → ℕ → Region
  pub read_answer : List ℕ → List ℕ
  pub resident-uffdio_copy :
      (r : Region) (p : ℕ) (src : ℕ → ℕ) (q : ℕ)
      → (uffdio_copy r p src).resident q ≡ (if p == q then true else r.resident q)
  pub byte-uffdio_copy :
      (r : Region) (p : ℕ) (src : ℕ → ℕ) (a : ℕ)
      → (uffdio_copy r p src).byte a ≡ (if p == a / 4096 then src a else r.byte a)
  pub resident-dont_need :
      (r : Region) (p q : ℕ) → (dont_need r p).resident q ≡ (if p == q then false else r.resident q)
  pub read_answer_short : (text : List ℕ) → length text ≤ 511 → read_answer text ≡ text
  pub byte-dont_need :
      (r : Region) (p a : ℕ)
      → (if p == a / 4096 then 0 else (dont_need r p).byte a)
        ≡ (if p == a / 4096 then 0 else r.byte a)

module _ (vm : Vm) where
  open vm use {uffdio_copy}

  -- One round of `fault_handler_thread`, for a fault at the address: a page of zeros.
  unfoldable pub fault_handler : Region → ℕ → Region
  fault_handler r address = uffdio_copy r (address / 4096) (λ _. 0)

  -- The region once the access to an address can go on.
  unfoldable pub access : Region → ℕ → Region
  access r a = if r.resident (a / 4096) then r else fault_handler r a

  unfoldable pub store : Region → ℕ → ℕ → Region
  store r a v = let r' = access r a in record r' { byte = λ b. if a == b then v else r'.byte b }

  -- A C string is copied to the address: the loop of `updatePageContents` and the NUL behind it.
  unfoldable pub write_string : ℕ → List ℕ → Region → Region
  write_string a [] r = store r a 0
  write_string a (c ∷ message) r = write_string (a + 1) message (store r a c)

  -- What `%s` reads from the address, up to `n` bytes.
  unfoldable pub read_string : ℕ → ℕ → Region → Region × List ℕ
  read_string zero a r = (r, [])
  read_string (suc n) a r =
      let r' = access r a in
      let (last, rest) = read_string n (a + 1) r' in
      if r'.byte a == 0 then (r', []) else (last, r'.byte a ∷ rest)
