-- ===== src/Uffd.antt =====
-- Assignment 3 User faults/Part 1-2/uffd/uffd.c: a demonstration that reads and writes a region of
-- pages, each filled with the next letter when it is first touched. Addresses count from the start of
-- the region; its length is within `int`, and fewer than 2^31 faults happen.
pub mod Passes
pub mod Writes
pub mod Whole
pub mod Program
use sbu_cse_506_operating_sy.Prelude.{
  ℕ, zero, suc, ◌+◌, ◌*◌, ◌/◌, ◌%◌, List, [], ◌∷◌, ltb, ◌==◌, if◌then◌else◌,
}
use sbu_cse_506_operating_sy.S2dsm.Region.{Region, Vm}

pub record Demo : Type 0 where
  pub region : Region
  pub fault_cnt : ℕ

-- `'A' + fault_cnt % 20`
abbrev pub letter : ℕ → ℕ
letter fault_cnt = b'A' + fault_cnt % 20

module _ (vm : Vm) where
  open vm use {uffdio_copy, dont_need}

  -- One round of `fault_handler_thread`, for a fault at the address.
  unfoldable pub fault_handler_thread : Demo → ℕ → Demo
  fault_handler_thread d address = record {
    region = uffdio_copy d.region (address / 4096) (λ _. letter d.fault_cnt);
    fault_cnt = d.fault_cnt + 1;
  }

  -- Once the access to an address can go on.
  unfoldable pub touch : Demo → ℕ → Demo
  touch d a = if d.region.resident (a / 4096) then d else fault_handler_thread d a

  unfoldable pub memset : ℕ → ℕ → ℕ → Demo → Demo
  memset zero a v d = d
  memset (suc n) a v d =
      let d' = touch d a in
      let r = record (d'.region) { byte = λ b. if a == b then v else d'.region.byte b } in
      memset n (a + 1) v (record d' { region = r })

  -- `while (l < len)` with a read of `addr[l]`, and the letters that are printed.
  unfoldable pub read_pass : ℕ → ℕ → ℕ → Demo → Demo × List ℕ
  read_pass zero l len d = (d, [])
  read_pass (suc fuel) l len d =
      let d' = touch d l in
      let (last, rest) = read_pass fuel (l + 1024) len d' in
      if ltb l len then (last, d'.region.byte l ∷ rest) else (d, [])

  -- The same with a `memset` of 1024 bytes before the read.
  unfoldable pub write_pass : ℕ → ℕ → ℕ → ℕ → Demo → Demo × List ℕ
  write_pass zero l len v d = (d, [])
  write_pass (suc fuel) l len v d =
      let d' = touch (memset 1024 l v d) l in
      let (last, rest) = write_pass fuel (l + 1024) len v d' in
      if ltb l len then (last, d'.region.byte l ∷ rest) else (d, [])

  -- `madvise(addr, len, MADV_DONTNEED)`, page by page.
  unfoldable pub drop_pages : ℕ → Demo → Demo
  drop_pages zero d = d
  drop_pages (suc p) d = drop_pages p (record d { region = dont_need d.region p })

  -- `main` from the first loop on, for a region of so many pages: the letters of the eight loops.
  unfoldable pub main : ℕ → Demo → Demo × List (List ℕ)
  main num_pages d =
      let len = num_pages * 4096 in
      let rounds = num_pages * 4 + 1 in
      let (d1, first) = read_pass rounds 0 len d in
      let (d2, second) = read_pass rounds 0 len d1 in
      let (d3, third) = read_pass rounds 0 len (drop_pages num_pages d2) in
      let (d4, fourth) = read_pass rounds 0 len d3 in
      let (d5, fifth) = write_pass rounds 0 len b'@' (drop_pages num_pages d4) in
      let (d6, sixth) = read_pass rounds 0 len d5 in
      let (d7, seventh) = write_pass rounds 0 len b'^' d6 in
      let (d8, eighth) = read_pass rounds 0 len d7 in
      (d8, first ∷ second ∷ third ∷ fourth ∷ fifth ∷ sixth ∷ seventh ∷ eighth ∷ [])
