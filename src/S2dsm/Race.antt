-- ===== src/S2dsm/Race.antt =====
-- Writes at both prompts at once. A write changes its own process first, and then asks the other one;
-- the two halves are apart here, so that those of two writes can alternate.
use sbu_cse_506_operating_sy.Prelude.{
  ℕ, ◌*◌, ◌/◌, ◌<◌, ◌≡◌, refl, true, some, ◌>>=◌, Option, List, arith, lt→ltb,
}
use sbu_cse_506_operating_sy.S2dsm.Region.{page_size, Region, Vm, write_string}
use sbu_cse_506_operating_sy.S2dsm.Region.View.{view, view-dont_need}
use sbu_cse_506_operating_sy.S2dsm.Protocol.{
  modified, invalid, System, swap, max_pages, set_state, invalidate_op, communicate_with_peer,
  respond, transition_state_on_write, update_page,
}

module _ (vm : Vm) where
  -- Up to the call of `communicateWithPeer`: the bytes, and the state M.
  unfoldable pub begin_write : ℕ → List ℕ → System → System
  begin_write page message s = record s {
    here = record {
      msi_array = set_state s.here.msi_array page modified;
      region = write_string vm (page * page_size) message s.here.region;
    };
  }

  -- `communicateWithPeer(request_page, invalidateOp)`
  unfoldable pub finish_write : ℕ → System → Option System
  finish_write page s = communicate_with_peer vm page invalidate_op s.peer >>= λ answer.
      some (record s { peer = answer.0 })

  -- For the pages 0 to 99 the two halves one after the other are the round of `updatePageContents`.
  update_page-finish_write :
      (page : ℕ) (message : List ℕ) (s : System)
      → page < max_pages
      → update_page vm page message true s ≡ finish_write page (begin_write page message s)
  unfolding update_page transition_state_on_write finish_write begin_write communicate_with_peer
      respond
  update_page-finish_write page message s p = rw (lt→ltb page max_pages p) refl

  view-dropped : (r : Region) (page b : ℕ) → b / 4096 ≡ page → view (vm.dont_need r page) b ≡ 0
  view-dropped r page b h = ground (arith, view-dont_need vm r page b)

  -- If both processes have changed their own copy of a page before either asks the other, the two
  -- invalidations hit both: once they are answered, the page is in state I at both processes and its
  -- bytes read as zeros at both, so both messages are lost. In between both have it in state M.
  pub finish_write-crossing :
      (page : ℕ) (mine yours : List ℕ) (s : System)
      → let both = begin_write page yours (swap (begin_write page mine s)) in
        (both.here.msi_array page ≡ modified)
        × (both.peer.msi_array page ≡ modified)
        × (t : System) × ((finish_write page both >>= λ u. finish_write page (swap u)) ≡ some t)
        × (t.here.msi_array page ≡ invalid)
        × (t.peer.msi_array page ≡ invalid)
        × ((b : ℕ) → b / 4096 ≡ page → (view t.here.region b ≡ 0) × (view t.peer.region b ≡ 0))
  unfolding finish_write begin_write communicate_with_peer respond
  finish_write-crossing page mine yours s =
      let here = write_string vm (page * page_size) yours s.peer.region in
      let peer = write_string vm (page * page_size) mine s.here.region in
      (
        ground arith,
        ground arith,
        _,
        refl,
        ground arith,
        ground arith,
        λ b h. (view-dropped peer page b h, view-dropped here page b h),
      )
