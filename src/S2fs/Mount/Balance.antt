-- ===== src/S2fs/Mount/Balance.antt =====
-- What a mount reports, builds and gives back, on every pattern of failing allocations.
use sbu_cse_506_operating_sy.Prelude.{ℕ, ◌+◌, ◌≡◌, ◌&&◌, List, [], ◌∷◌, if◌then◌else◌, arith}
use sbu_cse_506_operating_sy.S2fs.Mount.{
  Call, new_inode, d_alloc, d_make_root, d_make_root_failed, d_add, dput, iput, Services,
  SuperBlock, World, s2fs_make_inode, attach, s2fs_create_dir, s2fs_create_file, fill_directory,
  fill_root, s2fs_fill_super,
}

-- The references to inodes: one comes with each inode, `d_add` and `d_make_root` take it over into the
-- tree, `iput` drops one, and so does a `d_make_root` that fails.
abbrev pub made : List Call → ℕ
made [] = 0
made (new_inode _ ∷ cs) = made cs + 1
made (_ ∷ cs) = made cs

abbrev pub dropped : List Call → ℕ
dropped [] = 0
dropped (iput _ ∷ cs) = dropped cs + 1
dropped (d_make_root_failed _ ∷ cs) = dropped cs + 1
dropped (_ ∷ cs) = dropped cs

abbrev pub in_tree : List Call → ℕ
in_tree [] = 0
in_tree (d_add _ _ ∷ cs) = in_tree cs + 1
in_tree (d_make_root _ _ ∷ cs) = in_tree cs + 1
in_tree (_ ∷ cs) = in_tree cs

-- The dentries: allocated, given back, and in the tree with an inode.
abbrev pub dentries : List Call → ℕ
dentries [] = 0
dentries (d_alloc _ _ _ ∷ cs) = dentries cs + 1
dentries (d_make_root _ _ ∷ cs) = dentries cs + 1
dentries (_ ∷ cs) = dentries cs

abbrev pub put_back : List Call → ℕ
put_back [] = 0
put_back (dput _ ∷ cs) = put_back cs + 1
put_back (_ ∷ cs) = put_back cs

-- The super block as the kernel hands it over.
abbrev pub begin : SuperBlock → World
begin sb = record { asked = 0; calls = []; sb = sb }

module _ (kernel : Services) (sb : SuperBlock) where
  open kernel use {grants}

  -- A mount succeeds exactly if the first two allocations do; those for foo and bar do not matter.
  pub s2fs_fill_super-status :
      (s2fs_fill_super kernel (begin sb)).1 ≡ (if grants 0 && grants 1 then 0 else 1)
  unfolding s2fs_fill_super fill_root s2fs_make_inode
  s2fs_fill_super-status = ground arith

  -- On every pattern of failing allocations, there are as many dentries as were put in the tree with an
  -- inode and as were given back together.
  s2fs_fill_super-dentries :
      dentries (s2fs_fill_super kernel (begin sb)).0.calls
      ≡ in_tree (s2fs_fill_super kernel (begin sb)).0.calls
        + put_back (s2fs_fill_super kernel (begin sb)).0.calls
  unfolding s2fs_fill_super fill_root s2fs_make_inode fill_directory s2fs_create_dir
      s2fs_create_file attach
  s2fs_fill_super-dentries = ground arith

  -- On every pattern of failing allocations, the references to inodes that were made are those that the
  -- tree took over and those that were dropped; but where the first allocation succeeds and the second
  -- fails, one more is dropped than was made.
  s2fs_fill_super-inodes :
      made (s2fs_fill_super kernel (begin sb)).0.calls
        + (if grants 0 then (if grants 1 then 0 else 1) else 0)
      ≡ in_tree (s2fs_fill_super kernel (begin sb)).0.calls
        + dropped (s2fs_fill_super kernel (begin sb)).0.calls
  unfolding s2fs_fill_super fill_root s2fs_make_inode fill_directory s2fs_create_dir
      s2fs_create_file attach
  s2fs_fill_super-inodes = ground arith

  -- On every pattern of failing allocations, there are as many dentries as were put in the tree with an
  -- inode and as were given back together, and the references to inodes that were made are those that
  -- the tree took over and those that were dropped; but where the first allocation succeeds and the
  -- second fails, one more of these is dropped than was made.
  pub s2fs_fill_super-balance :
      let calls = (s2fs_fill_super kernel (begin sb)).0.calls in
      (dentries calls ≡ in_tree calls + put_back calls)
      × (made calls + (if grants 0 then (if grants 1 then 0 else 1) else 0)
          ≡ in_tree calls + dropped calls)
  s2fs_fill_super-balance = (s2fs_fill_super-dentries, s2fs_fill_super-inodes)
