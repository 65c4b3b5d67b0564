-- ===== src/S2fs/Mount/Tree.antt =====
-- The tree that a mount leaves behind, as a walk over it finds it: a name in a directory is that of a
-- dentry that was allocated there and has got an inode.
use sbu_cse_506_operating_sy.Prelude.{
  ℕ, ◌≡◌, ◌⊎◌, inl, inr, refl, ap, ◌∙◌, Bool, Option, none, some, ◌>>=◌, List, [], ◌∷◌, ◌==◌, ◌&&◌,
  if◌then◌else◌, arith,
}
use sbu_cse_506_operating_sy.S2dsm.Protocol.{text_eq}
use sbu_cse_506_operating_sy.S2fs.Mount.{
  Ops, simple_dir, s2fs_fops, Inode, Call, d_alloc, d_make_root, d_add, Services, SuperBlock, World,
  root_mode, dir_mode, file_mode, foo, bar, s2fs_make_inode, attach, s2fs_create_dir,
  s2fs_create_file, fill_directory, fill_root, s2fs_fill_super,
}
use sbu_cse_506_operating_sy.S2fs.Mount.Balance.{begin}

-- The inode of a dentry.
abbrev pub inode_of : List Call → ℕ → Option Inode
inode_of [] dentry = none
inode_of (d_add d inode ∷ cs) dentry = if d == dentry then some inode else inode_of cs dentry
inode_of (d_make_root d inode ∷ cs) dentry = if d == dentry then some inode else inode_of cs dentry
inode_of (_ ∷ cs) dentry = inode_of cs dentry

abbrev or_else : Option Inode → Option ℕ → ℕ → Option ℕ
or_else none rest d = rest
or_else (some inode) rest d = some d

-- The dentry of a name in a directory, among those that have an inode.
abbrev pub child_in : List Call → List Call → ℕ → List ℕ → Option ℕ
child_in all [] parent name = none
child_in all (d_alloc d p q ∷ cs) parent name =
    if p == parent && text_eq name q.name
    then or_else (inode_of all d) (child_in all cs parent name) d
    else child_in all cs parent name
child_in all (_ ∷ cs) parent name = child_in all cs parent name

abbrev pub walk : List Call → Option ℕ → List (List ℕ) → Option Inode
walk cs none path = none
walk cs (some dentry) [] = inode_of cs dentry
walk cs (some dentry) (name ∷ path) = walk cs (child_in cs cs dentry name) path

-- What a path from the root of the mount leads to.
abbrev pub resolve : World → List (List ℕ) → Option Inode
resolve w path = walk w.calls w.sb.s_root path

-- The mode and the operations of what is there, where so many of the six allocations are granted in a
-- row: the root, with a directory foo, with a file bar.
abbrev pub expected : (ℕ → Bool) → List (List ℕ) → Option (ℕ × Ops)
expected grants [] = if grants 0 && grants 1 then some (root_mode, simple_dir) else none
expected grants (a ∷ []) =
    if (grants 0 && grants 1) && ((grants 2 && grants 3) && text_eq a foo)
    then some (dir_mode, simple_dir)
    else none
expected grants (a ∷ b ∷ []) =
    if ((grants 0 && grants 1) && ((grants 2 && grants 3) && text_eq a foo))
      && ((grants 4 && grants 5) && text_eq b bar)
    then some (file_mode, s2fs_fops)
    else none
expected grants (a ∷ b ∷ c ∷ path) = none

abbrev pub look : Option Inode → Option (ℕ × Ops)
look none = none
look (some inode) = some (inode.i_mode, inode.i_ops)

walk-step :
    (cs : List Call) (o : Option ℕ) (name : List ℕ) (path : List (List ℕ))
    → walk cs o (name ∷ path) ≡ walk cs (o >>= λ d. child_in cs cs d name) path
walk-step cs none name path = refl
walk-step cs (some d) name path = refl

-- What two names lead to.
abbrev second : World → List ℕ → List ℕ → Option ℕ
second w a b =
    (w.sb.s_root >>= λ d. child_in w.calls w.calls d a) >>= λ d. child_in w.calls w.calls d b

nothing_deep :
    (w : World) (a b c : List ℕ) (path : List (List ℕ)) (dentry : ℕ)
    → (second w a b ≡ none) ⊎ (second w a b ≡ some dentry)
    → child_in w.calls w.calls dentry c ≡ none
    → resolve w (a ∷ b ∷ c ∷ path) ≡ none
nothing_deep w a b c path dentry e h =
    walk-step w.calls w.sb.s_root a (b ∷ c ∷ path)
    ∙ walk-step w.calls (w.sb.s_root >>= λ d. child_in w.calls w.calls d a) b (c ∷ path)
    ∙ elim e [
      | inl nothing ↦ ap (λ (o : Option ℕ). walk w.calls o (c ∷ path)) nothing
      | inr there ↦
          ap (λ (o : Option ℕ). walk w.calls o (c ∷ path)) there
          ∙ ap (λ (o : Option ℕ). walk w.calls o path) h
    ]

module _ (kernel : Services) (sb : SuperBlock) where
  open kernel use {grants}

  -- Two names down there is bar at most, which is the fifth allocation.
  two_down :
      (a b : List ℕ)
      → sb.s_root ≡ none
      → let w = (s2fs_fill_super kernel (begin sb)).0 in
        (second w a b ≡ none) ⊎ (second w a b ≡ some 4)
  unfolding s2fs_fill_super fill_root s2fs_make_inode fill_directory s2fs_create_dir
      s2fs_create_file attach
  two_down a b e = ground arith

  nothing_below :
      (c : List ℕ)
      → let w = (s2fs_fill_super kernel (begin sb)).0 in child_in w.calls w.calls 4 c ≡ none
  unfolding s2fs_fill_super fill_root s2fs_make_inode fill_directory s2fs_create_dir
      s2fs_create_file attach
  nothing_below c = ground arith

  resolve_root :
      sb.s_root ≡ none
      → look (resolve (s2fs_fill_super kernel (begin sb)).0 []) ≡ expected grants []
  unfolding s2fs_fill_super fill_root s2fs_make_inode fill_directory s2fs_create_dir
      s2fs_create_file attach
  resolve_root e = ground arith

  resolve_one :
      (a : List ℕ)
      → sb.s_root ≡ none
      → look (resolve (s2fs_fill_super kernel (begin sb)).0 (a ∷ [])) ≡ expected grants (a ∷ [])
  unfolding s2fs_fill_super fill_root s2fs_make_inode fill_directory s2fs_create_dir
      s2fs_create_file attach
  resolve_one a e = ground arith

  resolve_two :
      (a b : List ℕ)
      → sb.s_root ≡ none
      → look (resolve (s2fs_fill_super kernel (begin sb)).0 (a ∷ b ∷ []))
        ≡ expected grants (a ∷ b ∷ [])
  unfolding s2fs_fill_super fill_root s2fs_make_inode fill_directory s2fs_create_dir
      s2fs_create_file attach
  resolve_two a b e = ground arith

  -- On every pattern of failing allocations, and for every path from the root of the mount: the root is
  -- there if the first two allocations succeed, foo in it if the next two do as well, and bar in foo if
  -- all six do, each with its mode and operations; no other path leads anywhere.
  pub resolve-s2fs_fill_super :
      (path : List (List ℕ))
      → sb.s_root ≡ none
      → look (resolve (s2fs_fill_super kernel (begin sb)).0 path) ≡ expected grants path
  resolve-s2fs_fill_super [] e = resolve_root e
  resolve-s2fs_fill_super (a ∷ []) e = resolve_one a e
  resolve-s2fs_fill_super (a ∷ b ∷ []) e = resolve_two a b e
  resolve-s2fs_fill_super (a ∷ b ∷ c ∷ path) e = ap look (
      nothing_deep (s2fs_fill_super kernel (begin sb)).0 a b c path 4 (two_down a b e)
        (nothing_below c))
