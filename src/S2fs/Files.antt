-- ===== src/S2fs/Files.antt =====
-- A mount through `s2fs_get_super`, and programs that use the file in it: `s2fs_open`, `s2fs_write_file`
-- and the operations of the file.
use sbu_cse_506_operating_sy.Prelude.{
  ℕ, ◌+◌, ◌≡◌, ◌<◌, refl, ap, sym, ◌∙◌, Bool, true, false, Option, none, some, List, [], ◌∷◌, ◌==◌,
  ◌&&◌, if◌then◌else◌, take, arith,
}
use sbu_cse_506_operating_sy.S2dsm.Protocol.{text_eq}
use sbu_cse_506_operating_sy.S2fs.Read.{
  Reply, bytes, greeting, s2fs_read_file, read_all, read_all_lem,
}
use sbu_cse_506_operating_sy.S2fs.Mount.{
  Ops, no_ops, simple_dir, s2fs_fops, Services, SuperBlock, World, foo, bar, s2fs_fill_super,
}
use sbu_cse_506_operating_sy.S2fs.Mount.Balance.{begin, s2fs_fill_super-status}
use sbu_cse_506_operating_sy.S2fs.Mount.Tree.{resolve, look, expected, resolve-s2fs_fill_super}

-- `mount_nodev` fills a new super block, which has no root yet; the mount is there if that succeeds.
pub record MountApi : Type 0 where
  pub mount_nodev : (SuperBlock → World × ℕ) → Option World
  pub mount_nodev_some :
      (fill : SuperBlock → World × ℕ) (w : World)
      → mount_nodev fill ≡ some w
      → (sb : SuperBlock) × (sb.s_root ≡ none) × (fill sb ≡ (w, 0))

unfoldable pub s2fs_get_super : Services → MountApi → Option World
s2fs_get_super kernel api = api.mount_nodev (λ sb. s2fs_fill_super kernel (begin sb))

abbrev pub s2fs_open : ℕ
s2fs_open = 0

-- It takes no byte, and says so.
abbrev pub s2fs_write_file : List ℕ → ℕ → Reply
s2fs_write_file text offset = record { status = bytes 0; offset = offset; copied = [] }

pub record FileOperations : Type 0 where
  pub open_file : ℕ
  pub read : ℕ → ℕ → Reply
  pub write : List ℕ → ℕ → Reply

succeeded : (b : Bool) → (let status : ℕ = if b then 0 else 1 in status ≡ 0) → b ≡ true
succeeded true e = refl
succeeded false e = absurd (omega arith)

-- Whether a path is foo/bar.
abbrev pub is_bar : List (List ℕ) → Bool
is_bar [] = false
is_bar (a ∷ []) = false
is_bar (a ∷ b ∷ []) = text_eq a foo && text_eq b bar
is_bar (a ∷ b ∷ c ∷ path) = false

module _ (copy_to_user : List ℕ → ℕ) where
  -- `s2fs_fops`
  abbrev pub operations : FileOperations
  operations = record {
    open_file = s2fs_open;
    read = s2fs_read_file copy_to_user;
    write = s2fs_write_file;
  }

  -- A program that opens what a path leads to and reads it with a buffer of `count` bytes, so often at
  -- most; `none` is what has no such operations, and what is not there.
  abbrev cat_inode : ℕ → ℕ → Option (ℕ × Ops) → Option (List ℕ)
  cat_inode calls count none = none
  cat_inode calls count (some (mode, no_ops)) = none
  cat_inode calls count (some (mode, simple_dir)) = none
  cat_inode calls count (some (mode, s2fs_fops)) =
      if operations.open_file == 0 then some (read_all copy_to_user calls count 0) else none

  unfoldable pub cat : ℕ → ℕ → World → List (List ℕ) → Option (List ℕ)
  cat calls count w path = cat_inode calls count (look (resolve w path))

  cat_inode-expected :
      (grants : ℕ → Bool) (calls count : ℕ) (path : List (List ℕ))
      → (grants 0 && grants 1) ≡ true
      → cat_inode calls count (expected grants path) ≡ (
          if is_bar path && ((grants 2 && grants 3) && (grants 4 && grants 5))
          then some (read_all copy_to_user calls count 0)
          else none)
  cat_inode-expected grants calls count [] h = ground arith
  cat_inode-expected grants calls count (a ∷ []) h = ground arith
  cat_inode-expected grants calls count (a ∷ b ∷ []) h = ground arith
  cat_inode-expected grants calls count (a ∷ b ∷ c ∷ path) h = refl

  module _ (kernel : Services) (api : MountApi) where
    open kernel use {grants}

    -- Where every copy succeeds, in a file system that was mounted: a program with a buffer of one byte
    -- or more that reads what a path leads to, in two calls or more, gets as much of the text as fits
    -- the buffer if the path is foo/bar and the four allocations for foo and bar have succeeded; every
    -- other path has nothing to read.
    pub cat-s2fs_get_super :
        (more count : ℕ) (w : World) (path : List (List ℕ))
        → s2fs_get_super kernel api ≡ some w
        → 0 < count
        → ((text : List ℕ) → copy_to_user text ≡ 0)
        → cat (more + 2) count w path ≡ (
            if is_bar path && ((grants 2 && grants 3) && (grants 4 && grants 5))
            then some (take count greeting)
            else none)
    unfolding s2fs_get_super cat
    cat-s2fs_get_super more count w path e p ok =
        let (sb, fresh, filled) = api.mount_nodev_some _ w e in
        let mounted : (s2fs_fill_super kernel (begin sb)).0 ≡ w =
          ap (λ (r : World × ℕ). r.0) filled in
        let status : (s2fs_fill_super kernel (begin sb)).1 ≡ 0 =
          ap (λ (r : World × ℕ). r.1) filled in
        let both =
          succeeded (grants 0 && grants 1) (sym (s2fs_fill_super-status kernel sb) ∙ status) in
        let there = resolve-s2fs_fill_super kernel sb path fresh in
        ap (λ (v : World). cat_inode (more + 2) count (look (resolve v path))) (sym mounted)
        ∙ ap (cat_inode (more + 2) count) there
        ∙ cat_inode-expected grants (more + 2) count path both
        ∙ rw (read_all_lem copy_to_user more count p ok) refl
