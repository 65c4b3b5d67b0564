-- ===== src/S2fs/Mount.antt =====
-- `s2fs_fill_super` and the functions that it calls, with the calls of the kernel that they make, in
-- order, and the super block that they fill. What the kernel answers is a parameter.
pub mod Balance
pub mod Tree
use sbu_cse_506_operating_sy.Prelude.{
  ℕ, ◌+◌, Bool, true, false, Option, none, some, List, [], ◌∷◌, if◌then◌else◌, length,
}

-- The answers of the kernel: whether the n-th allocation succeeds, the number and the time that are
-- there after it, and the hash of a name in a directory.
pub record Services : Type 0 where
  pub grants : ℕ → Bool
  pub get_next_ino : ℕ → ℕ
  pub current_time : ℕ → ℕ
  pub full_name_hash : ℕ → List ℕ → ℕ → ℕ

pub data Ops : Type 0 where
  no_ops : Ops
  simple_dir : Ops  -- simple_dir_inode_operations and simple_dir_operations
  s2fs_fops : Ops

-- The allocation that an inode or a dentry comes from names it.
pub record Inode : Type 0 where
  pub id : ℕ
  pub i_ino : ℕ
  pub i_sb : ℕ
  pub i_mode : ℕ
  pub i_uid : ℕ
  pub i_gid : ℕ
  pub i_blocks : ℕ
  pub i_atime : ℕ
  pub i_mtime : ℕ
  pub i_ctime : ℕ
  pub i_ops : Ops

-- `struct qstr`
pub record Qstr : Type 0 where
  pub name : List ℕ
  pub len : ℕ
  pub hash : ℕ

pub data Call : Type 0 where
  new_inode : ℕ → Call  -- a new inode
  d_alloc : ℕ → ℕ → Qstr → Call  -- a new dentry, its parent, its name
  d_make_root : ℕ → Inode → Call  -- a new dentry for the inode
  d_make_root_failed : ℕ → Call
  d_add : ℕ → Inode → Call
  dput : ℕ → Call
  iput : ℕ → Call

pub data SuperOps : Type 0 where
  no_super_ops : SuperOps
  s2fs_s_ops : SuperOps

-- The fields of `struct super_block` that are set, and where it is.
pub record SuperBlock : Type 0 where
  pub address : ℕ
  pub s_magic : ℕ
  pub s_op : SuperOps
  pub s_root : Option ℕ

-- How many allocations were asked for, the calls so far, the last one first, and the super block.
pub record World : Type 0 where
  pub asked : ℕ
  pub calls : List Call
  pub sb : SuperBlock

-- `S2FS_MAGIC`
abbrev pub s2fs_magic : ℕ
s2fs_magic = 0x19980122

-- S_IFDIR, S_IFREG, and the modes 0755, 0777 and 0644 with them
abbrev pub root_mode : ℕ
root_mode = 0o40755

abbrev pub dir_mode : ℕ
dir_mode = 0o40777

abbrev pub file_mode : ℕ
file_mode = 0o100644

-- "foo" and "bar"
abbrev pub foo : List ℕ
foo = b'f' ∷ b'o' ∷ b'o' ∷ []

abbrev pub bar : List ℕ
bar = b'b' ∷ b'a' ∷ b'r' ∷ []

abbrev pub call : Call → World → World
call c w = record w { calls = c ∷ w.calls }

-- An allocation: the world afterwards.
abbrev pub ask : World → World
ask w = record w { asked = w.asked + 1 }

module _ (kernel : Services) where
  open kernel use {grants, get_next_ino, current_time, full_name_hash}

  unfoldable pub s2fs_make_inode : ℕ → World → World × Option Inode
  s2fs_make_inode mode w =
      if grants w.asked
      then (
        call (new_inode w.asked) (ask w),
        some (record {
          id = w.asked;
          i_ino = get_next_ino w.asked;
          i_sb = w.sb.address;
          i_mode = mode;
          i_uid = 0;
          i_gid = 0;
          i_blocks = 0;
          i_atime = current_time w.asked;
          i_mtime = current_time w.asked;
          i_ctime = current_time w.asked;
          i_ops = no_ops;
        }),
      )
      else (ask w, none)

  abbrev pub qname : ℕ → List ℕ → Qstr
  qname dir text = record {
    name = text;
    len = length text;
    hash = full_name_hash dir text (length text);
  }

  -- The end of `s2fs_create_dir` and of `s2fs_create_file`: the inode for the new dentry, whose
  -- operations the caller sets, or `out_dput`.
  unfoldable pub attach : Ops → ℕ → World × Option Inode → World × Option ℕ
  attach ops dentry (w, none) = (call (dput dentry) w, none)
  attach ops dentry (w, some inode) =
      (call (d_add dentry (record inode { i_ops = ops })) w, some dentry)

  unfoldable pub s2fs_create_dir : ℕ → List ℕ → World → World × Option ℕ
  s2fs_create_dir parent dir_name w =
      if grants w.asked
      then attach simple_dir w.asked
          (s2fs_make_inode dir_mode (call (d_alloc w.asked parent (qname parent dir_name)) (ask w)))
      else (ask w, none)

  unfoldable pub s2fs_create_file : ℕ → List ℕ → World → World × Option ℕ
  s2fs_create_file dir file_name w =
      if grants w.asked
      then attach s2fs_fops w.asked
          (s2fs_make_inode file_mode (call (d_alloc w.asked dir (qname dir file_name)) (ask w)))
      else (ask w, none)

  -- `if (subdirectory) s2fs_create_file(…)`; the result is not looked at.
  unfoldable pub fill_directory : World × Option ℕ → World
  fill_directory (w, none) = w
  fill_directory (w, some subdirectory) = (s2fs_create_file subdirectory bar w).0

  -- `sb->s_root = root_dentry`
  abbrev pub set_root : ℕ → World → World
  set_root root_dentry w = record w { sb = record (w.sb) { s_root = some root_dentry } }

  -- From the test of the root inode on, with 0 for success and 1 for -ENOMEM.
  unfoldable pub fill_root : World × Option Inode → World × ℕ
  fill_root (w, none) = (w, 1)
  fill_root (w, some inode) =
      let root = record inode { i_ops = simple_dir } in
      if grants w.asked
      then (
        fill_directory (
            s2fs_create_dir w.asked foo
              (set_root w.asked (call (d_make_root w.asked root) (ask w)))),
        0,
      )
      else (call (iput root.id) (call (d_make_root_failed root.id) (ask w)), 1)

  unfoldable pub s2fs_fill_super : World → World × ℕ
  s2fs_fill_super w =
      let filled = record w { sb = record (w.sb) { s_magic = s2fs_magic; s_op = s2fs_s_ops } } in
      fill_root (s2fs_make_inode root_mode filled)
