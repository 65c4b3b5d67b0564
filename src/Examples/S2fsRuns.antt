-- ===== src/Examples/S2fsRuns.antt =====
-- s2fs.c: reads with a small buffer, and mounts with and without memory.
use sbu_cse_506_operating_sy.Prelude.{
  ℕ, zero, suc, ◌+◌, ◌≡◌, refl, Bool, true, Option, none, some, [], ◌∷◌, ◌==◌, ◌&&◌, if◌then◌else◌,
  not, take, arith,
}
use sbu_cse_506_operating_sy.S2fs.Read.{greeting}
use sbu_cse_506_operating_sy.S2fs.Mount.{
  Services, SuperBlock, World, no_super_ops, foo, bar, s2fs_fill_super, fill_root, s2fs_make_inode,
}
use sbu_cse_506_operating_sy.S2fs.Mount.Balance.{
  begin, made, dropped, in_tree, dentries, put_back, s2fs_fill_super-balance,
}
use sbu_cse_506_operating_sy.S2fs.Mount.Tree.{resolve, look, expected, resolve-s2fs_fill_super}
use sbu_cse_506_operating_sy.S2fs.Files.{MountApi, s2fs_get_super, cat, is_bar, cat-s2fs_get_super}

abbrev services : (ℕ → Bool) → Services
services grants = record {
  grants = grants;
  get_next_ino = λ n. n + 1;
  current_time = λ n. 1600000000;
  full_name_hash = λ dir name len. len;
}

abbrev blank : SuperBlock
blank = record { address = 4096; s_magic = 0; s_op = no_super_ops; s_root = none }

-- The dentry of the root cannot be allocated.
abbrev no_root : Services
no_root = services (λ n. not (n == 1))

s2fs_fill_super-balance_example :
    let calls = (s2fs_fill_super no_root (begin blank)).0.calls in
    (dentries calls ≡ in_tree calls + put_back calls)
    × (made calls + (if no_root.grants 0 then (if no_root.grants 1 then 0 else 1) else 0)
        ≡ in_tree calls + dropped calls)
s2fs_fill_super-balance_example = s2fs_fill_super-balance no_root blank

abbrev plenty : Services
plenty = services (λ n. true)

resolve-s2fs_fill_super_example :
    look (resolve (s2fs_fill_super plenty (begin blank)).0 (foo ∷ bar ∷ []))
    ≡ expected plenty.grants (foo ∷ bar ∷ [])
resolve-s2fs_fill_super_example = resolve-s2fs_fill_super plenty blank (foo ∷ bar ∷ []) refl

abbrev if_done : World × ℕ → Option World
if_done (w, zero) = some w
if_done (w, suc n) = none

if_done-some : (r : World × ℕ) (w : World) → if_done r ≡ some w → r ≡ (w, 0)
if_done-some (v, zero) w e = cc
if_done-some (v, suc n) w e = cc

abbrev plain_mount : MountApi
plain_mount = record {
  mount_nodev = λ fill. if_done (fill blank);
  mount_nodev_some = λ fill w e. (blank, refl, if_done-some (fill blank) w e);
}

mounted : (w : World) × (s2fs_get_super plenty plain_mount ≡ some w)
unfolding s2fs_get_super s2fs_fill_super fill_root s2fs_make_inode
mounted = (_, refl)

cat-s2fs_get_super_example : cat (λ text. 0) (3 + 2) 64 mounted.0 (foo ∷ bar ∷ []) ≡ (
    if is_bar (foo ∷ bar ∷ []) && ((true && true) && (true && true))
    then some (take 64 greeting)
    else none)
cat-s2fs_get_super_example =
    cat-s2fs_get_super (λ text. 0) plenty plain_mount 3 64 mounted.0 (foo ∷ bar ∷ []) mounted.1
      (omega arith) (λ text. refl)
