-- ===== src/Fs/Mount.antt =====
-- src/fs/mount.rs: the context of the VFS with its mount table, and the operations on paths; with the
-- open files of src/fs/vfs.rs.
-- All inodes stand in one store, so a file system that is mounted is given by the address of its root;
-- offsets and sizes are below 2 ^ 64. The lock around the context and the log lines are left out.
pub mod OpenFile
pub mod Table
pub mod Content
pub mod Listing
mod Tests
use sar_osx.Base.{
  ℕ, zero, suc, ◌+◌, ◌-◌, ◌*◌, ◌/◌, ◌%◌, ◌^◌, ◌≤◌, ◌<◌, min, max, bit_and, bit_or, bit_xor, ◌≡◌,
  refl, sym, ap, ◌∙◌, ◌≢◌, ◌↔◌, ◌⊎◌, inl, inr, Bool, true, false, not, ◌&&◌, ◌||◌, Option, none,
  some, List, [], ◌∷◌, ◌++◌, map, append-nil, append_assoc, arith, ltb, leb, ◌==◌, if◌then◌else◌,
  ltb→lt, lt→ltb, leb→le, ==_iff, tests, Bool-cases, Option-cases, length, get_elem?, set, get_or,
  take, drop, replicate, length-append, length-set, length-take, length-drop, length-replicate,
  length-map,
}
use sar_osx.Base.Result.{Result, ok, err, ◌>>=◌}
use sar_osx.Fs.Vfs.{
  Name, enoent, enotdir, o_wronly, o_creat, o_trunc, Stat, DirEntry, Store, stat, is_dir, name_eq,
}
use sar_osx.Fs.RamFs.{Answer, lookup, truncate, create, unlink, rmdir, rename, symlink}
use sar_osx.Fs.RamFs
use sar_osx.Fs.Walk.{slash, components, starts_absolute, resolve, resolve_parent, trim_end}
use sar_osx.Fs.Mount.OpenFile.{File, open_file, file_write, readdir_loop, read_loop, entries_of}

pub record VfsContext : Type 0 where
  pub root : ℕ
  pub cwd : ℕ
  pub cwd_path : Name
  pub mounts : List (Name × ℕ)

abbrev pub root_path : Name
root_path = slash ∷ []

abbrev pub new : (root : ℕ) → VfsContext
new root = record { root = root; cwd = root; cwd_path = root_path; mounts = [] }

unfoldable pub make_absolute : VfsContext → Name → Name
make_absolute v path =
    if starts_absolute path
    then path
    else if name_eq v.cwd_path root_path
    then slash ∷ path
    else v.cwd_path ++ slash ∷ path

unfoldable pub starts_with : Name → (prefix : Name) → Bool
starts_with path [] = true
starts_with [] (_ ∷ _) = false
starts_with (a ∷ path) (b ∷ prefix) = a == b && starts_with path prefix

unfoldable pub resolve_mounted :
    Store → (root cwd : ℕ) → List (Name × ℕ) → (abs : Name) → Result ℕ ℕ
resolve_mounted s root cwd [] abs = resolve s root cwd abs
resolve_mounted s root cwd ((mp, fs_root) ∷ rest) abs =
    if name_eq abs mp
    then ok fs_root
    else if starts_with abs (mp ++ slash ∷ [])
    then resolve s fs_root fs_root (drop (length mp) abs)
    else resolve_mounted s root cwd rest abs

abbrev pub resolve_abs : VfsContext → Store → Name → Result ℕ ℕ
resolve_abs v s abs = resolve_mounted s v.root v.cwd v.mounts abs

abbrev pub resolve_path : VfsContext → Store → Name → Result ℕ ℕ
resolve_path v s path = resolve_abs v s (make_absolute v path)

-- The `?` operator after an operation that may have changed the store.
abbrev pub and_then {ℓ} :
    {A : Type 0} {B : Type ℓ} → Answer A → (A → Store → Result ℕ B × Store) → Result ℕ B × Store
and_then (ok a, s) f = f a s
and_then (err e, s) f = (err e, s)

abbrev pub with_value {ℓ} :
    {A : Type 0} {B : Type ℓ} → Store → Result ℕ A → (A → Result ℕ B × Store) → Result ℕ B × Store
with_value s (ok a) f = f a
with_value s (err e) f = (err e, s)

-- Runs an operation on the parent and the last name of a path.
abbrev pub at_parent : {A : Type 0} → VfsContext → Store → Name → (ℕ → Name → Answer A) → Answer A
at_parent v s path f = with_value s (resolve_parent s v.root v.cwd path) (λ r. f r.0 r.1)

make_dir : Store → (current : ℕ) (component : Name) → Result ℕ ℕ → Answer ℕ
make_dir s current component (ok next) = (if is_dir s next then ok next else err enotdir, s)
make_dir s current component (err e) =
    if e == enoent then RamFs.mkdir s current component 0o755 else (err e, s)

unfoldable pub make_dirs : Store → (current : ℕ) → List Name → Answer (Unit {0})
unfolding make_dir
make_dirs s current [] = (ok tt, s)
make_dirs s current (component ∷ rest) =
    and_then (make_dir s current component (lookup s current component))
      (λ next s'. make_dirs s' next rest)

unfoldable pub mkdir_p : VfsContext → Store → Name → Answer (Unit {0})
mkdir_p v s path = make_dirs s (if starts_absolute path then v.root else v.cwd) (components path)

-- The new entry goes before the first one with a shorter path.
unfoldable pub insert_mount : Name → ℕ → List (Name × ℕ) → List (Name × ℕ)
insert_mount mp fs_root [] = (mp, fs_root) ∷ []
insert_mount mp fs_root ((existing, r) ∷ rest) =
    let later = (existing, r) ∷ insert_mount mp fs_root rest in
    if ltb (length existing) (length mp) then (mp, fs_root) ∷ (existing, r) ∷ rest else later

abbrev pub ends_with_slash : Name → Bool
ends_with_slash [] = false
ends_with_slash (c ∷ []) = c == slash
ends_with_slash (_ ∷ d ∷ rest) = ends_with_slash (d ∷ rest)

unfoldable pub mount : VfsContext → Store → (mountpoint : Name) (fs_root : ℕ) → VfsContext × Store
mount v s mountpoint fs_root =
    let mp =
      if ends_with_slash mountpoint && not (name_eq mountpoint root_path)
      then trim_end mountpoint
      else mountpoint in
    (record v { mounts = insert_mount mp fs_root v.mounts }, (mkdir_p v s mp).1)

unfoldable pub retain_mounts : Name → List (Name × ℕ) → List (Name × ℕ)
retain_mounts mountpoint [] = []
retain_mounts mountpoint ((mp, r) ∷ rest) =
    let kept = retain_mounts mountpoint rest in
    if not (name_eq mp mountpoint) then (mp, r) ∷ kept else kept

unfoldable pub umount : VfsContext → Name → Result ℕ (Unit {0}) × VfsContext
umount v mountpoint =
    let kept = retain_mounts mountpoint v.mounts in
    (if length kept == length v.mounts then err enoent else ok tt, record v { mounts = kept })

unfoldable pub list_mounts : VfsContext → List Name
list_mounts v = map (λ m. m.0) v.mounts

abbrev pub has_bit : ℕ → ℕ → Bool
has_bit flags bit = not (bit_and flags bit == 0)

pub opened : VfsContext → Store → Name → (flags : ℕ) → Result ℕ ℕ → Answer File
opened v s path flags (ok i) =
    if has_bit flags o_creat && has_bit flags o_trunc
    then and_then (truncate s i 0) (λ _ s'. (ok (open_file i flags), s'))
    else (ok (open_file i flags), s)
opened v s path flags (err e) =
    if e == enoent && has_bit flags o_creat
    then at_parent v s (make_absolute v path) (λ parent name.
      and_then (create s parent name 0o644) (λ i s'. (ok (open_file i flags), s')))
    else (err e, s)

unfoldable pub open_path : VfsContext → Store → Name → (flags : ℕ) → Answer File
unfolding opened
open_path v s path flags = opened v s path flags (resolve_path v s path)

unfoldable pub mkdir_at : VfsContext → Store → Name → Answer (Unit {0})
mkdir_at v s path =
    at_parent v s (make_absolute v path)
      (λ parent name. and_then (RamFs.mkdir s parent name 0o755) (λ _ s'. (ok tt, s')))

unfoldable pub unlink_at : VfsContext → Store → Name → Answer (Unit {0})
unlink_at v s path = at_parent v s (make_absolute v path) (λ parent name. unlink s parent name)

unfoldable pub rmdir_at : VfsContext → Store → Name → Answer (Unit {0})
rmdir_at v s path = at_parent v s (make_absolute v path) (λ parent name. rmdir s parent name)

unfoldable pub rename_at : VfsContext → Store → (old new_path : Name) → Answer (Unit {0})
rename_at v s old new_path = at_parent v s old (λ parent name.
    at_parent v s new_path (λ new_parent new_name. rename s parent name new_parent new_name))

unfoldable pub symlink_at : VfsContext → Store → (target link_path : Name) → Answer (Unit {0})
symlink_at v s target link_path =
    at_parent v s link_path
      (λ parent name. and_then (symlink s parent name target) (λ _ s'. (ok tt, s')))

unfoldable pub stat_at : VfsContext → Store → Name → Result ℕ Stat
stat_at v s path = resolve_path v s path >>= (λ i. ok (stat s i))

enter : VfsContext → Store → Name → Result ℕ ℕ → Result ℕ (Unit {0}) × VfsContext
enter v s path (err e) = (err e, v)
enter v s path (ok i) =
    let abs = make_absolute v path in
    if not (is_dir s i) then (err enotdir, v) else (
      ok tt,
      record v { cwd = i; cwd_path = if name_eq abs root_path then abs else trim_end abs },
    )

unfoldable pub cd : VfsContext → Store → Name → Result ℕ (Unit {0}) × VfsContext
unfolding enter
cd v s path = enter v s path (resolve_path v s path)

-- The loop of `readdir_all` runs once for each entry and once more.
unfoldable pub readdir_all : VfsContext → Store → Name → Result ℕ (List DirEntry)
readdir_all v s path = resolve_path v s path >>= (λ i.
    if not (is_dir s i) then err enotdir else readdir_loop (suc (entries_of s i)) s (open_file i 0))

unfoldable pub write_file : VfsContext → Store → Name → (content : List ℕ) → Answer (Unit {0})
write_file v s path content =
    and_then (open_path v s path (o_wronly + o_creat + o_trunc))
      (λ file s'. and_then (file_write s' file content).0 (λ _ s''. (ok tt, s'')))

-- Each turn of the loop of `read_file` that reads anything takes at least one of the bytes left.
unfoldable pub read_file : VfsContext → Store → Name → Result ℕ (List ℕ)
read_file v s path =
    (open_path v s path 0).0
    >>= (λ file. let size = (stat s file.inode).size in read_loop (suc size) s file size)
