-- ===== src/Fs/RamFs.antt =====
-- src/fs/ramfs.rs: the operations of `InodeOps` on directories, files and links in memory. Each takes
-- the store and the address of the inode; one that changes the store gives the new one as well, also
-- beside an error. The sum of an offset and a length is below 2 ^ 64, as both lie in memory.
pub mod Content
pub mod Directory
pub mod Shape
mod Tests
use sar_osx.Base.{
  ℕ, zero, suc, ◌+◌, ◌-◌, ◌*◌, ◌/◌, ◌%◌, ◌^◌, ◌≤◌, ◌<◌, min, max, bit_and, bit_or, bit_xor, ◌≡◌,
  refl, sym, ap, ◌∙◌, ◌≢◌, ◌↔◌, ◌⊎◌, inl, inr, Bool, true, false, not, ◌&&◌, ◌||◌, Option, none,
  some, List, [], ◌∷◌, ◌++◌, map, append-nil, append_assoc, arith, ltb, leb, ◌==◌, if◌then◌else◌,
  ltb→lt, lt→ltb, leb→le, ==_iff, tests, Bool-cases, Option-cases, length, get_elem?, set, get_or,
  take, drop, replicate, length-append, length-set, length-take, length-drop, length-replicate,
  length-map,
}
use sar_osx.Base.Result.{Result, ok, err}
use sar_osx.Fs.Vfs.{
  Name, enoent, eexist, enotdir, eisdir, einval, enotempty, DirEntry, Node, ram_dir, ram_file,
  ram_symlink, Store, set_node, new_node, stat_node, is_dir, Children, get, insert, remove,
}

abbrev pub Answer : Type 0 → Type 0
Answer A = Result ℕ A × Store

-- `get(name).cloned().ok_or(ENOENT)`
abbrev pub or_enoent : Option ℕ → Result ℕ ℕ
or_enoent none = err enoent
or_enoent (some h) = ok h

lookup_in : Node → Name → Result ℕ ℕ
lookup_in (ram_dir ino mode children) name = or_enoent (get name children)
lookup_in (ram_file ino mode content) name = err enotdir
lookup_in (ram_symlink ino target) name = err enotdir

unfoldable pub lookup : Store → ℕ → Name → Result ℕ ℕ
unfolding lookup_in
lookup s dir name = lookup_in (s.node dir) name

unfoldable pub dir_entry : Store → Option (Name × ℕ) → Option DirEntry
dir_entry s none = none
dir_entry s (some (n, h)) =
    let st = stat_node (s.node h) in some (record { name = n; ino = st.ino; kind = st.kind })

readdir_in : Store → Node → ℕ → Result ℕ (Option DirEntry)
readdir_in s (ram_dir ino mode children) offset = ok (dir_entry s (get_elem? children offset))
readdir_in s (ram_file ino mode content) offset = err enotdir
readdir_in s (ram_symlink ino target) offset = err enotdir

pub readdir : Store → ℕ → ℕ → Result ℕ (Option DirEntry)
unfolding dir_entry readdir_in
readdir s dir offset = readdir_in s (s.node dir) offset

-- The bytes that `read` copies into a buffer of `len` bytes.
unfoldable pub read_bytes : (content : List ℕ) (offset len : ℕ) → List ℕ
read_bytes content offset len =
    if leb (length content) offset
    then []
    else take (min (length content - offset) len) (drop offset content)

read_in : Node → (offset len : ℕ) → Result ℕ (List ℕ)
read_in (ram_dir ino mode children) offset len = err eisdir
read_in (ram_file ino mode content) offset len = ok (read_bytes content offset len)
read_in (ram_symlink ino target) offset len = err einval

pub read : Store → ℕ → (offset len : ℕ) → Result ℕ (List ℕ)
unfolding read_in
read s h offset len = read_in (s.node h) offset len

-- `Vec::resize` with zeros.
abbrev pub resize : List ℕ → ℕ → List ℕ
resize content n = take n content ++ replicate (n - length content) 0

-- `copy_from_slice` of `bytes` over the content at `offset`, which grows to hold them.
unfoldable pub write_bytes : (content : List ℕ) (offset : ℕ) (bytes : List ℕ) → List ℕ
write_bytes content offset bytes =
    let end = offset + length bytes in
    let grown = if ltb (length content) end then resize content end else content in
    take offset grown ++ (bytes ++ drop end grown)

write_in : Store → ℕ → Node → (offset : ℕ) (bytes : List ℕ) → Answer ℕ
write_in s h (ram_dir ino mode children) offset bytes = (err eisdir, s)
write_in s h (ram_file ino mode content) offset bytes =
    (ok (length bytes), set_node s h (ram_file ino mode (write_bytes content offset bytes)))
write_in s h (ram_symlink ino target) offset bytes = (err einval, s)

pub write : Store → ℕ → (offset : ℕ) (bytes : List ℕ) → Answer ℕ
unfolding write_in
write s h offset bytes = write_in s h (s.node h) offset bytes

truncate_in : Store → ℕ → Node → ℕ → Answer (Unit {0})
truncate_in s h (ram_dir ino mode children) size = (err eisdir, s)
truncate_in s h (ram_file ino mode content) size =
    (ok tt, set_node s h (ram_file ino mode (resize content size)))
truncate_in s h (ram_symlink ino target) size = (err einval, s)

pub truncate : Store → ℕ → ℕ → Answer (Unit {0})
unfolding truncate_in
truncate s h size = truncate_in s h (s.node h) size

-- `create`, `mkdir` and `symlink`: a new inode under a name that is free.
link_new : Store → (dir ino mode : ℕ) → Children → Name → (ℕ → Node) → Option ℕ → Answer ℕ
link_new s dir ino mode children name make (some _) = (err eexist, s)
link_new s dir ino mode children name make none =
    let (h, s') = new_node s make in
    (ok h, set_node s' dir (ram_dir ino mode (insert name h children)))

add_in : Store → (dir : ℕ) → Node → Name → (ℕ → Node) → Answer ℕ
unfolding link_new
add_in s dir (ram_dir ino mode children) name make =
    link_new s dir ino mode children name make (get name children)
add_in s dir (ram_file ino mode content) name make = (err enotdir, s)
add_in s dir (ram_symlink ino target) name make = (err enotdir, s)

pub add_node : Store → (dir : ℕ) → Name → (ℕ → Node) → Answer ℕ
unfolding add_in
add_node s dir name make = add_in s dir (s.node dir) name make

abbrev pub create : Store → (dir : ℕ) → Name → (mode : ℕ) → Answer ℕ
create s dir name mode = add_node s dir name (λ ino. ram_file ino mode [])

abbrev pub mkdir : Store → (dir : ℕ) → Name → (mode : ℕ) → Answer ℕ
mkdir s dir name mode = add_node s dir name (λ ino. ram_dir ino mode [])

abbrev pub symlink : Store → (dir : ℕ) → Name → (target : Name) → Answer ℕ
symlink s dir name target = add_node s dir name (λ ino. ram_symlink ino target)

abbrev pub put_children : Store → (dir ino mode : ℕ) → Children → Store
put_children s dir ino mode children = set_node s dir (ram_dir ino mode children)

unlink_entry : Store → (dir ino mode : ℕ) → Children → Name → Option ℕ → Answer (Unit {0})
unlink_entry s dir ino mode children name none = (err enoent, s)
unlink_entry s dir ino mode children name (some h) =
    if is_dir s h
    then (err eisdir, s)
    else (ok tt, put_children s dir ino mode (remove name children))

unlink_in : Store → (dir : ℕ) → Node → Name → Answer (Unit {0})
unfolding unlink_entry
unlink_in s dir (ram_dir ino mode children) name =
    unlink_entry s dir ino mode children name (get name children)
unlink_in s dir (ram_file ino mode content) name = (err enotdir, s)
unlink_in s dir (ram_symlink ino target) name = (err enotdir, s)

pub unlink : Store → (dir : ℕ) → Name → Answer (Unit {0})
unfolding unlink_in
unlink s dir name = unlink_in s dir (s.node dir) name

-- Whether `readdir(0)` finds an entry.
abbrev pub has_children : Node → Bool
has_children (ram_dir ino mode (_ ∷ _)) = true
has_children _ = false

rmdir_entry : Store → (dir ino mode : ℕ) → Children → Name → Option ℕ → Answer (Unit {0})
rmdir_entry s dir ino mode children name none = (err enoent, s)
rmdir_entry s dir ino mode children name (some h) =
    if not (is_dir s h)
    then (err enotdir, s)
    else if has_children (s.node h)
    then (err enotempty, s)
    else (ok tt, put_children s dir ino mode (remove name children))

rmdir_in : Store → (dir : ℕ) → Node → Name → Answer (Unit {0})
unfolding rmdir_entry
rmdir_in s dir (ram_dir ino mode children) name =
    rmdir_entry s dir ino mode children name (get name children)
rmdir_in s dir (ram_file ino mode content) name = (err enotdir, s)
rmdir_in s dir (ram_symlink ino target) name = (err enotdir, s)

pub rmdir : Store → (dir : ℕ) → Name → Answer (Unit {0})
unfolding rmdir_in
rmdir s dir name = rmdir_in s dir (s.node dir) name

readlink_in : Node → Result ℕ Name
readlink_in (ram_dir ino mode children) = err einval
readlink_in (ram_file ino mode content) = err einval
readlink_in (ram_symlink ino target) = ok target

unfoldable pub readlink : Store → ℕ → Result ℕ Name
unfolding readlink_in
readlink s h = readlink_in (s.node h)

insert_child_in : Store → (dir : ℕ) → Node → Name → ℕ → Answer (Unit {0})
insert_child_in s dir (ram_dir ino mode children) name child =
    (ok tt, put_children s dir ino mode (insert name child children))
insert_child_in s dir (ram_file ino mode content) name child = (err enotdir, s)
insert_child_in s dir (ram_symlink ino target) name child = (err enotdir, s)

pub insert_child : Store → (dir : ℕ) → Name → ℕ → Answer (Unit {0})
unfolding insert_child_in
insert_child s dir name child = insert_child_in s dir (s.node dir) name child

rename_entry :
    Store
    → (dir ino mode : ℕ) → Children
    → (old : Name) → (new_dir : ℕ) → (new : Name) → Option ℕ
    → Answer (Unit {0})
rename_entry s dir ino mode children old new_dir new none = (err enoent, s)
rename_entry s dir ino mode children old new_dir new (some h) =
    insert_child (put_children s dir ino mode (remove old children)) new_dir new h

rename_in :
    Store → (dir : ℕ) → Node → (old : Name) → (new_dir : ℕ) → (new : Name) → Answer (Unit {0})
unfolding rename_entry
rename_in s dir (ram_dir ino mode children) old new_dir new =
    rename_entry s dir ino mode children old new_dir new (get old children)
rename_in s dir (ram_file ino mode content) old new_dir new = (err enotdir, s)
rename_in s dir (ram_symlink ino target) old new_dir new = (err enotdir, s)

-- The entry is taken out of its directory before the other directory is asked to take it.
pub rename : Store → (dir : ℕ) → (old : Name) → (new_dir : ℕ) → (new : Name) → Answer (Unit {0})
unfolding rename_in
rename s dir old new_dir new = rename_in s dir (s.node dir) old new_dir new

-- `new_ramfs`: a store with one empty directory, at address 0.
abbrev pub empty : Store
empty = record { node = λ _. ram_symlink 0 []; next = 0; next_ino = 1 }

abbrev pub new_ramfs : ℕ × Store
new_ramfs = new_node empty (λ ino. ram_dir ino 0o755 [])
