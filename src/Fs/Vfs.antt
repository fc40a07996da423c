-- ===== src/Fs/Vfs.antt =====
-- src/fs/vfs.rs: the types that the file systems share, and the inodes behind their handles.
-- An `Arc<Inode>` is the address of a node in a store; a new node goes to the next free address. The
-- children of a directory are in the order of their names, as in a `BTreeMap`; a name is its bytes.
pub mod Names
use sar_osx.Base.{
  ℕ, zero, suc, ◌+◌, ◌-◌, ◌*◌, ◌/◌, ◌%◌, ◌^◌, ◌≤◌, ◌<◌, min, max, bit_and, bit_or, bit_xor, ◌≡◌,
  refl, sym, ap, ◌∙◌, ◌≢◌, ◌↔◌, ◌⊎◌, inl, inr, Bool, true, false, not, ◌&&◌, ◌||◌, Option, none,
  some, List, [], ◌∷◌, ◌++◌, map, append-nil, append_assoc, arith, ltb, leb, ◌==◌, if◌then◌else◌,
  ltb→lt, lt→ltb, leb→le, ==_iff, tests, Bool-cases, Option-cases, length, get_elem?, set, get_or,
  take, drop, replicate, length-append, length-set, length-take, length-drop, length-replicate,
  length-map,
}
use sar_osx.Base.Result.{Result, ok, err}

abbrev pub Name : Type 0
Name = List ℕ

-- An `Errno` is its number.
abbrev pub enoent : ℕ
enoent = 2

abbrev pub eexist : ℕ
eexist = 17

abbrev pub enotdir : ℕ
enotdir = 20

abbrev pub eisdir : ℕ
eisdir = 21

abbrev pub einval : ℕ
einval = 22

abbrev pub enotempty : ℕ
enotempty = 39

abbrev pub o_wronly : ℕ
o_wronly = 1

abbrev pub o_creat : ℕ
o_creat = 0o100

abbrev pub o_trunc : ℕ
o_trunc = 0o1000

abbrev pub o_append : ℕ
o_append = 0o2000

pub data FileType : Type 0 where
  regular directory symlink char_device : FileType

pub record Stat : Type 0 where
  pub ino : ℕ
  pub kind : FileType
  pub size : ℕ
  pub mode : ℕ
  pub nlink : ℕ
  pub uid : ℕ
  pub gid : ℕ

pub record DirEntry : Type 0 where
  pub name : Name
  pub ino : ℕ
  pub kind : FileType

-- `RamDir`, `RamFile` and `RamSymlink`.
pub data Node : Type 0 where
  ram_dir : (ino mode : ℕ) (children : List (Name × ℕ)) → Node
  ram_file : (ino mode : ℕ) (content : List ℕ) → Node
  ram_symlink : (ino : ℕ) (target : Name) → Node

-- `next` is the next free address and `next_ino` the static `NEXT_INO`.
pub record Store : Type 0 where
  pub node : ℕ → Node
  pub next : ℕ
  pub next_ino : ℕ

abbrev pub set_node : Store → ℕ → Node → Store
set_node s h n = record s { node = λ j. if h == j then n else s.node j }

-- A new inode, with its number from `alloc_ino`.
abbrev pub new_node : Store → (ℕ → Node) → ℕ × Store
new_node s make = (
  s.next,
  record {
    node = λ j. if s.next == j then make s.next_ino else s.node j;
    next = s.next + 1;
    next_ino = s.next_ino + 1;
  },
)

abbrev pub stat_node : Node → Stat
stat_node (ram_dir ino mode children) = record {
  ino = ino;
  kind = directory;
  size = 0;
  mode = mode;
  nlink = 2;
  uid = 0;
  gid = 0;
}
stat_node (ram_file ino mode content) = record {
  ino = ino;
  kind = regular;
  size = length content;
  mode = mode;
  nlink = 1;
  uid = 0;
  gid = 0;
}
stat_node (ram_symlink ino target) = record {
  ino = ino;
  kind = symlink;
  size = length target;
  mode = 0o777;
  nlink = 1;
  uid = 0;
  gid = 0;
}

unfoldable pub stat : Store → ℕ → Stat
stat s h = stat_node (s.node h)

abbrev pub is_directory : FileType → Bool
is_directory directory = true
is_directory _ = false

abbrev pub is_link : FileType → Bool
is_link symlink = true
is_link _ = false

unfoldable pub is_dir : Store → ℕ → Bool
unfolding stat
is_dir s h = is_directory (stat s h).kind

unfoldable pub is_symlink : Store → ℕ → Bool
unfolding stat
is_symlink s h = is_link (stat s h).kind

-- Equality and order of names, byte by byte.
unfoldable pub name_eq : Name → Name → Bool
name_eq [] [] = true
name_eq [] (_ ∷ _) = false
name_eq (_ ∷ _) [] = false
name_eq (a ∷ x) (b ∷ y) = a == b && name_eq x y

unfoldable pub name_lt : Name → Name → Bool
name_lt [] [] = false
name_lt [] (_ ∷ _) = true
name_lt (_ ∷ _) [] = false
name_lt (a ∷ x) (b ∷ y) = let later = name_lt x y in ltb a b || (a == b && later)

-- `BTreeMap<String, Arc<Inode>>`
abbrev pub Children : Type 0
Children = List (Name × ℕ)

unfoldable pub get : Name → Children → Option ℕ
get k [] = none
get k ((j, h) ∷ rest) = if name_eq j k then some h else get k rest

pub insert : Name → ℕ → Children → Children
insert k v [] = (k, v) ∷ []
insert k v ((j, h) ∷ rest) =
    let later = (j, h) ∷ insert k v rest in
    if name_eq j k then (k, v) ∷ rest else if name_lt k j then (k, v) ∷ (j, h) ∷ rest else later

pub remove : Name → Children → Children
remove k [] = []
remove k ((j, h) ∷ rest) = let kept = remove k rest in if name_eq j k then kept else (j, h) ∷ kept
