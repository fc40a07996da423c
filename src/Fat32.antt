-- ===== src/Fat32.antt =====
-- src/fs/fat32.rs and src/fs/mbr.rs: the reader of FAT32 partitions.
-- The drive is a function `Disk` from a sector and a count to the bytes, none where `ide::read_sectors`
-- fails; a read that succeeds fills its buffer, so gives 512 bytes for each sector. A name is the list
-- of its characters. The inode number comes from the counter `next_ino`, as in `alloc_ino`.
pub mod Chain
pub mod Names
pub mod Inode
pub mod Probe
pub mod Content
mod Tests
use sar_osx.Base.{
  All, ℕ, zero, suc, ◌+◌, ◌-◌, ◌*◌, ◌/◌, ◌%◌, ◌^◌, ◌≤◌, ◌<◌, min, max, bit_and, bit_or, bit_xor,
  ◌≡◌, refl, sym, ap, ◌∙◌, ◌≢◌, ◌↔◌, ◌⊎◌, inl, inr, Bool, true, false, not, ◌&&◌, ◌||◌, Option,
  none, some, List, [], ◌∷◌, ◌++◌, map, append-nil, append_assoc, arith, ltb, leb, ◌==◌,
  if◌then◌else◌, ltb→lt, lt→ltb, leb→le, ==_iff, tests, Bool-cases, Option-cases, length, get_elem?,
  set, get_or, take, drop, replicate, length-append, length-set, length-take, length-drop,
  length-replicate, length-map,
}
use mathlib.Core.List.{reverse}
use sar_osx.Base.Result.{Result, ok, err, ◌>>=◌}
use sar_osx.Fs.Vfs.{Name, FileType, regular, directory, Stat, DirEntry, enoent, name_eq}

abbrev pub Disk : Type 0
Disk = (lba count : ℕ) → Option (List ℕ)

abbrev pub eio : ℕ
eio = 5

abbrev pub attr_volume_id : ℕ
attr_volume_id = 0x08

abbrev pub attr_directory : ℕ
attr_directory = 0x10

abbrev pub attr_lfn : ℕ
attr_lfn = 0x0F

abbrev pub byte : List ℕ → ℕ → ℕ
byte bytes i = get_or bytes i 0

-- `from_le_bytes` of the two or four bytes at an offset.
abbrev pub le16 : List ℕ → ℕ → ℕ
le16 bytes i = byte bytes i + byte bytes (i + 1) * 0x100

abbrev pub le32 : List ℕ → ℕ → ℕ
le32 bytes i = le16 bytes i + le16 bytes (i + 2) * 0x1_0000

-- The number of the drive stands in the function of the drive.
pub record Fat32Ctx : Type 0 where
  pub part_lba : ℕ
  pub spc : ℕ
  pub fat_start : ℕ
  pub data_start : ℕ
  pub root_cluster : ℕ

abbrev pub cluster_lba : Fat32Ctx → ℕ → ℕ
cluster_lba ctx c = ctx.data_start + (c - 2) * ctx.spc

abbrev pub cluster_bytes : Fat32Ctx → ℕ
cluster_bytes ctx = ctx.spc * 512

abbrev pub or_eio : Option (List ℕ) → Result ℕ (List ℕ)
or_eio none = err eio
or_eio (some bytes) = ok bytes

abbrev pub read_cluster : Disk → Fat32Ctx → ℕ → Result ℕ (List ℕ)
read_cluster disk ctx c = or_eio (disk (cluster_lba ctx c) ctx.spc)

abbrev pub fat_entry : List ℕ → ℕ → Option ℕ
fat_entry sector off =
    let entry = bit_and (le32 sector off) 0x0FFF_FFFF in
    if ltb entry 2 || leb 0x0FFF_FFF8 entry then none else some entry

pub next_cluster : Disk → Fat32Ctx → ℕ → Result ℕ (Option ℕ)
next_cluster disk ctx c =
    let byte_off = c * 4 in
    or_eio (disk (ctx.fat_start + byte_off / 512) 1)
    >>= (λ sector. ok (fat_entry sector (byte_off % 512)))

abbrev pub chain_limit : ℕ
chain_limit = 1_000_000

-- The loop of `cluster_chain` leaves after it has pushed one cluster more than the limit; `left` is the
-- number of clusters that it may still push.
pub follow : (Option ℕ → Result ℕ (List ℕ)) → ℕ → Result ℕ (Option ℕ) → Result ℕ (List ℕ)
follow next_chain c r = r >>= (λ next. next_chain next >>= (λ chain. ok (c ∷ chain)))

pub chain_from : (left : ℕ) → Disk → Fat32Ctx → Option ℕ → Result ℕ (List ℕ)
unfolding follow
chain_from left disk ctx none = ok []
chain_from zero disk ctx (some c) = ok []
chain_from (suc left) disk ctx (some c) =
    let rest = follow (chain_from left disk ctx) c (next_cluster disk ctx c) in
    if leb 2 c then rest else ok []

abbrev pub cluster_chain : Disk → Fat32Ctx → (start : ℕ) → Result ℕ (List ℕ)
cluster_chain disk ctx start = chain_from (chain_limit + 1) disk ctx (some start)

pub record FatEntry : Type 0 where
  pub name : Name
  pub first_cluster : ℕ
  pub file_size : ℕ
  pub is_dir : Bool

abbrev pub to_ascii_lowercase : ℕ → ℕ
to_ascii_lowercase c = if leb 65 c && leb c 90 then c + 32 else c

abbrev pub space : ℕ
space = 32

pub until_space : List ℕ → List ℕ
until_space [] = []
until_space (b ∷ rest) = if b == space then [] else b ∷ until_space rest

-- A first byte 0x05 stands for 0xE5.
abbrev pub fix_first : List ℕ → List ℕ
fix_first [] = []
fix_first (b ∷ rest) = (if b == 0x05 then 0xE5 else b) ∷ rest

abbrev pub join_ext : (name ext : Name) → Name
join_ext name [] = name
join_ext name (c ∷ ext) = name ++ 46 ∷ c ∷ ext

pub parse_83_name : List ℕ → Name
unfolding until_space
parse_83_name raw =
    join_ext (map to_ascii_lowercase (until_space (fix_first (take 8 raw))))
      (map to_ascii_lowercase (until_space (take 3 (drop 8 raw))))

-- `count` characters of two bytes each.
abbrev pub lfn_part : (count : ℕ) → List ℕ → List ℕ
lfn_part zero bytes = []
lfn_part (suc count) bytes = le16 bytes 0 ∷ lfn_part count (drop 2 bytes)

abbrev pub lfn_chars : List ℕ → List ℕ
lfn_chars entry =
    lfn_part 5 (drop 1 entry) ++ (lfn_part 6 (drop 14 entry) ++ lfn_part 2 (drop 28 entry))

-- `char::from_u32(c).unwrap_or('?')`
abbrev pub to_char : ℕ → ℕ
to_char c = if leb 0xD800 c && leb c 0xDFFF then 63 else c

pub chunk_name : List ℕ → Name
chunk_name [] = []
chunk_name (c ∷ chunk) =
    let rest = to_char c ∷ chunk_name chunk in if c == 0 || c == 0xFFFF then [] else rest

pub chunks_name : List (List ℕ) → Name
unfolding chunk_name
chunks_name [] = []
chunks_name (chunk ∷ chunks) = chunk_name chunk ++ chunks_name chunks

-- The state of the loops of `read_dir_entries`; `ended` once the end of the directory is read.
pub record Scan : Type 0 where
  pub entries : List FatEntry
  pub lfn_chunks : List (List ℕ)
  pub ended : Bool

abbrev pub scan_name : List (List ℕ) → (raw : List ℕ) → Name
scan_name [] raw = parse_83_name raw
scan_name (chunk ∷ chunks) raw = chunks_name (reverse (chunk ∷ chunks))

abbrev pub clear_lfn : Scan → Scan
clear_lfn st = record st { lfn_chunks = [] }

abbrev pub to_entry : Name → (raw : List ℕ) → FatEntry
to_entry name raw = record {
  name = name;
  first_cluster = bit_or (le16 raw 20 * 0x1_0000) (le16 raw 26);
  file_size = le32 raw 28;
  is_dir = not (bit_and (byte raw 11) attr_directory == 0);
}

pub scan_entry : Scan → (raw : List ℕ) → Scan
unfolding parse_83_name chunks_name
scan_entry st raw =
    let first = byte raw 0 in
    let attr = byte raw 11 in
    if first == 0x00
    then record st { ended = true }
    else if first == 0xE5
    then clear_lfn st
    else if attr == attr_lfn
    then record st { lfn_chunks = st.lfn_chunks ++ lfn_chars raw ∷ [] }
    else if not (bit_and attr attr_volume_id == 0) && bit_and attr attr_directory == 0
    then clear_lfn st
    else if first == 46
    then clear_lfn st
    else record {
      entries = st.entries ++ to_entry (scan_name st.lfn_chunks raw) raw ∷ [];
      lfn_chunks = [];
      ended = st.ended;
    }

pub scan_entries : (count : ℕ) → (bytes : List ℕ) → Scan → Scan
scan_entries zero bytes st = st
scan_entries (suc count) bytes st =
    let rest = scan_entries count (drop 32 bytes) (scan_entry st (take 32 bytes)) in
    if st.ended then st else rest

pub scan_clusters : Disk → Fat32Ctx → List ℕ → Scan → Result ℕ Scan
scan_clusters disk ctx [] st = ok st
scan_clusters disk ctx (cluster ∷ chain) st =
    let rest = read_cluster disk ctx cluster >>= (λ bytes.
      scan_clusters disk ctx chain (scan_entries (cluster_bytes ctx / 32) bytes st)) in
    if st.ended then ok st else rest

abbrev pub no_scan : Scan
no_scan = record { entries = []; lfn_chunks = []; ended = false }

pub read_dir_entries : Disk → Fat32Ctx → (start_cluster : ℕ) → Result ℕ (List FatEntry)
read_dir_entries disk ctx start_cluster =
    cluster_chain disk ctx start_cluster
    >>= (λ chain. scan_clusters disk ctx chain no_scan >>= (λ st. ok st.entries))
