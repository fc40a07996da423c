-- ===== src/Fat32/Inode.antt =====
-- The inodes of src/fs/fat32.rs: `Fat32DirInode` and `Fat32FileInode`.
use sar_osx.Base.{
  ℕ, ◌+◌, ◌-◌, min, Bool, ◌||◌, Option, none, some, List, [], ◌∷◌, ◌++◌, map, ltb, leb, ◌==◌,
  if◌then◌else◌, length, get_elem?, take, drop,
}
use sar_osx.Base.Result.{Result, ok, err, ◌>>=◌}
use sar_osx.Fs.Vfs.{Name, regular, directory, Stat, DirEntry, enoent, eisdir, enotdir, name_eq}
use sar_osx.Fat32.{
  Disk, Fat32Ctx, FatEntry, cluster_bytes, cluster_chain, read_cluster, read_dir_entries,
  to_ascii_lowercase,
}

abbrev pub enotsup : ℕ
enotsup = 95

pub data FatNode : Type 0 where
  fat_dir : (cluster ino : ℕ) → FatNode
  fat_file : (cluster size ino : ℕ) → FatNode

pub fat_stat : FatNode → Stat
fat_stat (fat_dir cluster ino) = record {
  ino = ino;
  kind = directory;
  size = 0;
  mode = 0o555;
  nlink = 2;
  uid = 0;
  gid = 0;
}
fat_stat (fat_file cluster size ino) = record {
  ino = ino;
  kind = regular;
  size = size;
  mode = 0o444;
  nlink = 1;
  uid = 0;
  gid = 0;
}

-- The node of an entry, under the next inode number.
abbrev pub make_inode : FatEntry → (next_ino : ℕ) → FatNode
make_inode e next_ino =
    if e.is_dir
    then fat_dir e.first_cluster next_ino
    else fat_file e.first_cluster e.file_size next_ino

abbrev pub same_name : Name → Name → Bool
same_name a b = name_eq (map to_ascii_lowercase a) (map to_ascii_lowercase b)

pub find_entry : Name → List FatEntry → Option FatEntry
find_entry name [] = none
find_entry name (e ∷ rest) = if same_name e.name name then some e else find_entry name rest

abbrev pub inode_of : (next_ino : ℕ) → Option FatEntry → Result ℕ FatNode
inode_of next_ino none = err enoent
inode_of next_ino (some e) = ok (make_inode e next_ino)

pub fat_lookup : Disk → Fat32Ctx → FatNode → Name → (next_ino : ℕ) → Result ℕ FatNode
fat_lookup disk ctx (fat_dir cluster ino) name next_ino =
    read_dir_entries disk ctx cluster >>= (λ entries. inode_of next_ino (find_entry name entries))
fat_lookup disk ctx (fat_file cluster size ino) name next_ino = err enotdir

abbrev pub fat_dir_entry : (next_ino : ℕ) → Option FatEntry → Option DirEntry
fat_dir_entry next_ino none = none
fat_dir_entry next_ino (some e) =
    some (record { name = e.name; ino = next_ino; kind = if e.is_dir then directory else regular })

pub fat_readdir : Disk → Fat32Ctx → FatNode → (offset next_ino : ℕ) → Result ℕ (Option DirEntry)
fat_readdir disk ctx (fat_dir cluster ino) offset next_ino =
    read_dir_entries disk ctx cluster
    >>= (λ entries. ok (fat_dir_entry next_ino (get_elem? entries offset)))
fat_readdir disk ctx (fat_file cluster size ino) offset next_ino = err enotdir

-- `buf[dst..dst + bytes.len()].copy_from_slice(bytes)`
unfoldable pub splice : (buf : List ℕ) (dst : ℕ) (bytes : List ℕ) → List ℕ
splice buf dst bytes = take dst buf ++ (bytes ++ drop (dst + length bytes) buf)

-- The piece of a cluster that a read from `offset` up to `stop` wants, for the cluster that holds the
-- bytes of the file from `start` on.
abbrev pub in_start : (start offset : ℕ) → ℕ
in_start start offset = if ltb start offset then offset - start else 0

abbrev pub in_end : (start cs stop : ℕ) → ℕ
in_end start cs stop = min stop (start + cs) - start

abbrev pub slice : List ℕ → (from to : ℕ) → List ℕ
slice bytes from to = take (to - from) (drop from bytes)

-- The loop over the clusters of a file, with the bytes that are done and the buffer.
unfoldable pub read_clusters :
    Disk
    → Fat32Ctx
    → (chain : List ℕ) (start offset stop done : ℕ) (buf : List ℕ) → Result ℕ (ℕ × List ℕ)
read_clusters disk ctx [] start offset stop done buf = ok (done, buf)
read_clusters disk ctx (cluster ∷ chain) start offset stop done buf =
    let cs = cluster_bytes ctx in
    let i = in_start start offset in
    let j = in_end start cs stop in
    let skipped = read_clusters disk ctx chain (start + cs) offset stop done buf in
    let copied = read_cluster disk ctx cluster >>= (λ bytes.
      read_clusters disk ctx chain (start + cs) offset stop (done + (j - i))
        (splice buf (start + i - offset) (slice bytes i j))) in
    if leb (start + cs) offset then skipped else if leb stop start then ok (done, buf) else copied

-- The bytes that `read` says it has read, and the buffer after it.
unfoldable pub fat_read :
    Disk → Fat32Ctx → FatNode → (offset : ℕ) (buf : List ℕ) → Result ℕ (ℕ × List ℕ)
fat_read disk ctx (fat_dir cluster ino) offset buf = err eisdir
fat_read disk ctx (fat_file cluster size ino) offset buf =
    if leb size offset || length buf == 0
    then ok (0, buf)
    else cluster_chain disk ctx cluster >>= (λ chain.
      read_clusters disk ctx chain 0 offset (offset + min (length buf) (size - offset)) 0 buf)
