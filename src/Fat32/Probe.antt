-- ===== src/Fat32/Probe.antt =====
-- src/fs/mbr.rs and the probes of src/fs/fat32.rs: what a drive must hold to be mounted.
use sar_osx.Base.{
  ℕ, ◌+◌, ◌*◌, Bool, not, ◌&&◌, ◌||◌, Option, none, some, List, [], ◌∷◌, map, ltb, ◌==◌,
  if◌then◌else◌, take, drop,
}
use sar_osx.Fat32.{Disk, Fat32Ctx, byte, le16, le32}
use sar_osx.Fat32.Inode.{FatNode, fat_dir}
use sar_osx.Fs.Vfs.{name_eq}

pub record Partition : Type 0 where
  pub status : ℕ
  pub part_type : ℕ
  pub lba_start : ℕ
  pub lba_count : ℕ

abbrev pub is_fat32 : Partition → Bool
is_fat32 p =
    p.part_type == 0x0B || (p.part_type == 0x0C || (p.part_type == 0x1B || p.part_type == 0x1C))

abbrev pub has_signature : List ℕ → Bool
has_signature sector = byte sector 510 == 0x55 && byte sector 511 == 0xAA

abbrev pub partition : List ℕ → ℕ → Option Partition
partition sector i =
    let off = 446 + i * 16 in
    let p : Partition = record {
      status = byte sector off;
      part_type = byte sector (off + 4);
      lba_start = le32 sector (off + 8);
      lba_count = le32 sector (off + 12);
    } in
    if ltb 0 p.lba_start && ltb 0 p.lba_count then some p else none

abbrev pub partitions : List ℕ → Option (List (Option Partition))
partitions sector =
    if has_signature sector then some (map (partition sector) (0 ∷ 1 ∷ 2 ∷ 3 ∷ [])) else none

abbrev pub and_then {ℓ κ} : {A : Type ℓ} {B : Type κ} → Option A → (A → Option B) → Option B
and_then none f = none
and_then (some a) f = f a

unfoldable pub mbr_read : Disk → Option (List (Option Partition))
mbr_read disk = and_then (disk 0 1) partitions

abbrev pub fat32_label : List ℕ
fat32_label = 70 ∷ 65 ∷ 84 ∷ 51 ∷ 50 ∷ []

-- A mounted file system: what is known of it, and its root.
pub record Fat32Fs : Type 0 where
  pub ctx : Fat32Ctx
  pub root : FatNode

boot_sector : (part_lba next_ino : ℕ) → List ℕ → Option Fat32Fs
boot_sector part_lba next_ino sector =
    let spc = byte sector 13 in
    let reserved_sectors = le16 sector 14 in
    let num_fats = byte sector 16 in
    let fat_size_16 = le16 sector 22 in
    let fat_size_32 = le32 sector 36 in
    let root_cluster = le32 sector 44 in
    let fat_start = part_lba + reserved_sectors in
    if not (has_signature sector)
    then none
    else if not (le16 sector 11 == 512)
    then none
    else if not (fat_size_16 == 0) || (fat_size_32 == 0 || spc == 0)
    then none
    else if not (name_eq (take 5 (drop 82 sector)) fat32_label)
    then none
    else some (record {
      ctx = record {
        part_lba = part_lba;
        spc = spc;
        fat_start = fat_start;
        data_start = fat_start + num_fats * fat_size_32;
        root_cluster = root_cluster;
      };
      root = fat_dir root_cluster next_ino;
    })

unfoldable pub probe : Disk → (part_lba next_ino : ℕ) → Option Fat32Fs
unfolding boot_sector
probe disk part_lba next_ino = and_then (disk part_lba 1) (boot_sector part_lba next_ino)

abbrev pub or_else {ℓ} : {A : Type ℓ} → Option A → Option A → Option A
or_else none b = b
or_else (some a) b = some a

unfoldable pub probe_parts : Disk → (next_ino : ℕ) → List (Option Partition) → Option Fat32Fs
probe_parts disk next_ino [] = none
probe_parts disk next_ino (none ∷ parts) = probe_parts disk next_ino parts
probe_parts disk next_ino (some part ∷ parts) =
    let rest = probe_parts disk next_ino parts in
    if is_fat32 part then or_else (probe disk part.lba_start next_ino) rest else rest

unfoldable pub probe_drive : Disk → (next_ino : ℕ) → Option Fat32Fs
probe_drive disk next_ino =
    or_else (and_then (mbr_read disk) (probe_parts disk next_ino)) (probe disk 0 next_ino)
