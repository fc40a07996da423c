-- ===== src/Fs/Mount/OpenFile.antt =====
-- Open files: `File` of src/fs/vfs.rs, and the loops over them in `readdir_all` and `read_file` of
-- src/fs/mount.rs.
use sar_osx.Base.{
  ℕ, zero, suc, ◌+◌, ◌-◌, bit_and, Option, none, some, List, [], ◌∷◌, ◌++◌, ◌==◌, if◌then◌else◌,
  length,
}
use sar_osx.Base.Result.{Result, ok, err, ◌>>=◌}
use sar_osx.Fs.Vfs.{Node, ram_dir, ram_file, ram_symlink, DirEntry, Store, stat, o_append}
use sar_osx.Fs.RamFs.{Answer, read, write, readdir}

pub record File : Type 0 where
  pub inode : ℕ
  pub offset : ℕ
  pub flags : ℕ

abbrev pub open_file : (inode flags : ℕ) → File
open_file i f = record { inode = i; offset = 0; flags = f }

-- The offset moves by what an operation answers, and stays where it fails.
abbrev pub moved : File → (offset : ℕ) → Result ℕ ℕ → File
moved f offset (ok n) = record f { offset = offset + n }
moved f offset (err e) = record f { offset = offset }

abbrev pub amount : Result ℕ (List ℕ) → Result ℕ ℕ
amount r = r >>= (λ bytes. ok (length bytes))

unfoldable pub file_read : Store → File → (len : ℕ) → Result ℕ (List ℕ) × File
file_read s f len = let r = read s f.inode f.offset len in (r, moved f f.offset (amount r))

unfoldable pub file_write : Store → File → List ℕ → Answer ℕ × File
file_write s f bytes =
    let off = if bit_and f.flags o_append == 0 then f.offset else (stat s f.inode).size in
    let (r, s') = write s f.inode off bytes in ((r, s'), moved f off r)

abbrev pub seek_set : File → ℕ → File
seek_set f pos = record f { offset = pos }

abbrev pub tell : File → ℕ
tell f = f.offset

abbrev pub entry_count : Result ℕ (Option DirEntry) → Result ℕ ℕ
entry_count (ok none) = ok 0
entry_count (ok (some e)) = ok 1
entry_count (err e) = err e

unfoldable pub readdir_next : Store → File → Result ℕ (Option DirEntry) × File
readdir_next s f = let r = readdir s f.inode f.offset in (r, moved f f.offset (entry_count r))

-- The entries of a directory, the bound on the turns of the loop below.
abbrev pub children_of : Node → ℕ
children_of (ram_dir ino mode children) = length children
children_of (ram_file ino mode content) = 0
children_of (ram_symlink ino target) = 0

abbrev pub entries_of : Store → ℕ → ℕ
entries_of s i = children_of (s.node i)

unfoldable pub push_entry : Option DirEntry → Result ℕ (List DirEntry) → Result ℕ (List DirEntry)
push_entry none rest = ok []
push_entry (some e) rest = rest >>= (λ l. ok (e ∷ l))

-- `while let Some(e) = file.readdir_next()? { entries.push(e); }`
unfoldable pub readdir_loop : (turns : ℕ) → Store → File → Result ℕ (List DirEntry)
unfolding push_entry
readdir_loop zero s f = ok []
readdir_loop (suc turns) s f =
    let (r, f') = readdir_next s f in
    let rest = readdir_loop turns s f' in r >>= (λ e. push_entry e rest)

-- The loop of `read_file`, for the `left` bytes of the buffer that are still to be filled.
unfoldable pub read_loop : (turns : ℕ) → Store → File → (left : ℕ) → Result ℕ (List ℕ)
read_loop zero s f left = ok []
read_loop (suc turns) s f left =
    let (r, f') = file_read s f left in
    let turn = r >>= (λ bytes.
      let rest = read_loop turns s f' (left - length bytes) in
      if length bytes == 0 then ok [] else rest >>= (λ more. ok (bytes ++ more))) in
    if left == 0 then ok [] else turn
