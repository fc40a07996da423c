-- ===== src/Fs/Mount/Content.antt =====
-- Whole files: `write_file` and `read_file` of src/fs/mount.rs, and the list that `readdir_all` makes.
use sar_osx.Base.{
  ℕ, zero, suc, ◌+◌, ◌-◌, ◌≡◌, refl, sym, ap, ◌∙◌, ◌≢◌, inl, inr, true, false, List, [], ◌∷◌,
  append-nil, arith, ◌==◌, Bool-cases, length, drop,
}
use sar_osx.Base.Bytes.{nil_of_length}
use sar_osx.Base.Result.{ok}
use sar_osx.Fs.Vfs.{Name, Node, ram_file, Store, set_node, stat}
use sar_osx.Fs.RamFs.{resize, write_bytes}
use sar_osx.Fs.RamFs.Content.{read-file, write-file, truncate-file, read_bytes-all, write_bytes-all}
use sar_osx.Fs.RamFs.Shape.{SameShape, SameShape-trans, set_file-SameShape}
use sar_osx.Fs.Walk.Stable.{resolve-SameShape}
use sar_osx.Fs.Mount.{
  VfsContext, resolve_mounted, resolve_path, make_absolute, open_path, opened, read_file,
  write_file,
}
use sar_osx.Fs.Mount.OpenFile.{File, open_file, file_read, file_write, read_loop}

resolve_mounted-SameShape :
    (s s' : Store)
    → SameShape s s'
    → (root cwd : ℕ) (mounts : List (Name × ℕ)) (abs : Name)
    → resolve_mounted s' root cwd mounts abs ≡ resolve_mounted s root cwd mounts abs
unfolding resolve_mounted
resolve_mounted-SameShape s s' same root cwd [] abs = resolve-SameShape s s' same root cwd abs
resolve_mounted-SameShape s s' same root cwd ((mp, r) ∷ rest) abs = rw (
  resolve-SameShape s s' same r r (drop (length mp) abs),
  resolve_mounted-SameShape s s' same root cwd rest abs,
)

read_loop-done : (turns : ℕ) (s : Store) (f : File) → read_loop turns s f 0 ≡ ok []
unfolding read_loop
read_loop-done zero s f = refl
read_loop-done (suc turns) s f = refl

module _ (s : Store) (h ino mode : ℕ) (content : List ℕ)
    (e : s.node h ≡ ram_file ino mode content) where
  read_loop-file :
      (turns : ℕ) → read_loop (suc turns) s (open_file h 0) (length content) ≡ ok content
  unfolding read_loop file_read
  read_loop-file turns =
      let all =
        read-file s h ino mode content e 0 (length content) ∙ ap ok (read_bytes-all content) in
      let left : length content - length content ≡ 0 = omega arith in
      elim (Bool-cases (length content == 0)) [
        | inl z ↦ rw z (ap ok (sym (nil_of_length content (ground arith))))
        | inr z ↦
            rw
              (
                z,
                all,
                z,
                left,
                read_loop-done turns s (record (open_file h 0) { offset = 0 + length content }),
              )
              (ap ok (append-nil content))
      ]

  stat-file : (stat s h).size ≡ length content
  unfolding stat
  stat-file = rw e

-- `read_file` of a path that leads to a file gives its whole content.
pub read_file_lem :
    (v : VfsContext) (s : Store) (path : Name) (h ino mode : ℕ) (content : List ℕ)
    → resolve_path v s path ≡ ok h
    → s.node h ≡ ram_file ino mode content
    → read_file v s path ≡ ok content
unfolding read_file open_path opened
read_file_lem v s path h ino mode content found e =
    rw (found, stat-file s h ino mode content e)
      (read_loop-file s h ino mode content e (length content))

pub set_node_self : (s : Store) (h : ℕ) (n : Node) → (set_node s h n).node h ≡ n
set_node_self s h n = let here : (h == h) ≡ true = ground arith in rw here

set_node-other : (s : Store) (h j : ℕ) (n : Node) → h ≢ j → (set_node s h n).node j ≡ s.node j
set_node-other s h j n d = let there : (h == j) ≡ false = ground arith in rw there

-- The store after the file is emptied, and after the data are written.
abbrev emptied : Store → (h ino mode : ℕ) (content : List ℕ) → Store
emptied s h ino mode content = set_node s h (ram_file ino mode (resize content 0))

abbrev filled : Store → (h ino mode : ℕ) (content bytes : List ℕ) → Store
filled s h ino mode content bytes =
    set_node (emptied s h ino mode content) h
      (ram_file ino mode (write_bytes (resize content 0) 0 bytes))

write_file-filled :
    (v : VfsContext) (s : Store) (path : Name) (h ino mode : ℕ) (content bytes : List ℕ)
    → resolve_path v s path ≡ ok h
    → s.node h ≡ ram_file ino mode content
    → write_file v s path bytes ≡ (ok tt, filled s h ino mode content bytes)
unfolding write_file open_path opened file_write
write_file-filled v s path h ino mode content bytes found e =
    let s1 = emptied s h ino mode content in
    rw (
      found,
      truncate-file s h ino mode content e 0,
      write-file s1 h ino mode (resize content 0)
          (set_node_self s h (ram_file ino mode (resize content 0))) 0 bytes,
    )

-- `write_file` to a path that leads to a file puts the data there in place of all it held: `read_file`
-- then gives exactly the data, and no other node has changed.
pub read_file-write_file :
    (v : VfsContext) (s : Store) (path : Name) (h ino mode : ℕ) (content bytes : List ℕ)
    → resolve_path v s path ≡ ok h
    → s.node h ≡ ram_file ino mode content
    → let after = (write_file v s path bytes).1 in
      ((write_file v s path bytes).0 ≡ ok tt)
      × (read_file v after path ≡ ok bytes)
      × ((j : ℕ) → h ≢ j → after.node j ≡ s.node j)
read_file-write_file v s path h ino mode content bytes found e =
    let s1 = emptied s h ino mode content in
    let new = write_bytes (resize content 0) 0 bytes in
    let same =
      SameShape-trans s s1 (filled s h ino mode content bytes)
        (set_file-SameShape s h ino mode content (resize content 0) e)
        (set_file-SameShape s1 h ino mode (resize content 0) new
          (set_node_self s h (ram_file ino mode (resize content 0)))) in
    rw (write_file-filled v s path h ino mode content bytes found e) (
      refl,
      read_file_lem v (filled s h ino mode content bytes) path h ino mode new
            (resolve_mounted-SameShape s (filled s h ino mode content bytes) same v.root v.cwd
                v.mounts (make_absolute v path)
              ∙ found)
            (set_node_self s1 h (ram_file ino mode new))
          ∙ ap ok (write_bytes-all content bytes),
      λ j d.
          set_node-other s1 h j (ram_file ino mode new) d
          ∙ set_node-other s h j (ram_file ino mode (resize content 0)) d,
    )
