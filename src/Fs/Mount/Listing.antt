-- ===== src/Fs/Mount/Listing.antt =====
-- The list that `readdir_all` of src/fs/mount.rs makes of a directory.
use sar_osx.Base.{
  ℕ, zero, suc, ◌+◌, ◌≡◌, refl, sym, ap, ◌∙◌, none, some, List, [], ◌∷◌, ◌++◌, map, append-nil,
  append_assoc, arith, length, get_elem?, length-append,
}
use sar_osx.Base.Result.{ok}
use sar_osx.Fs.Vfs.{Name, ram_dir, DirEntry, Store, stat, is_dir, Children, stat_node}
use sar_osx.Fs.RamFs.{dir_entry}
use sar_osx.Fs.RamFs.Directory.{readdir-dir}
use sar_osx.Fs.Mount.{VfsContext, resolve_path, readdir_all}
use sar_osx.Fs.Mount.OpenFile.{File, readdir_next, readdir_loop, push_entry}

-- The entry of a child.
abbrev pub entry : Store → Name × ℕ → DirEntry
entry s c = let st = stat_node (s.node c.1) in record { name = c.0; ino = st.ino; kind = st.kind }

get_elem?-end : {A : Type 0} → (xs : List A) (i : ℕ) → i ≡ length xs → get_elem? xs i ≡ none
get_elem?-end [] i e = refl
get_elem?-end (x ∷ xs) zero e = absurd (omega arith)
get_elem?-end (x ∷ xs) (suc i) e = get_elem?-end xs i (omega arith)

get_elem?-append :
    {A : Type 0}
    → (xs ys : List A) (y : A) (i : ℕ) → i ≡ length xs
    → get_elem? (xs ++ y ∷ ys) i ≡ some y
get_elem?-append [] ys y zero e = refl
get_elem?-append [] ys y (suc i) e = absurd (omega arith)
get_elem?-append (x ∷ xs) ys y zero e = absurd (omega arith)
get_elem?-append (x ∷ xs) ys y (suc i) e = get_elem?-append xs ys y i (omega arith)

abbrev at_offset : (h offset : ℕ) → File
at_offset h o = record { inode = h; offset = o; flags = 0 }

-- The loop, when the entries before the offset have been read.
readdir_loop-suffix :
    (s : Store) (h ino mode : ℕ) (before after : Children) (offset : ℕ)
    → s.node h ≡ ram_dir ino mode (before ++ after)
    → offset ≡ length before
    → readdir_loop (suc (length after)) s (at_offset h offset) ≡ ok (map (entry s) after)
unfolding readdir_loop readdir_next dir_entry push_entry
readdir_loop-suffix s h ino mode before [] offset e o =
    let whole : s.node h ≡ ram_dir ino mode before =
      e ∙ ap (ram_dir ino mode) (append-nil before) in
    rw (readdir-dir s h ino mode before offset whole, get_elem?-end before offset o)
readdir_loop-suffix s h ino mode before (c ∷ after) offset e o =
    let shifted : s.node h ≡ ram_dir ino mode ((before ++ c ∷ []) ++ after) =
      e ∙ ap (ram_dir ino mode) (sym (append_assoc before (c ∷ []) after)) in
    rw (
      readdir-dir s h ino mode (before ++ c ∷ after) offset e,
      get_elem?-append before after c offset o,
      readdir_loop-suffix s h ino mode (before ++ c ∷ []) after (offset + 1) shifted
          (omega (arith, length-append before (c ∷ []))),
    )

-- `readdir_all` of a path that leads to a directory ends, with every entry of it once, in the order in
-- which the directory keeps them.
pub readdir_all_lem :
    (v : VfsContext) (s : Store) (path : Name) (h ino mode : ℕ) (children : Children)
    → resolve_path v s path ≡ ok h
    → s.node h ≡ ram_dir ino mode children
    → readdir_all v s path ≡ ok (map (entry s) children)
unfolding readdir_all is_dir stat
readdir_all_lem v s path h ino mode children found e =
    rw (found, e) (readdir_loop-suffix s h ino mode [] children 0 e refl)
