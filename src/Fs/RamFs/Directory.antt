-- ===== src/Fs/RamFs/Directory.antt =====
-- What the directory operations do to the names of a directory.
use sar_osx.Base.{
  inl, inr, ==_iff, Bool-cases, get_elem?, ℕ, ◌<◌, ◌≡◌, refl, sym, ap, ◌∙◌, ◌≢◌, true, false, none,
  some, arith, ◌==◌,
}
use mathlib.Core.Path.{subst}
use sar_osx.Base.Result.{ok, err}
use sar_osx.Fs.Vfs.{
  Name, enoent, eexist, enotdir, eisdir, enotempty, Node, ram_dir, ram_file, ram_symlink, Store,
  is_dir, Children, get, remove, name_eq,
}
use sar_osx.Fs.Vfs.Names.{name_eq_refl, get-insert, get-remove}
use sar_osx.Fs.RamFs.{
  dir_entry, readdir, readdir_in, lookup, lookup_in, add_node, add_in, link_new, unlink, unlink_in,
  unlink_entry, rmdir, rmdir_in, rmdir_entry, has_children, insert_child, insert_child_in, rename,
  rename_in, rename_entry, put_children,
}

-- `create`, `mkdir` and `symlink` in a directory that is in use, of a name that is free: the name
-- leads to the new node, at the next free address; every other name of the directory leads where
-- it led, and no other node in use changes; and a name that is taken is refused with nothing
-- changed.
pub add_node_lem :
    (s : Store) (dir ino mode : ℕ) (children : Children) (name : Name) (make : ℕ → Node)
    → s.node dir ≡ ram_dir ino mode children
    → dir < s.next
    → (get name children ≡ none
        → let after = (add_node s dir name make).1 in
          ((add_node s dir name make).0 ≡ ok s.next)
          × (lookup after dir name ≡ ok s.next)
          × (after.node s.next ≡ make s.next_ino)
          × ((other : Name)
              → name_eq name other ≡ false
              → lookup after dir other ≡ lookup s dir other)
          × ((j : ℕ) → j < s.next → dir ≢ j → after.node j ≡ s.node j))
      × ((h : ℕ) → get name children ≡ some h → add_node s dir name make ≡ (err eexist, s))
unfolding add_node add_in link_new lookup lookup_in
add_node_lem s dir ino mode children name make e room =
    let here : (dir == dir) ≡ true = ground arith in
    let apart : (dir == s.next) ≡ false = ground arith in
    let fresh : (s.next == s.next) ≡ true = ground arith in
    (
      λ free.
          rw (e, free, here, apart, fresh)
            (
              refl,
              rw (get-insert name name s.next children, name_eq_refl name),
              refl,
              λ other d. rw (get-insert name other s.next children, d),
              λ j lt d.
                  let there : (dir == j) ≡ false = ground arith in
                  let old : (s.next == j) ≡ false = ground arith in rw (there, old),
            ),
      λ h taken. rw (e, taken),
    )

-- `unlink` takes away the name of a file or link and no other name; it refuses a directory and a name
-- that is missing, with nothing changed.
pub unlink_lem :
    (s : Store) (dir ino mode : ℕ) (children : Children) (name : Name)
    → s.node dir ≡ ram_dir ino mode children
    → (get name children ≡ none → unlink s dir name ≡ (err enoent, s))
      × ((h : ℕ)
          → get name children ≡ some h
          → (is_dir s h ≡ true → unlink s dir name ≡ (err eisdir, s))
            × (is_dir s h ≡ false
                → let after = (unlink s dir name).1 in
                  ((unlink s dir name).0 ≡ ok tt)
                  × (lookup after dir name ≡ err enoent)
                  × ((other : Name)
                      → name_eq name other ≡ false
                      → lookup after dir other ≡ lookup s dir other)))
unfolding unlink unlink_in unlink_entry lookup lookup_in
unlink_lem s dir ino mode children name e =
    let here : (dir == dir) ≡ true = ground arith in
    (
      λ missing. rw (e, missing),
      λ h found. (
        λ d. rw (e, found, d),
        λ f.
            rw (e, found, f, here)
              (
                refl,
                rw (get-remove name name children, name_eq_refl name),
                λ other d. rw (get-remove name other children, d),
              ),
      ),
    )

-- `rmdir` takes away the name of an empty directory and no other name; it refuses a directory that
-- has entries, a file or link, and a name that is missing, with nothing changed.
pub rmdir_lem :
    (s : Store) (dir ino mode : ℕ) (children : Children) (name : Name)
    → s.node dir ≡ ram_dir ino mode children
    → (get name children ≡ none → rmdir s dir name ≡ (err enoent, s))
      × ((h : ℕ)
          → get name children ≡ some h
          → (is_dir s h ≡ false → rmdir s dir name ≡ (err enotdir, s))
            × (is_dir s h ≡ true
                → has_children (s.node h) ≡ true
                → rmdir s dir name ≡ (err enotempty, s))
            × (is_dir s h ≡ true
                → has_children (s.node h) ≡ false
                → let after = (rmdir s dir name).1 in
                  ((rmdir s dir name).0 ≡ ok tt)
                  × (lookup after dir name ≡ err enoent)
                  × ((other : Name)
                      → name_eq name other ≡ false
                      → lookup after dir other ≡ lookup s dir other)))
unfolding rmdir rmdir_in rmdir_entry lookup lookup_in
rmdir_lem s dir ino mode children name e =
    let here : (dir == dir) ≡ true = ground arith in
    (
      λ missing. rw (e, missing),
      λ h found. (
        λ f. rw (e, found, f),
        λ d full. rw (e, found, d, full),
        λ d empty.
            rw (e, found, d, empty, here)
              (
                refl,
                rw (get-remove name name children, name_eq_refl name),
                λ other k. rw (get-remove name other children, k),
              ),
      ),
    )

-- `rename` of a name into another directory: the node is found under the new name there and no
-- longer under the old name, and all other names of both directories lead where they led.
pub rename_lem :
    (s : Store) (dir ino mode : ℕ) (children : Children) (old : Name)
    → (to ino' mode' : ℕ) (there : Children) (new : Name) (h : ℕ)
    → s.node dir ≡ ram_dir ino mode children
    → s.node to ≡ ram_dir ino' mode' there
    → dir ≢ to
    → get old children ≡ some h
    → let after = (rename s dir old to new).1 in
      ((rename s dir old to new).0 ≡ ok tt)
      × (lookup after to new ≡ ok h)
      × (lookup after dir old ≡ err enoent)
      × ((other : Name) → name_eq old other ≡ false → lookup after dir other ≡ lookup s dir other)
      × ((other : Name) → name_eq new other ≡ false → lookup after to other ≡ lookup s to other)
unfolding rename rename_in rename_entry insert_child insert_child_in lookup lookup_in
rename_lem s dir ino mode children old to ino' mode' there new h e e' d found =
    let here : (dir == dir) ≡ true = ground arith in
    let here' : (to == to) ≡ true = ground arith in
    let apart : (dir == to) ≡ false = ground arith in
    let apart' : (to == dir) ≡ false = ground arith in
    rw (e, found, apart, e', here, here', apart')
      (
        refl,
        rw (get-insert new new h there, name_eq_refl new),
        rw (get-remove old old children, name_eq_refl old),
        λ other k. rw (get-remove old other children, k),
        λ other k. rw (get-insert new other h there, k),
      )

-- A node that is a file or a symbolic link.
abbrev pub IsNoDir : Node → Type 0
IsNoDir (ram_dir ino mode children) = ⊥
IsNoDir (ram_file ino mode content) = Unit
IsNoDir (ram_symlink ino target) = Unit

-- A node that takes no child refuses one with ENOTDIR, and the store stays as it was.
insert_child-IsNoDir :
    (s : Store) (to : ℕ) (node : Node) (new : Name) (h : ℕ)
    → IsNoDir node
    → insert_child_in s to node new h ≡ (err enotdir, s)
unfolding insert_child_in
insert_child-IsNoDir s to (ram_dir ino mode children) new h takes_none = absurd takes_none
insert_child-IsNoDir s to (ram_file ino mode content) new h takes_none = refl
insert_child-IsNoDir s to (ram_symlink ino target) new h takes_none = refl

-- `rename` of a name that is there, with a file or a symbolic link in place of the new directory, fails
-- with ENOTDIR, but the old name is gone all the same; the other names of its directory lead where they
-- led, and no other node changes.
pub rename-loses :
    (s : Store) (dir ino mode : ℕ) (children : Children) (old : Name) (to : ℕ) (new : Name) (h : ℕ)
    → s.node dir ≡ ram_dir ino mode children
    → IsNoDir (s.node to)
    → get old children ≡ some h
    → let after = (rename s dir old to new).1 in
      ((rename s dir old to new).0 ≡ err enotdir)
      × (lookup after dir old ≡ err enoent)
      × ((other : Name) → name_eq old other ≡ false → lookup after dir other ≡ lookup s dir other)
      × ((i : ℕ) → dir ≢ i → after.node i ≡ s.node i)
unfolding rename rename_in rename_entry insert_child lookup lookup_in
rename-loses s dir ino mode children old to new h e takes_none found =
    let here : (dir == dir) ≡ true = ground arith in
    let apart : (dir == to) ≡ false = elim (Bool-cases (dir == to)) [
      | inr n ↦ n
      | inl q ↦
          let same : dir ≡ to = (==_iff dir to).0 q in
          absurd (subst IsNoDir (sym (ap (λ (k : ℕ). s.node k) same) ∙ e) takes_none)
    ] in
    let left = put_children s dir ino mode (remove old children) in
    rw (e, found, apart, insert_child-IsNoDir left to (s.node to) new h takes_none, here)
      (
        refl,
        rw (get-remove old old children, name_eq_refl old) refl,
        λ other k. rw (get-remove old other children, k) refl,
        λ i away. let n : (dir == i) ≡ false = ground arith in rw n refl,
      )

pub readdir-dir :
    (s : Store) (h ino mode : ℕ) (children : Children) (offset : ℕ)
    → s.node h ≡ ram_dir ino mode children
    → readdir s h offset ≡ ok (dir_entry s (get_elem? children offset))
unfolding readdir readdir_in
readdir-dir s h ino mode children offset e = rw e
