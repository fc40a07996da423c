-- ===== src/Fs/Mount/Tests.antt =====
-- Runs of the operations on paths, and instances of the theorems of the mount table and of files.
use sar_osx.Base.{All, ℕ, zero, suc, ◌≡◌, refl, ◌≢◌, ◌⊎◌, List, [], ◌∷◌, map}
use sar_osx.Base.Result.{ok}
use sar_osx.Fs.Vfs.{Name, Node, ram_dir, ram_file, Store, is_dir, is_symlink, stat, get, name_eq}
use sar_osx.Fs.RamFs.{lookup}
use sar_osx.Fs.Walk.{slash, split, components, nonempty, resolve, resolve_inner, walk, step}
use sar_osx.Fs.Mount.{
  VfsContext, new, root_path, make_absolute, starts_with, resolve_mounted, resolve_path, read_file,
  write_file, readdir_all,
}
use sar_osx.Fs.Mount.Table.{Apart, Mounted, resolve_mounted-longest}
use sar_osx.Fs.Mount.Content.{read_file-write_file}
use sar_osx.Fs.Mount.Listing.{entry, readdir_all_lem}

abbrev name_a : Name
name_a = 97 ∷ []

abbrev name_b : Name
name_b = 98 ∷ []

abbrev children : List (Name × ℕ)
children = (name_a, 1) ∷ (name_b, 2) ∷ []

-- The root at 0 with the file a at 1 and the directory b at 2; another root at 3, mounted at /b.
abbrev nodes : ℕ → Node
nodes zero = ram_dir 1 0o755 children
nodes (suc zero) = ram_file 2 0o644 (7 ∷ 8 ∷ [])
nodes _ = ram_dir 3 0o755 []

abbrev store : Store
store = record { node = nodes; next = 4; next_ino = 5 }

abbrev path_a : Name
path_a = slash ∷ name_a

abbrev path_b : Name
path_b = slash ∷ name_b

abbrev vfs : VfsContext
vfs = record (new 0) { mounts = (path_b, 3) ∷ [] }

resolve-a : resolve_path vfs store path_a ≡ ok 1
unfolding make_absolute resolve_mounted starts_with resolve resolve_inner walk step components
    nonempty split lookup is_dir is_symlink stat get name_eq
resolve-a = refl

resolve-root : resolve_path vfs store root_path ≡ ok 0
unfolding make_absolute resolve_mounted starts_with resolve resolve_inner walk step components
    nonempty split lookup is_dir is_symlink stat get name_eq
resolve-root = refl

-- Under the mount point the root of the other file system is found.
resolve-b : resolve_path vfs store path_b ≡ ok 3
unfolding make_absolute resolve_mounted name_eq
resolve-b = refl

read_file-write_file_example :
    let after = (write_file vfs store path_a (5 ∷ [])).1 in
    ((write_file vfs store path_a (5 ∷ [])).0 ≡ ok tt)
    × (read_file vfs after path_a ≡ ok (5 ∷ []))
    × ((j : ℕ) → 1 ≢ j → after.node j ≡ nodes j)
read_file-write_file_example =
    read_file-write_file vfs store path_a 1 2 0o644 (7 ∷ 8 ∷ []) (5 ∷ []) resolve-a refl

readdir_all_lem_example : readdir_all vfs store root_path ≡ ok (map (entry store) children)
readdir_all_lem_example = readdir_all_lem vfs store root_path 0 1 0o755 children resolve-root refl

resolve_mounted-longest_example :
    Mounted store path_b vfs.mounts (resolve_mounted store 0 0 vfs.mounts path_b)
    ⊎ (All (Apart path_b) vfs.mounts
        × (resolve_mounted store 0 0 vfs.mounts path_b ≡ resolve store 0 0 path_b))
resolve_mounted-longest_example = resolve_mounted-longest store 0 0 vfs.mounts path_b (tt, tt)
