-- ===== src/Fs/RamFs/Tests.antt =====
-- Runs of the file system in memory, and instances of its theorems.
use sar_osx.Base.{
  ℕ, zero, suc, ◌≤◌, ◌<◌, ◌≡◌, refl, ◌≢◌, ◌⊎◌, false, none, some, List, [], ◌∷◌, arith, length,
}
use mathlib.Core.Logic.{◌≢◌}
use sar_osx.Base.Bytes.{byte_at}
use sar_osx.Base.Result.{ok, err}
use sar_osx.Fs.Vfs.{Name, enoent, eexist, enotdir, Node, ram_dir, ram_file, Store, name_eq, get}
use sar_osx.Fs.RamFs.{lookup, read, write, add_node, rename}
use sar_osx.Fs.RamFs.Content.{file_bytes, write_lem}
use sar_osx.Fs.RamFs.Directory.{add_node_lem, rename-loses}

abbrev name_a : Name
name_a = 97 ∷ []

abbrev name_b : Name
name_b = 98 ∷ []

-- A directory at 0 with the file a at 1, and an empty directory b at 2.
abbrev nodes : ℕ → Node
nodes zero = ram_dir 1 0o755 ((name_a, 1) ∷ (name_b, 2) ∷ [])
nodes (suc zero) = ram_file 2 0o644 (7 ∷ 8 ∷ [])
nodes _ = ram_dir 3 0o755 []

abbrev store : Store
store = record { node = nodes; next = 3; next_ino = 4 }

abbrev bytes : List ℕ
bytes = 5 ∷ 6 ∷ []

write_lem_example :
    let after = (write store 1 3 bytes).1 in
    ((write store 1 3 bytes).0 ≡ ok 2)
    × (read after 1 3 2 ≡ ok bytes)
    × ((i : ℕ) → (i < 3) ⊎ (5 ≤ i) → byte_at (file_bytes (after.node 1)) i ≡ byte_at (7 ∷ 8 ∷ []) i)
    × (length (file_bytes (after.node 1)) ≡ 5)
    × ((j : ℕ) → 1 ≢ j → after.node j ≡ nodes j)
write_lem_example = write_lem store 1 2 0o644 (7 ∷ 8 ∷ []) 3 bytes refl

abbrev children : List (Name × ℕ)
children = (name_a, 1) ∷ (name_b, 2) ∷ []

abbrev name_c : Name
name_c = 99 ∷ []

abbrev empty_file : ℕ → Node
empty_file ino = ram_file ino 0o644 []

add_node_lem_example :
    (get name_c children ≡ none
      → let after = (add_node store 0 name_c empty_file).1 in
        ((add_node store 0 name_c empty_file).0 ≡ ok 3)
        × (lookup after 0 name_c ≡ ok 3)
        × (after.node 3 ≡ empty_file 4)
        × ((other : Name)
            → name_eq name_c other ≡ false
            → lookup after 0 other ≡ lookup store 0 other)
        × ((j : ℕ) → j < 3 → 0 ≢ j → after.node j ≡ nodes j))
    × ((h : ℕ)
        → get name_c children ≡ some h
        → add_node store 0 name_c empty_file ≡ (err eexist, store))
add_node_lem_example = add_node_lem store 0 1 0o755 children name_c empty_file refl (omega arith)

get-a : get name_a children ≡ some 1
unfolding get name_eq
get-a = refl

rename-loses_example :
    let after = (rename store 0 name_a 1 name_c).1 in
    ((rename store 0 name_a 1 name_c).0 ≡ err enotdir)
    × (lookup after 0 name_a ≡ err enoent)
    × ((other : Name) → name_eq name_a other ≡ false → lookup after 0 other ≡ lookup store 0 other)
    × ((i : ℕ) → 0 ≢ i → after.node i ≡ nodes i)
rename-loses_example = rename-loses store 0 1 0o755 children name_a 1 name_c 1 refl tt get-a
