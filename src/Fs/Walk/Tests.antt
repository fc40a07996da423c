-- ===== src/Fs/Walk/Tests.antt =====
-- Runs of the resolution of paths, and instances of its theorems.
use sar_osx.Base.{ℕ, zero, suc, ◌≡◌, refl, false, [], ◌∷◌, ◌++◌}
use sar_osx.Base.Result.{ok, err, ◌>>=◌}
use sar_osx.Fs.Vfs.{
  Name, Node, ram_dir, ram_file, ram_symlink, Store, name_eq, get, is_dir, is_symlink, stat,
}
use sar_osx.Fs.RamFs.{lookup, readlink}
use sar_osx.Fs.Vfs.{set_node}
use sar_osx.Fs.Walk.{
  slash, split, components, trim_end, rfind_slash, split_last, resolve, resolve_inner,
  resolve_parent, is_empty, nonempty, walk, step,
}
use sar_osx.Fs.Walk.Parent.{last_step, resolve_parent_lem}

abbrev name_a : Name
name_a = 97 ∷ []

abbrev name_b : Name
name_b = 98 ∷ []

abbrev name_l : Name
name_l = 108 ∷ []

-- The root at 0 with the directory a at 1, in which stand the file b at 2 and the link l to itself.
abbrev nodes : ℕ → Node
nodes zero = ram_dir 1 0o755 ((name_a, 1) ∷ [])
nodes (suc zero) = ram_dir 2 0o755 ((name_b, 2) ∷ (name_l, 3) ∷ [])
nodes (suc (suc zero)) = ram_file 3 0o644 []
nodes _ = ram_symlink 4 name_l

abbrev store : Store
store = record { node = nodes; next = 4; next_ino = 5 }

-- /a, /a/b/ and a//l
abbrev path_a : Name
path_a = slash ∷ name_a

abbrev path_b : Name
path_b = path_a ++ slash ∷ name_b ++ slash ∷ []

abbrev path_l : Name
path_l = name_a ++ slash ∷ slash ∷ name_l

trim_end-path : trim_end path_b ≡ path_a ++ slash ∷ name_b
unfolding trim_end
trim_end-path = refl

split_last-path : split_last path_b ≡ (path_a, name_b)
unfolding split_last trim_end rfind_slash
split_last-path = refl

resolve-path : resolve store 0 0 path_b ≡ ok 2
unfolding resolve resolve_inner walk step components nonempty split lookup is_dir is_symlink stat
    get name_eq
resolve-path = refl

-- A link to itself uses up all the levels.
resolve-link : resolve store 0 0 path_l ≡ err 40
unfolding resolve resolve_inner walk step components nonempty split lookup readlink is_dir
    is_symlink stat get name_eq
resolve-link = refl

resolve_parent_lem_example :
    (resolve store 0 0 path_b
      ≡ resolve_parent store 0 0 path_b >>= (λ r. last_step store 0 r.0 r.1))
    × (is_empty (split_last path_b).1 ≡ false)
unfolding trim_end
resolve_parent_lem_example = resolve_parent_lem store 0 0 path_b refl

resolve-a : resolve store 0 0 path_a ≡ ok 1
unfolding resolve resolve_inner walk step components nonempty split lookup is_dir is_symlink stat
    get name_eq
resolve-a = refl

abbrev changed : Store
changed = set_node store 2 (ram_file 3 0o644 (1 ∷ []))
