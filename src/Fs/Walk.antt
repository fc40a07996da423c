-- ===== src/Fs/Walk.antt =====
-- src/fs/path.rs: the resolution of a path, from a root and a working directory.
-- `resolve_inner` calls itself for the target of a link and gives up at depth 41; `levels` is the
-- number of depths that are left, so 41 at the start and none where the code gives up.
pub mod Names
pub mod Parent
pub mod Stable
mod Tests
use sar_osx.Base.{
  ℕ, zero, suc, ◌+◌, ◌-◌, ◌*◌, ◌/◌, ◌%◌, ◌^◌, ◌≤◌, ◌<◌, min, max, bit_and, bit_or, bit_xor, ◌≡◌,
  refl, sym, ap, ◌∙◌, ◌≢◌, ◌↔◌, ◌⊎◌, inl, inr, Bool, true, false, not, ◌&&◌, ◌||◌, Option, none,
  some, List, [], ◌∷◌, ◌++◌, map, append-nil, append_assoc, arith, ltb, leb, ◌==◌, if◌then◌else◌,
  ltb→lt, lt→ltb, leb→le, ==_iff, tests, Bool-cases, Option-cases, length, get_elem?, set, get_or,
  take, drop, replicate, length-append, length-set, length-take, length-drop, length-replicate,
  length-map,
}
use sar_osx.Base.Result.{Result, ok, err, ◌>>=◌}
use sar_osx.Fs.Vfs.{Name, enotdir, Store, is_dir, is_symlink, name_eq}
use sar_osx.Fs.RamFs.{lookup, readlink}

abbrev pub slash : ℕ
slash = 47

abbrev pub dot : Name
dot = 46 ∷ []

abbrev pub dot_dot : Name
dot_dot = 46 ∷ 46 ∷ []

abbrev pub is_empty : Name → Bool
is_empty [] = true
is_empty (_ ∷ _) = false

-- Puts a byte before the first part.
abbrev pub extend_first : ℕ → List Name → List Name
extend_first c [] = (c ∷ []) ∷ []
extend_first c (part ∷ parts) = (c ∷ part) ∷ parts

-- `split('/')`
unfoldable pub split : Name → List Name
split [] = [] ∷ []
split (c ∷ rest) = let parts = split rest in if c == slash then [] ∷ parts else extend_first c parts

-- `filter(|s| !s.is_empty())`
unfoldable pub nonempty : List Name → List Name
nonempty [] = []
nonempty (part ∷ parts) = let rest = nonempty parts in if is_empty part then rest else part ∷ rest

unfoldable pub components : Name → List Name
components path = nonempty (split path)

abbrev pub starts_absolute : Name → Bool
starts_absolute [] = false
starts_absolute (c ∷ _) = c == slash

abbrev pub or_root : ℕ → Result ℕ ℕ → ℕ
or_root root (ok h) = h
or_root root (err e) = root

-- One turn of the loop, at the directory `current`; `inner` resolves the target of a link from there.
unfoldable pub step :
    (inner : ℕ → Name → Result ℕ ℕ) → Store → (root current : ℕ) (component : Name) → Result ℕ ℕ
step inner s root current component =
    if name_eq component dot
    then ok current
    else if name_eq component dot_dot
    then ok (or_root root (lookup s current dot_dot))
    else if not (is_dir s current)
    then err enotdir
    else lookup s current component
      >>= (λ next. if is_symlink s next then readlink s next >>= inner current else ok next)

unfoldable pub walk :
    (inner : ℕ → Name → Result ℕ ℕ) → Store → (root current : ℕ) → List Name → Result ℕ ℕ
walk inner s root current [] = ok current
walk inner s root current (component ∷ rest) =
    step inner s root current component >>= (λ next. walk inner s root next rest)

unfoldable pub resolve_inner : (levels : ℕ) → Store → (root cwd : ℕ) (path : Name) → Result ℕ ℕ
resolve_inner zero s root cwd path = err 40
resolve_inner (suc levels) s root cwd path =
    walk (resolve_inner levels s root) s root (if starts_absolute path then root else cwd)
      (components path)

unfoldable pub resolve : Store → (root cwd : ℕ) (path : Name) → Result ℕ ℕ
resolve s root cwd path = resolve_inner 41 s root cwd path

-- `trim_end_matches('/')`
unfoldable pub trim_end : Name → Name
trim_end [] = []
trim_end (c ∷ rest) =
    let kept = trim_end rest in if c == slash && is_empty kept then [] else c ∷ kept

abbrev pub later : Bool → Option ℕ → Option ℕ
later here none = if here then some 0 else none
later here (some i) = some (suc i)

-- `rfind('/')`
unfoldable pub rfind_slash : Name → Option ℕ
rfind_slash [] = none
rfind_slash (c ∷ rest) = later (c == slash) (rfind_slash rest)

abbrev pub cut_at : Name → Option ℕ → Name × Name
cut_at path none = ([], path)
cut_at path (some zero) = (slash ∷ [], drop 1 path)
cut_at path (some (suc i)) = (take (suc i) path, drop (suc (suc i)) path)

unfoldable pub split_last : Name → Name × Name
split_last path = cut_at (trim_end path) (rfind_slash (trim_end path))

unfoldable pub resolve_parent : Store → (root cwd : ℕ) (path : Name) → Result ℕ (ℕ × Name)
resolve_parent s root cwd path =
    let (parent_path, name) = split_last path in
    (if is_empty parent_path then ok cwd else resolve s root cwd parent_path)
    >>= (λ parent. ok (parent, name))
