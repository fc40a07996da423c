-- ===== src/Fs/Walk/Stable.antt =====
-- The resolution of paths depends on the directories and links alone: a change of the content of a
-- file leads no path elsewhere.
use sar_osx.Base.{ℕ, zero, suc, ◌≡◌, refl, ap, not, List, [], ◌∷◌, if◌then◌else◌}
use sar_osx.Base.Result.{Result, ok, err, ◌>>=◌, bind-ext}
use sar_osx.Fs.Vfs.{Name, Store, is_dir, is_symlink, name_eq}
use sar_osx.Fs.RamFs.{lookup, readlink}
use sar_osx.Fs.Walk.{
  dot, dot_dot, or_root, components, starts_absolute, step, walk, resolve_inner, resolve,
}
use sar_osx.Fs.RamFs.Shape.{SameShape}

module _ (s s' : Store) (same : SameShape s s') where
  step-SameShape :
      (inner inner' : ℕ → Name → Result ℕ ℕ)
      → ((h : ℕ) (path : Name) → inner' h path ≡ inner h path)
      → (root current : ℕ) (component : Name)
      → step inner' s' root current component ≡ step inner s root current component
  unfolding step
  step-SameShape inner inner' e root current component =
      rw (same.lookups current dot_dot, same.dirs current, same.lookups current component)
        (ap
          (λ (r : Result ℕ ℕ).
            if name_eq component dot
            then ok current
            else if name_eq component dot_dot
            then ok (or_root root (lookup s current dot_dot))
            else if not (is_dir s current)
            then err 20
            else r)
          (bind-ext (lookup s current component)
            (λ next. if is_symlink s' next then readlink s' next >>= inner' current else ok next)
            (λ next. if is_symlink s next then readlink s next >>= inner current else ok next)
            (λ next.
              rw (same.links next, same.targets next)
                (ap (λ (r : Result ℕ ℕ). if is_symlink s next then r else ok next)
                  (bind-ext (readlink s next) (inner' current) (inner current) (e current))))))

  walk-SameShape :
      (inner inner' : ℕ → Name → Result ℕ ℕ)
      → ((h : ℕ) (path : Name) → inner' h path ≡ inner h path)
      → (root current : ℕ) (parts : List Name)
      → walk inner' s' root current parts ≡ walk inner s root current parts
  unfolding walk
  walk-SameShape inner inner' e root current [] = refl
  walk-SameShape inner inner' e root current (c ∷ parts) =
      rw (step-SameShape inner inner' e root current c) (
        bind-ext (step inner s root current c) (λ next. walk inner' s' root next parts)
          (λ next. walk inner s root next parts)
          (λ next. walk-SameShape inner inner' e root next parts))

  resolve_inner-SameShape :
      (levels root cwd : ℕ) (path : Name)
      → resolve_inner levels s' root cwd path ≡ resolve_inner levels s root cwd path
  unfolding resolve_inner
  resolve_inner-SameShape zero root cwd path = refl
  resolve_inner-SameShape (suc levels) root cwd path =
      walk-SameShape (resolve_inner levels s root) (resolve_inner levels s' root)
        (resolve_inner-SameShape levels root) root (if starts_absolute path then root else cwd)
        (components path)

  -- Two stores that answer alike to lookups, to what is a directory or a link, and to the targets
  -- of links, resolve every path alike.
  pub resolve-SameShape :
      (root cwd : ℕ) (path : Name) → resolve s' root cwd path ≡ resolve s root cwd path
  unfolding resolve
  resolve-SameShape root cwd path = resolve_inner-SameShape 41 root cwd path
