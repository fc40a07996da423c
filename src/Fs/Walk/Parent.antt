-- ===== src/Fs/Walk/Parent.antt =====
-- Resolution of a path part by part: what a longer path adds to a shorter one.
use sar_osx.Base.{
  ℕ, suc, ◌≡◌, refl, sym, ap, ◌∙◌, inl, inr, false, List, [], ◌∷◌, ◌++◌, if◌then◌else◌, Bool-cases,
}
use sar_osx.Base.Result.{Result, ok, ◌>>=◌, bind_assoc, bind-ext, bind-ok}
use sar_osx.Fs.Vfs.{Name, Store}
use sar_osx.Fs.Walk.{
  is_empty, components, starts_absolute, step, walk, resolve_inner, resolve, trim_end, split_last,
  resolve_parent,
}
use sar_osx.Fs.Walk.Names.{IsSplit, split_last-IsSplit}

walk-append :
    (inner : ℕ → Name → Result ℕ ℕ) (s : Store) (root current : ℕ) (x y : List Name)
    → walk inner s root current (x ++ y)
      ≡ walk inner s root current x >>= (λ next. walk inner s root next y)
unfolding walk
walk-append inner s root current [] y = refl
walk-append inner s root current (c ∷ x) y =
    bind-ext (step inner s root current c) (λ next. walk inner s root next (x ++ y))
      (λ next. walk inner s root next x >>= (λ h. walk inner s root h y))
      (λ next. walk-append inner s root next x y)
    ∙ sym (
        bind_assoc (step inner s root current c) (λ next. walk inner s root next x)
          (λ next. walk inner s root next y))

-- One more part after a path: it is looked up in what the path leads to.
abbrev pub last_step : Store → (root : ℕ) → (parent : ℕ) (name : Name) → Result ℕ ℕ
last_step s root parent name = step (resolve_inner 40 s root) s root parent name

abbrev pub start_at : (root cwd : ℕ) (path : Name) → ℕ
start_at root cwd path = if starts_absolute path then root else cwd

resolve_inner-walk :
    (levels : ℕ) (s : Store) (root cwd : ℕ) (path : Name)
    → resolve_inner (suc levels) s root cwd path
      ≡ walk (resolve_inner levels s root) s root (start_at root cwd path) (components path)
unfolding resolve_inner
resolve_inner-walk levels s root cwd path = refl

pub resolve-walk :
    (s : Store) (root cwd : ℕ) (path : Name)
    → resolve s root cwd path
      ≡ walk (resolve_inner 40 s root) s root (start_at root cwd path) (components path)
unfolding resolve
resolve-walk s root cwd path = resolve_inner-walk 40 s root cwd path

walk-one :
    (inner : ℕ → Name → Result ℕ ℕ) (s : Store) (root current : ℕ) (name : Name)
    → walk inner s root current (name ∷ []) ≡ step inner s root current name
unfolding walk
walk-one inner s root current name = bind-ok (step inner s root current name)

walk-snoc :
    (inner : ℕ → Name → Result ℕ ℕ) (s : Store) (root current : ℕ) (x : List Name) (name : Name)
    → walk inner s root current (x ++ name ∷ [])
      ≡ walk inner s root current x >>= (λ next. step inner s root next name)
walk-snoc inner s root current x name =
    walk-append inner s root current x (name ∷ [])
    ∙ bind-ext (walk inner s root current x) (λ next. walk inner s root next (name ∷ []))
        (λ next. step inner s root next name) (λ next. walk-one inner s root next name)

-- The node that `resolve_parent` takes as the parent.
parent_of : Store → (root cwd : ℕ) (parent : Name) → Result ℕ ℕ
parent_of s root cwd parent = if is_empty parent then ok cwd else resolve s root cwd parent

parent_of-walk :
    (s : Store) (root cwd : ℕ) (path parent name : Name)
    → IsSplit path parent name
    → parent_of s root cwd parent
      ≡ walk (resolve_inner 40 s root) s root (start_at root cwd path) (components parent)
unfolding parent_of walk
parent_of-walk s root cwd path parent name k = elim (Bool-cases (is_empty parent)) [
  | inl e ↦ rw (e, (k.relative e).0, (k.relative e).1)
  | inr e ↦ rw (e, k.start e) (resolve-walk s root cwd parent)
]

-- To resolve a path that has more than slashes is to resolve its parent as `resolve_parent` does and
-- to take one step from there to the name that it gives, which is not empty; and both fail alike.
pub resolve_parent_lem :
    (s : Store) (root cwd : ℕ) (path : Name)
    → is_empty (trim_end path) ≡ false
    → (resolve s root cwd path ≡ resolve_parent s root cwd path >>= (λ r. last_step s root r.0 r.1))
      × (is_empty (split_last path).1 ≡ false)
unfolding resolve_parent parent_of
resolve_parent_lem s root cwd path filled =
    let k = split_last-IsSplit path filled in
    let parent = (split_last path).0 in
    let name = (split_last path).1 in
    let inner = resolve_inner 40 s root in
    let start = start_at root cwd path in
    (
      resolve-walk s root cwd path
          ∙ ap (walk inner s root start) k.parts
          ∙ walk-snoc inner s root start (components parent) name
          ∙ ap (λ (r : Result ℕ ℕ). r >>= (λ next. step inner s root next name))
              (sym (parent_of-walk s root cwd path parent name k))
          ∙ sym (
              bind_assoc (parent_of s root cwd parent) (λ p. ok (p, name))
                (λ (r : ℕ × Name). last_step s root r.0 r.1)),
      k.last,
    )
