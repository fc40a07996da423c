-- ===== src/Fs/Mount/Table.antt =====
-- The mount table: its order, and which file system a path belongs to.
use sar_osx.Base.{
  All-map, All, ap, append_assoc, length-append, ◌==◌, ==_iff, ℕ, suc, ◌≤◌, ◌≡◌, refl, sym, ◌∙◌,
  ◌⊎◌, inl, inr, Bool, true, false, ◌||◌, some, List, [], ◌∷◌, ◌++◌, arith, ltb, Bool-cases, length,
  get_elem?, drop,
}
use sar_osx.Base.Result.{Result, ok}
use sar_osx.Fs.Vfs.{Name, Store, name_eq}
use sar_osx.Fs.Vfs.Names.{name_eq_iff, eq_of_name_eq}
use sar_osx.Fs.Walk.{slash, resolve}
use sar_osx.Fs.Mount.{
  VfsContext, resolve_mounted, starts_with, mount, umount, insert_mount, retain_mounts,
}

-- The test of `resolve_abs`, and what it means: the path is the mount point, or goes on behind it with
-- a slash. A mount at `/` so covers `/` itself and the paths that begin with two slashes.
abbrev covers : (mp abs : Name) → Bool
covers mp abs = name_eq abs mp || starts_with abs (mp ++ slash ∷ [])

abbrev pub Covers : (mp abs : Name) → Type 0
Covers mp abs = (abs ≡ mp) ⊎ ((rest : Name) × (abs ≡ mp ++ slash ∷ rest))

starts_with-append : (prefix rest : Name) → starts_with (prefix ++ rest) prefix ≡ true
unfolding starts_with
starts_with-append [] rest = refl
starts_with-append (b ∷ prefix) rest =
    let same : (b == b) ≡ true = (==_iff b b).1 refl in
    rw (same, starts_with-append prefix rest) refl

append-starts_with :
    (path prefix : Name) → starts_with path prefix ≡ true → (rest : Name) × (path ≡ prefix ++ rest)
unfolding starts_with
append-starts_with path [] h = (path, refl)
append-starts_with [] (b ∷ prefix) h = cc
append-starts_with (a ∷ path) (b ∷ prefix) h = elim (Bool-cases (a == b)) [
  | inr n ↦ let bad : false ≡ true = rw n at h in cc
  | inl q ↦
      let (rest, e) = append-starts_with path prefix (rw q at h) in
      let same : a ≡ b = (==_iff a b).0 q in (rest, rw (same, e) refl)
]

drop-append : (xs ys : Name) → drop (length xs) (xs ++ ys) ≡ ys
drop-append [] ys = refl
drop-append (x ∷ xs) ys = drop-append xs ys

behind : (mp rest : Name) → mp ++ slash ∷ rest ≡ (mp ++ slash ∷ []) ++ rest
behind mp rest = sym (append_assoc mp (slash ∷ []) rest)

covers-Covers : (mp abs : Name) → covers mp abs ≡ true → Covers mp abs
covers-Covers mp abs h = elim (Bool-cases (name_eq abs mp)) [
  | inl e ↦ inl (eq_of_name_eq abs mp e)
  | inr e ↦
      let (rest, s) = append-starts_with abs (mp ++ slash ∷ []) (rw e at h) in
      inr (rest, s ∙ sym (behind mp rest))
]

Covers-covers : (mp abs : Name) → Covers mp abs → covers mp abs ≡ true
Covers-covers mp abs (inl e) =
    let same : name_eq abs mp ≡ true = (name_eq_iff abs mp).1 e in rw same refl
Covers-covers mp abs (inr (rest, e)) = elim (Bool-cases (name_eq abs mp)) [
  | inl q ↦ rw q refl
  | inr q ↦
      let start : starts_with abs (mp ++ slash ∷ []) ≡ true =
        rw (e, behind mp rest) (starts_with-append (mp ++ slash ∷ []) rest) in
      rw (q, start) refl
]

not_itself : (mp rest : Name) → name_eq (mp ++ slash ∷ rest) mp ≡ false
not_itself mp rest = elim (Bool-cases (name_eq (mp ++ slash ∷ rest) mp)) [
  | inr n ↦ n
  | inl e ↦
      let same : length (mp ++ slash ∷ rest) ≡ length mp =
        ap (λ (x : Name). length x) (eq_of_name_eq (mp ++ slash ∷ rest) mp e) in
      absurd (omega (arith, same, length-append mp (slash ∷ rest)))
]

-- The paths get no longer down the table.
abbrev NoLonger : ℕ → Name × ℕ → Type 0
NoLonger n m = length m.0 ≤ n

abbrev pub IsSorted : List (Name × ℕ) → Type 0
IsSorted [] = Unit
IsSorted (m ∷ rest) = All (NoLonger (length m.0)) rest × IsSorted rest

insert_mount-All :
    (n : ℕ) (mp : Name) (r : ℕ) (l : List (Name × ℕ))
    → length mp ≤ n
    → All (NoLonger n) l
    → All (NoLonger n) (insert_mount mp r l)
unfolding insert_mount
insert_mount-All n mp r [] h a = (h, tt)
insert_mount-All n mp r ((q, k) ∷ rest) h a = elim (Bool-cases (ltb (length q) (length mp))) [
  | inl e ↦ rw e (h, a)
  | inr e ↦ rw e (a.0, insert_mount-All n mp r rest h a.1)
]

insert_mount-IsSorted :
    (mp : Name) (r : ℕ) (l : List (Name × ℕ)) → IsSorted l → IsSorted (insert_mount mp r l)
unfolding insert_mount
insert_mount-IsSorted mp r [] s = (tt, tt)
insert_mount-IsSorted mp r ((q, k) ∷ rest) s = elim (Bool-cases (ltb (length q) (length mp))) [
  | inl e ↦
      let le : length q ≤ length mp = ground arith in
      rw e ((le, All-map (λ m b. omega arith) rest s.0), s)
  | inr e ↦ rw e (
    insert_mount-All (length q) mp r rest (ground arith) s.0,
    insert_mount-IsSorted mp r rest s.1,
  )
]

retain-All :
    (n : ℕ) (mp : Name) (l : List (Name × ℕ))
    → All (NoLonger n) l
    → All (NoLonger n) (retain_mounts mp l)
unfolding retain_mounts
retain-All n mp [] a = tt
retain-All n mp ((q, k) ∷ rest) a = elim (Bool-cases (name_eq q mp)) [
  | inl e ↦ rw e (retain-All n mp rest a.1)
  | inr e ↦ rw e (a.0, retain-All n mp rest a.1)
]

retain-IsSorted : (mp : Name) (l : List (Name × ℕ)) → IsSorted l → IsSorted (retain_mounts mp l)
unfolding retain_mounts
retain-IsSorted mp [] s = tt
retain-IsSorted mp ((q, k) ∷ rest) s = elim (Bool-cases (name_eq q mp)) [
  | inl e ↦ rw e (retain-IsSorted mp rest s.1)
  | inr e ↦ rw e (retain-All (length q) mp rest s.0, retain-IsSorted mp rest s.1)
]

-- If the table is in the order of the length of its paths, the longest first, then `mount` and
-- `umount` keep it so.
pub mount-umount-IsSorted :
    (v : VfsContext) (s : Store) (mountpoint : Name) (fs_root : ℕ)
    → IsSorted v.mounts
    → IsSorted (mount v s mountpoint fs_root).0.mounts × IsSorted (umount v mountpoint).1.mounts
unfolding mount umount
mount-umount-IsSorted v s mountpoint fs_root h =
    (insert_mount-IsSorted _ fs_root v.mounts h, retain-IsSorted mountpoint v.mounts h)

-- A path under a mount point: the entry with the longest path that covers it, and the answer that
-- resolution gives: the root of that file system, or what the rest of the path leads to from there.
pub record Mounted (s : Store) (abs : Name) (mounts : List (Name × ℕ)) (answer : Result ℕ ℕ)
    : Type 0 where
  pub mp : Name
  pub fs_root : ℕ
  pub index : ℕ
  pub entry : get_elem? mounts index ≡ some (mp, fs_root)
  pub covered : Covers mp abs
  pub longest : All (λ m. Covers m.0 abs → length m.0 ≤ length mp) mounts
  pub itself : abs ≡ mp → answer ≡ ok fs_root
  pub within :
      (rest : Name) → abs ≡ mp ++ slash ∷ rest → answer ≡ resolve s fs_root fs_root (slash ∷ rest)

abbrev pub Apart : Name → Name × ℕ → Type 0
Apart abs m = ¬ Covers m.0 abs

head-Mounted :
    (s : Store) (root cwd : ℕ) (q : Name) (k : ℕ) (rest : List (Name × ℕ)) (abs : Name)
    → IsSorted ((q, k) ∷ rest)
    → covers q abs ≡ true
    → Mounted s abs ((q, k) ∷ rest) (resolve_mounted s root cwd ((q, k) ∷ rest) abs)
unfolding resolve_mounted
head-Mounted s root cwd q k rest abs h c = record {
  mp = q;
  fs_root = k;
  index = 0;
  entry = refl;
  covered = covers-Covers q abs c;
  longest = (λ _. omega arith, All-map (λ m b _. b) rest h.0);
  itself = λ e. let same : name_eq abs q ≡ true = (name_eq_iff abs q).1 e in rw same refl;
  within = λ tail e.
      let more : name_eq abs q ≡ false = rw e (not_itself q tail) in
      let start : starts_with abs (q ++ slash ∷ []) ≡ true = rw more at c in
      rw (more, start)
        (ap (λ x. resolve s k k (drop (length q) x)) e
          ∙ ap (resolve s k k) (drop-append q (slash ∷ tail)));
}

-- In a table in the order of the lengths of its paths, a path is resolved in the file system with the
-- longest mount point that covers it, as its root or from its root with the rest of the path; and from
-- the root of all where none covers it. To cover a path is to be that path, or that path up to a slash.
pub resolve_mounted-longest :
    (s : Store) (root cwd : ℕ) (mounts : List (Name × ℕ)) (abs : Name)
    → IsSorted mounts
    → Mounted s abs mounts (resolve_mounted s root cwd mounts abs)
      ⊎ (All (Apart abs) mounts × (resolve_mounted s root cwd mounts abs ≡ resolve s root cwd abs))
unfolding resolve_mounted
resolve_mounted-longest s root cwd [] abs h = inr (tt, refl)
resolve_mounted-longest s root cwd ((q, k) ∷ rest) abs h = elim (Bool-cases (covers q abs)) [
  | inl c ↦ inl (head-Mounted s root cwd q k rest abs h c)
  | inr c ↦
      let not_it : name_eq abs q ≡ false = ground arith in
      let not_in : starts_with abs (q ++ slash ∷ []) ≡ false = ground arith in
      let away : Apart abs (q, k) =
        λ t. let bad : true ≡ false = sym (Covers-covers q abs t) ∙ c in cc in
      rw (not_it, not_in)
        (elim (resolve_mounted-longest s root cwd rest abs h.1) [
          | inl m ↦ inl (record {
            mp = m.mp;
            fs_root = m.fs_root;
            index = suc m.index;
            entry = m.entry;
            covered = m.covered;
            longest = (λ t. absurd (away t), m.longest);
            itself = m.itself;
            within = m.within;
          })
          | inr (a, e) ↦ inr ((away, a), e)
        ])
]
