-- ===== src/Fs/Walk/Names.antt =====
-- The parts of a path: where slashes stand does not matter, and `split_last` cuts off the last part.
use sar_osx.Base.{
  ℕ, zero, suc, ◌≡◌, refl, ap, ◌∙◌, inl, inr, Bool, true, false, ◌&&◌, ◌||◌, none, some, List, [],
  ◌∷◌, ◌++◌, append-nil, arith, ◌==◌, Bool-cases, Option-cases, take, drop, replicate,
}
use sar_osx.Fs.Vfs.{Name}
use sar_osx.Fs.Walk.{
  slash, is_empty, split, nonempty, components, starts_absolute, trim_end, later, rfind_slash,
  cut_at, split_last,
}

split-cons : (a : Name) → (part : Name) × (parts : List Name) × (split a ≡ part ∷ parts)
unfolding split
split-cons [] = ([], [], refl)
split-cons (c ∷ a) = elim (Bool-cases (c == slash)) [
  | inl e ↦ ([], split a, rw e)
  | inr e ↦ let (part, parts, s) = split-cons a in (c ∷ part, parts, rw (e, s))
]

split-append : (a b : Name) → split (a ++ slash ∷ b) ≡ split a ++ split b
unfolding split
split-append [] b = refl
split-append (c ∷ a) b = elim (Bool-cases (c == slash)) [
  | inl e ↦ rw (e, split-append a b)
  | inr e ↦ let (part, parts, s) = split-cons a in rw (e, split-append a b, s)
]

nonempty-append : (x y : List Name) → nonempty (x ++ y) ≡ nonempty x ++ nonempty y
unfolding nonempty
nonempty-append [] y = refl
nonempty-append ([] ∷ x) y = nonempty-append x y
nonempty-append ((c ∷ part) ∷ x) y = ap (λ l. (c ∷ part) ∷ l) (nonempty-append x y)

-- The components of two paths joined by a slash are those of the first and then those of the second.
pub components-append : (a b : Name) → components (a ++ slash ∷ b) ≡ components a ++ components b
unfolding components
components-append a b = ap nonempty (split-append a b) ∙ nonempty-append (split a) (split b)

components-slashes : (a : Name) (n : ℕ) → components (a ++ replicate n slash) ≡ components a
unfolding components nonempty split
components-slashes a zero = rw (append-nil a)
components-slashes a (suc n) =
    components-append a (replicate n slash)
    ∙ ap (λ l. components a ++ l) (components-slashes [] n)
    ∙ append-nil (components a)

nil_of_empty : (a : Name) → is_empty a ≡ true → a ≡ []
nil_of_empty [] h = refl
nil_of_empty (c ∷ a) h = cc

trimmed : (path : Name) → (n : ℕ) × (path ≡ trim_end path ++ replicate n slash)
unfolding trim_end
trimmed [] = (0, refl)
trimmed (c ∷ rest) =
    let (n, e) = trimmed rest in
    elim (Bool-cases (c == slash && is_empty (trim_end rest))) [
      | inl t ↦
          let first : c ≡ slash = ground arith in
          let none_left : trim_end rest ≡ [] = nil_of_empty (trim_end rest) (ground arith) in
          let all : rest ≡ replicate n slash = rw none_left at e in (suc n, rw t (cc))
      | inr t ↦ (n, rw t (ap (λ l. c ∷ l) e))
    ]

abbrev pub has_slash : Name → Bool
has_slash [] = false
has_slash (c ∷ rest) = c == slash || has_slash rest

split-plain : (a : Name) → has_slash a ≡ false → split a ≡ a ∷ []
unfolding split
split-plain [] h = refl
split-plain (c ∷ a) h =
    let here : (c == slash) ≡ false = ground arith in rw (here, split-plain a (ground arith))

components-plain :
    (c : ℕ) (a : Name) → has_slash (c ∷ a) ≡ false → components (c ∷ a) ≡ (c ∷ a) ∷ []
unfolding components nonempty
components-plain c a h = rw (split-plain (c ∷ a) h)

rfind-none : (t : Name) → rfind_slash t ≡ none → has_slash t ≡ false
unfolding rfind_slash
rfind-none [] h = refl
rfind-none (c ∷ rest) h = elim (Option-cases (rfind_slash rest)) [
  | inl e ↦ let k : later (c == slash) none ≡ none = rw e at h in ground (arith, rfind-none rest e)
  | inr (i, e) ↦ let k : later (c == slash) (some i) ≡ none = rw e at h in ground arith
]

-- A path cut at its last slash.
record Cut (t : Name) (i : ℕ) : Type 0 where
  joined : t ≡ take i t ++ slash ∷ drop (suc i) t
  plain : has_slash (drop (suc i) t) ≡ false

first-Cut :
    (c : ℕ) (rest : Name) (i : ℕ) → c ≡ slash → i ≡ 0 → has_slash rest ≡ false → Cut (c ∷ rest) i
first-Cut c rest i e zero_here p = rw (e, zero_here) (record { joined = refl; plain = p })

later-Cut : (c : ℕ) (rest : Name) (i j : ℕ) → i ≡ suc j → Cut rest j → Cut (c ∷ rest) i
later-Cut c rest i j e cut =
    rw e (record { joined = ap (λ l. c ∷ l) cut.joined; plain = cut.plain })

rfind-Cut : (t : Name) (i : ℕ) → rfind_slash t ≡ some i → Cut t i
unfolding rfind_slash
rfind-Cut [] i h = cc
rfind-Cut (c ∷ rest) i h = elim (Option-cases (rfind_slash rest)) [
  | inl e ↦
      let k : later (c == slash) none ≡ some i = rw e at h in
      elim (Bool-cases (c == slash)) [
        | inl t ↦ first-Cut c rest i (ground arith) (ground arith) (rfind-none rest e)
        | inr t ↦ absurd (ground arith)
      ]
  | inr (j, e) ↦
      let k : later (c == slash) (some j) ≡ some i = rw e at h in
      later-Cut c rest i j (ground arith) (rfind-Cut rest j e)
]

-- The last part of a path that is trimmed is not empty.
trim_end-last :
    (path : Name) (i : ℕ)
    → rfind_slash (trim_end path) ≡ some i
    → is_empty (drop (suc i) (trim_end path)) ≡ false
unfolding trim_end rfind_slash
trim_end-last [] i h = cc
trim_end-last (c ∷ rest) i h = elim (Bool-cases (c == slash && is_empty (trim_end rest))) [
  | inl t ↦ let bad : rfind_slash [] ≡ some i = rw t at h in cc
  | inr t ↦
      let k : later (c == slash) (rfind_slash (trim_end rest)) ≡ some i = rw t at h in
      rw t (elim (Option-cases (rfind_slash (trim_end rest))) [
        | inl e ↦
            let k' : later (c == slash) none ≡ some i = rw e at k in
            let zero_here : i ≡ 0 = ground arith in rw zero_here (ground arith)
        | inr (j, e) ↦
            let k' : later (c == slash) (some j) ≡ some i = rw e at k in
            let same : i ≡ suc j = ground arith in rw same (trim_end-last rest j e)
      ])
]

-- What `split_last` promises of a path that has more than slashes: a last part that is a name, and
-- what stands before it.
pub record IsSplit (path parent name : Name) : Type 0 where
  pub parts : components path ≡ components parent ++ name ∷ []
  pub last : is_empty name ≡ false
  pub plain : has_slash name ≡ false
  pub start : is_empty parent ≡ false → starts_absolute path ≡ starts_absolute parent
  pub relative : is_empty parent ≡ true → (starts_absolute path ≡ false) × (components parent ≡ [])

components-trim_end : (path : Name) → components path ≡ components (trim_end path)
components-trim_end path =
    let (n, e) = trimmed path in ap components e ∙ components-slashes (trim_end path) n

pub starts-append :
    (t rest : Name) → is_empty t ≡ false → starts_absolute (t ++ rest) ≡ starts_absolute t
starts-append [] rest h = cc
starts-append (c ∷ t) rest h = refl

starts-trim_end :
    (path : Name)
    → is_empty (trim_end path) ≡ false
    → starts_absolute path ≡ starts_absolute (trim_end path)
starts-trim_end path h =
    let (n, e) = trimmed path in
    ap starts_absolute e ∙ starts-append (trim_end path) (replicate n slash) h

pub components-name : (a : Name) → is_empty a ≡ false → has_slash a ≡ false → components a ≡ a ∷ []
components-name [] h p = cc
components-name (c ∷ a) h p = components-plain c a p

plain-relative : (a : Name) → has_slash a ≡ false → starts_absolute a ≡ false
plain-relative [] h = refl
plain-relative (c ∷ a) h = ground arith

starts-take :
    (t : Name) (i : ℕ) → is_empty t ≡ false → starts_absolute t ≡ starts_absolute (take (suc i) t)
starts-take [] i h = cc
starts-take (c ∷ t) i h = refl

take-filled : (t : Name) (i : ℕ) → is_empty t ≡ false → is_empty (take (suc i) t) ≡ false
take-filled [] i h = cc
take-filled (c ∷ t) i h = refl

cut_at-IsSplit :
    (t : Name)
    → is_empty t ≡ false
    → ((i : ℕ) → rfind_slash t ≡ some i → is_empty (drop (suc i) t) ≡ false)
    → IsSplit t (cut_at t (rfind_slash t)).0 (cut_at t (rfind_slash t)).1
unfolding components nonempty split
cut_at-IsSplit t filled last = elim (Option-cases (rfind_slash t)) [
  | inl e ↦
      let p = rfind-none t e in
      rw e (record {
        parts = components-name t filled p;
        last = filled;
        plain = p;
        start = λ h. cc;
        relative = λ h. (plain-relative t p, refl);
      })
  | inr (zero, e) ↦
      let cut = rfind-Cut t 0 e in
      let name = drop 1 t in
      let one : components name ≡ name ∷ [] = components-name name (last 0 e) cut.plain in
      rw e (record {
        parts = ap components cut.joined ∙ components-append [] name ∙ one;
        last = last 0 e;
        plain = cut.plain;
        start = λ h. ap starts_absolute cut.joined;
        relative = λ h. cc;
      })
  | inr (suc i, e) ↦
      let cut = rfind-Cut t (suc i) e in
      let name = drop (suc (suc i)) t in
      let front = take (suc i) t in
      let one : components name ≡ name ∷ [] = components-name name (last (suc i) e) cut.plain in
      rw e (record {
        parts =
            ap components cut.joined
            ∙ components-append front name
            ∙ ap (λ l. components front ++ l) one;
        last = last (suc i) e;
        plain = cut.plain;
        start = λ h. starts-take t i filled;
        relative = λ h. let bad = take-filled t i filled in cc;
      })
]

-- `split_last` of a path that has more than slashes cuts off its last part, a name without slashes; what
-- is left has the other parts, and starts at the root if the path does.
pub split_last-IsSplit :
    (path : Name)
    → is_empty (trim_end path) ≡ false
    → IsSplit path (split_last path).0 (split_last path).1
unfolding split_last
split_last-IsSplit path filled =
    let k = cut_at-IsSplit (trim_end path) filled (trim_end-last path) in
    record {
      parts = components-trim_end path ∙ k.parts;
      last = k.last;
      plain = k.plain;
      start = λ h. starts-trim_end path filled ∙ k.start h;
      relative = λ h. (starts-trim_end path filled ∙ (k.relative h).0, (k.relative h).1);
    }
