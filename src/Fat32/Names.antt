-- ===== src/Fat32/Names.antt =====
-- Short names: what `parse_83_name` of src/fs/fat32.rs reads from a directory entry.
use sar_osx.Base.{
  All, ℕ, zero, suc, ◌-◌, ◌≤◌, ◌≡◌, refl, ap, ◌∙◌, false, List, [], ◌∷◌, ◌++◌, map, arith, ◌==◌,
  length, take, drop, replicate, length-append, length-replicate,
}
use mathlib.Core.Path.{subst}
use sar_osx.Base.Bytes.{take-append_left, drop-append_left}
use sar_osx.Fs.Vfs.{Name}
use sar_osx.Fat32.{to_ascii_lowercase, space, until_space, fix_first, join_ext, parse_83_name}

-- A part of a short name as it stands in an entry: padded with spaces.
abbrev pub padded : (width : ℕ) → Name → List ℕ
padded width part = part ++ replicate (width - length part) space

abbrev pub IsPlain : Name → Type 0
IsPlain part = All (λ c. (c == space) ≡ false) part

until_space-padded :
    (part : Name) (n : ℕ) → IsPlain part → until_space (part ++ replicate n space) ≡ part
unfolding until_space
until_space-padded [] zero p = refl
until_space-padded [] (suc n) p = refl
until_space-padded (c ∷ part) n p = rw (p.0, until_space-padded part n p.1)

length-padded : (width : ℕ) (part : Name) → length part ≤ width → length (padded width part) ≡ width
length-padded width part h = omega (
  arith,
  length-append part (replicate (width - length part) space),
  length-replicate (width - length part) space,
)

take-prefix : (n : ℕ) (xs ys : List ℕ) → length xs ≡ n → take n (xs ++ ys) ≡ xs
take-prefix n xs ys e = subst (λ k. take k (xs ++ ys) ≡ xs) e (take-append_left xs ys)

drop-prefix : (n : ℕ) (xs ys : List ℕ) → length xs ≡ n → drop n (xs ++ ys) ≡ ys
drop-prefix n xs ys e = subst (λ k. drop k (xs ++ ys) ≡ ys) e (drop-append_left xs ys)

fix_first-other : (c : ℕ) (rest : List ℕ) → (c == 0x05) ≡ false → fix_first (c ∷ rest) ≡ c ∷ rest
fix_first-other c rest h = rw h

-- An entry that holds a name of up to eight characters and an extension of up to three, both padded
-- with spaces and with none inside, is read as the two in small letters, with a dot between them if
-- there is an extension; the name does not begin with the byte 0x05.
pub parse_83_name-padded :
    (c : ℕ) (base ext : Name) (rest : List ℕ)
    → length base ≤ 7
    → length ext ≤ 3
    → IsPlain (c ∷ base)
    → IsPlain ext
    → (c == 0x05) ≡ false
    → parse_83_name (padded 8 (c ∷ base) ++ (padded 3 ext ++ rest))
      ≡ join_ext (map to_ascii_lowercase (c ∷ base)) (map to_ascii_lowercase ext)
unfolding parse_83_name
parse_83_name-padded c base ext rest fits fits' p p' first =
    let front = length-padded 8 (c ∷ base) (omega arith) in
    let back = length-padded 3 ext fits' in
    let tail = padded 3 ext ++ rest in
    let low = map to_ascii_lowercase in
    ap
      (λ a.
        join_ext (low (until_space (fix_first a)))
          (low (until_space (take 3 (drop 8 (padded 8 (c ∷ base) ++ tail))))))
      (take-prefix 8 (padded 8 (c ∷ base)) tail front)
    ∙ ap (λ b. join_ext (low (until_space (fix_first (padded 8 (c ∷ base))))) (low (until_space b)))
        (ap (take 3) (drop-prefix 8 (padded 8 (c ∷ base)) tail front)
          ∙ take-prefix 3 (padded 3 ext) rest back)
    ∙ ap (λ a. join_ext (low (until_space a)) (low (until_space (padded 3 ext))))
        (fix_first-other c (base ++ replicate (8 - length (c ∷ base)) space) first)
    ∙ ap (λ a. join_ext (low a) (low (until_space (padded 3 ext))))
        (until_space-padded (c ∷ base) (8 - length (c ∷ base)) p)
    ∙ ap (λ b. join_ext (low (c ∷ base)) (low b)) (until_space-padded ext (3 - length ext) p')
