-- ===== src/Base/Bytes.antt =====
-- Lists of bytes: the byte at a position, in a part of a list and in two lists joined.
use Prim.Native.Nat.{ℕ, zero, suc, ◌+◌, ◌≤◌, ◌<◌}
use mathlib.Core.Path.{◌≡◌, refl, ap}
use mathlib.Core.List.{List, [], ◌∷◌, ◌++◌}
use native.Mathlib.Omega.{arith}
use sar_osx.Base.Lists.{length, get_or, take, drop, replicate}

pub take-append_left : {A : Type 0} → (xs ys : List A) → take (length xs) (xs ++ ys) ≡ xs
take-append_left [] ys = refl
take-append_left (x ∷ xs) ys = ap (λ l. x ∷ l) (take-append_left xs ys)

pub drop-append_left : {A : Type 0} → (xs ys : List A) → drop (length xs) (xs ++ ys) ≡ ys
drop-append_left [] ys = refl
drop-append_left (x ∷ xs) ys = drop-append_left xs ys

-- The byte at a position, 0 beyond the end.
abbrev pub byte_at : List ℕ → ℕ → ℕ
byte_at content i = get_or content i 0

pub byte-append_left :
    (xs ys : List ℕ) (i : ℕ) → i < length xs → get_or (xs ++ ys) i 0 ≡ get_or xs i 0
byte-append_left [] ys i h = elim h [ ]
byte-append_left (x ∷ xs) ys zero h = refl
byte-append_left (x ∷ xs) ys (suc i) h = byte-append_left xs ys i (omega arith)

pub byte-append_right :
    (xs ys : List ℕ) (i j : ℕ) → j ≡ length xs + i → get_or (xs ++ ys) j 0 ≡ get_or ys i 0
byte-append_right [] ys i j e = let same : j ≡ i = omega arith in rw same
byte-append_right (x ∷ xs) ys i zero e = absurd (omega arith)
byte-append_right (x ∷ xs) ys i (suc j) e = byte-append_right xs ys i j (omega arith)

pub byte-replicate : (n i : ℕ) → byte_at (replicate n 0) i ≡ 0
byte-replicate zero i = refl
byte-replicate (suc n) zero = refl
byte-replicate (suc n) (suc i) = byte-replicate n i

pub byte-pad : (xs : List ℕ) (n i : ℕ) → get_or (xs ++ replicate n 0) i 0 ≡ get_or xs i 0
byte-pad [] n i = byte-replicate n i
byte-pad (x ∷ xs) n zero = refl
byte-pad (x ∷ xs) n (suc i) = byte-pad xs n i

pub byte-take : (n : ℕ) (xs : List ℕ) (i : ℕ) → i < n → get_or (take n xs) i 0 ≡ get_or xs i 0
byte-take zero xs i h = elim h [ ]
byte-take (suc n) [] i h = refl
byte-take (suc n) (x ∷ xs) zero h = refl
byte-take (suc n) (x ∷ xs) (suc i) h = byte-take n xs i (omega arith)

pub byte-drop : (n : ℕ) (xs : List ℕ) (i j : ℕ) → j ≡ n + i → get_or (drop n xs) i 0 ≡ get_or xs j 0
byte-drop zero xs i j e = let same : j ≡ i = omega arith in rw same
byte-drop (suc n) [] i j e = refl
byte-drop (suc n) (x ∷ xs) i zero e = absurd (omega arith)
byte-drop (suc n) (x ∷ xs) i (suc j) e = byte-drop n xs i j (omega arith)

pub take-long : {A : Type 0} → (n : ℕ) (xs : List A) → length xs ≤ n → take n xs ≡ xs
take-long zero [] h = refl
take-long zero (x ∷ xs) h = elim h [ ]
take-long (suc n) [] h = refl
take-long (suc n) (x ∷ xs) h = ap (λ l. x ∷ l) (take-long n xs (omega arith))

pub nil_of_length : {A : Type 0} → (xs : List A) → length xs ≡ 0 → xs ≡ []
nil_of_length [] h = refl
nil_of_length (x ∷ xs) h = absurd (omega arith)
