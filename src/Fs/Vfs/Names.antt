-- ===== src/Fs/Vfs/Names.antt =====
-- Names as keys: when two are equal, and what the children of a directory hold after a change.
use sar_osx.Base.{ℕ, ◌≡◌, refl, ◌↔◌, true, none, some, [], ◌∷◌, arith, if◌then◌else◌}
use sar_osx.Fs.Vfs.{Name, name_eq, Children, get, insert, remove}

pub name_eq_refl : (x : Name) → name_eq x x ≡ true
unfolding name_eq
name_eq_refl [] = refl
name_eq_refl (a ∷ x) = ground (arith, name_eq_refl x)

pub eq_of_name_eq : (x y : Name) → name_eq x y ≡ true → x ≡ y
unfolding name_eq
eq_of_name_eq [] [] h = refl
eq_of_name_eq [] (b ∷ y) h = cc
eq_of_name_eq (a ∷ x) [] h = cc
eq_of_name_eq (a ∷ x) (b ∷ y) h = ground (arith, eq_of_name_eq x y)

pub name_eq_iff : (x y : Name) → (name_eq x y ≡ true) ↔ (x ≡ y)
name_eq_iff x y = (eq_of_name_eq x y, λ e. rw e (name_eq_refl y))

-- An entry is found under its name from then on, and the others as before.
pub get-insert :
    (k j : Name) (v : ℕ) (m : Children)
    → get j (insert k v m) ≡ (if name_eq k j then some v else get j m)
unfolding get insert
get-insert k j v [] = refl
get-insert k j v ((i, h) ∷ m) =
    ground (arith, name_eq_iff k j, name_eq_iff i k, name_eq_iff i j, get-insert k j v m)

pub get-remove :
    (k j : Name) (m : Children) → get j (remove k m) ≡ (if name_eq k j then none else get j m)
unfolding get remove
get-remove k j [] = ground arith
get-remove k j ((i, h) ∷ m) =
    ground (arith, name_eq_iff k j, name_eq_iff i k, name_eq_iff i j, get-remove k j m)
