-- ===== src/Fs/RamFs/Shape.antt =====
-- What a change of the content of a file leaves as it is.
use sar_osx.Base.{ℕ, ◌≡◌, refl, sym, ap, ◌∙◌, inl, inr, List, arith, ◌==◌, Bool-cases}
use sar_osx.Fs.Vfs.{
  Name, Node, ram_file, Store, set_node, is_dir, is_symlink, is_directory, is_link, stat, stat_node,
}
use sar_osx.Fs.RamFs.{lookup, lookup_in, readlink, readlink_in}

-- The second store answers as the first one to what resolution asks.
pub record SameShape (s s' : Store) : Type 0 where
  pub lookups : (h : ℕ) (name : Name) → lookup s' h name ≡ lookup s h name
  pub dirs : (h : ℕ) → is_dir s' h ≡ is_dir s h
  pub links : (h : ℕ) → is_symlink s' h ≡ is_symlink s h
  pub targets : (h : ℕ) → readlink s' h ≡ readlink s h

-- A function of nodes that reads of a file only that it is one.
set_file :
    {B : Type 0} (f : Node → B) (s : Store) (h ino mode : ℕ) (old new : List ℕ)
    → s.node h ≡ ram_file ino mode old
    → f (ram_file ino mode new) ≡ f (ram_file ino mode old)
    → (j : ℕ) → f ((set_node s h (ram_file ino mode new)).node j) ≡ f (s.node j)
set_file f s h ino mode old new e k j = elim (Bool-cases (h == j)) [
  | inl t ↦
      let same : h ≡ j = ground arith in rw t (k ∙ sym (ap f e) ∙ ap (λ (i : ℕ). f (s.node i)) same)
  | inr t ↦ rw t
]

pub set_file-SameShape :
    (s : Store) (h ino mode : ℕ) (old new : List ℕ)
    → s.node h ≡ ram_file ino mode old
    → SameShape s (set_node s h (ram_file ino mode new))
unfolding lookup lookup_in readlink readlink_in is_dir is_symlink stat
set_file-SameShape s h ino mode old new e = record {
  lookups = λ j name. set_file (λ n. lookup_in n name) s h ino mode old new e refl j;
  dirs = λ j. set_file (λ n. is_directory (stat_node n).kind) s h ino mode old new e refl j;
  links = λ j. set_file (λ n. is_link (stat_node n).kind) s h ino mode old new e refl j;
  targets = λ j. set_file readlink_in s h ino mode old new e refl j;
}

pub SameShape-trans : (s s' s'' : Store) → SameShape s s' → SameShape s' s'' → SameShape s s''
SameShape-trans s s' s'' a b = record {
  lookups = λ h name. b.lookups h name ∙ a.lookups h name;
  dirs = λ h. b.dirs h ∙ a.dirs h;
  links = λ h. b.links h ∙ a.links h;
  targets = λ h. b.targets h ∙ a.targets h;
}
