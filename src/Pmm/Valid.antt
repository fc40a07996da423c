-- ===== src/Pmm/Valid.antt =====
-- The invariant of the buddy allocator of src/mm/pmm.rs: every free block is aligned to its size and
-- in the address range, and the counters count. The elementary changes of a list keep it.
use sar_osx.Base.{
  ℕ, suc, ◌+◌, ◌*◌, ◌^◌, ◌≡◌, refl, ap, inl, inr, true, false, ◌&&◌, List, [], ◌∷◌, arith, ltb, leb,
  ◌==◌, if◌then◌else◌, ==_iff, Bool-cases, length,
}
use mathlib.Core.Path.{subst}
use sar_osx.Pmm.{block_size, FreeList, push, remove, unlink, BuddyAllocator, set_list, push_at}
use sar_osx.Pmm.Mass.{Fits, All, block_size-suc, mass}

abbrev pub ListIsValid : ℕ → FreeList → Type 0
ListIsValid o l = All (Fits o) l.blocks × (l.count ≡ length l.blocks)

-- The pages of a block.
abbrev pub pages : ℕ → ℕ → ℕ
pages o p = 2 ^ o

pub record IsValid (b : BuddyAllocator) : Type 0 where
  pub lists : (o : ℕ) → ListIsValid o (b.lists o)
  pub counted : b.free_pages ≡ mass pages b

-- Whether the byte at `f` lies in a block.
abbrev pub inside : ℕ → ℕ → ℕ → ℕ
inside f o p = if leb p f && ltb f (p + block_size o) then 1 else 0

-- In how many free blocks the byte at `f` lies.
abbrev pub covered : ℕ → BuddyAllocator → ℕ
covered f b = mass (inside f) b

-- A weight that a block shares out to its halves.
abbrev pub Halves : (ℕ → ℕ → ℕ) → Type 0
Halves w = (o p : ℕ) → w (suc o) p ≡ w o p + w o (p + block_size o)

pub pages-Halves : Halves pages
pages-Halves o p = omega (arith, block_size-suc o)

pub inside-Halves : (f : ℕ) → Halves (inside f)
inside-Halves f o p = ground (arith, block_size-suc o)

pub Fits-halves : (o p : ℕ) → Fits (suc o) p → Fits o p × Fits o (p + block_size o)
Fits-halves o p h = (
  record {
    index = h.index * 2;
    aligned = omega (arith, h.aligned, ap (λ (t : ℕ). h.index * t) (block_size-suc o));
    below = omega (arith, h.below, block_size-suc o);
  },
  record {
    index = h.index * 2 + 1;
    aligned = omega (arith, h.aligned, ap (λ (t : ℕ). h.index * t) (block_size-suc o));
    below = omega (arith, h.below, block_size-suc o);
  },
)

pub set_list-all :
    (P : ℕ → FreeList → Type 0) (f : ℕ → FreeList) (i : ℕ) (l : FreeList)
    → P i l
    → ((o : ℕ) → P o (f o))
    → (o : ℕ) → P o (set_list f i l o)
set_list-all P f i l h k o = elim (Bool-cases (i == o)) [
  | inl e ↦ rw e (subst (λ j. P j l) ((==_iff i o).0 e) h)
  | inr e ↦ rw e (k o)
]

pub push-ListIsValid :
    (o p : ℕ) (l : FreeList) → Fits o p → ListIsValid o l → ListIsValid o (push l p)
unfolding push
push-ListIsValid o p l h v = ((h, v.0), omega (arith, v.1))

pub push_at-lists :
    (b : BuddyAllocator) (i p : ℕ)
    → Fits i p
    → ((o : ℕ) → ListIsValid o (b.lists o))
    → (o : ℕ) → ListIsValid o ((push_at b i p).lists o)
push_at-lists b i p h v =
    set_list-all ListIsValid b.lists i (push (b.lists i) p)
      (push-ListIsValid i p (b.lists i) h (v i)) v

unlink-All : (o : ℕ) (l : List ℕ) (p : ℕ) → All (Fits o) l → All (Fits o) (unlink l p).1
unfolding unlink
unlink-All o [] p h = h
unlink-All o (x ∷ l) p h = elim (Bool-cases (x == p)) [
  | inl e ↦ rw e h.1
  | inr e ↦ rw e (h.0, unlink-All o l p h.1)
]

unlink-found :
    (o : ℕ) (l : List ℕ) (p : ℕ)
    → (unlink l p).0 ≡ true
    → All (Fits o) l
    → Fits o p × (length (unlink l p).1 + 1 ≡ length l)
unfolding unlink
unlink-found o [] p e h = cc
unlink-found o (x ∷ l) p e h = elim (Bool-cases (x == p)) [
  | inl t ↦ (subst (λ y. Fits o y) ((==_iff x p).0 t) h.0, rw t (omega arith))
  | inr t ↦ let r = unlink-found o l p (rw t at e) h.1 in (r.0, rw t (omega (arith, r.1)))
]

unlink-missed : (l : List ℕ) (p : ℕ) → (unlink l p).0 ≡ false → (unlink l p).1 ≡ l
unfolding unlink
unlink-missed [] p e = refl
unlink-missed (x ∷ l) p e = elim (Bool-cases (x == p)) [
  | inl t ↦ let bad : true ≡ false = rw t at e in cc
  | inr t ↦ rw t (ap (λ r. x ∷ r) (unlink-missed l p (rw t at e)))
]

-- A block that `remove` meets fits, and the list that is left is valid.
pub remove-found :
    (o p : ℕ) (l : FreeList)
    → (remove l p).0 ≡ true
    → ListIsValid o l
    → Fits o p × ListIsValid o (remove l p).1
unfolding remove
remove-found o p l e v =
    let r = unlink-found o l.blocks p e v.0 in
    (r.0, (unlink-All o l.blocks p v.0, rw e (omega (arith, r.1, v.1))))
