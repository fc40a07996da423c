-- ===== src/VmSpace/Gap.antt =====
-- Which addresses the areas of an address space of src/mm/vmm.rs cover, and the gap above the break.
use sar_osx.Base.{
  ◌⊎◌, ℕ, ◌≤◌, ◌<◌, ◌≡◌, refl, inl, inr, Bool, true, false, ◌||◌, none, some, List, [], ◌∷◌, arith,
  leb, Bool-cases,
}
use sar_osx.VmSpace.{VmaEntry, vma, contains, VmSpace, find_area, find_vma, insert_area, add_vma}

abbrev pub mapped_in : List VmaEntry → ℕ → Bool
mapped_in [] addr = false
mapped_in (a ∷ rest) addr = contains a addr || mapped_in rest addr

-- Whether some area covers the address.
abbrev pub mapped : VmSpace → ℕ → Bool
mapped vm addr = mapped_in vm.areas addr

-- In ascending order, each starting at or behind the end of the one before; `from` is a lower bound.
abbrev pub Ordered : ℕ → List VmaEntry → Type 0
Ordered from [] = Unit
Ordered from (a ∷ rest) = (from ≤ a.start) × (a.start ≤ a.end) × Ordered a.end rest

-- Each lies below `top`, or at `limit` or above: the areas of a program and those that `mmap` gives
-- lie below the break, and the stack far above it.
abbrev pub Around : (top limit : ℕ) → List VmaEntry → Type 0
Around top limit [] = Unit
Around top limit (a ∷ rest) = ((a.end ≤ top) ⊎ (limit ≤ a.start)) × Around top limit rest

-- No two areas overlap, and none lies between the break and the limit.
pub record IsTidy (limit : ℕ) (vm : VmSpace) : Type 0 where
  pub ordered : Ordered 0 vm.areas
  pub around : Around vm.brk limit vm.areas

pub find_area_lem :
    (l : List VmaEntry) (addr : ℕ)
    → (mapped_in l addr ≡ false → find_area l addr ≡ none)
      × (mapped_in l addr ≡ true
          → (a : VmaEntry) × (find_area l addr ≡ some a) × (contains a addr ≡ true))
unfolding find_area
find_area_lem [] addr = (λ h. refl, λ h. cc)
find_area_lem (a ∷ rest) addr = elim (Bool-cases (contains a addr)) [
  | inl e ↦ rw e (λ h. cc, λ h. (a, refl, e))
  | inr e ↦ rw e (find_area_lem rest addr)
]

-- `find_vma` gives no area for an address that none covers, and otherwise one that covers it.
pub find_vma_lem :
    (vm : VmSpace) (addr : ℕ)
    → (mapped vm addr ≡ false → find_vma vm addr ≡ none)
      × (mapped vm addr ≡ true
          → (a : VmaEntry) × (find_vma vm addr ≡ some a) × (contains a addr ≡ true))
unfolding find_vma
find_vma_lem vm addr = find_area_lem vm.areas addr

insert_area-mapped :
    (a : VmaEntry) (l : List VmaEntry) (addr : ℕ)
    → mapped_in (insert_area a l) addr ≡ (contains a addr || mapped_in l addr)
unfolding insert_area
insert_area-mapped a [] addr = refl
insert_area-mapped a (b ∷ rest) addr = ground (arith, insert_area-mapped a rest addr)

-- A new area adds its own addresses to those that are covered.
pub add_vma-mapped :
    (vm : VmSpace) (start end flags addr : ℕ)
    → mapped (add_vma vm start end flags) addr
      ≡ (contains (vma start end flags) addr || mapped vm addr)
unfolding add_vma
add_vma-mapped vm start end flags addr = insert_area-mapped (vma start end flags) vm.areas addr

Around-raise :
    (top top' limit : ℕ) (l : List VmaEntry) → top ≤ top' → Around top limit l → Around top' limit l
Around-raise top top' limit [] le b = tt
Around-raise top top' limit (a ∷ rest) le (inl h, b) =
    (inl (omega arith), Around-raise top top' limit rest le b)
Around-raise top top' limit (a ∷ rest) le (inr h, b) =
    (inr h, Around-raise top top' limit rest le b)

-- An area that fits into the gap goes between those below and those above.
insert_area-gap :
    (a : VmaEntry) (l : List VmaEntry) (from limit : ℕ)
    → Ordered from l
    → Around a.start limit l
    → from ≤ a.start
    → a.start < limit
    → a.start ≤ a.end
    → a.end ≤ limit
    → Ordered from (insert_area a l) × Around a.end limit (insert_area a l)
unfolding insert_area
insert_area-gap a [] from limit o b f s e u = ((omega arith, e, tt), (inl (omega arith), tt))
insert_area-gap a (x ∷ rest) from limit o (inl h, b) f s e u =
    let le : leb x.start a.start ≡ true = ground arith in
    let ih = insert_area-gap a rest x.end limit o.2 b h s e u in
    rw le ((o.0, o.1, ih.0), (inl (omega (arith, h, e)), ih.1))
insert_area-gap a (x ∷ rest) from limit o (inr h, b) f s e u =
    let gt : leb x.start a.start ≡ false = ground arith in
    rw gt (
      (omega (arith, f), e, (omega (arith, u, h), o.1, o.2)),
      (inl (omega arith), (inr h, Around-raise a.start a.end limit rest e b)),
    )

pub add_vma-IsTidy :
    (limit : ℕ) (vm : VmSpace) (stop flags : ℕ)
    → IsTidy limit vm
    → vm.brk ≤ stop
    → vm.brk < limit
    → stop ≤ limit
    → IsTidy limit (record (add_vma vm vm.brk stop flags) { brk = stop })
unfolding add_vma
add_vma-IsTidy limit vm stop flags t le some_room room =
    let r =
      insert_area-gap (vma vm.brk stop flags) vm.areas 0 limit t.ordered t.around (omega arith)
        some_room le room in
    record { ordered = r.0; around = r.1 }

pub not-mapped_gap :
    (l : List VmaEntry) (top limit addr : ℕ)
    → Around top limit l
    → top ≤ addr
    → addr < limit
    → mapped_in l addr ≡ false
not-mapped_gap [] top limit addr b lo hi = refl
not-mapped_gap (a ∷ rest) top limit addr (inl h, b) lo hi =
    ground (arith, not-mapped_gap rest top limit addr b lo hi)
not-mapped_gap (a ∷ rest) top limit addr (inr h, b) lo hi =
    ground (arith, not-mapped_gap rest top limit addr b lo hi)
