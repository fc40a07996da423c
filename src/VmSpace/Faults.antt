-- ===== src/VmSpace/Faults.antt =====
-- Which page faults are served: `handle_page_fault` of src/mm/vmm.rs over the areas that the calls and
-- the loader can make.
use sar_osx.Base.{
  Bool, none, add64, ℕ, ◌*◌, ◌/◌, ◌%◌, ◌<◌, bit_and, bit_or, ◌≡◌, refl, sym, ◌∙◌, inl, inr, true,
  false, not, ◌&&◌, ◌||◌, some, List, [], ◌∷◌, map, arith, ltb, leb, ◌==◌, Bool-cases, Option-cases,
}
use sar_osx.Base.Bits.{bit_and_high, bit_and_step, bit_or_step, bit_and_zero}
use mathlib.Core.Path.{subst}
use sar_osx.VmSpace.Gap.{mapped, find_area_lem}
use sar_osx.VmSpace.{
  copy, fault_in, demand, contains, VmaEntry, vma, has_flag, vma_write, vma_copy_on_write,
  vma_anonymous, VmSpace, new, find_area, find_vma, insert_area, add_vma, retain_areas, remove_vma,
  clone_vma, clone_vmspace, mmap, munmap, set_brk, prot_flags, is_fixed, refuse, handle_page_fault,
}

-- An area is written by copy only if it may be written at all.
abbrev pub CowIsWritable : VmaEntry → Type 0
CowIsWritable a = has_flag a.flags vma_copy_on_write ≡ true → has_flag a.flags vma_write ≡ true

abbrev AllCow : List VmaEntry → Type 0
AllCow [] = Unit
AllCow (a ∷ rest) = CowIsWritable a × AllCow rest

-- The changes of the areas: the calls, the loader of segments with the flags READ, WRITE and EXEC, the
-- area of the user stack, the break that the loader sets, and the copy for a child.
pub data Change (vm : VmSpace) : VmSpace → Type 0 where
  by_mmap : (addr len prot flags : ℕ) → Change vm (mmap vm addr len prot flags).1
  by_munmap : (addr len : ℕ) → Change vm (munmap vm addr len).1
  by_set_brk : (nb : ℕ) → Change vm (set_brk vm nb).1
  by_segment : (start end flags : ℕ) → flags < 8 → Change vm (add_vma vm start end flags)
  by_stack : (start end : ℕ) → Change vm (add_vma vm start end 0x63)
  by_brk : (to : ℕ) → Change vm (record vm { brk = to })
  by_fork : Change vm (clone_vmspace vm)

pub data Reach : VmSpace → Type 0 where
  start : Reach new
  next : {vm vm' : VmSpace} → Reach vm → Change vm vm' → Reach vm'

bit_and_two : (g : ℕ) → bit_and g 2 ≡ g / 2 % 2 * 2
bit_and_two g = omega (arith, bit_and_step g 2, bit_and_step (g / 2) 1, bit_and_zero (g / 2 / 2))

has_write-or_cow :
    (f : ℕ) → has_flag f vma_write ≡ true → has_flag (bit_or f vma_copy_on_write) vma_write ≡ true
has_write-or_cow f h =
    let g = bit_or f vma_copy_on_write in
    let same : bit_and g 2 ≡ bit_and f 2 =
      omega (arith, bit_and_two g, bit_and_two f, bit_or_step f 16, bit_or_step (f / 2) 8) in
    rw same h

clone-CowIsWritable : (a : VmaEntry) → CowIsWritable a → CowIsWritable (clone_vma a)
clone-CowIsWritable a h =
    elim (Bool-cases (has_flag a.flags vma_write && has_flag a.flags vma_anonymous)) [
      | inl e ↦ rw e (λ _. has_write-or_cow a.flags (ground arith))
      | inr e ↦ rw e h
    ]

insert_area-AllCow :
    (a : VmaEntry) (l : List VmaEntry) → CowIsWritable a → AllCow l → AllCow (insert_area a l)
unfolding insert_area
insert_area-AllCow a [] h k = (h, tt)
insert_area-AllCow a (b ∷ rest) h k = elim (Bool-cases (leb b.start a.start)) [
  | inl e ↦ rw e (k.0, insert_area-AllCow a rest h k.1)
  | inr e ↦ rw e (h, k)
]

retain_areas-AllCow : (s e : ℕ) (l : List VmaEntry) → AllCow l → AllCow (retain_areas s e l)
unfolding retain_areas
retain_areas-AllCow s e [] k = tt
retain_areas-AllCow s e (a ∷ rest) k = elim (Bool-cases (not (leb s a.start && leb a.end e))) [
  | inl t ↦ rw t (k.0, retain_areas-AllCow s e rest k.1)
  | inr t ↦ rw t (retain_areas-AllCow s e rest k.1)
]

clone-AllCow : (l : List VmaEntry) → AllCow l → AllCow (map clone_vma l)
clone-AllCow [] k = tt
clone-AllCow (a ∷ rest) k = (clone-CowIsWritable a k.0, clone-AllCow rest k.1)

-- `mmap` passes no such flags.
pub prot_flags-cow : (prot : ℕ) → has_flag (prot_flags prot) vma_copy_on_write ≡ false
unfolding prot_flags
prot_flags-cow prot = elim (Bool-cases (bit_and prot 1 == 0)) [
  | inl r ↦ elim (Bool-cases (bit_and prot 2 == 0)) [
    | inl w ↦ elim (Bool-cases (bit_and prot 4 == 0)) [
      | inl x ↦ rw (r, w, x)
      | inr x ↦ rw (r, w, x)
    ]
    | inr w ↦ elim (Bool-cases (bit_and prot 4 == 0)) [
      | inl x ↦ rw (r, w, x)
      | inr x ↦ rw (r, w, x)
    ]
  ]
  | inr r ↦ elim (Bool-cases (bit_and prot 2 == 0)) [
    | inl w ↦ elim (Bool-cases (bit_and prot 4 == 0)) [
      | inl x ↦ rw (r, w, x)
      | inr x ↦ rw (r, w, x)
    ]
    | inr w ↦ elim (Bool-cases (bit_and prot 4 == 0)) [
      | inl x ↦ rw (r, w, x)
      | inr x ↦ rw (r, w, x)
    ]
  ]
]

segment-cow : (flags : ℕ) → flags < 8 → has_flag flags vma_copy_on_write ≡ false
segment-cow flags h = ground (arith, bit_and_high 1 4 flags)

add_vma-AllCow :
    (vm : VmSpace) (start end flags : ℕ)
    → has_flag flags vma_copy_on_write ≡ false
    → AllCow vm.areas
    → AllCow (add_vma vm start end flags).areas
unfolding add_vma
add_vma-AllCow vm s e flags h k =
    insert_area-AllCow (vma s e flags) vm.areas (λ t. let bad : true ≡ false = sym t ∙ h in cc) k

Change-AllCow : {vm vm' : VmSpace} → Change vm vm' → AllCow vm.areas → AllCow vm'.areas
unfolding mmap munmap set_brk remove_vma clone_vmspace
Change-AllCow {vm} (by_mmap addr len prot flags) k = elim (Bool-cases (len == 0)) [
  | inl e ↦ rw e k
  | inr e ↦ elim (Bool-cases (is_fixed addr flags)) [
    | inl t ↦ rw (e, t) (add_vma-AllCow vm _ _ _ (prot_flags-cow prot) k)
    | inr t ↦ rw (e, t) (add_vma-AllCow vm _ _ _ (prot_flags-cow prot) k)
  ]
]
Change-AllCow {vm} (by_munmap addr len) k = elim (Bool-cases (addr % 4096 == 0)) [
  | inl e ↦ rw e (retain_areas-AllCow addr (add64 addr len) vm.areas k)
  | inr e ↦ rw e k
]
Change-AllCow {vm} (by_set_brk nb) k = elim (Bool-cases (nb == 0 || ltb nb vm.brk)) [
  | inl e ↦ rw e k
  | inr e ↦ rw e (add_vma-AllCow vm vm.brk nb 0x23 refl k)
]
Change-AllCow {vm} (by_segment s e flags h) k = add_vma-AllCow vm s e flags (segment-cow flags h) k
Change-AllCow {vm} (by_stack s e) k = add_vma-AllCow vm s e 0x63 refl k
Change-AllCow (by_brk to) k = k
Change-AllCow {vm} by_fork k = clone-AllCow vm.areas k

Reach-AllCow : {vm : VmSpace} → Reach vm → AllCow vm.areas
Reach-AllCow start = tt
Reach-AllCow (next r c) = Change-AllCow c (Reach-AllCow r)

find_area-CowIsWritable :
    (l : List VmaEntry) (addr : ℕ) (a : VmaEntry)
    → AllCow l
    → find_area l addr ≡ some a
    → CowIsWritable a
unfolding find_area
find_area-CowIsWritable [] addr a k e = cc
find_area-CowIsWritable (b ∷ rest) addr a k e =
    elim (Bool-cases (leb b.start addr && ltb addr b.end)) [
      | inl t ↦
          let got : some b ≡ some a = rw t at e in
          let same : b ≡ a = cc in subst CowIsWritable same k.0
      | inr t ↦ find_area-CowIsWritable rest addr a k.1 (rw t at e)
    ]

-- A fault on a page that is present is refused, in every address space that the program can make: the
-- copy for a write after a fork is never made.
pub present-refuse :
    (vm : VmSpace) (addr error : ℕ)
    → Reach vm
    → (bit_and error 1 == 0) ≡ false
    → handle_page_fault vm addr error ≡ refuse
unfolding handle_page_fault find_vma
present-refuse vm addr error r p = elim (Option-cases (find_area vm.areas addr)) [
  | inl e ↦ rw e
  | inr (a, e) ↦
      let cow = find_area-CowIsWritable vm.areas addr a (Reach-AllCow r) e in rw e (ground arith)
]

find_area-contains :
    (l : List VmaEntry) (addr : ℕ) (a : VmaEntry)
    → find_area l addr ≡ some a
    → contains a addr ≡ true
unfolding find_area
find_area-contains [] addr a e = cc
find_area-contains (b ∷ rest) addr a e = elim (Bool-cases (contains b addr)) [
  | inl t ↦
      let got : some b ≡ some a = rw t at e in
      let same : b ≡ a = cc in subst (λ c. contains c addr ≡ true) same t
  | inr t ↦ find_area-contains rest addr a (rw t at e)
]

demand-inv :
    (a b : VmaEntry) (addr : ℕ) (write : Bool)
    → contains b addr ≡ true
    → fault_in b false write ≡ demand a
    → (contains a addr ≡ true) × (write ≡ true → has_flag a.flags vma_write ≡ true)
unfolding fault_in
demand-inv a b addr false here d =
    let same : b ≡ a = cc in (subst (λ c. contains c addr ≡ true) same here, λ w. cc)
demand-inv a b addr true here d = elim (Bool-cases (has_flag b.flags vma_write)) [
  | inl t ↦
      let got : demand b ≡ demand a = rw t at d in
      let same : b ≡ a = cc in
      (
        subst (λ c. contains c addr ≡ true) same here,
        λ _. subst (λ c. has_flag c.flags vma_write ≡ true) same t,
      )
  | inr t ↦ elim (Bool-cases (has_flag b.flags vma_copy_on_write)) [
    | inl u ↦ let bad : copy ≡ demand a = rw (t, u) at d in cc
    | inr u ↦ let bad : refuse ≡ demand a = rw (t, u) at d in cc
  ]
]

-- A fault on a page that is absent gets a fresh page exactly where an area covers the address and
-- allows the access.
pub absent-demand :
    (vm : VmSpace) (addr error : ℕ)
    → (bit_and error 1 == 0) ≡ true
    → (mapped vm addr ≡ false → handle_page_fault vm addr error ≡ refuse)
      × (mapped vm addr ≡ true
          → (bit_and error 2 == 0) ≡ true
          → (a : VmaEntry) × (handle_page_fault vm addr error ≡ demand a)
            × (contains a addr ≡ true))
      × ((a : VmaEntry)
          → handle_page_fault vm addr error ≡ demand a
          → (contains a addr ≡ true)
            × ((bit_and error 2 == 0) ≡ false → has_flag a.flags vma_write ≡ true))
unfolding handle_page_fault find_vma
absent-demand vm addr error absent = elim (Option-cases (find_area vm.areas addr)) [
  | inl e ↦ (
    λ h. rw e,
    λ h r.
        let (a, found, _) = (find_area_lem vm.areas addr).1 h in
        let bad : none ≡ some a = sym e ∙ found in cc,
    λ a d. let bad : refuse ≡ demand a = rw e at d in cc,
  )
  | inr (b, e) ↦
      let here = find_area-contains vm.areas addr b e in
      (
        λ h.
            let none_here : find_area vm.areas addr ≡ none = (find_area_lem vm.areas addr).0 h in
            let bad : none ≡ some b = sym none_here ∙ e in cc,
        λ h r. (b, rw (e, absent, r), here),
        λ a d.
            let r = demand-inv a b addr (not (bit_and error 2 == 0)) here (rw (e, absent) at d) in
            (r.0, λ w. r.1 (rw w)),
      )
]
