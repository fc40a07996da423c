-- ===== src/VmSpace/Areas.antt =====
-- How mmap, munmap, brk and the copy for a child change the areas of an address space.
use sar_osx.Base.{
  ◌%◌, ◌⊎◌, ◌&&◌, not, map, add64, ℕ, ◌+◌, ◌*◌, ◌/◌, ◌^◌, ◌≤◌, ◌<◌, max, ◌≡◌, refl, inl, inr, Bool,
  true, false, ◌||◌, List, [], ◌∷◌, arith, ltb, leb, ◌==◌, Bool-cases,
}
use sar_osx.Base.Bits.{bit_and_high}
use sar_osx.VmSpace.{
  clone_vma, remove_vma, clone_vmspace, munmap, retain_areas, prot_flags, VmaEntry, VmSpace,
  add_vma, ret, round_len, is_fixed, mmap, set_brk,
}
use sar_osx.VmSpace.Gap.{
  mapped_in, mapped, Ordered, Around, IsTidy, add_vma-mapped, add_vma-IsTidy, not-mapped_gap,
}

round_len_lem : (len : ℕ) → len + 4095 < 2 ^ 64 → round_len len ≡ (len + 4095) / 4096 * 4096
round_len_lem len h =
    let fits : add64 len 4095 ≡ len + 4095 = omega arith in
    rw fits (omega (arith, bit_and_high 52 12 (len + 4095)))

mmap-free_address :
    (vm : VmSpace) (addr len prot flags : ℕ)
    → is_fixed addr flags ≡ false
    → 0 < len
    → vm.brk + len + 4095 < 2 ^ 64
    → let stop = vm.brk + (len + 4095) / 4096 * 4096 in
      mmap vm addr len prot flags
      ≡ (ret vm.brk, record (add_vma vm vm.brk stop (prot_flags prot)) { brk = stop })
unfolding mmap
mmap-free_address vm addr len prot flags free pos top =
    let some_len : (len == 0) ≡ false = ground arith in
    let size = round_len_lem len (omega arith) in
    let fits : add64 vm.brk ((len + 4095) / 4096 * 4096) ≡ vm.brk + (len + 4095) / 4096 * 4096 =
      omega arith in
    rw (some_len, free, size, fits)

-- In a space whose areas are apart, with none between the break and a limit (the lowest area above
-- the break, as the stack is): `mmap` of a positive length without a fixed address, when the length in
-- whole pages fits below the limit and the break plus the length stays below 2 ^ 64 - 4095, answers with
-- the break and raises it by whole pages. No area covered the range before, all of it is covered from
-- then on, every other address is covered as before, and the areas stay apart with none between the new
-- break and the limit.
pub mmap-fresh :
    (limit : ℕ) (vm : VmSpace) (addr len prot flags : ℕ)
    → IsTidy limit vm
    → vm.brk + (len + 4095) / 4096 * 4096 ≤ limit
    → is_fixed addr flags ≡ false
    → 0 < len
    → vm.brk + len + 4095 < 2 ^ 64
    → let after = (mmap vm addr len prot flags).1 in
      let stop = vm.brk + (len + 4095) / 4096 * 4096 in
      ((mmap vm addr len prot flags).0 ≡ ret vm.brk)
      × (after.brk ≡ stop)
      × IsTidy limit after
      × ((x : ℕ) → vm.brk ≤ x → x < stop → (mapped vm x ≡ false) × (mapped after x ≡ true))
      × ((x : ℕ) → (x < vm.brk) ⊎ (stop ≤ x) → mapped after x ≡ mapped vm x)
unfolding add_vma
mmap-fresh limit vm addr len prot flags t room free pos top =
    let stop = vm.brk + (len + 4095) / 4096 * 4096 in
    let covers = add_vma-mapped vm vm.brk stop (prot_flags prot) in
    rw (mmap-free_address vm addr len prot flags free pos top) (
      refl,
      refl,
      add_vma-IsTidy limit vm stop (prot_flags prot) t (omega arith) (omega (arith, pos, room))
          room,
      λ x lo hi. (
        not-mapped_gap vm.areas vm.brk limit x t.around lo (omega (arith, hi, room)),
        ground (arith, covers x),
      ),
      λ x out. ground (arith, covers x),
    )

-- `brk` sets the break to the larger of the old one and the address that is asked for, and answers it.
-- Where the areas are apart and none lies between the break and a limit above both, that stays so.
pub set_brk_lem :
    (limit : ℕ) (vm : VmSpace) (nb : ℕ)
    → IsTidy limit vm
    → vm.brk < limit
    → nb ≤ limit
    → IsTidy limit (set_brk vm nb).1
      × ((set_brk vm nb).1.brk ≡ max vm.brk nb)
      × ((set_brk vm nb).0 ≡ ret (max vm.brk nb))
unfolding set_brk
set_brk_lem limit vm nb t some_room room = elim (Bool-cases (nb == 0 || ltb nb vm.brk)) [
  | inl e ↦ rw e (t, ground arith, ground arith)
  | inr e ↦
      rw e
        (add_vma-IsTidy limit vm nb _ t (ground arith) some_room room, ground arith, ground arith)
]

abbrev pub inside : (start end : ℕ) → VmaEntry → Bool
inside start end a = leb start a.start && leb a.end end

retain_areas-outside :
    (start end : ℕ) (l : List VmaEntry) (x : ℕ)
    → (x < start) ⊎ (end ≤ x)
    → mapped_in (retain_areas start end l) x ≡ mapped_in l x
unfolding retain_areas
retain_areas-outside start end [] x h = refl
retain_areas-outside start end (a ∷ rest) x h =
    ground (arith, retain_areas-outside start end rest x h)

-- Every area that meets the range lies in it.
abbrev pub Whole : (start end : ℕ) → List VmaEntry → Type 0
Whole start end [] = Unit
Whole start end (a ∷ rest) =
    ((leb end a.start || leb a.end start) ≡ false → inside start end a ≡ true)
    × Whole start end rest

retain_areas-inside :
    (start end : ℕ) (l : List VmaEntry) (x : ℕ)
    → Whole start end l
    → start ≤ x
    → x < end
    → mapped_in (retain_areas start end l) x ≡ false
unfolding retain_areas
retain_areas-inside start end [] x w lo hi = refl
retain_areas-inside start end (a ∷ rest) x w lo hi =
    ground (arith, w.0, retain_areas-inside start end rest x w.1 lo hi)

Ordered-weaken :
    (from from' : ℕ) (l : List VmaEntry) → from' ≤ from → Ordered from l → Ordered from' l
Ordered-weaken from from' [] le o = tt
Ordered-weaken from from' (a ∷ rest) le o = (omega arith, o.1, o.2)

retain_areas-Ordered :
    (start end : ℕ) (l : List VmaEntry) (from top limit : ℕ)
    → Ordered from l
    → Around top limit l
    → Ordered from (retain_areas start end l) × Around top limit (retain_areas start end l)
unfolding retain_areas
retain_areas-Ordered start end [] from top limit o b = (tt, tt)
retain_areas-Ordered start end (a ∷ rest) from top limit o b =
    let ih = retain_areas-Ordered start end rest a.end top limit o.2 b.1 in
    elim (Bool-cases (not (inside start end a))) [
      | inl e ↦ rw e ((o.0, o.1, ih.0), (b.0, ih.1))
      | inr e ↦ rw e (
        Ordered-weaken a.end from (retain_areas start end rest) (omega (arith, o.0, o.1)) ih.0,
        ih.1,
      )
    ]

-- `munmap` of a range at a page boundary that ends below 2 ^ 64 answers 0, keeps the break, and covers
-- as before what lies outside the range; where every area that meets the range lies in it, nothing in
-- the range stays covered. Areas that are apart with none between the break and a limit stay so.
pub munmap_lem :
    (vm : VmSpace) (addr len : ℕ)
    → addr % 4096 ≡ 0
    → addr + len < 2 ^ 64
    → let after = (munmap vm addr len).1 in
      ((munmap vm addr len).0 ≡ ret 0)
      × (after.brk ≡ vm.brk)
      × ((limit : ℕ) → IsTidy limit vm → IsTidy limit after)
      × ((x : ℕ) → (x < addr) ⊎ (addr + len ≤ x) → mapped after x ≡ mapped vm x)
      × (Whole addr (addr + len) vm.areas
          → (x : ℕ) → addr ≤ x
          → x < addr + len
          → mapped after x ≡ false)
unfolding munmap remove_vma
munmap_lem vm addr len whole top =
    let aligned : (addr % 4096 == 0) ≡ true = ground arith in
    let fits : add64 addr len ≡ addr + len = omega arith in
    rw (aligned, fits)
      (
        refl,
        refl,
        (λ limit t.
            let r =
              retain_areas-Ordered addr (addr + len) vm.areas 0 vm.brk limit t.ordered t.around in
            record { ordered = r.0; around = r.1 }),
        λ x h. retain_areas-outside addr (addr + len) vm.areas x h,
        λ w x lo hi. retain_areas-inside addr (addr + len) vm.areas x w lo hi,
      )

mapped_in-clone : (l : List VmaEntry) (x : ℕ) → mapped_in (map clone_vma l) x ≡ mapped_in l x
mapped_in-clone [] x = refl
mapped_in-clone (a ∷ rest) x = rw (mapped_in-clone rest x)

clone-Ordered :
    (l : List VmaEntry) (from top limit : ℕ)
    → Ordered from l
    → Around top limit l
    → Ordered from (map clone_vma l) × Around top limit (map clone_vma l)
clone-Ordered [] from top limit o b = (tt, tt)
clone-Ordered (a ∷ rest) from top limit o b =
    let ih = clone-Ordered rest a.end top limit o.2 b.1 in ((o.0, o.1, ih.0), (b.0, ih.1))

-- The copy for the child covers exactly what the parent covers, below the same break; areas of the
-- parent that are apart with none between the break and a limit are so in the child.
pub clone_vmspace_lem :
    (vm : VmSpace)
    → ((clone_vmspace vm).brk ≡ vm.brk)
      × ((x : ℕ) → mapped (clone_vmspace vm) x ≡ mapped vm x)
      × ((limit : ℕ) → IsTidy limit vm → IsTidy limit (clone_vmspace vm))
unfolding clone_vmspace
clone_vmspace_lem vm = (
  refl,
  mapped_in-clone vm.areas,
  λ limit t.
      let r = clone-Ordered vm.areas 0 vm.brk limit t.ordered t.around in
      record { ordered = r.0; around = r.1 },
)
