-- ===== src/VmSpace/Tests.antt =====
-- Runs of the calls on the areas of an address space.
use sar_osx.Base.{ℕ, ◌≤◌, ◌<◌, ◌≡◌, refl, ◌⊎◌, inr, true, false, [], ◌∷◌, arith}
use sar_osx.VmSpace.{
  VmaEntry, vma, VmSpace, new, find_vma, insert_area, add_vma, clone_vmspace, ret, mmap, munmap,
  refuse, demand, handle_page_fault,
}
use sar_osx.VmSpace.Gap.{IsTidy, mapped}
use sar_osx.VmSpace.Areas.{Whole, mmap-fresh, munmap_lem}
use sar_osx.VmSpace.Faults.{start, next, by_mmap, by_fork, present-refuse}

-- The stack of a program, as `map_user_stack` adds it.
abbrev stack_bottom : ℕ
stack_bottom = 0x7FFF_FF7F_0000

abbrev stack : VmaEntry
stack = vma stack_bottom 0x7FFF_FFFF_0000 0x63

abbrev with_stack : VmSpace
with_stack = record new { areas = stack ∷ [] }

with_stack-IsTidy : IsTidy stack_bottom with_stack
with_stack-IsTidy = record {
  ordered = (omega arith, omega arith, tt);
  around = (inr (omega arith), tt);
}

-- Three pages, readable and writable.
abbrev mapped_once : VmSpace
mapped_once = (mmap with_stack 0 0x2001 3 0).1

abbrev page : VmaEntry
page = vma 0x1000_0000 0x1000_3000 0x23

mapped_once_areas : (mapped_once.areas ≡ page ∷ stack ∷ []) × (mapped_once.brk ≡ 0x1000_3000)
unfolding mmap add_vma insert_area
mapped_once_areas = (refl, refl)

mmap-fresh_example :
    ((mmap with_stack 0 0x2001 3 0).0 ≡ ret 0x1000_0000)
    × (mapped_once.brk ≡ 0x1000_3000)
    × IsTidy stack_bottom mapped_once
    × ((x : ℕ)
        → 0x1000_0000 ≤ x
        → x < 0x1000_3000
        → (mapped with_stack x ≡ false) × (mapped mapped_once x ≡ true))
    × ((x : ℕ) → (x < 0x1000_0000) ⊎ (0x1000_3000 ≤ x) → mapped mapped_once x ≡ mapped with_stack x)
mmap-fresh_example =
    mmap-fresh stack_bottom with_stack 0 0x2001 3 0 with_stack-IsTidy (omega arith) refl
      (omega arith) (omega arith)

-- A break that has come up to the stack: the next mapping is a page of the stack.
runs_into_stack :
    let high : VmSpace = record with_stack { brk = stack_bottom } in
    ((mmap high 0 0x1000 3 0).0 ≡ ret stack_bottom) × (mapped high stack_bottom ≡ true)
unfolding mmap
runs_into_stack = (refl, refl)

abbrev cut_out : VmSpace
cut_out = (munmap mapped_once 0x1000_0000 0x3000).1

munmap_lem_example :
    ((munmap mapped_once 0x1000_0000 0x3000).0 ≡ ret 0)
    × (cut_out.brk ≡ mapped_once.brk)
    × ((limit : ℕ) → IsTidy limit mapped_once → IsTidy limit cut_out)
    × ((x : ℕ) → (x < 0x1000_0000) ⊎ (0x1000_3000 ≤ x) → mapped cut_out x ≡ mapped mapped_once x)
    × (Whole 0x1000_0000 0x1000_3000 mapped_once.areas
        → (x : ℕ) → 0x1000_0000 ≤ x
        → x < 0x1000_3000
        → mapped cut_out x ≡ false)
munmap_lem_example = munmap_lem mapped_once 0x1000_0000 0x3000 refl (omega arith)

abbrev parent : VmSpace
parent = (mmap new 0 0x2001 3 0).1

-- A child writes to a page that it shares with its parent.
present-refuse_example : handle_page_fault (clone_vmspace parent) 0x1000_0010 7 ≡ refuse
present-refuse_example =
    present-refuse (clone_vmspace parent) 0x1000_0010 7
      (next (next start (by_mmap 0 0x2001 3 0)) by_fork) refl

serves_write : handle_page_fault parent 0x1000_0010 6 ≡ demand page
unfolding mmap add_vma handle_page_fault find_vma
serves_write = refl
