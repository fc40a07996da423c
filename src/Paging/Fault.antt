-- ===== src/Paging/Fault.antt =====
-- The page fault handlers of src/mm/vmm.rs: a page on demand, and the copy of a page on a write.
pub mod Given
pub mod Served
use sar_osx.Base.{ℕ, bit_or, Bool, true, false, not, Option, none, some, if◌then◌else◌, ◌==◌}
use sar_osx.Pmm.{page_size, align_down}
use sar_osx.VmSpace.{
  VmaEntry, VmSpace, has_flag, vma_write, vma_exec, FaultAction, refuse, copy, demand,
}
use sar_osx.VmSpace as Areas
use sar_osx.Paging.{
  Memory, pte_present, pte_user, pte_writable, pte_no_exec, alloc_zeroed_frame, map_page, translate,
  or_fail,
}

unfoldable pub demand_flags : VmaEntry → ℕ
demand_flags vma =
    let flags = bit_or pte_present pte_user in
    let flags = if has_flag vma.flags vma_write then bit_or flags pte_writable else flags in
    if not (has_flag vma.flags vma_exec) then bit_or flags pte_no_exec else flags

unfoldable pub handle_demand_page : Memory → (pml4 addr : ℕ) → VmaEntry → Bool × Memory
handle_demand_page m pml4 addr vma =
    let page_addr = align_down addr page_size in
    or_fail (alloc_zeroed_frame m) λ phys m'. map_page m' pml4 page_addr phys (demand_flags vma)

-- `copy_nonoverlapping` of a whole page; what `translate` gives for a page is the start of a frame.
abbrev pub copy_page : Memory → (src dst : ℕ) → Memory
copy_page m src dst = record m {
  entries = λ t i. if dst == t then m.entries src i else m.entries t i;
}

unfoldable pub copy_from : Memory → (pml4 page_addr : ℕ) → Option ℕ → Bool × Memory
copy_from m pml4 page_addr none = (false, m)
copy_from m pml4 page_addr (some old_phys) = or_fail (alloc_zeroed_frame m) λ new_phys m'. (
  true,
  (map_page (copy_page m' old_phys new_phys) pml4 page_addr new_phys
      (bit_or (bit_or pte_present pte_writable) pte_user)).1,
)

-- The result of `map` is not looked at.
unfoldable pub handle_cow : Memory → (pml4 addr : ℕ) → Bool × Memory
unfolding copy_from
handle_cow m pml4 addr =
    let page_addr = align_down addr page_size in
    copy_from m pml4 page_addr (translate m pml4 page_addr)

serve : Memory → (pml4 addr : ℕ) → FaultAction → Bool × Memory
serve m pml4 addr refuse = (false, m)
serve m pml4 addr copy = handle_cow m pml4 addr
serve m pml4 addr (demand vma) = handle_demand_page m pml4 addr vma

-- The whole handler, for the current process with these areas and this root.
unfoldable pub handle_page_fault : VmSpace → Memory → (pml4 addr error : ℕ) → Bool × Memory
unfolding serve
handle_page_fault vm m pml4 addr error = serve m pml4 addr (Areas.handle_page_fault vm addr error)
