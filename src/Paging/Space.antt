-- ===== src/Paging/Space.antt =====
-- The address spaces of src/mm/vmm.rs as a whole: `AddressSpace::new_user`, and what dropping one
-- frees.
pub mod Fresh
pub mod Dropped
use sar_osx.Base.{ℕ, zero, suc, ◌+◌, not, ◌&&◌, Option, none, some, if◌then◌else◌}
use sar_osx.Paging.{
  Memory, set_entry, is_set, is_present, frame_at, pte_large, alloc_zeroed_frame, free_frame,
}

-- `for i in 256..512`, of which `n` rounds are left, copies the entries of the kernel's table.
unfoldable pub copy_entries : (n : ℕ) → Memory → (from to i : ℕ) → Memory
copy_entries zero m from to i = m
copy_entries (suc n) m from to i =
    copy_entries n (set_entry m to i (m.entries from i)) from to (i + 1)

unfoldable pub with_kernel_half : (kernel : ℕ) → Option ℕ × Memory → Option ℕ × Memory
with_kernel_half kernel (none, m) = (none, m)
with_kernel_half kernel (some pml4, m) = (some pml4, copy_entries 256 m kernel pml4 256)

-- The kernel's table is known (`init` has run): otherwise `get_kernel_pml4` panics.
unfoldable pub new_user : (kernel : ℕ) → Memory → Option ℕ × Memory
new_user kernel m = with_kernel_half kernel (alloc_zeroed_frame m)

-- The loops of `free_user_page_tables`, each with `n` rounds left; a table is read before it is freed.
unfoldable pub free_last_tables : (n : ℕ) → Memory → (pd k : ℕ) → Memory
free_last_tables zero m pd k = m
free_last_tables (suc n) m pd k =
    free_last_tables n
      (if is_present m pd k && not (is_set (m.entries pd k) pte_large)
        then free_frame m (frame_at m pd k)
        else m)
      pd (k + 1)

unfoldable pub free_directories : (n : ℕ) → Memory → (pdpt j : ℕ) → Memory
free_directories zero m pdpt j = m
free_directories (suc n) m pdpt j =
    free_directories n
      (if is_present m pdpt j
        then free_frame (free_last_tables 512 m (frame_at m pdpt j) 0) (frame_at m pdpt j)
        else m)
      pdpt (j + 1)

unfoldable pub free_pointer_tables : (n : ℕ) → Memory → (pml4 i : ℕ) → Memory
free_pointer_tables zero m pml4 i = m
free_pointer_tables (suc n) m pml4 i =
    free_pointer_tables n
      (if is_present m pml4 i
        then free_frame (free_directories 512 m (frame_at m pml4 i) 0) (frame_at m pml4 i)
        else m)
      pml4 (i + 1)

unfoldable pub free_user_page_tables : Memory → (pml4 : ℕ) → Memory
free_user_page_tables m pml4 = free_frame (free_pointer_tables 256 m pml4 0) pml4
