-- ===== src/Paging.antt =====
-- src/mm/vmm.rs: the page tables and the address spaces over them, with the frames that the physical
-- memory manager of src/mm/pmm.rs gives and takes back. A table stands at a physical frame and has 512
-- entries, each a word of 64 bits; `phys_to_virt` is a fixed offset, so a frame is named by its
-- physical address. What a free frame holds (the links of the free lists) is not modelled: nothing
-- reads a frame before it is zeroed. The flushes of the translation buffer are left out.
pub mod Entries
pub mod Tree
pub mod Grows
pub mod Frame
pub mod Link
pub mod Slot
pub mod Map
pub mod Space
pub mod Fault
pub mod Clone
mod Tests
use sar_osx.Base.{
  ℕ, ◌+◌, ◌/◌, ◌^◌, bit_and, bit_or, Bool, true, false, not, ◌&&◌, Option, none, some, ◌==◌,
  if◌then◌else◌,
}
use sar_osx.Pmm.{BuddyAllocator, alloc, free}

abbrev pub pte_present : ℕ
pte_present = 1

abbrev pub pte_writable : ℕ
pte_writable = 2

abbrev pub pte_user : ℕ
pte_user = 4

abbrev pub pte_large : ℕ
pte_large = 128

abbrev pub pte_no_exec : ℕ
pte_no_exec = 2 ^ 63

abbrev pub pte_addr_mask : ℕ
pte_addr_mask = 0x000F_FFFF_FFFF_F000

-- The page tables by frame and index, and the free frames.
pub record Memory : Type 0 where
  pub entries : ℕ → ℕ → ℕ
  pub pmm : BuddyAllocator

abbrev pub put_entry : (ℕ → ℕ → ℕ) → (table idx val : ℕ) → ℕ → ℕ → ℕ
put_entry f table idx val t i = if table == t && idx == i then val else f t i

abbrev pub set_entry : Memory → (table idx val : ℕ) → Memory
set_entry m table idx val = record m { entries = put_entry m.entries table idx val }

abbrev pub fill_zero : (ℕ → ℕ → ℕ) → (table : ℕ) → ℕ → ℕ → ℕ
fill_zero f table t i = if table == t then 0 else f t i

abbrev pub is_set : (entry flag : ℕ) → Bool
is_set entry flag = not (bit_and entry flag == 0)

unfoldable pub is_present : Memory → (table idx : ℕ) → Bool
is_present m table idx = is_set (m.entries table idx) pte_present

-- The frame that an entry names.
abbrev pub frame_at : Memory → (table idx : ℕ) → ℕ
frame_at m table idx = bit_and (m.entries table idx) pte_addr_mask

unfoldable pub zeroed : Memory → Option ℕ × BuddyAllocator → Option ℕ × Memory
zeroed m (none, b) = (none, record m { pmm = b })
zeroed m (some phys, b) = (some phys, record { entries = fill_zero m.entries phys; pmm = b })

unfoldable pub alloc_zeroed_frame : Memory → Option ℕ × Memory
unfolding zeroed
alloc_zeroed_frame m = zeroed m (alloc m.pmm 0)

-- `free` of an order that is in range does not panic. It writes the link of the free list into the first
-- word of a free block; the words of free frames are not kept here, and nothing reads them before
-- `zeroed` clears them.
unfoldable pub freed : Memory → Option BuddyAllocator → Memory
freed m none = m
freed m (some b) = record m { pmm = b }

unfoldable pub free_frame : Memory → (phys : ℕ) → Memory
unfolding freed
free_frame m phys = freed m (free m.pmm phys 0)

unfoldable pub link : (table idx flags : ℕ) → Option ℕ × Memory → Option ℕ × Memory
link table idx flags (none, m) = (none, m)
link table idx flags (some phys, m) =
    let m' = set_entry m table idx (bit_or (bit_or phys flags) pte_present) in
    (some (frame_at m' table idx), m')

unfoldable pub get_or_alloc_table : Memory → (table idx flags : ℕ) → Option ℕ × Memory
unfolding link
get_or_alloc_table m table idx flags =
    if not (is_present m table idx)
    then link table idx flags (alloc_zeroed_frame m)
    else (some (frame_at m table idx), m)

unfoldable pub get_table : Memory → (table idx : ℕ) → Option ℕ
get_table m table idx = if is_present m table idx then some (frame_at m table idx) else none

abbrev pub pml4_idx : ℕ → ℕ
pml4_idx vaddr = bit_and (vaddr / 2 ^ 39) 0x1FF

abbrev pub pdpt_idx : ℕ → ℕ
pdpt_idx vaddr = bit_and (vaddr / 2 ^ 30) 0x1FF

abbrev pub pd_idx : ℕ → ℕ
pd_idx vaddr = bit_and (vaddr / 2 ^ 21) 0x1FF

abbrev pub pt_idx : ℕ → ℕ
pt_idx vaddr = bit_and (vaddr / 2 ^ 12) 0x1FF

-- `match … { Some(t) => t, None => return false }`
abbrev pub or_fail : Option ℕ × Memory → (ℕ → Memory → Bool × Memory) → Bool × Memory
or_fail (none, m) k = (false, m)
or_fail (some t, m) k = k t m

-- `?`
abbrev pub try : Option ℕ → (ℕ → Option ℕ) → Option ℕ
try none k = none
try (some t) k = k t

abbrev pub parent_flags : ℕ
parent_flags = bit_or pte_writable pte_user

unfoldable pub map_page : Memory → (pml4 virt phys flags : ℕ) → Bool × Memory
map_page m pml4 virt phys flags =
    or_fail (get_or_alloc_table m pml4 (pml4_idx virt) parent_flags) λ pdpt m1.
      or_fail (get_or_alloc_table m1 pdpt (pdpt_idx virt) parent_flags) λ pd m2.
        or_fail (get_or_alloc_table m2 pd (pd_idx virt) parent_flags) λ pt m3. (
          true,
          set_entry m3 pt (pt_idx virt)
              (bit_or (bit_or (bit_and phys pte_addr_mask) flags) pte_present),
        )

unfoldable pub unmap_in : Memory → (virt : ℕ) → Option ℕ → Memory
unmap_in m virt none = m
unmap_in m virt (some pt) = set_entry m pt (pt_idx virt) 0

unfoldable pub unmap : Memory → (pml4 virt : ℕ) → Memory
unfolding unmap_in
unmap m pml4 virt = unmap_in m virt (
    try (get_table m pml4 (pml4_idx virt))
      λ pdpt. try (get_table m pdpt (pdpt_idx virt)) λ pd. get_table m pd (pd_idx virt))

unfoldable pub translate_page : Memory → (virt pt : ℕ) → Option ℕ
translate_page m virt pt =
    if is_set (m.entries pt (pt_idx virt)) pte_present
    then some (bit_or (frame_at m pt (pt_idx virt)) (bit_and virt 0xFFF))
    else none

unfoldable pub translate : Memory → (pml4 virt : ℕ) → Option ℕ
translate m pml4 virt = try (get_table m pml4 (pml4_idx virt)) λ pdpt.
    try (get_table m pdpt (pdpt_idx virt)) λ pd.
      if is_set (m.entries pd (pd_idx virt)) pte_large
      then some (frame_at m pd (pd_idx virt) + bit_and virt 0x1F_FFFF)
      else try (get_table m pd (pd_idx virt)) (translate_page m virt)
