-- ===== src/Paging/Clone.antt =====
-- The copy of an address space for a child, src/proc/fork.rs: new tables over the same pages, which
-- neither side may write any more.
pub mod Entry
pub mod Extend
pub mod Copy
pub mod Levels
pub mod Shared
use sar_osx.Base.{ℕ, zero, suc, ◌+◌, bit_and, bit_or, not, ◌&&◌, Option, none, some, if◌then◌else◌}
use sar_osx.Pmm.{not64}
use sar_osx.Paging.{
  Memory, set_entry, is_set, is_present, frame_at, pte_addr_mask, pte_large, pte_user, pte_writable,
  alloc_zeroed_frame,
}
use sar_osx.Paging.Space.{copy_entries}

-- `entry & !PTE_WRITABLE`
abbrev pub read_only : ℕ → ℕ
read_only entry = bit_and entry (not64 pte_writable)

abbrev pub cow_pte : ℕ → ℕ
cow_pte pte = if is_set pte pte_user then read_only pte else pte

-- `child_phys | flags`, the flags those of the parent's entry.
abbrev pub same_flags : (child parent_entry : ℕ) → ℕ
same_flags child parent_entry = bit_or child (bit_and parent_entry (not64 pte_addr_mask))

-- The loop of `clone_pt`, with `n` rounds left.
unfoldable pub copy_pages : (n : ℕ) → Memory → (parent child i : ℕ) → Memory
copy_pages zero m parent child i = m
copy_pages (suc n) m parent child i =
    copy_pages n
      (if not (is_present m parent i)
        then m
        else set_entry m child i (cow_pte (m.entries parent i)))
      parent child (i + 1)

-- The rest of a function of a result, or `None`.
abbrev pub or_none : Option ℕ × Memory → (ℕ → Memory → Option ℕ × Memory) → Option ℕ × Memory
or_none (none, m) k = (none, m)
or_none (some x, m) k = k x m

unfoldable pub clone_pt : Memory → (parent_entry : ℕ) → Option ℕ × Memory
clone_pt m parent_entry = or_none (alloc_zeroed_frame m) λ child m'. (
  some (same_flags child parent_entry),
  copy_pages 512 m' (bit_and parent_entry pte_addr_mask) child 0,
)

-- A round of the loops of `clone_pd`, `clone_pdpt` and `clone_address_space`, over the function that
-- clones what an entry names; the result is the child's table.
unfoldable pub clone_entry :
    (Memory → ℕ → Option ℕ × Memory) → Memory → (parent child i : ℕ) → Option ℕ × Memory
clone_entry clone m parent child i =
    if not (is_present m parent i)
    then (some child, m)
    else or_none (clone m (m.entries parent i)) λ entry m'. (some child, set_entry m' child i entry)

-- The loops, with `n` rounds left.
unfoldable pub clone_entries :
    (Memory → ℕ → Option ℕ × Memory) → (n : ℕ) → Memory → (parent child i : ℕ) → Option ℕ × Memory
clone_entries clone zero m parent child i = (some child, m)
clone_entries clone (suc n) m parent child i =
    or_none (clone_entry clone m parent child i)
      λ _ m'. clone_entries clone n m' parent child (i + 1)

unfoldable pub clone_pd : Memory → (parent_entry : ℕ) → Option ℕ × Memory
clone_pd m parent_entry =
    if is_set parent_entry pte_large
    then (some (read_only parent_entry), m)
    else or_none (alloc_zeroed_frame m) λ child m'.
      or_none (clone_entries clone_pt 512 m' (bit_and parent_entry pte_addr_mask) child 0)
        λ _ m''. (some (same_flags child parent_entry), m'')

unfoldable pub clone_pdpt : Memory → (parent_entry : ℕ) → Option ℕ × Memory
clone_pdpt m parent_entry = or_none (alloc_zeroed_frame m) λ child m'.
    or_none (clone_entries clone_pd 512 m' (bit_and parent_entry pte_addr_mask) child 0)
      λ _ m''. (some (same_flags child parent_entry), m'')

-- The loops of `make_cow_pt`, `make_cow_pd`, `make_cow_pdpt` and `make_cow_pml4`, each with `n` rounds
-- left.
unfoldable pub make_cow_pt : (n : ℕ) → Memory → (pt i : ℕ) → Memory
make_cow_pt zero m pt i = m
make_cow_pt (suc n) m pt i =
    make_cow_pt n
      (if is_present m pt i && is_set (m.entries pt i) pte_user
        then set_entry m pt i (read_only (m.entries pt i))
        else m)
      pt (i + 1)

unfoldable pub make_cow_pd : (n : ℕ) → Memory → (pd i : ℕ) → Memory
make_cow_pd zero m pd i = m
make_cow_pd (suc n) m pd i =
    make_cow_pd n
      (if not (is_present m pd i)
        then m
        else if is_set (m.entries pd i) pte_large
        then set_entry m pd i (read_only (m.entries pd i))
        else make_cow_pt 512 m (frame_at m pd i) 0)
      pd (i + 1)

unfoldable pub make_cow_pdpt : (n : ℕ) → Memory → (pdpt i : ℕ) → Memory
make_cow_pdpt zero m pdpt i = m
make_cow_pdpt (suc n) m pdpt i =
    make_cow_pdpt n (if is_present m pdpt i then make_cow_pd 512 m (frame_at m pdpt i) 0 else m)
      pdpt (i + 1)

unfoldable pub make_cow_pml4 : (n : ℕ) → Memory → (pml4 i : ℕ) → Memory
make_cow_pml4 zero m pml4 i = m
make_cow_pml4 (suc n) m pml4 i =
    make_cow_pml4 n (if is_present m pml4 i then make_cow_pdpt 512 m (frame_at m pml4 i) 0 else m)
      pml4 (i + 1)

-- The part of `clone_address_space` that is about the tables: the root of the child.
unfoldable pub clone_address_space : Memory → (parent : ℕ) → Option ℕ × Memory
clone_address_space m parent = or_none (alloc_zeroed_frame m) λ child m1.
    or_none (clone_entries clone_pdpt 256 m1 parent child 0)
      λ _ m2. (some child, make_cow_pml4 256 (copy_entries 256 m2 parent child 256) parent 0)
