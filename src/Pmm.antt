-- ===== src/Pmm.antt =====
-- src/mm/pmm.rs: the buddy allocator of physical page frames.
-- A free list is threaded through the free blocks themselves; it is modelled by the sequence of the
-- block addresses, head first. An address stands for its alias in the higher half (`phys_to_virt` and
-- `virt_to_phys` add and subtract one offset). The two statistics counters are fields of the state.
pub mod Mass
pub mod Valid
pub mod Alloc
pub mod Free
pub mod Region
pub mod Boot
mod Tests
use sar_osx.Base.{
  ℕ, zero, suc, ◌+◌, ◌-◌, ◌*◌, ◌/◌, ◌%◌, ◌^◌, min, bit_and, bit_xor, Bool, true, false, not, ◌&&◌,
  ◌||◌, Option, none, some, List, [], ◌∷◌, ltb, leb, ◌==◌, if◌then◌else◌, add64,
}

abbrev pub page_size : ℕ
page_size = 4096

abbrev pub max_order : ℕ
max_order = 12

-- `PAGE_SIZE << order`
abbrev pub block_size : ℕ → ℕ
block_size order = page_size * 2 ^ order

pub record FreeList : Type 0 where
  pub blocks : List ℕ
  pub count : ℕ

unfoldable pub push : FreeList → ℕ → FreeList
push l phys = record { blocks = phys ∷ l.blocks; count = l.count + 1 }

unfoldable pub pop_blocks : List ℕ → ℕ → Option ℕ × FreeList
pop_blocks [] n = (none, record { blocks = []; count = n })
pop_blocks (p ∷ rest) n = (some p, record { blocks = rest; count = n - 1 })

unfoldable pub pop : FreeList → Option ℕ × FreeList
unfolding pop_blocks
pop l = pop_blocks l.blocks l.count

-- The walk of `remove`: whether the address was met, and the list without its first occurrence.
unfoldable pub unlink : List ℕ → ℕ → Bool × List ℕ
unlink [] target = (false, [])
unlink (p ∷ rest) target =
    let (found, rest') = unlink rest target in
    if p == target then (true, rest) else (found, p ∷ rest')

unfoldable pub remove : FreeList → ℕ → Bool × FreeList
unfolding unlink
remove l phys =
    let (found, blocks) = unlink l.blocks phys in
    (found, record { blocks = blocks; count = if found then l.count - 1 else l.count })

pub record BuddyAllocator : Type 0 where
  pub lists : ℕ → FreeList
  pub free_pages : ℕ
  pub total_pages : ℕ

abbrev pub set_list : (ℕ → FreeList) → ℕ → FreeList → ℕ → FreeList
set_list f i l j = if i == j then l else f j

abbrev pub new : BuddyAllocator
new = record { lists = λ _. record { blocks = []; count = 0 }; free_pages = 0; total_pages = 0 }

abbrev pub push_at : BuddyAllocator → ℕ → ℕ → BuddyAllocator
push_at b order phys = record b { lists = set_list b.lists order (push (b.lists order) phys) }

abbrev pub is_null : List ℕ → Bool
is_null [] = true
is_null (_ ∷ _) = false

-- The first nonempty list among the `rounds` lists from `o` on.
unfoldable pub find_order : (rounds : ℕ) → BuddyAllocator → ℕ → Option ℕ
find_order zero b o = none
find_order (suc n) b o =
    let later = find_order n b (o + 1) in if is_null (b.lists o).blocks then later else some o

-- `while current_order > order`, for a block that is `d` orders too large: the upper half of the
-- block goes to the free list one order down.
unfoldable pub split : (d : ℕ) → BuddyAllocator → (phys order : ℕ) → BuddyAllocator
split zero b phys order = b
split (suc d) b phys order =
    split d (push_at b (order + d) (add64 phys (block_size (order + d)))) phys order

unfoldable pub take_block :
    BuddyAllocator → (order found : ℕ) → Option ℕ × FreeList → Option ℕ × BuddyAllocator
take_block b order found (none, l) = (none, b)
take_block b order found (some phys, l) =
    let b' = split (found - order) (record b { lists = set_list b.lists found l }) phys order in
    (some phys, record b' { free_pages = b'.free_pages - 2 ^ order })

unfoldable pub alloc_from : BuddyAllocator → ℕ → Option ℕ → Option ℕ × BuddyAllocator
alloc_from b order none = (none, b)
alloc_from b order (some found) = take_block b order found (pop (b.lists found))

unfoldable pub alloc : BuddyAllocator → ℕ → Option ℕ × BuddyAllocator
unfolding take_block alloc_from
alloc b order = alloc_from b order (find_order (max_order + 1 - order) b order)

-- Where the loop of `free` stops.
pub record Merged : Type 0 where
  pub state : BuddyAllocator
  pub phys : ℕ
  pub order : ℕ

-- The loop of `free`, with the rounds that are left before `MAX_ORDER`.
unfoldable pub merge : (rounds : ℕ) → BuddyAllocator → (phys order : ℕ) → Merged
merge zero b phys order = record { state = b; phys = phys; order = order }
merge (suc n) b phys order =
    let buddy = bit_xor phys (block_size order) in
    let (found, l) = remove (b.lists order) buddy in
    let rest =
      merge n (record b { lists = set_list b.lists order l }) (min phys buddy) (order + 1) in
    if found then rest else record { state = b; phys = phys; order = order }

-- An order above `MAX_ORDER` indexes past the array: `none` is the panic.
unfoldable pub free : BuddyAllocator → (phys order : ℕ) → Option BuddyAllocator
free b phys order =
    if ltb max_order order
    then none
    else let m = merge (max_order - order) b phys order in
      let b' = push_at m.state m.order m.phys in
      some (record b' { free_pages = b'.free_pages + 2 ^ order })

-- `!x` on `u64`
abbrev pub not64 : ℕ → ℕ
not64 x = 2 ^ 64 - 1 - x

unfoldable pub align_up : (val align : ℕ) → ℕ
align_up val align = bit_and (add64 val (align - 1)) (not64 (align - 1))

unfoldable pub align_down : (val align : ℕ) → ℕ
align_down val align = bit_and val (not64 (align - 1))

pub is_aligned : (val align : ℕ) → Bool
is_aligned val align = bit_and val (align - 1) == 0

-- The inner `loop` of `add_region`: the largest order at most `order` at which a block fits.
pub fit_order : (order addr end : ℕ) → ℕ
fit_order zero addr end = 0
fit_order (suc order) addr end =
    let smaller = fit_order order addr end in
    if not (addr % block_size (suc order) == 0) || ltb end (add64 addr (block_size (suc order)))
    then smaller
    else suc order

add_block : BuddyAllocator → (addr order : ℕ) → BuddyAllocator
add_block b addr order =
    let b' = push_at b order addr in
    record b' { free_pages = b'.free_pages + 2 ^ order; total_pages = b'.total_pages + 2 ^ order }

-- `while addr < end`; each round takes at least a page.
pub add_blocks : (fuel : ℕ) → BuddyAllocator → (addr end : ℕ) → BuddyAllocator
unfolding add_block
add_blocks zero b addr end = b
add_blocks (suc n) b addr end =
    let order = fit_order max_order addr end in
    let rest = add_blocks n (add_block b addr order) (add64 addr (block_size order)) end in
    if ltb addr end then rest else b

pub add_region : BuddyAllocator → (base size : ℕ) → BuddyAllocator
add_region b base size =
    let addr = align_up base page_size in
    let end = align_down (add64 base size) page_size in
    add_blocks ((end - addr) / page_size) b addr end

-- `MemoryMapEntryType::Usable` or not, with base and length.
pub record MemoryMapEntry : Type 0 where
  pub usable : Bool
  pub base : ℕ
  pub length : ℕ

-- The first 2 MiB are never given out.
abbrev pub low_memory : ℕ
low_memory = 0x20_0000

pub init_entry : BuddyAllocator → MemoryMapEntry → BuddyAllocator
init_entry b e =
    if not e.usable
    then b
    else if ltb e.base low_memory && leb e.length (low_memory - e.base)
    then b
    else let base = if ltb e.base low_memory then e.base + (low_memory - e.base) else e.base in
      let length = e.length - (base - e.base) in
      if ltb 0 length then add_region b base length else b

pub init : List MemoryMapEntry → BuddyAllocator → BuddyAllocator
unfolding init_entry
init [] b = b
init (e ∷ es) b = init es (init_entry b e)

pub used_pages : BuddyAllocator → ℕ
used_pages b = b.total_pages - b.free_pages
