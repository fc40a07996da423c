-- ===== src/Heap.antt =====
-- src/mm/heap.rs: the kernel heap, slabs of equal objects over page frames.
-- The free objects of a slab and the slabs of a cache are threaded through memory; both are lists of
-- what they hold, head first. A null pointer is `none`, or the address 0 where a call answers it. To
-- free an address that no slab holds is undefined in the code; it is `none` here. The content of
-- memory (cleared pages, the copy of `realloc`) is left out.
pub mod Objects
pub mod Cache
mod Tests
use sar_osx.Base.{
  All, ℕ, zero, suc, ◌+◌, ◌-◌, ◌*◌, ◌/◌, ◌%◌, ◌^◌, ◌≤◌, ◌<◌, min, max, bit_and, bit_or, bit_xor,
  ◌≡◌, refl, sym, ap, ◌∙◌, ◌≢◌, ◌↔◌, ◌⊎◌, inl, inr, Bool, true, false, not, ◌&&◌, ◌||◌, Option,
  none, some, List, [], ◌∷◌, ◌++◌, map, append-nil, append_assoc, arith, ltb, leb, ◌==◌,
  if◌then◌else◌, ltb→lt, lt→ltb, leb→le, ==_iff, tests, Bool-cases, Option-cases, length, get_elem?,
  set, get_or, take, drop, replicate, length-append, length-set, length-take, length-drop,
  length-replicate, length-map,
}
use sar_osx.Pmm.{BuddyAllocator, align_up, page_size}
use mathlib.Core.Option
use sar_osx.Pmm

pub record Slab : Type 0 where
  pub base : ℕ
  pub obj_size : ℕ
  pub free : List ℕ
  pub used : ℕ
  pub capacity : ℕ

-- `size_of::<Slab>()`: six words.
abbrev pub slab_header : ℕ
slab_header = 48

-- The objects from an address on, in the order of their addresses.
unfoldable pub objects : (count start obj_size : ℕ) → List ℕ
objects zero start obj_size = []
objects (suc count) start obj_size = start ∷ objects count (start + obj_size) obj_size

abbrev pub capacity_of : ℕ → ℕ
capacity_of obj_size = (page_size - align_up slab_header obj_size) / obj_size

abbrev pub slab_at : (base obj_size : ℕ) → Slab
slab_at base obj_size = record {
  base = base;
  obj_size = obj_size;
  free = objects (capacity_of obj_size) (base + align_up slab_header obj_size) obj_size;
  used = 0;
  capacity = capacity_of obj_size;
}

abbrev pub slab_of : ℕ → Option ℕ × BuddyAllocator → Option Slab × BuddyAllocator
slab_of obj_size (none, pmm) = (none, pmm)
slab_of obj_size (some phys, pmm) = (some (slab_at phys obj_size), pmm)

-- `Slab::new`
unfoldable pub new_slab : BuddyAllocator → (obj_size : ℕ) → Option Slab × BuddyAllocator
new_slab pmm obj_size = slab_of obj_size (Pmm.alloc pmm 0)

abbrev pub take_object : Slab → List ℕ → Option ℕ × Slab
take_object s [] = (none, s)
take_object s (obj ∷ rest) = (some obj, record s { free = rest; used = s.used + 1 })

unfoldable pub slab_alloc : Slab → Option ℕ × Slab
slab_alloc s = take_object s s.free

unfoldable pub slab_dealloc : Slab → ℕ → Slab
slab_dealloc s ptr = record s { free = ptr ∷ s.free; used = s.used - 1 }

abbrev pub is_empty : Slab → Bool
is_empty s = s.used == 0

abbrev pub is_full : Slab → Bool
is_full s = s.used == s.capacity

pub record SlabCache : Type 0 where
  pub obj_size : ℕ
  pub partial : List Slab
  pub full : List Slab

abbrev pub new_cache : (obj_size : ℕ) → SlabCache
new_cache size = record { obj_size = size; partial = []; full = [] }

-- `alloc` from the first of the partial slabs, which moves to the full ones when it is.
abbrev pub place : SlabCache → Slab → List Slab → SlabCache
place c s rest =
    if is_full s
    then record c { partial = rest; full = s ∷ c.full }
    else record c { partial = s ∷ rest }

abbrev pub taken_from : SlabCache → List Slab → Option ℕ × Slab → Option ℕ × SlabCache
taken_from c rest (none, s) = (none, c)
taken_from c rest (some ptr, s) = (some ptr, place c s rest)

abbrev pub grow : SlabCache → Option Slab × BuddyAllocator → (Option ℕ × SlabCache) × BuddyAllocator
grow c (none, pmm) = ((none, c), pmm)
grow c (some slab, pmm) =
    (taken_from (record c { partial = slab ∷ c.partial }) c.partial (slab_alloc slab), pmm)

abbrev pub alloc_from :
    SlabCache → List Slab → BuddyAllocator → (Option ℕ × SlabCache) × BuddyAllocator
alloc_from c [] pmm = grow c (new_slab pmm c.obj_size)
alloc_from c (slab ∷ rest) pmm = (taken_from c rest (slab_alloc slab), pmm)

unfoldable pub cache_alloc : SlabCache → BuddyAllocator → (Option ℕ × SlabCache) × BuddyAllocator
cache_alloc c pmm = alloc_from c c.partial pmm

-- `remove_from_full` and `remove_from_partial`: the first slab at the address is unlinked.
unfoldable pub remove_slab : (base : ℕ) → List Slab → List Slab
remove_slab base [] = []
remove_slab base (s ∷ rest) =
    let kept = s ∷ remove_slab base rest in if s.base == base then rest else kept

unfoldable pub find_slab : (base : ℕ) → List Slab → Option Slab
find_slab base [] = none
find_slab base (s ∷ rest) =
    let later = find_slab base rest in if s.base == base then some s else later

-- A slab that has changed, at its place in a list.
abbrev pub write_slab : Slab → Slab → Slab
write_slab new s = if s.base == new.base then new else s

abbrev pub dealloc_in :
    SlabCache → BuddyAllocator → (ptr : ℕ) → Option Slab → Option (SlabCache × BuddyAllocator)
dealloc_in c pmm ptr none = none
dealloc_in c pmm ptr (some slab) =
    let slab' = slab_dealloc slab ptr in
    if is_full slab
    then some (record c { partial = slab' ∷ c.partial; full = remove_slab slab.base c.full }, pmm)
    else if is_empty slab'
    then Option.map (λ pmm'. (record c { partial = remove_slab slab.base c.partial }, pmm'))
        (Pmm.free pmm slab.base 0)
    else some (record c { partial = map (write_slab slab') c.partial }, pmm)

unfoldable pub cache_dealloc :
    SlabCache → BuddyAllocator → (ptr : ℕ) → Option (SlabCache × BuddyAllocator)
cache_dealloc c pmm ptr =
    dealloc_in c pmm ptr (find_slab (ptr / page_size * page_size) (c.partial ++ c.full))

pub record KernelAllocator : Type 0 where
  pub caches : List SlabCache
  pub pmm : BuddyAllocator

abbrev pub slab_sizes : List ℕ
slab_sizes = 8 ∷ 16 ∷ 32 ∷ 64 ∷ 128 ∷ 256 ∷ 512 ∷ 1024 ∷ 2048 ∷ []

abbrev pub new : BuddyAllocator → KernelAllocator
new pmm = record { caches = map new_cache slab_sizes; pmm = pmm }

-- The index and the first cache whose objects are large enough.
unfoldable pub find_in : (need : ℕ) → List SlabCache → Option (ℕ × SlabCache)
find_in need [] = none
find_in need (c ∷ rest) =
    let later = Option.map (λ r. (suc r.0, r.1)) (find_in need rest) in
    if leb need c.obj_size then some (0, c) else later

abbrev pub find_cache : KernelAllocator → (size align : ℕ) → Option (ℕ × SlabCache)
find_cache k size align = find_in (max size align) k.caches

-- The least order of a block of so many pages, as `next_power_of_two` gives it.
unfoldable pub order_from : (fuel order pages : ℕ) → ℕ
order_from zero order pages = order
order_from (suc fuel) order pages =
    let more = order_from fuel (order + 1) pages in if leb pages (2 ^ order) then order else more

abbrev pub order_of : (size : ℕ) → ℕ
order_of size = order_from 64 0 (align_up size page_size / page_size)

abbrev pub or_null : Option ℕ → ℕ
or_null none = 0
or_null (some ptr) = ptr

abbrev pub heap_alloc_in :
    KernelAllocator → (size : ℕ) → Option (ℕ × SlabCache) → ℕ × KernelAllocator
heap_alloc_in k size none =
    let (phys, pmm) = Pmm.alloc k.pmm (order_of size) in (or_null phys, record k { pmm = pmm })
heap_alloc_in k size (some (i, c)) =
    let ((ptr, c'), pmm) = cache_alloc c k.pmm in
    (or_null ptr, record { caches = set k.caches i c'; pmm = pmm })

abbrev pub cache_for : KernelAllocator → (size align : ℕ) → Option (ℕ × SlabCache)
cache_for k size align = if leb size 2048 && leb align 2048 then find_cache k size align else none

unfoldable pub heap_alloc : KernelAllocator → (size align : ℕ) → ℕ × KernelAllocator
heap_alloc k size align =
    if size == 0 then (align, k) else heap_alloc_in k size (cache_for k size align)

abbrev pub heap_dealloc_in :
    KernelAllocator → (ptr size : ℕ) → Option (ℕ × SlabCache) → Option KernelAllocator
heap_dealloc_in k ptr size none =
    Option.map (λ pmm. record k { pmm = pmm }) (Pmm.free k.pmm ptr (order_of size))
heap_dealloc_in k ptr size (some (i, c)) =
    Option.map (λ r. record { caches = set k.caches i r.0; pmm = r.1 }) (cache_dealloc c k.pmm ptr)

unfoldable pub heap_dealloc : KernelAllocator → (ptr size align : ℕ) → Option KernelAllocator
heap_dealloc k ptr size align =
    if ptr == 0 || size == 0 then some k else heap_dealloc_in k ptr size (cache_for k size align)
