-- ===== src/Pmm/Tests.antt =====
-- Runs of the allocator of src/mm/pmm.rs on small memories.
use sar_osx.Base.{
  ℕ, ◌+◌, ◌*◌, ◌^◌, ◌≤◌, ◌≡◌, refl, true, false, ◌&&◌, some, List, [], ◌∷◌, arith, ltb, leb,
  if◌then◌else◌,
}
use sar_osx.Pmm.{
  block_size, BuddyAllocator, MemoryMapEntry, new, alloc, free, align_up, align_down, is_aligned,
  add_region, init, used_pages,
}
use sar_osx.Pmm.Mass.{mass_orders, Fits}
use sar_osx.Pmm.Valid.{IsValid, inside, covered}
use sar_osx.Pmm.Alloc.{alloc-some}
use sar_osx.Pmm.Free.{free_lem}
use sar_osx.Pmm.Region.{add_region_lem}
use sar_osx.Pmm.Boot.{times_given, init_lem}

new-IsValid : IsValid new
unfolding mass_orders
new-IsValid = record { lists = λ o. (tt, refl); counted = refl }

-- Four pages at 4 MiB, which make one block.
abbrev four : BuddyAllocator
four = add_region new 0x40_0000 0x4000

abbrev three : BuddyAllocator
three = (alloc four 0).1

abbrev two : BuddyAllocator
two = (alloc three 0).1

four_blocks : ((four.lists 2).blocks ≡ 0x40_0000 ∷ []) × (four.free_pages ≡ 4)
unfolding add_region sar_osx.Pmm.add_blocks align_down align_up sar_osx.Pmm.fit_order
    sar_osx.Pmm.push
four_blocks = (refl, refl)

-- The upper halves go to the lower lists.
three_blocks :
    ((three.lists 0).blocks ≡ 0x40_1000 ∷ [])
    × ((three.lists 1).blocks ≡ 0x40_2000 ∷ [])
    × (three.free_pages ≡ 3)
    × (used_pages three ≡ 1)
unfolding add_region alloc used_pages sar_osx.Pmm.find_order sar_osx.Pmm.add_blocks align_down
    align_up sar_osx.Pmm.fit_order sar_osx.Pmm.push sar_osx.Pmm.pop sar_osx.Pmm.split
three_blocks = (refl, refl, refl, refl)

four-IsValid : IsValid four
four-IsValid = (add_region_lem new 0x40_0000 0x4000 new-IsValid (omega arith)).0

gives_first : alloc four 0 ≡ (some 0x40_0000, three)
unfolding add_region alloc sar_osx.Pmm.find_order sar_osx.Pmm.add_blocks align_down align_up
    sar_osx.Pmm.fit_order sar_osx.Pmm.push sar_osx.Pmm.pop
gives_first = refl

gives_second : alloc three 0 ≡ (some 0x40_1000, two)
unfolding add_region alloc sar_osx.Pmm.find_order sar_osx.Pmm.add_blocks align_down align_up
    sar_osx.Pmm.fit_order sar_osx.Pmm.push sar_osx.Pmm.pop sar_osx.Pmm.split
gives_second = refl

alloc-some_example :
    Fits 0 0x40_0000
    × IsValid three
    × ((f : ℕ) → covered f three + inside f 0 0x40_0000 ≡ covered f four)
    × (three.free_pages + 2 ^ 0 ≡ four.free_pages)
alloc-some_example = alloc-some four 0 0x40_0000 three four-IsValid gives_first

four_once : (f : ℕ) → covered f four ≤ 1
unfolding mass_orders
four_once f = ground (arith, (add_region_lem new 0x40_0000 0x4000 new-IsValid (omega arith)).1 f)

abbrev NothingFrom : BuddyAllocator → ℕ → Type 0
NothingFrom b order = (k : ℕ) → order ≤ k → k ≤ 12 → (b.lists k).blocks ≡ []

free_lem_example :
    (b' : BuddyAllocator) × (free three 0x40_0000 0 ≡ some b')
    × IsValid b'
    × ((f : ℕ) → covered f b' ≡ covered f three + inside f 0 0x40_0000)
    × (b'.free_pages ≡ three.free_pages + 2 ^ 0)
free_lem_example =
    free_lem three 0x40_0000 0 alloc-some_example.1 (omega arith) alloc-some_example.0

abbrev firmware_map : List MemoryMapEntry
firmware_map =
    record { usable = true; base = 0x1000; length = 0x20_2000 }
    ∷ record { usable = false; base = 0x30_0000; length = 0x1000 }
    ∷ []

rounding :
    (align_up 0x1234 4096 ≡ 0x2000)
    × (align_down 0x1234 4096 ≡ 0x1000)
    × (is_aligned 0x2000 4096 ≡ true)
unfolding align_up align_down is_aligned
rounding = (refl, refl, refl)

add_region_lem_example :
    IsValid four
    × ((f : ℕ)
        → covered f four
          ≡ covered f new + (if leb (1024 * 4096) f && ltb f (1028 * 4096) then 1 else 0))
    × (four.free_pages ≡ new.free_pages + 4)
    × (four.total_pages ≡ new.total_pages + 4)
add_region_lem_example = add_region_lem new 0x40_0000 0x4000 new-IsValid (omega arith)

init_lem_example :
    IsValid (init firmware_map new)
    × ((f : ℕ) → covered f (init firmware_map new) ≡ covered f new + times_given firmware_map f)
init_lem_example = init_lem firmware_map new new-IsValid (omega arith)
