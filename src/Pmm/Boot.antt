-- ===== src/Pmm/Boot.antt =====
-- `init` of src/mm/pmm.rs: the memory map of the boot loader becomes free memory.
use sar_osx.Base.{
  ℕ, ◌+◌, ◌-◌, ◌*◌, ◌/◌, ◌^◌, ◌≤◌, ◌<◌, max, ◌≡◌, ◌⊎◌, inl, inr, Bool, true, false, ◌&&◌, List, [],
  ◌∷◌, arith, ltb, leb, if◌then◌else◌, Bool-cases,
}
use sar_osx.Pmm.{BuddyAllocator, MemoryMapEntry, low_memory, add_region, init_entry, init}
use sar_osx.Pmm.Valid.{IsValid, covered}
use sar_osx.Pmm.Region.{add_region_lem}
use sar_osx.Pmm.Mass.{All}

-- The map describes memory that ends well below the top of the address range.
abbrev pub InRange : MemoryMapEntry → Type 0
InRange e = e.base + e.length + 2 ^ 25 < 2 ^ 64

-- The byte lies in a page that the entry gives wholly, above the first 2 MiB.
pub gives : MemoryMapEntry → ℕ → Bool
gives e f =
    e.usable
    && (leb (max e.base low_memory) (f / 4096 * 4096)
        && leb (f / 4096 * 4096 + 4096) (e.base + e.length))

abbrev Grown : BuddyAllocator → MemoryMapEntry → BuddyAllocator → Type 0
Grown b e b' = IsValid b' × ((f : ℕ) → covered f b' ≡ covered f b + (if gives e f then 1 else 0))

-- Whole pages, by the rounded ends of the region and by the page of the byte.
whole_pages :
    (base size f : ℕ)
    → ◌≡◌ {A = ℕ}
        (if leb ((base + 4095) / 4096 * 4096) f && ltb f ((base + size) / 4096 * 4096)
          then 1
          else 0)
        (if leb base (f / 4096 * 4096) && leb (f / 4096 * 4096 + 4096) (base + size) then 1 else 0)
whole_pages base size f = ground arith

region-Grown :
    (b : BuddyAllocator) (e : MemoryMapEntry) (base size : ℕ)
    → IsValid b
    → InRange e
    → e.usable ≡ true
    → base ≡ max e.base low_memory
    → base + size ≡ e.base + e.length
    → Grown b e (add_region b base size)
unfolding gives
region-Grown b e base size v r u at_start at_end =
    let a = add_region_lem b base size v (omega arith) in
    (a.0, λ f. rw (u, ← at_start, ← at_end) (omega (arith, a.1 f, whole_pages base size f)))

nothing-Grown :
    (b : BuddyAllocator) (e : MemoryMapEntry)
    → IsValid b
    → (e.usable ≡ false) ⊎ (e.base + e.length ≤ max e.base low_memory)
    → Grown b e b
unfolding gives
nothing-Grown b e v (inl u) = (v, λ f. rw u (omega arith))
nothing-Grown b e v (inr h) = (v, λ f. ground arith)

init_entry-Grown :
    (b : BuddyAllocator) (e : MemoryMapEntry) → IsValid b → InRange e → Grown b e (init_entry b e)
unfolding init_entry
init_entry-Grown b e v r = elim (Bool-cases e.usable) [
  | inr u ↦ simp u (nothing-Grown b e v (inl u))
  | inl u ↦ elim (Bool-cases (ltb e.base low_memory)) [
    | inl low ↦ elim (Bool-cases (leb e.length (low_memory - e.base))) [
      | inl short ↦ simp (u, low, short) (nothing-Grown b e v (inr (ground arith)))
      | inr long ↦
          let some_left : ltb 0 (e.length - (e.base + (low_memory - e.base) - e.base)) ≡ true =
            ground arith in
          simp (u, low, long, some_left) (region-Grown b e _ _ v r u (ground arith) (ground arith))
    ]
    | inr high ↦ elim (Bool-cases (ltb 0 (e.length - (e.base - e.base)))) [
      | inl some_left ↦
          simp (u, high, some_left) (region-Grown b e _ _ v r u (ground arith) (ground arith))
      | inr empty ↦ simp (u, high, empty) (nothing-Grown b e v (inr (ground arith)))
    ]
  ]
]

abbrev pub times_given : List MemoryMapEntry → ℕ → ℕ
times_given [] f = 0
times_given (e ∷ es) f = (if gives e f then 1 else 0) + times_given es f

-- From a valid allocator and entries that all end more than 2 ^ 25 below 2 ^ 64, `init` makes free
-- exactly the whole pages of the usable entries above the first 2 MiB, as often as the map names
-- them, and keeps the allocator valid.
pub init_lem :
    (es : List MemoryMapEntry) (b : BuddyAllocator)
    → IsValid b
    → All InRange es
    → IsValid (init es b) × ((f : ℕ) → covered f (init es b) ≡ covered f b + times_given es f)
unfolding init
init_lem [] b v r = (v, λ f. omega arith)
init_lem (e ∷ es) b v r =
    let one = init_entry-Grown b e v r.0 in
    let rest = init_lem es (init_entry b e) one.0 r.1 in
    (rest.0, λ f. omega (arith, rest.1 f, one.1 f))
