-- ===== src/Paging/Tests.antt =====
-- Runs of the page tables of src/mm/vmm.rs on a machine with two empty roots and sixteen free frames.
mod Spaces
mod Copied
use sar_osx.Base.{
  [], ℕ, ◌+◌, ◌≤◌, ◌≡◌, refl, ◌≢◌, ◌⊎◌, inl, inr, true, false, Option, none, some, ◌∷◌, arith, ◌==◌,
  if◌then◌else◌, ==_iff, Bool-cases,
}
use sar_osx.Pmm.{
  BuddyAllocator, FreeList, alloc, alloc_from, take_block, pop, pop_blocks, find_order, split, push,
}
use sar_osx.Pmm.Mass.{mass_orders}
use sar_osx.Pmm.Valid.{IsValid, ListIsValid, covered, inside}
use sar_osx.Paging.{
  Memory, map_page, unmap, translate, get_or_alloc_table, link, alloc_zeroed_frame, zeroed,
  is_present,
}
use sar_osx.Paging.Tree.{Place, root_place, IsTree, leaf_from}
use sar_osx.Paging.Map.{in_large}
use sar_osx.Paging.Map.Effect.{
  map_page-translate, map_page_elsewhere, map_page-IsTree, map_page_fails,
}
use sar_osx.Paging.Map.Unmap.{unmap_lem}
use sar_osx.Paging.Slot.{owner_of, page_of}
use sar_osx.Paging.Space.{free_user_page_tables}
use sar_osx.Paging.Space.Dropped.{count_tables}
use sar_osx.Paging.Space.Dropped.Others.{without, free_user_page_tables_lem}

abbrev pub kernel_root : ℕ
kernel_root = 0x1000

abbrev pub user_root : ℕ
user_root = 0x2000

abbrev free_block : FreeList
free_block = record { blocks = 0x20_0000 ∷ []; count = 1 }

abbrev no_block : FreeList
no_block = record { blocks = []; count = 0 }

abbrev frames : BuddyAllocator
frames = record {
  lists = λ o. if o == 4 then free_block else no_block;
  free_pages = 16;
  total_pages = 16;
}

abbrev pub machine : Memory
machine = record { entries = λ t i. 0; pmm = frames }

abbrev pub places : ℕ → Option Place
places x =
    if x == 0x1000
    then some (root_place 0x1000)
    else (if x == 0x2000 then some (root_place 0x2000) else none)

frames-ListIsValid : (o : ℕ) → ListIsValid o (frames.lists o)
frames-ListIsValid o = elim (Bool-cases (o == 4)) [
  | inl q ↦
      let four : o ≡ 4 = (==_iff o 4).0 q in
      rw (q, four) ((record { index = 32; aligned = refl; below = omega arith }, tt), refl)
  | inr q ↦ rw q (tt, refl)
]

covered_frames : (f : ℕ) → covered f frames ≡ inside f 4 0x20_0000
unfolding mass_orders
covered_frames f = omega arith

frames-IsValid : IsValid frames
unfolding mass_orders
frames-IsValid = record { lists = frames-ListIsValid; counted = refl }

place_cases :
    (x : ℕ) (w : Place)
    → places x ≡ some w
    → ((x ≡ 0x1000) × (w ≡ root_place 0x1000)) ⊎ ((x ≡ 0x2000) × (w ≡ root_place 0x2000))
place_cases x w e = elim (Bool-cases (x == 0x1000)) [
  | inl q ↦
      let s : some (root_place 0x1000) ≡ some w = rw q at e in
      inl ((==_iff x 0x1000).0 q, (let s' : w ≡ root_place 0x1000 = cc in s'))
  | inr q ↦ elim (Bool-cases (x == 0x2000)) [
    | inl r ↦
        let s : some (root_place 0x2000) ≡ some w = rw (q, r) at e in
        inr ((==_iff x 0x2000).0 r, (let s' : w ≡ root_place 0x2000 = cc in s'))
    | inr r ↦ let bad : none ≡ some w = rw (q, r) at e in cc
  ]
]

apart_frames : (f x : ℕ) → (x ≡ 0x1000) ⊎ (x ≡ 0x2000) → inside f 4 0x20_0000 + inside f 0 x ≤ 1
apart_frames f x (inl e) = rw e (ground arith)
apart_frames f x (inr e) = rw e (ground arith)

-- Two empty roots, and free memory in one block at most.
roots-IsTree :
    (b : BuddyAllocator)
    → IsValid b
    → ((f : ℕ) → covered f b ≤ inside f 4 0x20_0000)
    → IsTree kernel_root places (record { entries = λ t i. 0; pmm = b })
roots-IsTree b v only = record {
  links = λ t w n i e hw lt p l. cc;
  idle = λ t w n i e hw lt p. refl;
  apart = λ t w e f. elim (place_cases t w e) [
    | inl (x, _) ↦ omega (arith, only f, apart_frames f t (inl x))
    | inr (x, _) ↦ omega (arith, only f, apart_frames f t (inr x))
  ];
  aligned = λ t w e. elim (place_cases t w e) [
    | inl (x, _) ↦ rw x (refl, omega arith)
    | inr (x, _) ↦ rw x (refl, omega arith)
  ];
  valid = v;
  once = λ f. let one : inside f 4 0x20_0000 ≤ 1 = ground arith in omega (arith, only f);
  low = λ f h. let h' : 1 ≤ inside f 4 0x20_0000 = omega (arith, only f) in ground arith;
}

pub machine-IsTree : IsTree kernel_root places machine
machine-IsTree = roots-IsTree frames frames-IsValid (λ f. omega (arith, covered_frames f))

-- The same without a free frame.
abbrev pub full : Memory
full = record {
  entries = λ t i. 0;
  pmm = record { lists = λ o. no_block; free_pages = 0; total_pages = 16 };
}

pub full-IsTree : IsTree kernel_root places full
unfolding mass_orders
full-IsTree =
    roots-IsTree full.pmm (record { lists = λ o. (tt, refl); counted = refl }) (λ f. omega arith)

abbrev pub virt : ℕ
virt = 0x40_0123

abbrev pub mapped : Memory
mapped = (map_page machine user_root virt 0x8000 7).1

map_page_done : (map_page machine user_root virt 0x8000 7).0 ≡ true
unfolding map_page get_or_alloc_table is_present link alloc_zeroed_frame zeroed alloc alloc_from
    take_block pop pop_blocks find_order split push
map_page_done = refl

pub small_machine : in_large machine user_root virt ≡ false
unfolding in_large leaf_from
small_machine = refl

map_page-translate_example :
    translate (map_page machine user_root virt 0x8000 7).1 user_root 0x40_0FFF ≡ some 0x8FFF
unfolding page_of
map_page-translate_example =
    map_page-translate kernel_root places machine user_root virt 0x8000 7 machine-IsTree refl
      small_machine refl map_page_done 0x40_0FFF refl

next_page : page_of 0x40_1000 ≢ page_of virt
unfolding page_of
next_page e = absurd (omega (arith, e))

map_page_elsewhere_example :
    translate mapped user_root 0x40_1000 ≡ translate machine user_root 0x40_1000
map_page_elsewhere_example =
    map_page_elsewhere kernel_root places machine user_root virt 0x8000 7 machine-IsTree refl
      small_machine user_root 0x40_1000 refl (inr next_page)

map_page-IsTree_example :
    (pl' : ℕ → Option Place) × IsTree kernel_root pl' mapped
    × ((t : ℕ) (w : Place) → places t ≡ some w → pl' t ≡ some w)
map_page-IsTree_example =
    map_page-IsTree kernel_root places machine user_root virt 0x8000 7 machine-IsTree refl
      small_machine

full_small : in_large full user_root virt ≡ false
unfolding in_large leaf_from
full_small = refl

full_fails : (map_page full user_root virt 0x8000 7).0 ≡ false
unfolding map_page get_or_alloc_table is_present link alloc_zeroed_frame zeroed alloc alloc_from
    take_block pop pop_blocks find_order split push
full_fails = refl

map_page_fails_example :
    ((alloc (map_page full user_root virt 0x8000 7).1.pmm 0).0 ≡ none)
    × ((root' virt' : ℕ)
        → places root' ≡ some (root_place root')
        → translate (map_page full user_root virt 0x8000 7).1 root' virt'
          ≡ translate full root' virt')
map_page_fails_example =
    map_page_fails kernel_root places full user_root virt 0x8000 7 full-IsTree refl full_small
      full_fails

pub mapped_places :
    (pl' : ℕ → Option Place) × IsTree kernel_root pl' mapped
    × ((t : ℕ) (w : Place) → places t ≡ some w → pl' t ≡ some w)
mapped_places =
    map_page-IsTree kernel_root places machine user_root virt 0x8000 7 machine-IsTree refl
      small_machine

small_mapped : in_large mapped user_root virt ≡ false
unfolding map_page get_or_alloc_table is_present link alloc_zeroed_frame zeroed alloc alloc_from
    take_block pop pop_blocks find_order split push in_large leaf_from
small_mapped = refl

unmap_lem_example :
    let m' = unmap mapped user_root virt in
    IsTree kernel_root mapped_places.0 m'
    × (translate m' user_root virt ≡ none)
    × ((root' virt' : ℕ)
        → mapped_places.0 root' ≡ some (root_place root')
        → (owner_of kernel_root root' virt' ≢ owner_of kernel_root user_root virt)
          ⊎ (page_of virt' ≢ page_of virt)
        → translate m' root' virt' ≡ translate mapped root' virt')
unmap_lem_example =
    unmap_lem kernel_root mapped_places.0 mapped user_root virt mapped_places.1
      (mapped_places.2 0x2000 (root_place 0x2000) refl) small_mapped

free_user_page_tables_lem_example :
    let m' = free_user_page_tables mapped user_root in
    IsTree kernel_root (without user_root mapped_places.0) m'
    × ((root' v : ℕ) → translate m' root' v ≡ translate mapped root' v)
    × (m'.pmm.free_pages ≡ mapped.pmm.free_pages + count_tables mapped user_root)
free_user_page_tables_lem_example =
    free_user_page_tables_lem kernel_root mapped_places.0 mapped user_root mapped_places.1
      (mapped_places.2 0x2000 (root_place 0x2000) refl) (λ e. absurd (omega (arith, e)))
