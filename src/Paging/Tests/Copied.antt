-- ===== src/Paging/Tests/Copied.antt =====
-- A run of the copy of an address space, src/proc/fork.rs, with one page mapped.
use sar_osx.Base.{ℕ, ◌≡◌, refl, false, Option, some, arith}
use sar_osx.Pmm.{alloc, alloc_from, take_block, pop, pop_blocks, find_order, split, push}
use sar_osx.Paging.{
  is_set, map_page, translate, get_or_alloc_table, link, alloc_zeroed_frame, zeroed, is_present,
}
use sar_osx.Paging.Tree.{Place, root_place, IsTree}
use sar_osx.Paging.Clone.{
  clone_address_space, clone_entries, clone_entry, clone_pdpt, clone_pd, clone_pt, copy_pages,
}
use sar_osx.Paging.Clone.Shared.{clone_address_space_lem}
use sar_osx.Paging.Tests.{kernel_root, user_root, mapped, mapped_places}

no_large_entry : (t i : ℕ) → is_set (mapped.entries t i) 128 ≡ false
unfolding map_page get_or_alloc_table is_present link alloc_zeroed_frame zeroed alloc alloc_from
    take_block pop pop_blocks find_order split push
no_large_entry t i = ground arith

clone_done : (clone_address_space mapped user_root).0 ≡ some 0x20_3000
unfolding map_page get_or_alloc_table is_present link alloc_zeroed_frame zeroed alloc alloc_from
    take_block pop pop_blocks find_order split push clone_address_space clone_entries clone_entry
    clone_pdpt clone_pd clone_pt copy_pages
clone_done = refl

clone_address_space_lem_example :
    let m' = (clone_address_space mapped user_root).1 in
    let pl0 = mapped_places.0 in
    (pl' : ℕ → Option Place) × IsTree kernel_root pl' m'
    × ((t : ℕ) (w : Place) → pl0 t ≡ some w → pl' t ≡ some w)
    × (pl' 0x20_3000 ≡ some (root_place 0x20_3000))
    × ((v : ℕ) → translate m' 0x20_3000 v ≡ translate mapped user_root v)
    × ((root v : ℕ)
        → pl0 root ≡ some (root_place root)
        → translate m' root v ≡ translate mapped root v)
clone_address_space_lem_example =
    clone_address_space_lem kernel_root user_root mapped_places.0 mapped mapped_places.1
      (mapped_places.2 0x2000 (root_place 0x2000) refl) (λ t w n i e own hw lt. no_large_entry t i)
      0x20_3000 clone_done
