-- ===== src/Paging/Tests/Spaces.antt =====
-- Runs of new spaces and of the fault handlers of src/mm/vmm.rs.
use sar_osx.Base.{ℕ, ◌/◌, ◌%◌, ◌^◌, ◌≡◌, refl, true, false, none, some, leb, if◌then◌else◌}
use sar_osx.Pmm.{
  alloc, alloc_from, take_block, pop, pop_blocks, find_order, split, push, page_size, align_down,
}
use sar_osx.Pmm.Mass.{mass_orders}
use sar_osx.Pmm.Valid.{covered}
use sar_osx.VmSpace.{VmaEntry, vma}
use sar_osx.Paging.{
  Memory, map_page, translate, translate_page, get_table, get_or_alloc_table, link,
  alloc_zeroed_frame, zeroed, is_present,
}
use sar_osx.Paging.Tree.{root_place, IsTree, leaf_from}
use sar_osx.Paging.Map.{in_large}
use sar_osx.Paging.Space.{new_user, with_kernel_half}
use sar_osx.Paging.Space.Fresh.{new_user_lem, with_root}
use sar_osx.Paging.Fault.{handle_demand_page, demand_flags, handle_cow, copy_from}
use sar_osx.Paging.Fault.Served.{Backed, Copied, handle_demand_page_lem, handle_cow_lem}
use sar_osx.Paging.Tests.{
  kernel_root, user_root, machine, places, machine-IsTree, virt, small_machine,
}

new_user_done : new_user kernel_root machine ≡ (some 0x20_0000, (new_user kernel_root machine).1)
unfolding new_user with_kernel_half alloc_zeroed_frame zeroed alloc alloc_from take_block pop
    pop_blocks find_order split push
new_user_done = refl

new_user_lem_example :
    let m' = (new_user kernel_root machine).1 in
    IsTree kernel_root (with_root 0x20_0000 places) m'
    × (translate m' 0x20_0000 virt
        ≡ (if leb 256 (virt / 2 ^ 39 % 512) then translate machine kernel_root virt else none))
    × (translate m' user_root virt ≡ translate machine user_root virt)
new_user_lem_example =
    new_user_lem kernel_root places machine 0x20_0000 (new_user kernel_root machine).1
      machine-IsTree refl new_user_done user_root virt refl

abbrev heap_area : VmaEntry
heap_area = vma 0x40_0000 0x40_2000 3

demand_done : (handle_demand_page machine user_root virt heap_area).0 ≡ true
unfolding map_page get_or_alloc_table is_present link alloc_zeroed_frame zeroed alloc alloc_from
    take_block pop pop_blocks find_order split push handle_demand_page align_down demand_flags
demand_done = refl

abbrev demanded : Memory
demanded = (handle_demand_page machine user_root virt heap_area).1

handle_demand_page_lem_example :
    (p : ℕ) × Backed kernel_root places machine demanded user_root virt p (λ _. 0)
handle_demand_page_lem_example =
    handle_demand_page_lem kernel_root places machine user_root virt heap_area machine-IsTree refl
      refl small_machine demand_done

demanded_places : (p : ℕ) × Backed kernel_root places machine demanded user_root virt p (λ _. 0)
demanded_places =
    handle_demand_page_lem kernel_root places machine user_root virt heap_area machine-IsTree refl
      refl small_machine demand_done

small_demanded : in_large demanded user_root virt ≡ false
unfolding map_page get_or_alloc_table is_present link alloc_zeroed_frame zeroed alloc alloc_from
    take_block pop pop_blocks find_order split push in_large leaf_from handle_demand_page align_down
    demand_flags
small_demanded = refl

old_page : translate demanded user_root (align_down virt page_size) ≡ some 0x20_0000
unfolding map_page get_or_alloc_table is_present link alloc_zeroed_frame zeroed alloc alloc_from
    take_block pop pop_blocks find_order split push handle_demand_page align_down demand_flags
    translate translate_page get_table
old_page = refl

old_taken : covered 0x20_0000 demanded.pmm ≡ 0
unfolding map_page get_or_alloc_table is_present link alloc_zeroed_frame zeroed alloc alloc_from
    take_block pop pop_blocks find_order split push handle_demand_page align_down demand_flags
    mass_orders
old_taken = refl

cow_done : (handle_cow demanded user_root virt).0 ≡ true
unfolding map_page get_or_alloc_table is_present link alloc_zeroed_frame zeroed alloc alloc_from
    take_block pop pop_blocks find_order split push handle_demand_page align_down demand_flags
    translate translate_page get_table handle_cow copy_from
cow_done = refl

handle_cow_lem_example :
    Copied kernel_root demanded_places.1.0.0 demanded user_root virt 0x20_0000
      (handle_cow demanded user_root virt)
handle_cow_lem_example =
    handle_cow_lem kernel_root demanded_places.1.0.0 demanded user_root virt 0x20_0000
      demanded_places.1.0.1 (demanded_places.1.0.2 0x2000 (root_place 0x2000) refl)
      (demanded_places.1.0.2 0x1000 (root_place 0x1000) refl) small_demanded old_page old_taken
