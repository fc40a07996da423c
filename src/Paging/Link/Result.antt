-- ===== src/Paging/Link/Result.antt =====
-- What `get_or_alloc_table` of src/mm/vmm.rs gives: the table at the slot, linked or found, or none.
use sar_osx.Base.{
  ℕ, suc, ◌<◌, bit_and, ◌≡◌, refl, sym, ap, ◌∙◌, inl, inr, true, false, Option, none, some,
  Bool-cases,
}
use sar_osx.Pmm.{BuddyAllocator, alloc}
use sar_osx.Pmm.Alloc.{alloc-none}
use sar_osx.Paging.Grows.{small-not_large, Grows, Grows-refl}
use sar_osx.Paging.{
  pte_addr_mask, Memory, is_set, is_present, zeroed, alloc_zeroed_frame, link, get_or_alloc_table,
  parent_flags,
}
use sar_osx.Paging.Tree.{Place, child, is_large, IsTree}
use sar_osx.Paging.Link.{linked, placed, linked-Grows, linked_lem}

-- What `get_or_alloc_table` gives: no frame was free, or the table at the slot.
pub data Linked (k : ℕ) (pl : ℕ → Option Place) (m : Memory) (t : ℕ) (w : Place) (i : ℕ)
    : Option ℕ × Memory → Type 0 where
  failed : (alloc m.pmm 0).0 ≡ none → Linked k pl m t w i (none, m)
  found :
      (t' : ℕ) (pl' : ℕ → Option Place) (m' : Memory)
      → Grows k pl m pl' m'
      → pl' t' ≡ some (child k w i)
      → is_set (m'.entries t i) 1 ≡ true
      → is_large w.height (m'.entries t i) ≡ false
      → bit_and (m'.entries t i) pte_addr_mask ≡ t'
      → Linked k pl m t w i (some t', m')

link-Linked :
    (k : ℕ) (pl : ℕ → Option Place) (m : Memory) (t : ℕ) (w : Place) (n i : ℕ)
    → IsTree k pl m
    → pl t ≡ some w
    → w.height ≡ suc n
    → i < 512
    → is_set (m.entries t i) 1 ≡ false
    → (r : Option ℕ × BuddyAllocator) → alloc m.pmm 0 ≡ r
    → Linked k pl m t w i (link t i parent_flags (zeroed m r))
unfolding link zeroed
link-Linked k pl m t w n i h e hu lt q (none, b) given =
    let same : b ≡ m.pmm =
      sym (ap (λ (r : Option ℕ × BuddyAllocator). r.1) given)
      ∙ ((alloc-none m.pmm 0).0 (ap (λ (r : Option ℕ × BuddyAllocator). r.0) given)).1 in
    rw same (failed (ap (λ (r : Option ℕ × BuddyAllocator). r.0) given))
link-Linked k pl m t w n i h e hu lt q (some p, b) given =
    let g = linked-Grows k pl m t w n i p b h e hu lt q given in
    let (at, l) = linked_lem k pl m t w n i p b h e hu lt q given in
    rw l.names (
      found p (placed k pl m t w n i p b h e hu lt q given)
        (linked k pl m t w n i p b h e hu lt q given) g at l.present
        (small-not_large w.height ((linked k pl m t w n i p b h e hu lt q given).entries t i)
          l.small)
        l.names)

pub get_or_alloc-Linked :
    (k : ℕ) (pl : ℕ → Option Place) (m : Memory) (t : ℕ) (w : Place) (n i : ℕ)
    → IsTree k pl m
    → pl t ≡ some w
    → w.height ≡ suc n
    → i < 512
    → is_large w.height (m.entries t i) ≡ false
    → Linked k pl m t w i (get_or_alloc_table m t i parent_flags)
unfolding get_or_alloc_table is_present link alloc_zeroed_frame zeroed
get_or_alloc-Linked k pl m t w n i h e hu lt l = elim (Bool-cases (is_set (m.entries t i) 1)) [
  | inl q ↦ rw q (
      found (bit_and (m.entries t i) pte_addr_mask) pl m (Grows-refl h)
        (h.links t w n i e hu lt q l) q l refl)
  | inr q ↦ rw q (link-Linked k pl m t w n i h e hu lt q (alloc m.pmm 0) refl)
]
