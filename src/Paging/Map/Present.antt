-- ===== src/Paging/Map/Present.antt =====
-- `map` of src/mm/vmm.rs where the address has a page already: its tables are there, so `map` needs no
-- frame and cannot fail.
use sar_osx.Base.{ℕ, bit_and, ◌≡◌, refl, sym, ◌∙◌, inl, inr, Bool, true, false, some, Bool-cases}
use sar_osx.Paging.{
  pte_addr_mask, Memory, is_set, is_present, get_or_alloc_table, map_page, translate,
}
use sar_osx.Paging.Tree.{
  digit, Leaf, missing, page, large, leaf_from, leaf, address, translate-leaf,
}
use sar_osx.Paging.Map.{in_large, large_leaf}

abbrev pub page_leaf : Leaf → Bool
page_leaf (page e) = true
page_leaf missing = false
page_leaf (large e) = false

small_page : (v a : ℕ) (l : Leaf) → large_leaf l ≡ false → address v l ≡ some a → page_leaf l ≡ true
small_page v a missing s e = cc
small_page v a (large x) s e = cc
small_page v a (page x) s e = refl

pub translate-page_leaf :
    (m : Memory) (root v a : ℕ)
    → in_large m root v ≡ false
    → translate m root v ≡ some a
    → page_leaf (leaf m root v) ≡ true
unfolding in_large
translate-page_leaf m root v a small e =
    small_page v a (leaf m root v) small (sym (translate-leaf m root v) ∙ e)

pub map_page-present :
    (m : Memory) (root v phys flags : ℕ)
    → page_leaf (leaf m root v) ≡ true
    → (map_page m root v phys flags).0 ≡ true
unfolding leaf_from map_page get_or_alloc_table is_present
map_page-present m root v phys flags h =
    let e4 = m.entries root (digit 3 v) in
    let e3 = m.entries (bit_and e4 pte_addr_mask) (digit 2 v) in
    let e2 = m.entries (bit_and e3 pte_addr_mask) (digit 1 v) in
    elim (Bool-cases (is_set e4 1)) [
      | inr h4 ↦ let bad : false ≡ true = rw h4 at h in cc
      | inl h4 ↦ elim (Bool-cases (is_set e3 1)) [
        | inr h3 ↦ let bad : false ≡ true = rw (h4, h3) at h in cc
        | inl h3 ↦ elim (Bool-cases (is_set e2 1)) [
          | inl h2 ↦ rw (h4, h3, h2) refl
          | inr h2 ↦ elim (Bool-cases (is_set e2 128)) [
            | inl l2 ↦ let bad : false ≡ true = rw (h4, h3, l2) at h in cc
            | inr l2 ↦ let bad : false ≡ true = rw (h4, h3, l2, h2) at h in cc
          ]
        ]
      ]
    ]
