-- ===== src/Paging/Map/Unmap.antt =====
-- `unmap` of src/mm/vmm.rs: the page is not translated any more, every other page as before.
use sar_osx.Base.{
  ℕ, bit_and, ◌≡◌, refl, sym, ap, ◌∙◌, ◌≢◌, ◌⊎◌, inl, inr, true, false, Option, none, some,
  Bool-cases,
}
use mathlib.Core.Path.{subst}
use sar_osx.Paging.{
  pte_addr_mask, Memory, is_set, is_present, set_entry, pml4_idx, pdpt_idx, pd_idx, pt_idx,
  get_table, try, unmap, unmap_in, translate,
}
use sar_osx.Paging.Tree.{
  Place, root_place, child, is_large, IsTree, digit, missing, leaf_from, leaf, address,
  translate-leaf,
}
use sar_osx.Paging.Grows.{digit-lt}
use sar_osx.Paging.Slot.{
  dest, owner_of, page_of, dest_same, set_entry-IsTree, set_entry-leaf, set_entry_self,
}
use sar_osx.Paging.Map.{in_large, large_leaf, Reaches, start, step, Reaches-leaf, Reaches-written}

-- The last table of a walk by `get_table`, if there is one.
abbrev last_of : Memory → (root virt : ℕ) → Option ℕ
last_of m root virt =
    try (get_table m root (pml4_idx virt))
      λ pdpt. try (get_table m pdpt (pdpt_idx virt)) λ pd. get_table m pd (pd_idx virt)

-- What it says of the walk.
data Walked (k : ℕ) (pl : ℕ → Option Place) (m : Memory) (root virt : ℕ) : Option ℕ → Type 0 where
  absent : leaf m root virt ≡ missing → Walked k pl m root virt none
  ends :
      (pt : ℕ)
      → pl pt ≡ some (dest k virt 3 (root_place root))
      → Reaches pl m root virt 0 pt
      → Walked k pl m root virt (some pt)

module _ (k : ℕ) (pl : ℕ → Option Place) (m : Memory) (root virt : ℕ) (h : IsTree k pl m)
    (at : pl root ≡ some (root_place root)) (small : in_large m root virt ≡ false) where
  abbrev w2 : Place
  w2 = child k (root_place root) (digit 3 virt)

  abbrev w1 : Place
  w1 = child k w2 (digit 2 virt)

  at_pd :
      (pd : ℕ)
      → pl pd ≡ some w1
      → Reaches pl m root virt 1 pd
      → Walked k pl m root virt (get_table m pd (pd_idx virt))
  unfolding get_table is_present in_large leaf_from dest
  at_pd pd at1 r =
      let e = m.entries pd (digit 1 virt) in
      let same = Reaches-leaf r in
      let small' : large_leaf (leaf_from m virt 1 pd) ≡ false =
        subst (λ x. large_leaf x ≡ false) same small in
      elim (Bool-cases (is_large 1 e)) [
        | inl l ↦ let bad : true ≡ false = rw l at small' in cc
        | inr l ↦ elim (Bool-cases (is_set e 1)) [
          | inr q ↦ rw q (absent (same ∙ rw (l, q) refl))
          | inl q ↦ rw q (
              ends (bit_and e pte_addr_mask)
                (h.links pd w1 0 (digit 1 virt) at1 refl (digit-lt 1 virt) q l)
                (step 0 pd (bit_and e pte_addr_mask) w1 r at1 refl q l refl))
        ]
      ]

  at_pdpt :
      (t : ℕ)
      → pl t ≡ some w2
      → Reaches pl m root virt 2 t
      → Walked k pl m root virt
          (try (get_table m t (pdpt_idx virt)) λ pd. get_table m pd (pd_idx virt))
  unfolding get_table is_present leaf_from
  at_pdpt t at2 r =
      let e = m.entries t (digit 2 virt) in
      elim (Bool-cases (is_set e 1)) [
        | inr q ↦ rw q (absent (Reaches-leaf r ∙ rw q refl))
        | inl q ↦ rw q (
            at_pd (bit_and e pte_addr_mask)
              (h.links t w2 1 (digit 2 virt) at2 refl (digit-lt 2 virt) q refl)
              (step 1 t (bit_and e pte_addr_mask) w2 r at2 refl q refl refl))
      ]

  walked : Walked k pl m root virt (last_of m root virt)
  unfolding get_table is_present leaf_from
  walked =
      let e = m.entries root (digit 3 virt) in
      elim (Bool-cases (is_set e 1)) [
        | inr q ↦ rw q (absent (rw q refl))
        | inl q ↦ rw q (
            at_pdpt (bit_and e pte_addr_mask)
              (h.links root (root_place root) 2 (digit 3 virt) at refl (digit-lt 3 virt) q refl)
              (step 2 root (bit_and e pte_addr_mask) (root_place root) start at refl q refl refl))
      ]

  Unmapped : Memory → Type 0
  Unmapped m' =
      IsTree k pl m'
      × (translate m' root virt ≡ none)
      × ((root' virt' : ℕ)
          → pl root' ≡ some (root_place root')
          → (owner_of k root' virt' ≢ owner_of k root virt) ⊎ (page_of virt' ≢ page_of virt)
          → translate m' root' virt' ≡ translate m root' virt')

  unmap_in-Unmapped : (o : Option ℕ) → Walked k pl m root virt o → Unmapped (unmap_in m virt o)
  unfolding Unmapped unmap_in leaf_from dest
  unmap_in-Unmapped o (absent none_there) =
      (h, translate-leaf m root virt ∙ ap (address virt) none_there, λ root' virt' at' away. refl)
  unmap_in-Unmapped o (ends pt end walk) =
      let m' = set_entry m pt (pt_idx virt) 0 in
      let u = dest k virt 3 (root_place root) in
      let there = set_entry_self k pl m pt u (pt_idx virt) 0 h end refl in
      let gone : leaf m' root virt ≡ missing =
        Reaches-leaf (Reaches-written (pt_idx virt) 0 h end refl walk) ∙ rw there refl in
      (
        set_entry-IsTree k pl m pt u (pt_idx virt) 0 h end refl,
        translate-leaf m' root virt ∙ ap (address virt) gone,
        λ root' virt' at' away.
            let other : dest k virt' 3 (root_place root') ≡ u → digit 0 virt' ≢ pt_idx virt =
              λ d low.
                let (o, p) = dest_same k root' virt' root virt d low in
                elim away [ inl a ↦ a o | inr a ↦ a p ] in
            translate-leaf m' root' virt'
            ∙ ap (address virt') (
                set_entry-leaf k pl m pt u (pt_idx virt) 0 h end refl 3 root' (root_place root')
                  virt' at' refl other)
            ∙ sym (translate-leaf m root' virt'),
      )

  -- While the tables of all spaces are trees, and no entry of 2 MiB maps the address: after `unmap`
  -- the tables are the same trees, the page is not translated, and the translation of every other page
  -- of the space, and of every page that another space owns, is as before.
  pub unmap_lem :
      let m' = unmap m root virt in
      IsTree k pl m'
      × (translate m' root virt ≡ none)
      × ((root' virt' : ℕ)
          → pl root' ≡ some (root_place root')
          → (owner_of k root' virt' ≢ owner_of k root virt) ⊎ (page_of virt' ≢ page_of virt)
          → translate m' root' virt' ≡ translate m root' virt')
  unfolding unmap Unmapped
  unmap_lem = unmap_in-Unmapped (last_of m root virt) walked
