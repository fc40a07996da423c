-- ===== src/Paging/Map/Effect.antt =====
-- What `map` and `unmap` of src/mm/vmm.rs do to the translation of every address, in every space.
use sar_osx.Base.{
  ℕ, ◌+◌, ◌*◌, ◌/◌, ◌%◌, ◌^◌, bit_and, bit_or, ◌≡◌, refl, sym, ap, ◌∙◌, ◌≢◌, ◌⊎◌, inl, inr, Bool,
  true, false, Option, none, some, arith, ◌==◌, ==_iff, Bool-cases,
}
use sar_osx.Pmm.{alloc}
use sar_osx.Paging.{pte_addr_mask, Memory, set_entry, pt_idx, map_page, translate}
use sar_osx.Paging.Entries.{page_entry_lem, offset_lem}
use sar_osx.Paging.Tree.{
  Place, root_place, IsTree, digit, page, leaf_from, leaf, address, translate-leaf,
}
use sar_osx.Paging.Slot.{
  dest, owner_of, page_of, leaf-page, dest_same, set_entry-IsTree, set_entry-leaf, set_entry_self,
}
use sar_osx.Paging.Map.{
  in_large, Reaches-leaf, Reaches-written, Mapped, refused, mapped, page_entry, map_page-Mapped,
}

Mapped-translate :
    {k : ℕ} {pl : ℕ → Option Place} {m : Memory} {root virt : ℕ} (phys flags : ℕ)
    {r : Bool × Memory}
    → Mapped k pl m root virt (page_entry phys flags) r
    → bit_and flags pte_addr_mask ≡ 0
    → r.0 ≡ true
    → (virt' : ℕ) → page_of virt' ≡ page_of virt
    → translate r.1 root virt' ≡ some (phys / 2 ^ 12 % 2 ^ 40 * 2 ^ 12 + virt' % 2 ^ 12)
unfolding leaf_from dest
Mapped-translate phys flags (refused pl' m' g none_free) hf done virt' same = cc
Mapped-translate {k} {pl} {m} {root} {virt} phys flags (mapped pl' m' pt g at walk) hf done virt'
      same =
    let e = page_entry phys flags in
    let w = set_entry m' pt (pt_idx virt) e in
    let (p, n) = page_entry_lem phys flags hf in
    let there =
      set_entry_self k pl' m' pt (dest k virt 3 (root_place root)) (pt_idx virt) e g.tree at refl in
    let end : leaf w root virt ≡ page e =
      Reaches-leaf (Reaches-written (pt_idx virt) e g.tree at refl walk) ∙ rw (there, p) refl in
    translate-leaf w root virt'
    ∙ ap (address virt') (leaf-page w virt' virt 3 root (omega arith) same ∙ end)
    ∙ ap (λ (x : ℕ). some (bit_or x (bit_and virt' 0xFFF))) n
    ∙ ap some (offset_lem phys virt')

-- The tables as `place` says, at a root.
module _ (k : ℕ) (pl : ℕ → Option Place) (m : Memory) (root virt phys flags : ℕ) (h : IsTree k pl m)
    (at : pl root ≡ some (root_place root)) (small : in_large m root virt ≡ false) where
  abbrev result : Bool × Memory
  result = map_page m root virt phys flags

  -- While the tables of all spaces are trees, and no entry of 2 MiB maps the address: if `map`
  -- succeeds, with flags that have no bit of an address, every address of the page is translated to
  -- the frame, with the same offset.
  pub map_page-translate :
      bit_and flags pte_addr_mask ≡ 0
      → result.0 ≡ true
      → (virt' : ℕ) → page_of virt' ≡ page_of virt
      → translate result.1 root virt' ≡ some (phys / 2 ^ 12 % 2 ^ 40 * 2 ^ 12 + virt' % 2 ^ 12)
  map_page-translate hf done =
      Mapped-translate phys flags (map_page-Mapped k pl m root virt phys flags h at small) hf done

  Mapped-elsewhere :
      {r : Bool × Memory} (root' virt' : ℕ)
      → Mapped k pl m root virt (page_entry phys flags) r
      → pl root' ≡ some (root_place root')
      → (owner_of k root' virt' ≢ owner_of k root virt) ⊎ (page_of virt' ≢ page_of virt)
      → translate r.1 root' virt' ≡ translate m root' virt'
  unfolding dest
  Mapped-elsewhere root' virt' (refused pl' m' g none_free) at' away =
      translate-leaf m' root' virt'
      ∙ ap (address virt') (g.view 3 root' (root_place root') virt' at' refl)
      ∙ sym (translate-leaf m root' virt')
  Mapped-elsewhere root' virt' (mapped pl' m' pt g end walk) at' away =
      let e = page_entry phys flags in
      let other : dest k virt' 3 (root_place root') ≡ dest k virt 3 (root_place root)
          → digit 0 virt' ≢ pt_idx virt =
        λ d low.
          let (o, p) = dest_same k root' virt' root virt d low in
          elim away [ inl a ↦ a o | inr a ↦ a p ] in
      translate-leaf (set_entry m' pt (pt_idx virt) e) root' virt'
      ∙ ap (address virt') (
          set_entry-leaf k pl' m' pt (dest k virt 3 (root_place root)) (pt_idx virt) e g.tree end
            refl 3 root' (root_place root') virt' (g.keeps root' (root_place root') at') refl other
          ∙ g.view 3 root' (root_place root') virt' at' refl)
      ∙ sym (translate-leaf m root' virt')

  -- While the tables of all spaces are trees, and no entry of 2 MiB maps the address: whether or not
  -- `map` succeeds, the translation stays as it was for every other page of the space, for every
  -- page of another space that is not in the kernel's half, and so for all that is owned by another.
  pub map_page_elsewhere :
      (root' virt' : ℕ)
      → pl root' ≡ some (root_place root')
      → (owner_of k root' virt' ≢ owner_of k root virt) ⊎ (page_of virt' ≢ page_of virt)
      → translate result.1 root' virt' ≡ translate m root' virt'
  map_page_elsewhere root' virt' =
      Mapped-elsewhere root' virt' (map_page-Mapped k pl m root virt phys flags h at small)

  Mapped-IsTree :
      {r : Bool × Memory}
      → Mapped k pl m root virt (page_entry phys flags) r
      → (pl' : ℕ → Option Place) × IsTree k pl' r.1
        × ((t : ℕ) (w : Place) → pl t ≡ some w → pl' t ≡ some w)
  unfolding dest
  Mapped-IsTree (refused pl' m' g none_free) = (pl', g.tree, g.keeps)
  Mapped-IsTree (mapped pl' m' pt g end walk) = (
    pl',
    set_entry-IsTree k pl' m' pt (dest k virt 3 (root_place root)) (pt_idx virt)
        (page_entry phys flags) g.tree end refl,
    g.keeps,
  )

  -- While the tables of all spaces are trees, and no entry of 2 MiB maps the address: after `map`,
  -- done or not, they are trees again, each table that there was in its place, and none of them in
  -- free memory.
  pub map_page-IsTree :
      (pl' : ℕ → Option Place) × IsTree k pl' result.1
      × ((t : ℕ) (w : Place) → pl t ≡ some w → pl' t ≡ some w)
  map_page-IsTree = Mapped-IsTree (map_page-Mapped k pl m root virt phys flags h at small)

  Mapped_fails :
      {r : Bool × Memory}
      → Mapped k pl m root virt (page_entry phys flags) r
      → r.0 ≡ false
      → ((alloc r.1.pmm 0).0 ≡ none)
        × ((root' virt' : ℕ)
            → pl root' ≡ some (root_place root')
            → translate r.1 root' virt' ≡ translate m root' virt')
  Mapped_fails (refused pl' m' g none_free) fails = (
    none_free,
    λ root' virt' at'.
        translate-leaf m' root' virt'
        ∙ ap (address virt') (g.view 3 root' (root_place root') virt' at' refl)
        ∙ sym (translate-leaf m root' virt'),
  )
  Mapped_fails (mapped pl' m' pt g end walk) fails = cc

  -- While the tables of all spaces are trees, and no entry of 2 MiB maps the address: `map` fails
  -- only when no frame is free, and then every address is translated as before, in every space.
  pub map_page_fails :
      result.0 ≡ false
      → ((alloc result.1.pmm 0).0 ≡ none)
        × ((root' virt' : ℕ)
            → pl root' ≡ some (root_place root')
            → translate result.1 root' virt' ≡ translate m root' virt')
  map_page_fails = Mapped_fails (map_page-Mapped k pl m root virt phys flags h at small)

  Mapped-data :
      {r : Bool × Memory} (t : ℕ) (w : Place) (i : ℕ)
      → Mapped k pl m root virt (page_entry phys flags) r
      → pl t ≡ some w
      → w.height ≡ 0
      → w ≢ dest k virt 3 (root_place root)
      → r.1.entries t i ≡ m.entries t i
  Mapped-data t w i (refused pl' m' g none_free) at' low other = g.data_kept t w i at' low
  Mapped-data t w i (mapped pl' m' pt g end walk) at' low other =
      let apart : (pt == t) ≡ false = elim (Bool-cases (pt == t)) [
        | inr q ↦ q
        | inl q ↦
            let both : some w ≡ some (dest k virt 3 (root_place root)) =
              sym (g.keeps t w at') ∙ ap pl' (sym ((==_iff pt t).0 q)) ∙ end in
            let eq : w ≡ dest k virt 3 (root_place root) = cc in absurd (other eq)
      ] in
      rw apart (g.data_kept t w i at' low)

  -- A page that is kept as the lowest level of another owner is not written by `map`.
  pub map_page_data :
      (t : ℕ) (w : Place) (i : ℕ)
      → pl t ≡ some w
      → w.height ≡ 0
      → w ≢ dest k virt 3 (root_place root)
      → result.1.entries t i ≡ m.entries t i
  map_page_data t w i = Mapped-data t w i (map_page-Mapped k pl m root virt phys flags h at small)
