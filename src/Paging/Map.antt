-- ===== src/Paging/Map.antt =====
-- `map` of src/mm/vmm.rs, step by step: the walk to the last table, with the tables that it links.
pub mod Effect
pub mod Present
pub mod Unmap
use sar_osx.Base.{
  ℕ, suc, bit_and, bit_or, ◌≡◌, refl, sym, ◌∙◌, inl, inr, Bool, true, false, Option, none, some,
  Bool-cases,
}
use mathlib.Core.Path.{subst}
use sar_osx.Pmm.{alloc}
use sar_osx.Paging.{
  pte_addr_mask, Memory, is_set, set_entry, get_or_alloc_table, parent_flags, pml4_idx, pdpt_idx,
  pd_idx, pt_idx, or_fail, map_page,
}
use sar_osx.Paging.Tree.{
  Place, root_place, child, is_large, IsTree, digit, Leaf, missing, page, large, leaf_from, leaf,
}
use sar_osx.Paging.Grows.{digit-lt, Grows, Grows-refl, Grows-trans}
use sar_osx.Paging.Link.Result.{Linked, failed, found, get_or_alloc-Linked}
use sar_osx.Paging.Slot.{dest, higher}

abbrev pub large_leaf : Leaf → Bool
large_leaf (large e) = true
large_leaf missing = false
large_leaf (page e) = false

-- Whether an entry of 2 MiB maps the address.
unfoldable pub in_large : Memory → (root virt : ℕ) → Bool
in_large m root virt = large_leaf (leaf m root virt)

-- A step of a walk by a small entry that is present.
leaf-step :
    (m : Memory) (v n t t' : ℕ)
    → is_set (m.entries t (digit (suc n) v)) 1 ≡ true
    → is_large (suc n) (m.entries t (digit (suc n) v)) ≡ false
    → bit_and (m.entries t (digit (suc n) v)) pte_addr_mask ≡ t'
    → leaf_from m v (suc n) t ≡ leaf_from m v n t'
unfolding leaf_from
leaf-step m v n t t' p l e = rw (l, p, e) refl

-- The walk for an address from the root down to the table `t` with `n` levels below it.
pub data Reaches (pl : ℕ → Option Place) (m : Memory) (root virt : ℕ) : (n t : ℕ) → Type 0 where
  start : Reaches pl m root virt 3 root
  step :
      (n t t' : ℕ) (w : Place)
      → Reaches pl m root virt (suc n) t
      → pl t ≡ some w
      → w.height ≡ suc n
      → is_set (m.entries t (digit (suc n) virt)) 1 ≡ true
      → is_large w.height (m.entries t (digit (suc n) virt)) ≡ false
      → bit_and (m.entries t (digit (suc n) virt)) pte_addr_mask ≡ t'
      → Reaches pl m root virt n t'

pub Reaches-leaf :
    {pl : ℕ → Option Place} {m : Memory} {root virt n t : ℕ}
    → Reaches pl m root virt n t
    → leaf_from m virt 3 root ≡ leaf_from m virt n t
Reaches-leaf start = refl
Reaches-leaf {pl} {m} {root} {virt} (step n t t' w r at hw p l e) =
    Reaches-leaf r ∙ leaf-step m virt n t t' p (rw hw at l) e

Reaches-Grows :
    {k : ℕ} {pl pl' : ℕ → Option Place} {m m' : Memory} {root virt n t : ℕ}
    → Grows k pl m pl' m'
    → Reaches pl m root virt n t
    → Reaches pl' m' root virt n t
Reaches-Grows g start = start
Reaches-Grows {virt = virt} g (step n t t' w r at hw p l e) =
    let s = g.same t w (digit (suc n) virt) at p in
    step n t t' w (Reaches-Grows g r) (g.keeps t w at) hw (rw s p) (rw s l) (rw s e)

pub Reaches-written :
    {k : ℕ} {pl : ℕ → Option Place} {m : Memory} {root virt n t pt : ℕ} (i e : ℕ) {u : Place}
    → IsTree k pl m
    → pl pt ≡ some u
    → u.height ≡ 0
    → Reaches pl m root virt n t
    → Reaches pl (set_entry m pt i e) root virt n t
Reaches-written i e h here last start = start
Reaches-written {k} {pl} {m} {virt = virt} {pt = pt} i e {u} h here last
      (step n t t' w r at hw p l f) =
    let s = higher k pl m pt u i e h here last t w n (digit (suc n) virt) at hw in
    step n t t' w (Reaches-written i e h here last r) at hw (rw s p) (rw s l) (rw s f)

-- What `map` leaves behind.
pub data Mapped (k : ℕ) (pl : ℕ → Option Place) (m : Memory) (root virt e : ℕ)
    : Bool × Memory → Type 0 where
  refused :
      (pl' : ℕ → Option Place) (m' : Memory)
      → Grows k pl m pl' m'
      → (alloc m'.pmm 0).0 ≡ none
      → Mapped k pl m root virt e (false, m')
  mapped :
      (pl' : ℕ → Option Place) (m' : Memory) (pt : ℕ)
      → Grows k pl m pl' m'
      → pl' pt ≡ some (dest k virt 3 (root_place root))
      → Reaches pl' m' root virt 0 pt
      → Mapped k pl m root virt e (true, set_entry m' pt (pt_idx virt) e)

module _ (k : ℕ) (pl : ℕ → Option Place) (m : Memory) (root virt e : ℕ) (h : IsTree k pl m)
    (at : pl root ≡ some (root_place root)) (small : in_large m root virt ≡ false) where
  abbrev w3 : Place
  w3 = root_place root

  abbrev w2 : Place
  w2 = child k w3 (digit 3 virt)

  abbrev w1 : Place
  w1 = child k w2 (digit 2 virt)

  last_table :
      (pl2 : ℕ → Option Place) (m2 : Memory) (pd : ℕ)
      → Grows k pl m pl2 m2
      → pl2 pd ≡ some w1
      → Reaches pl2 m2 root virt 1 pd
      → (r : Option ℕ × Memory) → Linked k pl2 m2 pd w1 (digit 1 virt) r
      → Mapped k pl m root virt e (or_fail r λ pt m3. (true, set_entry m3 pt (pt_idx virt) e))
  unfolding dest
  last_table pl2 m2 pd g at2 walk r (failed none_free) = refused pl2 m2 g none_free
  last_table pl2 m2 pd g at2 walk r (found pt pl3 m3 g3 at3 p l n) =
      mapped pl3 m3 pt (Grows-trans g g3) at3
        (step 0 pd pt w1 (Reaches-Grows g3 walk) (g3.keeps pd w1 at2) refl p l n)

  abbrev from_pd : ℕ → Memory → Bool × Memory
  from_pd pd m2 =
      or_fail (get_or_alloc_table m2 pd (pd_idx virt) parent_flags)
        λ pt m3. (true, set_entry m3 pt (pt_idx virt) e)

  not_large :
      (m2 : Memory) (pd : ℕ)
      → large_leaf (leaf_from m2 virt 1 pd) ≡ false
      → is_large 1 (m2.entries pd (digit 1 virt)) ≡ false
  unfolding leaf_from
  not_large m2 pd f = elim (Bool-cases (is_large 1 (m2.entries pd (digit 1 virt)))) [
    | inr l ↦ l
    | inl l ↦ let bad : true ≡ false = rw l at f in cc
  ]

  middle_table :
      (pl1 : ℕ → Option Place) (m1 : Memory) (pdpt : ℕ)
      → Grows k pl m pl1 m1
      → pl1 pdpt ≡ some w2
      → Reaches pl1 m1 root virt 2 pdpt
      → (r : Option ℕ × Memory) → Linked k pl1 m1 pdpt w2 (digit 2 virt) r
      → Mapped k pl m root virt e (or_fail r from_pd)
  unfolding in_large
  middle_table pl1 m1 pdpt g at1 walk r (failed none_free) = refused pl1 m1 g none_free
  middle_table pl1 m1 pdpt g at1 walk r (found pd pl2 m2 g2 at2 p l n) =
      let walk' = step 1 pdpt pd w2 (Reaches-Grows g2 walk) (g2.keeps pdpt w2 at1) refl p l n in
      let g' = Grows-trans g g2 in
      let same : leaf_from m virt 3 root ≡ leaf_from m2 virt 1 pd =
        sym (g'.view 3 root w3 virt at refl) ∙ Reaches-leaf walk' in
      let l' = not_large m2 pd (subst (λ x. large_leaf x ≡ false) same small) in
      last_table pl2 m2 pd g' at2 walk' (get_or_alloc_table m2 pd (pd_idx virt) parent_flags)
        (get_or_alloc-Linked k pl2 m2 pd w1 0 (digit 1 virt) g2.tree at2 refl (digit-lt 1 virt) l')

  abbrev from_pdpt : ℕ → Memory → Bool × Memory
  from_pdpt pdpt m1 = or_fail (get_or_alloc_table m1 pdpt (pdpt_idx virt) parent_flags) from_pd

  first_table :
      (r : Option ℕ × Memory)
      → Linked k pl m root w3 (digit 3 virt) r
      → Mapped k pl m root virt e (or_fail r from_pdpt)
  first_table r (failed none_free) = refused pl m (Grows-refl h) none_free
  first_table r (found pdpt pl1 m1 g1 at1 p l n) =
      let walk = step 2 root pdpt w3 start (g1.keeps root w3 at) refl p l n in
      middle_table pl1 m1 pdpt g1 at1 walk (get_or_alloc_table m1 pdpt (pdpt_idx virt) parent_flags)
        (get_or_alloc-Linked k pl1 m1 pdpt w2 1 (digit 2 virt) g1.tree at1 refl (digit-lt 2 virt)
          refl)

  all_tables :
      Mapped k pl m root virt e
        (or_fail (get_or_alloc_table m root (pml4_idx virt) parent_flags) from_pdpt)
  all_tables =
      first_table (get_or_alloc_table m root (pml4_idx virt) parent_flags)
        (get_or_alloc-Linked k pl m root w3 2 (digit 3 virt) h at refl (digit-lt 3 virt) refl)

abbrev pub page_entry : (phys flags : ℕ) → ℕ
page_entry phys flags = bit_or (bit_or (bit_and phys pte_addr_mask) flags) 1

pub map_page-Mapped :
    (k : ℕ) (pl : ℕ → Option Place) (m : Memory) (root virt phys flags : ℕ)
    → IsTree k pl m
    → pl root ≡ some (root_place root)
    → in_large m root virt ≡ false
    → Mapped k pl m root virt (page_entry phys flags) (map_page m root virt phys flags)
unfolding map_page
map_page-Mapped k pl m root virt phys flags h at small =
    all_tables k pl m root virt (page_entry phys flags) h at small
