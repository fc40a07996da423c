-- ===== src/Paging/Space/Dropped/Others.antt =====
-- `free_user_page_tables` of src/mm/vmm.rs, on the drop of an address space: each table of the space
-- goes back to the free frames once, and nothing else does.
use sar_osx.Base.{
  ℕ, zero, suc, ◌+◌, bit_and, ◌≡◌, refl, sym, ap, ◌∙◌, ◌≢◌, inl, inr, true, false, ◌&&◌, Option,
  none, some, leb, ◌==◌, if◌then◌else◌, ==_iff, Bool-cases,
}
use sar_osx.Pmm.{BuddyAllocator}
use sar_osx.Paging.{pte_addr_mask, Memory, translate}
use sar_osx.Paging.Space.{free_user_page_tables}
use sar_osx.Paging.Tree.{
  Place, root_place, child, IsTree, digit, leaf_from, address, translate-leaf,
}
use sar_osx.Paging.Space.Dropped.{Live, is_present-same, count_tables}
use sar_osx.Paging.Space.Dropped.Loops.{dropped_Live}

unless_owned : (root : ℕ) → Option Place → Option Place
unless_owned root none = none
unless_owned root (some u) = if u.owner == root then none else some u

-- The places without those of one owner.
unfoldable pub without : (root : ℕ) → (ℕ → Option Place) → ℕ → Option Place
unfolding unless_owned
without root pl x = unless_owned root (pl x)

unless_owned-some :
    (root : ℕ) (o : Option Place) (u : Place)
    → unless_owned root o ≡ some u
    → (o ≡ some u) × (u.owner ≢ root)
unfolding unless_owned
unless_owned-some root none u e = cc
unless_owned-some root (some w) u e = elim (Bool-cases (w.owner == root)) [
  | inl q ↦ let bad : none ≡ some u = rw q at e in cc
  | inr q ↦
      let same : some w ≡ some u = rw q at e in
      let eq : w ≡ u = cc in
      (
        same,
        λ o.
            let q' : w.owner ≡ root = ap (λ (y : Place). y.owner) eq ∙ o in
            let bad : true ≡ false = sym ((==_iff w.owner root).1 q') ∙ q in cc,
      )
]

unless_owned_other : (root : ℕ) (u : Place) → u.owner ≢ root → unless_owned root (some u) ≡ some u
unfolding unless_owned
unless_owned_other root u o = elim (Bool-cases (u.owner == root)) [
  | inl q ↦ absurd (o ((==_iff u.owner root).0 q))
  | inr q ↦ rw q refl
]

-- A table of another owner links tables of other owners only.
child_other :
    (k root : ℕ) (u : Place) (i : ℕ) → k ≢ root → u.owner ≢ root → (child k u i).owner ≢ root
child_other k root u i other o = elim (Bool-cases ((u.height == 3) && leb 256 i)) [
  | inl q ↦ rw q other
  | inr q ↦ rw q o
]

without-IsTree :
    (k : ℕ) (pl : ℕ → Option Place) (m : Memory) (root : ℕ) (m' : Memory) (c : ℕ)
    → (h : IsTree k pl m) → k ≢ root
    → Live k pl m h (λ u. u.owner ≢ root) c m'
    → IsTree k (without root pl) m'
unfolding without
without-IsTree k pl m root m' c h other v = record {
  links = λ t u n i e hu lt q l.
      let (old, o) = unless_owned-some root (pl t) u e in
      let s = is_present-same k pl m h v t i in
      let below = h.links t u n i old hu lt (rw s at q) (rw s at l) in
      rw (s, below) (unless_owned_other root (child k u i) (child_other k root u i other o));
  idle = λ t u n i e hu lt q.
      let (old, o) = unless_owned-some root (pl t) u e in
      let s = is_present-same k pl m h v t i in rw s (h.idle t u n i old hu lt (rw s at q));
  apart = λ t u e. let (old, o) = unless_owned-some root (pl t) u e in v.apart t u old o;
  aligned = λ t u e. let (old, o) = unless_owned-some root (pl t) u e in h.aligned t u old;
  valid = v.valid;
  once = v.once;
  low = v.low;
}

same_leaf :
    (m : Memory) (b : BuddyAllocator) (virt n t : ℕ)
    → leaf_from (record { entries = m.entries; pmm = b }) virt n t ≡ leaf_from m virt n t
unfolding leaf_from
same_leaf m b virt zero t = refl
same_leaf m b virt (suc n) t =
    rw (same_leaf m b virt n (bit_and (m.entries t (digit (suc n) virt)) pte_addr_mask)) refl

same_translate :
    (m m' : Memory) (root virt : ℕ)
    → m'.entries ≡ m.entries
    → translate m' root virt ≡ translate m root virt
same_translate m m' root virt e =
    ap (λ (f : ℕ → ℕ → ℕ). translate (record { entries = f; pmm = m'.pmm }) root virt) e
    ∙ translate-leaf (record { entries = m.entries; pmm = m'.pmm }) root virt
    ∙ ap (address virt) (same_leaf m m'.pmm virt 3 root)
    ∙ sym (translate-leaf m root virt)

-- While the tables of all spaces are trees: after the drop of a space that is not the kernel's, the
-- tables of the others are trees as before, none of them free, every address of every other space is
-- translated as before, and the number of free frames has risen by the number of tables of the space.
pub free_user_page_tables_lem :
    (k : ℕ) (pl : ℕ → Option Place) (m : Memory) (root : ℕ)
    → IsTree k pl m
    → pl root ≡ some (root_place root)
    → k ≢ root
    → let m' = free_user_page_tables m root in
      IsTree k (without root pl) m'
      × ((root' virt : ℕ) → translate m' root' virt ≡ translate m root' virt)
      × (m'.pmm.free_pages ≡ m.pmm.free_pages + count_tables m root)
free_user_page_tables_lem k pl m root h at other =
    let v = dropped_Live k pl m h root at in
    (
      without-IsTree k pl m root (free_user_page_tables m root) (count_tables m root) h other v,
      (λ root' virt. same_translate m (free_user_page_tables m root) root' virt v.same),
      v.counted,
    )
