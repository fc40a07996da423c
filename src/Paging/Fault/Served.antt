-- ===== src/Paging/Fault/Served.antt =====
-- What the fault handlers of src/mm/vmm.rs leave behind: a page on demand is a frame that was free and
-- is zero; a page that is copied has the bytes of the old one.
use sar_osx.Base.{
  ℕ, ◌+◌, ◌/◌, ◌%◌, ◌^◌, ◌≤◌, bit_and, ◌≡◌, refl, sym, ap, ◌∙◌, ◌≢◌, ◌⊎◌, inl, inr, Bool, true,
  false, Option, none, some, arith, ◌==◌, if◌then◌else◌, ==_iff, Bool-cases,
}
use sar_osx.Base.Bits.{bit_and_high}
use sar_osx.Pmm.{BuddyAllocator, alloc, align_down, page_size}
use sar_osx.Pmm.Valid.{covered}
use sar_osx.VmSpace.{VmaEntry, has_flag, vma_write, vma_exec}
use sar_osx.Paging.{
  pte_addr_mask, Memory, fill_zero, zeroed, alloc_zeroed_frame, or_fail, map_page, translate,
}
use sar_osx.Paging.Fault.{demand_flags, handle_demand_page, copy_page, copy_from, handle_cow}
use sar_osx.Paging.Tree.{Place, root_place, IsTree}
use sar_osx.Paging.Frame.{given_free}
use sar_osx.Paging.Fault.Given.{Given, map-Given, map-done}
use sar_osx.Paging.Slot.{owner_of, page_of, leaf-page}
use sar_osx.Paging.Map.{in_large, large_leaf}
use sar_osx.Paging.Map.Present.{translate-page_leaf}

demand_flags_lem : (vma : VmaEntry) → bit_and (demand_flags vma) pte_addr_mask ≡ 0
unfolding demand_flags
demand_flags_lem vma = elim (Bool-cases (has_flag vma.flags vma_write)) [
  | inl w ↦ elim (Bool-cases (has_flag vma.flags vma_exec)) [
    | inl x ↦ rw (w, x) refl
    | inr x ↦ rw (w, x) refl
  ]
  | inr w ↦ elim (Bool-cases (has_flag vma.flags vma_exec)) [
    | inl x ↦ rw (w, x) refl
    | inr x ↦ rw (w, x) refl
  ]
]

page_of-align_down : (addr : ℕ) → page_of (align_down addr page_size) ≡ page_of addr
unfolding page_of align_down
page_of-align_down addr = omega (arith, bit_and_high 52 12 addr)

in_large-page :
    (m : Memory) (root v v' : ℕ) → page_of v ≡ page_of v' → in_large m root v ≡ in_large m root v'
unfolding in_large
in_large-page m root v v' e = ap large_leaf (leaf-page m v v' 3 root (omega arith) e)

-- The state after a page is given for an address: its frame `p`, of which `held` was in it.
abbrev pub Backed :
    (k : ℕ) (pl : ℕ → Option Place) (m m' : Memory) (root addr p : ℕ) (held : ℕ → ℕ) → Type 0
Backed k pl m m' root addr p held =
    ((pl' : ℕ → Option Place) × IsTree k pl' m'
      × ((t : ℕ) (w : Place) → pl t ≡ some w → pl' t ≡ some w))
    × (1 ≤ covered p m.pmm)
    × (translate m' root addr ≡ some (p + addr % 4096))
    × ((i : ℕ) → m'.entries p i ≡ held i)
    × ((root' virt' : ℕ)
        → pl root' ≡ some (root_place root')
        → (owner_of k root' virt' ≢ owner_of k root addr) ⊎ (page_of virt' ≢ page_of addr)
        → translate m' root' virt' ≡ translate m root' virt')

owner_of-page : (k r v v' : ℕ) → page_of v ≡ page_of v' → owner_of k r v ≡ owner_of k r v'
unfolding owner_of page_of
owner_of-page k r v v' e =
    let same : v / 2 ^ 39 % 512 ≡ v' / 2 ^ 39 % 512 = omega (arith, e) in rw same refl

demand_given :
    (k : ℕ) (pl : ℕ → Option Place) (m : Memory) (root addr page flags : ℕ)
    → IsTree k pl m
    → pl root ≡ some (root_place root)
    → pl k ≡ some (root_place k)
    → in_large m root addr ≡ false
    → page_of page ≡ page_of addr
    → bit_and flags pte_addr_mask ≡ 0
    → (o : Option ℕ × BuddyAllocator) → alloc m.pmm 0 ≡ o
    → (or_fail (zeroed m o) λ phys m'. map_page m' root page phys flags).0 ≡ true
    → (p : ℕ) × Backed k pl m
        (or_fail (zeroed m o) λ phys m'. map_page m' root page phys flags).1
        root
        addr
        p
        (λ _. 0)
unfolding zeroed Given
demand_given k pl m root addr page flags h at kernel small same hf (none, b) given done = cc
demand_given k pl m root addr page flags h at kernel small same hf (some p, b) given done =
    let g = fill_zero m.entries p in
    let off : (x j : ℕ) → (p == x) ≡ false → g x j ≡ m.entries x j = λ x j n. rw n refl in
    let small' : in_large m root page ≡ false = in_large-page m root page addr same ∙ small in
    let (tree, there, held, rest) =
      map-Given k pl m p b g h given off root page flags at kernel small' hf done in
    let zero_page : (p == p) ≡ true = (==_iff p p).1 refl in
    (
      p,
      (
        tree,
        given_free k pl m p b h given,
        there addr (sym same),
        (λ i. held i ∙ rw zero_page refl),
        λ root' virt' e away.
            rest root' virt' e (rw (owner_of-page k root page addr same, same) away),
      ),
    )

-- While the tables of all spaces are trees and no entry of 2 MiB maps the address: a page that is
-- given on demand is a frame that was free, all zero; the address is translated to it; the tables are
-- trees again, and every page but this one of this owner is translated as before, in every space.
pub handle_demand_page_lem :
    (k : ℕ) (pl : ℕ → Option Place) (m : Memory) (root addr : ℕ) (vma : VmaEntry)
    → IsTree k pl m
    → pl root ≡ some (root_place root)
    → pl k ≡ some (root_place k)
    → in_large m root addr ≡ false
    → (handle_demand_page m root addr vma).0 ≡ true
    → (p : ℕ) × Backed k pl m (handle_demand_page m root addr vma).1 root addr p (λ _. 0)
unfolding handle_demand_page alloc_zeroed_frame
handle_demand_page_lem k pl m root addr vma h at kernel small done =
    demand_given k pl m root addr (align_down addr page_size) (demand_flags vma) h at kernel small
      (page_of-align_down addr) (demand_flags_lem vma) (alloc m.pmm 0) refl done

-- What a copy on a write leaves behind: the page has a new frame with the words of the old one, and the
-- answer is true; or no frame was free, no table has changed, and the answer is false.
abbrev pub Copied :
    (k : ℕ) (pl : ℕ → Option Place) (m : Memory) (root addr old : ℕ) → Bool × Memory → Type 0
Copied k pl m root addr old r =
    ((r.0 ≡ true) × (p : ℕ) × Backed k pl m r.1 root addr p (m.entries old))
    ⊎ ((r.0 ≡ false) × ((alloc m.pmm 0).0 ≡ none) × (r.1.entries ≡ m.entries))

cow_given :
    (k : ℕ) (pl : ℕ → Option Place) (m : Memory) (root addr page old : ℕ)
    → IsTree k pl m
    → pl root ≡ some (root_place root)
    → pl k ≡ some (root_place k)
    → in_large m root addr ≡ false
    → page_of page ≡ page_of addr
    → translate m root page ≡ some old
    → covered old m.pmm ≡ 0
    → (o : Option ℕ × BuddyAllocator) → alloc m.pmm 0 ≡ o
    → Copied k pl m root addr old
        (or_fail (zeroed m o) λ p m'. (true, (map_page (copy_page m' old p) root page p 7).1))
unfolding zeroed Given
cow_given k pl m root addr page old h at kernel small same e taken (none, b) given =
    inr (refl, ap (λ (o : Option ℕ × BuddyAllocator). o.0) given, refl)
cow_given k pl m root addr page old h at kernel small same e taken (some p, b) given =
    let g : ℕ → ℕ → ℕ =
      λ x j. if p == x then fill_zero m.entries p old j else fill_zero m.entries p x j in
    let off : (x j : ℕ) → (p == x) ≡ false → g x j ≡ m.entries x j = λ x j n. rw n refl in
    let small' : in_large m root page ≡ false = in_large-page m root page addr same ∙ small in
    let zero_page : (p == p) ≡ true = (==_iff p p).1 refl in
    let moved : (p == old) ≡ false = elim (Bool-cases (p == old)) [
      | inr q ↦ q
      | inl q ↦
          let eq : p ≡ old = (==_iff p old).0 q in
          let free = given_free k pl m p b h given in
          absurd (omega (arith, free, ap (λ (y : ℕ). covered y m.pmm) eq, taken))
    ] in
    let done =
      map-done k pl m p b g h given off root page 7 at kernel small' refl
        (translate-page_leaf m root page old small' e) in
    let (tree, there, held, rest) =
      map-Given k pl m p b g h given off root page 7 at kernel small' refl done in
    inl (
      refl,
      p,
      (
        tree,
        given_free k pl m p b h given,
        there addr (sym same),
        (λ i. held i ∙ rw (zero_page, moved) refl),
        λ root' virt' e' away.
            rest root' virt' e' (rw (owner_of-page k root page addr same, same) away),
      ),
    )

-- While the tables of all spaces are trees, no entry of 2 MiB maps the address, and the page has a
-- frame that is not free: a copy on a write serves the fault, and then the address is translated to a
-- frame that was free and holds the same words, the tables are trees again, and every other page is
-- translated as before; or it refuses, because no frame was free, and no table has changed.
pub handle_cow_lem :
    (k : ℕ) (pl : ℕ → Option Place) (m : Memory) (root addr old : ℕ)
    → IsTree k pl m
    → pl root ≡ some (root_place root)
    → pl k ≡ some (root_place k)
    → in_large m root addr ≡ false
    → translate m root (align_down addr page_size) ≡ some old
    → covered old m.pmm ≡ 0
    → Copied k pl m root addr old (handle_cow m root addr)
unfolding handle_cow alloc_zeroed_frame copy_from
handle_cow_lem k pl m root addr old h at kernel small e taken = rw e (
    cow_given k pl m root addr (align_down addr page_size) old h at kernel small
      (page_of-align_down addr) e taken (alloc m.pmm 0) refl)
