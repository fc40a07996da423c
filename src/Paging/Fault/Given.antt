-- ===== src/Paging/Fault/Given.antt =====
-- A frame that is taken for a page of data, filled, and mapped, as the fault handlers of src/mm/vmm.rs
-- do.
use sar_osx.Base.{
  ℕ, zero, suc, ◌+◌, ◌*◌, ◌/◌, ◌%◌, ◌^◌, bit_and, ◌≡◌, refl, sym, ap, ◌∙◌, ◌≢◌, ◌⊎◌, inl, inr, Bool,
  true, false, Option, some, arith, leb, ◌==◌, if◌then◌else◌, ==_iff, Bool-cases,
}
use sar_osx.Pmm.{BuddyAllocator, alloc}
use sar_osx.Paging.{pte_addr_mask, Memory, map_page, translate}
use sar_osx.Paging.Tree.{Place, root_place, child, IsTree, leaf_from, leaf, address, translate-leaf}
use sar_osx.Paging.Grows.{untouched-leaf}
use sar_osx.Paging.Frame.{
  given_frame, given_fresh, given_apart, given_apart_self, given-IsValid, given_once, given_low,
}
use sar_osx.Paging.Slot.{dest, owner_of, page_of, dest-owner}
use sar_osx.Paging.Map.{in_large, large_leaf}
use sar_osx.Paging.Map.Effect.{
  map_page-translate, map_page_elsewhere, map_page-IsTree, map_page_data,
}
use sar_osx.Paging.Map.Present.{page_leaf, map_page-present}

owner_cases : (k r v : ℕ) → (owner_of k r v ≡ k) ⊎ (owner_of k r v ≡ r)
unfolding owner_of
owner_cases k r v = elim (Bool-cases (leb 256 (v / 2 ^ 39 % 512))) [
  | inl q ↦ inl (rw q refl)
  | inr q ↦ inr (rw q refl)
]

-- A page of data is its own place, with no tables below it.
abbrev pub data_place : ℕ → Place
data_place p = record { owner = p; height = 0; path = 0 }

unfoldable pub with_page : (p : ℕ) → (ℕ → Option Place) → ℕ → Option Place
with_page p pl x = if p == x then some (data_place p) else pl x

-- A frame that has been given becomes a page of data, whatever it holds.
module _ (k : ℕ) (pl : ℕ → Option Place) (m : Memory) (p : ℕ) (b' : BuddyAllocator) (g : ℕ → ℕ → ℕ)
    (h : IsTree k pl m) (given : alloc m.pmm 0 ≡ (some p, b'))
    (off : (x j : ℕ) → (p == x) ≡ false → g x j ≡ m.entries x j) where
  abbrev with_data : Memory
  with_data = record { entries = g; pmm = b' }

  fresh : (x : ℕ) (u : Place) → pl x ≡ some u → (p == x) ≡ false
  fresh = given_fresh k pl m p b' h given

  kept : (x : ℕ) (u : Place) → pl x ≡ some u → with_page p pl x ≡ some u
  unfolding with_page
  kept x u e = rw (fresh x u e) e

  data_or_old :
      (x : ℕ) (u : Place)
      → with_page p pl x ≡ some u
      → ((p ≡ x) × (u ≡ data_place p)) ⊎ (pl x ≡ some u)
  unfolding with_page
  data_or_old x u e = elim (Bool-cases (p == x)) [
    | inl s ↦
        let eq : some (data_place p) ≡ some u = rw s at e in
        inl ((==_iff p x).0 s, (let eq' : u ≡ data_place p = cc in eq'))
    | inr s ↦ inr (rw s at e)
  ]

  no_table : (u : Place) (n : ℕ) → u ≡ data_place p → u.height ≢ suc n
  no_table u n eq hu =
      let bad : zero ≡ suc n = sym (ap (λ (y : Place). y.height) eq) ∙ hu in absurd (omega arith)

  with_data-IsTree : IsTree k (with_page p pl) with_data
  with_data-IsTree = record {
    links = λ x u r j e hu lt q l. elim (data_or_old x u e) [
      | inl (same, eq) ↦ absurd (no_table u r eq hu)
      | inr old ↦
          let o = off x j (fresh x u old) in
          rw o (
            kept (bit_and (m.entries x j) pte_addr_mask) (child k u j)
              (h.links x u r j old hu lt (rw o at q) (rw o at l)))
    ];
    idle = λ x u r j e hu lt q. elim (data_or_old x u e) [
      | inl (same, eq) ↦ absurd (no_table u r eq hu)
      | inr old ↦ let o = off x j (fresh x u old) in rw o (h.idle x u r j old hu lt (rw o at q))
    ];
    apart = λ x u e. elim (data_or_old x u e) [
      | inl (same, eq) ↦ rw (← same) (given_apart_self k pl m p b' h given)
      | inr old ↦ given_apart k pl m p b' h given x u old
    ];
    aligned = λ x u e. elim (data_or_old x u e) [
      | inl (same, eq) ↦ rw (← same) (given_frame k pl m p b' h given)
      | inr old ↦ h.aligned x u old
    ];
    valid = given-IsValid k pl m p b' h given;
    once = given_once k pl m p b' h given;
    low = given_low k pl m p b' h given;
  }

  with_data-leaf :
      (n x : ℕ) (w : Place) (v : ℕ)
      → pl x ≡ some w
      → w.height ≡ n
      → leaf_from with_data v n x ≡ leaf_from m v n x
  with_data-leaf = untouched-leaf with_data h λ x w j e. off x j (fresh x w e)

  module _ (root virt flags : ℕ) (at : pl root ≡ some (root_place root))
      (kernel : pl k ≡ some (root_place k)) (small : in_large m root virt ≡ false)
      (hf : bit_and flags pte_addr_mask ≡ 0) where
    abbrev after : Bool × Memory
    after = map_page with_data root virt p flags

    small' : in_large with_data root virt ≡ false
    unfolding in_large
    small' = ap large_leaf (with_data-leaf 3 root (root_place root) virt at refl) ∙ small

    data_at : with_page p pl p ≡ some (data_place p)
    unfolding with_page
    data_at = let s : (p == p) ≡ true = (==_iff p p).1 refl in rw s refl

    other_owner : data_place p ≢ dest k virt 3 (root_place root)
    other_owner e =
        let own : p ≡ owner_of k root virt =
          ap (λ (y : Place). y.owner) e ∙ dest-owner k root virt in
        let not_k = fresh k (root_place k) kernel in
        let not_root = fresh root (root_place root) at in
        elim (owner_cases k root virt) [
          | inl q ↦ let bad : true ≡ false = sym ((==_iff p k).1 (own ∙ q)) ∙ not_k in cc
          | inr q ↦ let bad : true ≡ false = sym ((==_iff p root).1 (own ∙ q)) ∙ not_root in cc
        ]

    -- The page is the frame, holds what the frame held, and the rest is as before.
    unfoldable pub Given : Bool × Memory → Type 0
    Given r =
        ((pl' : ℕ → Option Place) × IsTree k pl' r.1
          × ((t : ℕ) (w : Place) → pl t ≡ some w → pl' t ≡ some w))
        × ((virt' : ℕ)
            → page_of virt' ≡ page_of virt
            → translate r.1 root virt' ≡ some (p + virt' % 4096))
        × ((i : ℕ) → r.1.entries p i ≡ g p i)
        × ((root' virt' : ℕ)
            → pl root' ≡ some (root_place root')
            → (owner_of k root' virt' ≢ owner_of k root virt) ⊎ (page_of virt' ≢ page_of virt)
            → translate r.1 root' virt' ≡ translate m root' virt')

    pub map-Given : after.0 ≡ true → Given after
    unfolding Given
    map-Given done =
        let t = with_data-IsTree in
        let at' = kept root (root_place root) at in
        let f = given_frame k pl m p b' h given in
        let whole : p / 2 ^ 12 % 2 ^ 40 * 2 ^ 12 ≡ p = omega (arith, f.0, f.1) in
        let left = map_page-IsTree k (with_page p pl) with_data root virt p flags t at' small' in
        (
          (left.0, left.1, λ x w e. left.2 x w (kept x w e)),
          (λ virt' same.
              map_page-translate k (with_page p pl) with_data root virt p flags t at' small' hf done
                virt' same
              ∙ ap (λ (y : ℕ). some (y + virt' % 4096)) whole),
          (λ i.
              map_page_data k (with_page p pl) with_data root virt p flags t at' small' p
                (data_place p) i data_at refl other_owner),
          λ root' virt' e away.
              map_page_elsewhere k (with_page p pl) with_data root virt p flags t at' small' root'
                virt' (kept root' (root_place root') e) away
              ∙ translate-leaf with_data root' virt'
              ∙ ap (address virt') (with_data-leaf 3 root' (root_place root') virt' e refl)
              ∙ sym (translate-leaf m root' virt'),
        )

    -- Where the address has a page, the map succeeds.
    pub map-done : page_leaf (leaf m root virt) ≡ true → after.0 ≡ true
    map-done had =
        map_page-present with_data root virt p flags
          (ap page_leaf (with_data-leaf 3 root (root_place root) virt at refl) ∙ had)
