-- ===== src/Paging/Space/Fresh.antt =====
-- `AddressSpace::new_user` of src/mm/vmm.rs: the new space has the kernel's pages and no others.
use sar_osx.Base.{
  ℕ, zero, suc, ◌+◌, ◌/◌, ◌%◌, ◌^◌, ◌≤◌, ◌<◌, bit_and, ◌≡◌, refl, sym, ap, ◌∙◌, ◌⊎◌, inl, inr, true,
  false, ◌&&◌, Option, none, some, arith, ltb, leb, ◌==◌, if◌then◌else◌, ==_iff, Bool-cases,
}
use mathlib.Core.Path.{subst}
use sar_osx.Base.Bits.{bit_and_low}
use sar_osx.Pmm.{BuddyAllocator, alloc}
use sar_osx.Paging.{
  pte_addr_mask, Memory, is_set, set_entry, fill_zero, zeroed, alloc_zeroed_frame, translate,
}
use sar_osx.Paging.Space.{copy_entries, with_kernel_half, new_user}
use sar_osx.Paging.Tree.{
  Place, root_place, child, is_large, IsTree, digit, missing, leaf_from, address, translate-leaf,
}
use sar_osx.Paging.Grows.{digit-lt, untouched-leaf}
use sar_osx.Paging.Frame.{
  given_frame, given_fresh, given_apart, given_apart_self, given-IsValid, given_once, given_low,
}

-- The copy of `n` entries in closed form; the two tables are different.
pub copy_entries_lem :
    (n : ℕ) (m : Memory) (from to i : ℕ)
    → (to == from) ≡ false
    → ((x j : ℕ)
        → (copy_entries n m from to i).entries x j
          ≡ (if to == x && (leb i j && ltb j (i + n)) then m.entries from j else m.entries x j))
      × ((copy_entries n m from to i).pmm ≡ m.pmm)
unfolding copy_entries
copy_entries_lem zero m from to i d = (λ x j. ground arith, refl)
copy_entries_lem (suc n) m from to i d =
    let m' = set_entry m to i (m.entries from i) in
    let ih = copy_entries_lem n m' from to (i + 1) d in
    (
      λ x j. elim (Bool-cases (to == x)) [
        | inr o ↦ ih.0 x j ∙ rw (d, o) refl
        | inl o ↦ elim (Bool-cases (i == j)) [
          | inl s ↦
              let same : i ≡ j = (==_iff i j).0 s in
              let past : leb (i + 1) j ≡ false = ground arith in
              let here : (leb i j && ltb j (i + suc n)) ≡ true = ground arith in
              ih.0 x j ∙ rw (o, s, past, here) (ap (λ (y : ℕ). m.entries from y) same)
          | inr s ↦
              let same : (leb (i + 1) j && ltb j (i + 1 + n)) ≡ (leb i j && ltb j (i + suc n)) =
                ground arith in
              ih.0 x j ∙ rw (d, o, s, same) refl
        ]
      ],
      ih.1,
    )

module _ (k : ℕ) (pl : ℕ → Option Place) (m : Memory) (p : ℕ) (b' : BuddyAllocator)
    (h : IsTree k pl m) (kernel : pl k ≡ some (root_place k))
    (given : alloc m.pmm 0 ≡ (some p, b')) where
  abbrev cleared : Memory
  cleared = record { entries = fill_zero m.entries p; pmm = b' }

  abbrev filled : Memory
  filled = copy_entries 256 cleared k p 256

  abbrev placed : ℕ → Option Place
  placed x = if p == x then some (root_place p) else pl x

  fresh : (x : ℕ) (u : Place) → pl x ≡ some u → (p == x) ≡ false
  fresh = given_fresh k pl m p b' h given

  kept : (x : ℕ) (u : Place) → pl x ≡ some u → placed x ≡ some u
  kept x u e = rw (fresh x u e) e

  other : (x : ℕ) (u : Place) (j : ℕ) → pl x ≡ some u → filled.entries x j ≡ m.entries x j
  other x u j e =
      (copy_entries_lem 256 cleared k p 256 (fresh k (root_place k) kernel)).0 x j
      ∙ rw (fresh x u e) refl

  lower : (j : ℕ) → j < 256 → filled.entries p j ≡ 0
  lower j lt =
      let below : leb 256 j ≡ false = ground arith in
      let s : (p == p) ≡ true = (==_iff p p).1 refl in
      (copy_entries_lem 256 cleared k p 256 (fresh k (root_place k) kernel)).0 p j
      ∙ rw (s, below) refl

  upper : (j : ℕ) → 256 ≤ j → j < 512 → filled.entries p j ≡ m.entries k j
  upper j ge lt =
      let in_range : (leb 256 j && ltb j 512) ≡ true = ground arith in
      let s : (p == p) ≡ true = (==_iff p p).1 refl in
      (copy_entries_lem 256 cleared k p 256 (fresh k (root_place k) kernel)).0 p j
      ∙ rw (s, in_range, fresh k (root_place k) kernel) refl

  filled-pmm : filled.pmm ≡ b'
  filled-pmm = (copy_entries_lem 256 cleared k p 256 (fresh k (root_place k) kernel)).1

  links_new :
      (u : Place) (r j : ℕ)
      → u ≡ root_place p
      → j < 512
      → is_set (filled.entries p j) 1 ≡ true
      → is_large u.height (filled.entries p j) ≡ false
      → placed (bit_and (filled.entries p j) pte_addr_mask) ≡ some (child k u j)
  links_new u r j eq lt q l = elim (Bool-cases (leb 256 j)) [
    | inr lo ↦ let bad : false ≡ true = rw (lower j (ground arith)) at q in cc
    | inl hi ↦
        let o = upper j (ground arith) lt in
        let below = h.links k (root_place k) 2 j kernel refl lt (rw o at q) refl in
        rw (o, eq)
          (kept (bit_and (m.entries k j) pte_addr_mask) (child k (root_place k) j) below
            ∙ rw hi refl)
  ]

  -- A table is the new root or was there.
  new_or_old :
      (x : ℕ) (u : Place) → placed x ≡ some u → ((p ≡ x) × (u ≡ root_place p)) ⊎ (pl x ≡ some u)
  new_or_old x u e = elim (Bool-cases (p == x)) [
    | inl s ↦
        let eq : some (root_place p) ≡ some u = rw s at e in
        inl ((==_iff p x).0 s, (let eq' : u ≡ root_place p = cc in eq'))
    | inr s ↦ inr (rw s at e)
  ]

  idle_new :
      (j : ℕ)
      → j < 512
      → is_set (filled.entries p j) 1 ≡ false
      → is_set (filled.entries p j) 128 ≡ false
  idle_new j lt q = elim (Bool-cases (leb 256 j)) [
    | inr lo ↦ rw (lower j (ground arith)) refl
    | inl hi ↦
        let o = upper j (ground arith) lt in
        rw o (h.idle k (root_place k) 2 j kernel refl lt (rw o at q))
  ]

  filled-IsTree : IsTree k placed filled
  filled-IsTree = record {
    links = λ x u r j e hu lt q l. elim (new_or_old x u e) [
      | inl (same, eq) ↦
          subst (λ y. placed (bit_and (filled.entries y j) pte_addr_mask) ≡ some (child k u j)) same
            (links_new u r j eq lt (subst (λ y. is_set (filled.entries y j) 1 ≡ true) (sym same) q)
              (subst (λ y. is_large u.height (filled.entries y j) ≡ false) (sym same) l))
      | inr old ↦
          let o = other x u j old in
          let c = h.links x u r j old hu lt (rw o at q) (rw o at l) in
          rw o (kept (bit_and (m.entries x j) pte_addr_mask) (child k u j) c)
    ];
    idle = λ x u r j e hu lt q. elim (new_or_old x u e) [
      | inl (same, eq) ↦
          subst (λ y. is_set (filled.entries y j) 128 ≡ false) same
            (idle_new j lt (subst (λ y. is_set (filled.entries y j) 1 ≡ false) (sym same) q))
      | inr old ↦ let o = other x u j old in rw o (h.idle x u r j old hu lt (rw o at q))
    ];
    apart = λ x u e. elim (new_or_old x u e) [
      | inl (same, eq) ↦ rw (filled-pmm, ← same) (given_apart_self k pl m p b' h given)
      | inr old ↦ rw filled-pmm (given_apart k pl m p b' h given x u old)
    ];
    aligned = λ x u e. elim (new_or_old x u e) [
      | inl (same, eq) ↦ rw (← same) (given_frame k pl m p b' h given)
      | inr old ↦ h.aligned x u old
    ];
    valid = rw filled-pmm (given-IsValid k pl m p b' h given);
    once = rw filled-pmm (given_once k pl m p b' h given);
    low = rw filled-pmm (given_low k pl m p b' h given);
  }

  old_leaf :
      (n x : ℕ) (w : Place) (v : ℕ)
      → pl x ≡ some w
      → w.height ≡ n
      → leaf_from filled v n x ≡ leaf_from m v n x
  old_leaf = untouched-leaf filled h λ x w j e. other x w j e

  new_leaf :
      (v : ℕ)
      → leaf_from filled v 3 p ≡ (if leb 256 (digit 3 v) then leaf_from m v 3 k else missing)
  unfolding leaf_from
  new_leaf v = elim (Bool-cases (leb 256 (digit 3 v))) [
    | inr lo ↦ rw (lower (digit 3 v) (ground arith), lo) refl
    | inl hi ↦
        rw (upper (digit 3 v) (ground arith) (digit-lt 3 v), hi)
          (elim (Bool-cases (is_set (m.entries k (digit 3 v)) 1)) [
            | inr q ↦ rw q refl
            | inl q ↦
                let below =
                  h.links k (root_place k) 2 (digit 3 v) kernel refl (digit-lt 3 v) q refl in
                rw q (
                  old_leaf 2 (bit_and (m.entries k (digit 3 v)) pte_addr_mask)
                    (child k (root_place k) (digit 3 v)) v below refl)
          ])
  ]

  new_translate :
      (v : ℕ)
      → translate filled p v ≡ (if leb 256 (v / 2 ^ 39 % 512) then translate m k v else none)
  new_translate v =
      translate-leaf filled p v
      ∙ ap (address v) (new_leaf v)
      ∙ rw (translate-leaf m k v, bit_and_low 9 (v / 2 ^ 39))
          (elim (Bool-cases (leb 256 (v / 2 ^ 39 % 512))) [ inl q ↦ rw q refl | inr q ↦ rw q refl ])

  old_translate : (r v : ℕ) → pl r ≡ some (root_place r) → translate filled r v ≡ translate m r v
  old_translate r v e =
      translate-leaf filled r v
      ∙ ap (address v) (old_leaf 3 r (root_place r) v e refl)
      ∙ sym (translate-leaf m r v)

-- The places with one more root.
unfoldable pub with_root : (p : ℕ) → (ℕ → Option Place) → ℕ → Option Place
with_root p pl x = if p == x then some (root_place p) else pl x

zeroed-some :
    (k : ℕ) (m : Memory) (p : ℕ) (m' : Memory) (o : Option ℕ × BuddyAllocator)
    → alloc m.pmm 0 ≡ o
    → with_kernel_half k (zeroed m o) ≡ (some p, m')
    → (b' : BuddyAllocator) × (alloc m.pmm 0 ≡ (some p, b'))
      × (m' ≡ copy_entries 256 (record { entries = fill_zero m.entries p; pmm = b' }) k p 256)
unfolding with_kernel_half zeroed
zeroed-some k m p m' (none, b) g e =
    let bad : none ≡ some p = ap (λ (r : Option ℕ × Memory). r.0) e in cc
zeroed-some k m p m' (some q, b) g e =
    let same : some q ≡ some p = ap (λ (r : Option ℕ × Memory). r.0) e in
    let eq : q ≡ p = cc in (b, rw (← eq) g, rw (← eq) (sym (ap (λ (r : Option ℕ × Memory). r.1) e)))

-- While the tables of all spaces are trees: a new space that is made, its root added, leaves them
-- trees; it has the kernel's translation in the upper half of the addresses and none in the lower
-- half; and every address of every other space is translated as before.
pub new_user_lem :
    (k : ℕ) (pl : ℕ → Option Place) (m : Memory) (p : ℕ) (m' : Memory)
    → IsTree k pl m
    → pl k ≡ some (root_place k)
    → new_user k m ≡ (some p, m')
    → (root virt : ℕ) → pl root ≡ some (root_place root)
    → IsTree k (with_root p pl) m'
      × (translate m' p virt ≡ (if leb 256 (virt / 2 ^ 39 % 512) then translate m k virt else none))
      × (translate m' root virt ≡ translate m root virt)
unfolding new_user alloc_zeroed_frame with_root
new_user_lem k pl m p m' h kernel e root virt at =
    let (b', given, same) = zeroed-some k m p m' (alloc m.pmm 0) refl e in
    rw same (
      filled-IsTree k pl m p b' h kernel given,
      new_translate k pl m p b' h kernel given virt,
      old_translate k pl m p b' h kernel given root virt at,
    )
