-- ===== src/Paging/Slot.antt =====
-- An entry of a last table of src/mm/vmm.rs that is written: the trees keep their form, and only walks
-- for the one page end elsewhere.
use sar_osx.Base.{
  ℕ, zero, suc, ◌+◌, ◌*◌, ◌/◌, ◌%◌, ◌^◌, ◌≤◌, bit_and, ◌≡◌, refl, sym, ap, ◌∙◌, ◌≢◌, inl, inr, true,
  ◌&&◌, Option, some, arith, leb, ◌==◌, if◌then◌else◌, ==_iff, Bool-cases,
}
use sar_osx.Paging.{pte_addr_mask, Memory, is_set, set_entry}
use sar_osx.Base.Bits.{bit_and_low}
use sar_osx.Paging.Tree.{Place, root_place, child, is_large, IsTree, digit, leaf_from}
use sar_osx.Paging.Grows.{digit-lt}

-- The place of the last table of a walk.
unfoldable pub dest : (k virt n : ℕ) → Place → Place
dest k virt zero w = w
dest k virt (suc n) w = dest k virt n (child k w (digit (suc n) virt))

-- Who owns the page of an address in the space with this root.
unfoldable pub owner_of : (k root virt : ℕ) → ℕ
owner_of k root virt = if leb 256 (virt / 2 ^ 39 % 512) then k else root

-- The number of the page of an address, of 48 bits.
unfoldable pub page_of : ℕ → ℕ
page_of virt = virt / 2 ^ 12 % 2 ^ 36

dest-root :
    (k r v : ℕ)
    → dest k v 3 (root_place r)
      ≡ record { owner = owner_of k r v; height = 0; path = v / 2 ^ 21 % 2 ^ 27 }
unfolding dest owner_of
dest-root k r v =
    let d : ((0 + v / 2 ^ 39 % 512) * 512 + v / 2 ^ 30 % 512) * 512 + v / 2 ^ 21 % 512
        ≡ v / 2 ^ 21 % 2 ^ 27 =
      omega arith in
    rw (bit_and_low 9 (v / 2 ^ 39), bit_and_low 9 (v / 2 ^ 30), bit_and_low 9 (v / 2 ^ 21))
      (ap (λ (x : ℕ). record { owner = owner_of k r v; height = 0; path = x }) d)

pub dest-owner : (k r v : ℕ) → (dest k v 3 (root_place r)).owner ≡ owner_of k r v
dest-owner k r v = ap (λ (w : Place). w.owner) (dest-root k r v)

-- Two walks that end at one entry are for one page of one owner.
pub dest_same :
    (k r v r' v' : ℕ)
    → dest k v 3 (root_place r) ≡ dest k v' 3 (root_place r')
    → digit 0 v ≡ digit 0 v'
    → (owner_of k r v ≡ owner_of k r' v') × (page_of v ≡ page_of v')
unfolding page_of
dest_same k r v r' v' e d =
    let f = sym (dest-root k r v) ∙ e ∙ dest-root k r' v' in
    let low : v / 2 ^ 12 % 512 ≡ v' / 2 ^ 12 % 512 =
      omega (arith, d, bit_and_low 9 (v / 2 ^ 12), bit_and_low 9 (v' / 2 ^ 12)) in
    let high : v / 2 ^ 21 % 2 ^ 27 ≡ v' / 2 ^ 21 % 2 ^ 27 = ap (λ (w : Place). w.path) f in
    (ap (λ (w : Place). w.owner) f, omega (arith, low, high))

digit-page : (n v v' : ℕ) → n ≤ 3 → page_of v ≡ page_of v' → digit n v ≡ digit n v'
unfolding page_of
digit-page zero v v' le e =
    rw (bit_and_low 9 (v / 2 ^ 12), bit_and_low 9 (v' / 2 ^ 12)) (omega (arith, e))
digit-page (suc zero) v v' le e =
    rw (bit_and_low 9 (v / 2 ^ 21), bit_and_low 9 (v' / 2 ^ 21)) (omega (arith, e))
digit-page (suc (suc zero)) v v' le e =
    rw (bit_and_low 9 (v / 2 ^ 30), bit_and_low 9 (v' / 2 ^ 30)) (omega (arith, e))
digit-page (suc (suc (suc zero))) v v' le e =
    rw (bit_and_low 9 (v / 2 ^ 39), bit_and_low 9 (v' / 2 ^ 39)) (omega (arith, e))
digit-page (suc (suc (suc (suc n)))) v v' le e = absurd (omega arith)

-- All addresses of a page have the same walk.
pub leaf-page :
    (m : Memory) (v v' n t : ℕ)
    → n ≤ 3
    → page_of v ≡ page_of v'
    → leaf_from m v n t ≡ leaf_from m v' n t
unfolding leaf_from
leaf-page m v v' zero t le e = rw (digit-page 0 v v' le e) refl
leaf-page m v v' (suc n) t le e =
    rw
      (
        digit-page (suc n) v v' le e,
        leaf-page m v v' n (bit_and (m.entries t (digit (suc n) v')) pte_addr_mask) (omega arith) e,
      )
      refl

module _ (k : ℕ) (pl : ℕ → Option Place) (m : Memory) (t : ℕ) (u : Place) (i e : ℕ)
    (h : IsTree k pl m) (at : pl t ≡ some u) (last : u.height ≡ 0) where
  abbrev written : Memory
  written = set_entry m t i e

  pub higher :
      (x : ℕ) (w : Place) (n j : ℕ)
      → pl x ≡ some w
      → w.height ≡ suc n
      → written.entries x j ≡ m.entries x j
  higher x w n j f hw = elim (Bool-cases (t == x)) [
    | inr s ↦ rw s refl
    | inl s ↦
        let same : t ≡ x = (==_iff t x).0 s in
        let both : some u ≡ some w = sym at ∙ ap pl same ∙ f in
        let eq : u ≡ w = cc in let bad : zero ≡ suc n = cc in absurd (omega arith)
  ]

  pub set_entry-IsTree : IsTree k pl written
  set_entry-IsTree = record {
    links = λ x w n j f hw lt p l.
        let o = higher x w n j f hw in rw o (h.links x w n j f hw lt (rw o at p) (rw o at l));
    idle = λ x w n j f hw lt p.
        let o = higher x w n j f hw in rw o (h.idle x w n j f hw lt (rw o at p));
    apart = h.apart;
    aligned = h.aligned;
    valid = h.valid;
    once = h.once;
    low = h.low;
  }

  pub set_entry-leaf :
      (n x : ℕ) (w : Place) (v : ℕ)
      → pl x ≡ some w
      → w.height ≡ n
      → (dest k v n w ≡ u → digit 0 v ≢ i)
      → leaf_from written v n x ≡ leaf_from m v n x
  unfolding leaf_from dest
  set_entry-leaf zero x w v f hw away = elim (Bool-cases (t == x && i == digit 0 v)) [
    | inr d ↦ rw d refl
    | inl d ↦
        let same : t ≡ x = ground arith in
        let both : some u ≡ some w = sym at ∙ ap pl same ∙ f in
        let eq : w ≡ u = cc in let low : digit 0 v ≡ i = ground arith in absurd (away eq low)
  ]
  set_entry-leaf (suc n) x w v f hw away =
      rw (higher x w n (digit (suc n) v) f hw)
        (elim (Bool-cases (is_large (suc n) (m.entries x (digit (suc n) v)))) [
          | inl l ↦ rw l refl
          | inr l ↦ elim (Bool-cases (is_set (m.entries x (digit (suc n) v)) 1)) [
            | inr q ↦ rw (l, q) refl
            | inl q ↦
                let below = h.links x w n (digit (suc n) v) f hw (digit-lt (suc n) v) q (rw hw l) in
                rw (l, q)
                  (set_entry-leaf n (bit_and (m.entries x (digit (suc n) v)) pte_addr_mask)
                    (child k w (digit (suc n) v)) v below (omega arith) away)
          ]
        ])

  pub set_entry_self : written.entries t i ≡ e
  set_entry_self = let d : (t == t && i == i) ≡ true = ground arith in rw d refl
