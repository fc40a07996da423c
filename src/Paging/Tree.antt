-- ===== src/Paging/Tree.antt =====
-- The invariant of the page tables of src/mm/vmm.rs: every table frame serves one place of one address
-- space, so that two walks meet only where they are for the same range of addresses; and what a walk
-- for an address ends at.
use sar_osx.Base.{
  ℕ, zero, suc, ◌+◌, ◌-◌, ◌*◌, ◌/◌, ◌^◌, ◌≤◌, ◌<◌, bit_and, bit_or, ◌≡◌, refl, Bool, true, false,
  ◌&&◌, Option, none, some, leb, ◌==◌, if◌then◌else◌, inl, inr, Bool-cases,
}
use sar_osx.Pmm.Valid.{IsValid, covered, inside}
use sar_osx.Paging.{pte_addr_mask, Memory, is_set, is_present, get_table, translate, translate_page}

-- The owner of a table (its root), the levels of tables below it, and the upper digits, of nine bits
-- each, of the addresses that are looked up in it.
pub record Place : Type 0 where
  pub owner : ℕ
  pub height : ℕ
  pub path : ℕ

abbrev pub root_place : ℕ → Place
root_place root = record { owner = root; height = 3; path = 0 }

-- The upper half of every root belongs to the kernel root `k`.
abbrev pub child : (k : ℕ) → Place → (idx : ℕ) → Place
child k w idx = record {
  owner = if (w.height == 3) && leb 256 idx then k else w.owner;
  height = w.height - 1;
  path = w.path * 512 + idx;
}

-- The entry of a table two levels up from the pages that maps 2 MiB by itself.
abbrev pub is_large : (height entry : ℕ) → Bool
is_large height entry = (height == 1) && is_set entry 128

-- The tables of `place` form trees; none is in free memory, which is free once and below 2 ^ 52.
pub record IsTree (k : ℕ) (place : ℕ → Option Place) (m : Memory) : Type 0 where
  pub links :
      (t : ℕ) (w : Place) (n i : ℕ)
      → place t ≡ some w
      → w.height ≡ suc n
      → i < 512
      → is_set (m.entries t i) 1 ≡ true
      → is_large w.height (m.entries t i) ≡ false
      → place (bit_and (m.entries t i) pte_addr_mask) ≡ some (child k w i)
  pub idle :
      (t : ℕ) (w : Place) (n i : ℕ)
      → place t ≡ some w
      → w.height ≡ suc n
      → i < 512
      → is_set (m.entries t i) 1 ≡ false
      → is_set (m.entries t i) 128 ≡ false
  pub apart : (t : ℕ) (w : Place) → place t ≡ some w → (f : ℕ) → covered f m.pmm + inside f 0 t ≤ 1
  pub aligned : (t : ℕ) (w : Place) → place t ≡ some w → (t ≡ t / 2 ^ 12 * 2 ^ 12) × (t < 2 ^ 52)
  pub valid : IsValid m.pmm
  pub once : (f : ℕ) → covered f m.pmm ≤ 1
  pub low : (f : ℕ) → 1 ≤ covered f m.pmm → f < 2 ^ 52

-- The digit of an address for a table with `n` levels below it.
abbrev pub digit : (n virt : ℕ) → ℕ
digit n virt = bit_and (virt / 2 ^ (12 + 9 * n)) 0x1FF

-- What a walk ends at: a missing table, an entry of 2 MiB, or an entry of the last table.
pub data Leaf : Type 0 where
  missing : Leaf
  large : ℕ → Leaf
  page : ℕ → Leaf

unfoldable pub leaf_from : Memory → (virt n t : ℕ) → Leaf
leaf_from m virt zero t =
    if is_set (m.entries t (digit 0 virt)) 1 then page (m.entries t (digit 0 virt)) else missing
leaf_from m virt (suc n) t =
    let e = m.entries t (digit (suc n) virt) in
    let below = leaf_from m virt n (bit_and e pte_addr_mask) in
    if is_large (suc n) e then large e else (if is_set e 1 then below else missing)

abbrev pub leaf : Memory → (root virt : ℕ) → Leaf
leaf m root virt = leaf_from m virt 3 root

-- The physical address by the entry at the end of the walk.
abbrev pub address : (virt : ℕ) → Leaf → Option ℕ
address virt missing = none
address virt (large e) = some (bit_and e pte_addr_mask + bit_and virt 0x1F_FFFF)
address virt (page e) = some (bit_or (bit_and e pte_addr_mask) (bit_and virt 0xFFF))

pub translate-leaf :
    (m : Memory) (root virt : ℕ) → translate m root virt ≡ address virt (leaf m root virt)
unfolding translate translate_page leaf_from get_table is_present
translate-leaf m root virt =
    let e4 = m.entries root (digit 3 virt) in
    let e3 = m.entries (bit_and e4 pte_addr_mask) (digit 2 virt) in
    let e2 = m.entries (bit_and e3 pte_addr_mask) (digit 1 virt) in
    let e1 = m.entries (bit_and e2 pte_addr_mask) (digit 0 virt) in
    elim (Bool-cases (is_set e4 1)) [
      | inr h4 ↦ rw h4 refl
      | inl h4 ↦ elim (Bool-cases (is_set e3 1)) [
        | inr h3 ↦ rw (h4, h3) refl
        | inl h3 ↦ elim (Bool-cases (is_set e2 128)) [
          | inl l2 ↦ rw (h4, h3, l2) refl
          | inr l2 ↦ elim (Bool-cases (is_set e2 1)) [
            | inr h2 ↦ rw (h4, h3, l2, h2) refl
            | inl h2 ↦ elim (Bool-cases (is_set e1 1)) [
              | inr h1 ↦ rw (h4, h3, l2, h2, h1) refl
              | inl h1 ↦ rw (h4, h3, l2, h2, h1) refl
            ]
          ]
        ]
      ]
    ]
