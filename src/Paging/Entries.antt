-- ===== src/Paging/Entries.antt =====
-- The bits of a page table entry of src/mm/vmm.rs, and of an address that is translated.
use sar_osx.Base.{
  ℕ, ◌+◌, ◌*◌, ◌/◌, ◌%◌, ◌^◌, ◌<◌, bit_and, bit_or, ◌≡◌, refl, true, false, arith, ◌==◌,
}
use sar_osx.Base.Bits.{bit_or_step, bit_and_low, bit_and_high}
use sar_osx.Base.Words.{bit_or_zero, bit_or_div, bit_or_mod, bit_or-disjoint}
use sar_osx.Paging.{pte_addr_mask, is_set}

pub present_lem : (e : ℕ) → is_set e 1 ≡ (e % 2 == 1)
present_lem e = rw (bit_and_low 1 e) (ground arith)

pub mask_lem : (e : ℕ) → bit_and e pte_addr_mask ≡ e / 2 ^ 12 % 2 ^ 40 * 2 ^ 12
mask_lem e = bit_and_high 40 12 e

pub large_lem : (e : ℕ) → is_set e 128 ≡ (e / 2 ^ 7 % 2 == 1)
large_lem e = rw (bit_and_high 1 7 e) (ground arith)

-- The entry that links a table names it, and is present and no large page.
pub record Links (entry table : ℕ) : Type 0 where
  pub present : is_set entry 1 ≡ true
  pub small : is_set entry 128 ≡ false
  pub names : bit_and entry pte_addr_mask ≡ table

table_entry-sum : (p q : ℕ) → p ≡ q * 2 ^ 12 → bit_or (bit_or p 6) 1 ≡ q * 2 ^ 12 + 7
table_entry-sum p q e =
    let even : q * 2 ^ 12 + 6 ≡ (q * 2 ^ 11 + 3) * 2 ^ 1 = omega arith in
    rw
      (
        e,
        bit_or-disjoint 12 q 6 (omega arith),
        even,
        bit_or-disjoint 1 (q * 2 ^ 11 + 3) 1 (omega arith),
      )
      (omega arith)

pub table_entry-Links : (p q : ℕ) → p ≡ q * 2 ^ 12 → p < 2 ^ 52 → Links (bit_or (bit_or p 6) 1) p
table_entry-Links p q e h =
    let s = table_entry-sum p q e in
    record {
      present = rw (present_lem (bit_or (bit_or p 6) 1), s) (ground arith);
      small = rw (large_lem (bit_or (bit_or p 6) 1), s) (ground arith);
      names = rw (mask_lem (bit_or (bit_or p 6) 1), s) (omega arith);
    }

bit_or_one : (x : ℕ) → bit_or x 1 % 2 ≡ 1
bit_or_one x = omega (arith, bit_or_step x 1)

frame_bits : ℕ → ℕ
frame_bits x = x / 2 ^ 12 % 2 ^ 40

frame_bits-or : (x y : ℕ) → frame_bits y ≡ 0 → frame_bits (bit_or x y) ≡ frame_bits x
unfolding frame_bits
frame_bits-or x y h =
    rw (bit_or_div 12 x y, bit_or_mod 40 (x / 2 ^ 12) (y / 2 ^ 12), h)
      (bit_or_zero (x / 2 ^ 12 % 2 ^ 40))

-- The entry that maps a page is present and names the frame; the flags have no bit of an address.
pub page_entry_lem :
    (phys flags : ℕ)
    → bit_and flags pte_addr_mask ≡ 0
    → (is_set (bit_or (bit_or (bit_and phys pte_addr_mask) flags) 1) 1 ≡ true)
      × (bit_and (bit_or (bit_or (bit_and phys pte_addr_mask) flags) 1) pte_addr_mask
          ≡ bit_and phys pte_addr_mask)
unfolding frame_bits
page_entry_lem phys flags h =
    let x = bit_and phys pte_addr_mask in
    let none_set : frame_bits flags ≡ 0 = omega (arith, mask_lem flags, h) in
    let one : frame_bits 1 ≡ 0 = omega arith in
    (
      rw (present_lem (bit_or (bit_or x flags) 1), bit_or_one (bit_or x flags)) refl,
      omega (
        arith,
        mask_lem (bit_or (bit_or x flags) 1),
        frame_bits-or (bit_or x flags) 1 one,
        frame_bits-or x flags none_set,
        mask_lem phys,
      ),
    )

-- A frame and an offset in it.
pub offset_lem :
    (phys virt : ℕ)
    → bit_or (bit_and phys pte_addr_mask) (bit_and virt 0xFFF)
      ≡ phys / 2 ^ 12 % 2 ^ 40 * 2 ^ 12 + virt % 2 ^ 12
offset_lem phys virt =
    rw (mask_lem phys, bit_and_low 12 virt)
      (bit_or-disjoint 12 (phys / 2 ^ 12 % 2 ^ 40) (virt % 2 ^ 12) (omega arith))
