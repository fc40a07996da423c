-- ===== src/Pmm/Mass.antt =====
-- A weight of blocks, added up over all free lists of src/mm/pmm.rs, and how the elementary changes
-- of the lists change it.
use sar_osx.Base.{
  ap, ℕ, zero, suc, ◌+◌, ◌-◌, ◌*◌, ◌/◌, ◌%◌, ◌^◌, ◌≤◌, ◌<◌, bit_xor, ◌≡◌, refl, ap, ◌⊎◌, inl, inr,
  true, List, [], ◌∷◌, arith, ◌==◌, ==_iff, Bool-cases,
}
use native.Mathlib.Nat.{pow-suc, one-le-pow}
use sar_osx.Base.Bits.{flip, bit_xor-flip, bit_xor_double}
use sar_osx.Pmm.{block_size, FreeList, push, remove, unlink, BuddyAllocator, set_list, push_at}

pub block_size-suc : (o : ℕ) → block_size (suc o) ≡ block_size o + block_size o
block_size-suc o = omega (arith, pow-suc 2 o)

pub block_size-pos : (o : ℕ) → 1 ≤ block_size o
block_size-pos o = omega (arith, one-le-pow o 2 (omega arith))

-- A block of this order starts at a multiple of its size and ends in the address range.
pub record Fits (order phys : ℕ) : Type 0 where
  pub index : ℕ
  pub aligned : phys ≡ index * block_size order
  pub below : phys + block_size order ≤ 2 ^ 64

bit_xor-block_size : (o q : ℕ) → bit_xor (q * block_size o) (block_size o) ≡ flip q * block_size o
bit_xor-block_size zero q = bit_xor-flip 12 q
bit_xor-block_size (suc o) q =
    let e : block_size (suc o) ≡ block_size o * 2 = omega (arith, block_size-suc o) in
    rw e (bit_xor_double (block_size o) (bit_xor-block_size o) q)

-- The buddy of a block is its neighbour in the block twice as large.
pub buddy_lem :
    (o q : ℕ)
    → ((bit_xor (q * block_size o) (block_size o) ≡ q * block_size o + block_size o)
        × (q ≡ q / 2 * 2))
      ⊎ ((bit_xor (q * block_size o) (block_size o) + block_size o ≡ q * block_size o)
          × (q ≡ q / 2 * 2 + 1))
buddy_lem o q = elim (Bool-cases (q % 2 == 0)) [
  | inl e ↦ inl (rw (bit_xor-block_size o q, e) (omega arith), ground arith)
  | inr e ↦ inr (
    rw (bit_xor-block_size o q, e)
        (let one : q ≡ q - 1 + 1 = ground arith in
          omega (arith, ap (λ (t : ℕ). t * block_size o) one)),
    ground arith,
  )
]

abbrev pub All {ℓ κ} : {A : Type ℓ} → (A → Type κ) → List A → Type κ
All P [] = Unit
All P (x ∷ xs) = P x × All P xs

module _ (w : ℕ → ℕ → ℕ) where
  abbrev pub mass_blocks : ℕ → List ℕ → ℕ
  mass_blocks o [] = 0
  mass_blocks o (p ∷ rest) = w o p + mass_blocks o rest

  unfoldable pub mass_orders : ℕ → (ℕ → FreeList) → ℕ
  mass_orders zero f = 0
  mass_orders (suc n) f = mass_orders n f + mass_blocks n (f n).blocks

  abbrev pub mass : BuddyAllocator → ℕ
  mass b = mass_orders 13 b.lists

  mass_orders-above :
      (n : ℕ) (f : ℕ → FreeList) (i : ℕ) (l : FreeList)
      → n ≤ i
      → mass_orders n (set_list f i l) ≡ mass_orders n f
  unfolding mass_orders
  mass_orders-above zero f i l h = refl
  mass_orders-above (suc n) f i l h = ground (arith, mass_orders-above n f i l)

  pub mass_orders-set_list :
      (n : ℕ) (f : ℕ → FreeList) (i : ℕ) (l : FreeList)
      → i < n
      → mass_orders n (set_list f i l) + mass_blocks i (f i).blocks
        ≡ mass_orders n f + mass_blocks i l.blocks
  unfolding mass_orders
  mass_orders-set_list zero f i l h = absurd (omega arith)
  mass_orders-set_list (suc n) f i l h = elim (Bool-cases (i == n)) [
    | inl e ↦
        let same : n ≡ i = ground arith in
        rw (e, mass_orders-above n f i l (omega arith))
          (omega (
            arith,
            ap (λ k. mass_blocks k l.blocks) same,
            ap (λ k. mass_blocks k (f k).blocks) same,
          ))
    | inr e ↦ ground (arith, mass_orders-set_list n f i l)
  ]

  pub mass-push_at : (b : BuddyAllocator) (o p : ℕ) → o < 13 → mass (push_at b o p) ≡ mass b + w o p
  unfolding push
  mass-push_at b o p h = omega (arith, mass_orders-set_list 13 b.lists o (push (b.lists o) p) h)

  mass-unlink :
      (o : ℕ) (l : List ℕ) (p : ℕ)
      → (unlink l p).0 ≡ true
      → mass_blocks o (unlink l p).1 + w o p ≡ mass_blocks o l
  unfolding unlink
  mass-unlink o [] p h = cc
  mass-unlink o (x ∷ l) p h = elim (Bool-cases (x == p)) [
    | inl e ↦ let same : x ≡ p = (==_iff x p).0 e in rw (e, same) (omega arith)
    | inr e ↦ rw e (omega (arith, mass-unlink o l p (rw e at h)))
  ]

  pub mass-remove :
      (l : FreeList) (o p : ℕ)
      → (remove l p).0 ≡ true
      → mass_blocks o (remove l p).1.blocks + w o p ≡ mass_blocks o l.blocks
  unfolding remove
  mass-remove l o p h = mass-unlink o l.blocks p h
