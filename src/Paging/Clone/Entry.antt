-- ===== src/Paging/Clone/Entry.antt =====
-- The entries that src/proc/fork.rs makes: read-only ones name the same frame, and those of new tables
-- have the flags of the parent's. What the processor looks up does not depend on the other bits.
use sar_osx.Base.{
  ℕ, zero, suc, ◌+◌, ◌*◌, ◌/◌, ◌%◌, ◌^◌, ◌<◌, bit_and, bit_or, ◌≡◌, refl, ap, ◌∙◌, inl, inr, ◌&&◌,
  Option, some, arith, ◌==◌, Bool-cases,
}
use sar_osx.Base.Bits.{bit_and_low, bit_and_zero}
use sar_osx.Base.Words.{bit_or_zero, zero_bit_or, bit_or_div, bit_or_mod, bit_and_div, bit_and_mod}
use sar_osx.Pmm.{not64}
use sar_osx.Paging.{pte_addr_mask, pte_writable, pte_user, is_set, Memory, set_entry, is_present}
use sar_osx.Paging.Entries.{present_lem, mask_lem, large_lem}
use sar_osx.Paging.Clone.{
  read_only, cow_pte, same_flags, make_cow_pt, make_cow_pd, make_cow_pdpt, make_cow_pml4,
}
use sar_osx.Paging.Tree.{Place, IsTree, digit, is_large, leaf_from, address}

-- Entries that are alike but for their rights.
pub record SameEntry (e e' : ℕ) : Type 0 where
  pub present : is_set e' 1 ≡ is_set e 1
  pub large : is_set e' 128 ≡ is_set e 128
  pub names : bit_and e' pte_addr_mask ≡ bit_and e pte_addr_mask

pub SameEntry-refl : (e : ℕ) → SameEntry e e
SameEntry-refl e = record { present = refl; large = refl; names = refl }

pub SameEntry-trans : (e f g : ℕ) → SameEntry e f → SameEntry f g → SameEntry e g
SameEntry-trans e f g a b = record {
  present = b.present ∙ a.present;
  large = b.large ∙ a.large;
  names = b.names ∙ a.names;
}

read_only-high : (e : ℕ) → read_only e / 2 ^ 2 % 2 ^ 62 ≡ e / 2 ^ 2 % 2 ^ 62
read_only-high e =
    rw (bit_and_div 2 e (not64 pte_writable), bit_and_low 62 (e / 2 ^ 2)) (omega arith)

read_only-low : (e : ℕ) → read_only e % 2 ≡ e % 2
read_only-low e = rw (bit_and_mod 1 e (not64 pte_writable), bit_and_low 1 (e % 2)) (omega arith)

pub read_only-SameEntry : (e : ℕ) → SameEntry e (read_only e)
read_only-SameEntry e = record {
  present = rw (present_lem (read_only e), present_lem e, read_only-low e) refl;
  large =
      let seven : read_only e / 2 ^ 7 % 2 ≡ e / 2 ^ 7 % 2 = omega (arith, read_only-high e) in
      rw (large_lem (read_only e), large_lem e, seven) refl;
  names =
      let frame : read_only e / 2 ^ 12 % 2 ^ 40 ≡ e / 2 ^ 12 % 2 ^ 40 =
        omega (arith, read_only-high e) in
      rw (mask_lem (read_only e), mask_lem e, frame) refl;
}

pub cow_pte-SameEntry : (e : ℕ) → SameEntry e (cow_pte e)
cow_pte-SameEntry e = elim (Bool-cases (is_set e pte_user)) [
  | inl q ↦ rw q (read_only-SameEntry e)
  | inr q ↦ rw q (SameEntry-refl e)
]

-- The entry for the table of the child.
pub record NewEntry (c e e' : ℕ) : Type 0 where
  pub present : is_set e' 1 ≡ is_set e 1
  pub large : is_set e' 128 ≡ is_set e 128
  pub names : bit_and e' pte_addr_mask ≡ c

flags-low : (e : ℕ) → bit_and e (not64 pte_addr_mask) % 2 ^ 12 ≡ e % 2 ^ 12
flags-low e = rw (bit_and_mod 12 e (not64 pte_addr_mask), bit_and_low 12 (e % 2 ^ 12)) (omega arith)

flags-frame : (e : ℕ) → bit_and e (not64 pte_addr_mask) / 2 ^ 12 % 2 ^ 40 ≡ 0
flags-frame e =
    rw
      (
        bit_and_div 12 e (not64 pte_addr_mask),
        bit_and_mod 40 (e / 2 ^ 12) (not64 pte_addr_mask / 2 ^ 12),
      )
      (bit_and_zero (e / 2 ^ 12 % 2 ^ 40))

pub same_flags-NewEntry :
    (c e : ℕ) → c ≡ c / 2 ^ 12 * 2 ^ 12 → c < 2 ^ 52 → NewEntry c e (same_flags c e)
same_flags-NewEntry c e al lt =
    let f = bit_and e (not64 pte_addr_mask) in
    let x = same_flags c e in
    let none_low : c % 2 ^ 12 ≡ 0 = omega (arith, al) in
    let low : x % 2 ^ 12 ≡ e % 2 ^ 12 =
      bit_or_mod 12 c f ∙ rw (none_low, flags-low e) (zero_bit_or (e % 2 ^ 12)) in
    let high : x / 2 ^ 12 % 2 ^ 40 ≡ c / 2 ^ 12 % 2 ^ 40 =
      rw (bit_or_div 12 c f, bit_or_mod 40 (c / 2 ^ 12) (f / 2 ^ 12), flags-frame e)
        (bit_or_zero (c / 2 ^ 12 % 2 ^ 40)) in
    let one : x % 2 ≡ e % 2 = omega (arith, low) in
    let seven : x / 2 ^ 7 % 2 ≡ e / 2 ^ 7 % 2 = omega (arith, low) in
    record {
      present = rw (present_lem x, present_lem e, one) refl;
      large = rw (large_lem x, large_lem e, seven) refl;
      names = rw (mask_lem x, high) (omega (arith, al, lt));
    }

-- Tables whose entries are alike give the same translations and the same trees.
pub record SameTables (m m' : Memory) : Type 0 where
  pub alike : (t i : ℕ) → SameEntry (m.entries t i) (m'.entries t i)
  pub frames : m'.pmm ≡ m.pmm

pub SameTables-address :
    (m m' : Memory)
    → SameTables m m'
    → (v n t : ℕ) → address v (leaf_from m' v n t) ≡ address v (leaf_from m v n t)
unfolding leaf_from
SameTables-address m m' s v zero t =
    let x = s.alike t (digit 0 v) in
    elim (Bool-cases (is_set (m.entries t (digit 0 v)) 1)) [
      | inr q ↦ rw (x.present, q) refl
      | inl q ↦ rw (x.present, q) (ap (λ (y : ℕ). some (bit_or y (bit_and v 0xFFF))) x.names)
    ]
SameTables-address m m' s v (suc n) t =
    let x = s.alike t (digit (suc n) v) in
    let e = m.entries t (digit (suc n) v) in
    let l : is_large (suc n) (m'.entries t (digit (suc n) v)) ≡ is_large (suc n) e =
      rw x.large refl in
    rw l (elim (Bool-cases (is_large (suc n) e)) [
      | inl q ↦ rw q (ap (λ (y : ℕ). some (y + bit_and v 0x1F_FFFF)) x.names)
      | inr q ↦ rw q (elim (Bool-cases (is_set e 1)) [
        | inr r ↦ rw (x.present, r) refl
        | inl r ↦
            rw (x.present, r, x.names) (SameTables-address m m' s v n (bit_and e pte_addr_mask))
      ])
    ])

pub SameTables-IsTree :
    (k : ℕ) (pl : ℕ → Option Place) (m m' : Memory)
    → SameTables m m'
    → IsTree k pl m
    → IsTree k pl m'
SameTables-IsTree k pl m m' s h = record {
  links = λ t w n i e hw lt p l.
      let x = s.alike t i in
      rw x.names (h.links t w n i e hw lt (rw x.present at p) (rw x.large at l));
  idle = λ t w n i e hw lt p.
      let x = s.alike t i in rw x.large (h.idle t w n i e hw lt (rw x.present at p));
  apart = rw s.frames h.apart;
  aligned = h.aligned;
  valid = rw s.frames h.valid;
  once = rw s.frames h.once;
  low = rw s.frames h.low;
}

SameTables-refl : (m : Memory) → SameTables m m
SameTables-refl m = record { alike = λ t i. SameEntry-refl (m.entries t i); frames = refl }

SameTables-trans : (a b c : Memory) → SameTables a b → SameTables b c → SameTables a c
SameTables-trans a b c s r = record {
  alike = λ t i.
      SameEntry-trans (a.entries t i) (b.entries t i) (c.entries t i) (s.alike t i) (r.alike t i);
  frames = r.frames ∙ s.frames;
}

write_read_only :
    (m : Memory) (t i : ℕ) → SameTables m (set_entry m t i (read_only (m.entries t i)))
write_read_only m t i = record {
  alike = λ x j. elim (Bool-cases (t == x && i == j)) [
    | inr d ↦ rw d (SameEntry-refl (m.entries x j))
    | inl d ↦
        let tx : t ≡ x = ground arith in
        let ij : i ≡ j = ground arith in rw (d, tx, ij) (read_only-SameEntry (m.entries x j))
  ];
  frames = refl;
}

make_cow_pt-same : (n : ℕ) (m : Memory) (pt i : ℕ) → SameTables m (make_cow_pt n m pt i)
unfolding make_cow_pt is_present
make_cow_pt-same zero m pt i = SameTables-refl m
make_cow_pt-same (suc n) m pt i =
    elim (Bool-cases (is_set (m.entries pt i) 1 && is_set (m.entries pt i) 4)) [
      | inr q ↦ rw q (make_cow_pt-same n m pt (i + 1))
      | inl q ↦
          let m' = set_entry m pt i (read_only (m.entries pt i)) in
          rw q (
            SameTables-trans m m' (make_cow_pt n m' pt (i + 1)) (write_read_only m pt i)
              (make_cow_pt-same n m' pt (i + 1)))
    ]

make_cow_pd-same : (n : ℕ) (m : Memory) (pd i : ℕ) → SameTables m (make_cow_pd n m pd i)
unfolding make_cow_pd is_present
make_cow_pd-same zero m pd i = SameTables-refl m
make_cow_pd-same (suc n) m pd i = elim (Bool-cases (is_set (m.entries pd i) 1)) [
  | inr q ↦ rw q (make_cow_pd-same n m pd (i + 1))
  | inl q ↦ elim (Bool-cases (is_set (m.entries pd i) 128)) [
    | inl l ↦
        let m' = set_entry m pd i (read_only (m.entries pd i)) in
        rw (q, l)
          (SameTables-trans m m' (make_cow_pd n m' pd (i + 1)) (write_read_only m pd i)
            (make_cow_pd-same n m' pd (i + 1)))
    | inr l ↦
        let m' = make_cow_pt 512 m (bit_and (m.entries pd i) pte_addr_mask) 0 in
        rw (q, l)
          (SameTables-trans m m' (make_cow_pd n m' pd (i + 1))
            (make_cow_pt-same 512 m (bit_and (m.entries pd i) pte_addr_mask) 0)
            (make_cow_pd-same n m' pd (i + 1)))
  ]
]

make_cow_pdpt-same : (n : ℕ) (m : Memory) (t i : ℕ) → SameTables m (make_cow_pdpt n m t i)
unfolding make_cow_pdpt is_present
make_cow_pdpt-same zero m t i = SameTables-refl m
make_cow_pdpt-same (suc n) m t i = elim (Bool-cases (is_set (m.entries t i) 1)) [
  | inr q ↦ rw q (make_cow_pdpt-same n m t (i + 1))
  | inl q ↦
      let m' = make_cow_pd 512 m (bit_and (m.entries t i) pte_addr_mask) 0 in
      rw q (
        SameTables-trans m m' (make_cow_pdpt n m' t (i + 1))
          (make_cow_pd-same 512 m (bit_and (m.entries t i) pte_addr_mask) 0)
          (make_cow_pdpt-same n m' t (i + 1)))
]

pub make_cow_pml4-same : (n : ℕ) (m : Memory) (t i : ℕ) → SameTables m (make_cow_pml4 n m t i)
unfolding make_cow_pml4 is_present
make_cow_pml4-same zero m t i = SameTables-refl m
make_cow_pml4-same (suc n) m t i = elim (Bool-cases (is_set (m.entries t i) 1)) [
  | inr q ↦ rw q (make_cow_pml4-same n m t (i + 1))
  | inl q ↦
      let m' = make_cow_pdpt 512 m (bit_and (m.entries t i) pte_addr_mask) 0 in
      rw q (
        SameTables-trans m m' (make_cow_pml4 n m' t (i + 1))
          (make_cow_pdpt-same 512 m (bit_and (m.entries t i) pte_addr_mask) 0)
          (make_cow_pml4-same n m' t (i + 1)))
]
