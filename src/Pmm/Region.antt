-- ===== src/Pmm/Region.antt =====
-- `add_region` of src/mm/pmm.rs: a region of memory is cut into blocks.
use sar_osx.Base.{
  add64, ℕ, zero, suc, ◌+◌, ◌-◌, ◌*◌, ◌/◌, ◌%◌, ◌^◌, ◌≤◌, ◌<◌, ◌≡◌, refl, ap, ◌∙◌, inl, inr, not,
  ◌&&◌, ◌||◌, arith, ltb, leb, ◌==◌, if◌then◌else◌, Bool-cases,
}
use native.Mathlib.Nat.{pow-suc, one-le-pow, pow-le-pow_right}
use sar_osx.Base.Bits.{bit_and_high}
use sar_osx.Pmm.{
  block_size, BuddyAllocator, align_up, align_down, fit_order, add_block, add_blocks, add_region,
}
use sar_osx.Pmm.Mass.{Fits, block_size-pos, mass, mass-push_at}
use sar_osx.Pmm.Valid.{
  ListIsValid, IsValid, pages, inside, covered, Halves, pages-Halves, inside-Halves, push_at-lists,
}

-- Rounding to pages by masks is rounding by division.
pub align_down_lem : (v : ℕ) → v < 2 ^ 64 → align_down v 4096 ≡ v / 4096 * 4096
unfolding align_down
align_down_lem v h = omega (arith, bit_and_high 52 12 v)

pub align_up_lem : (v : ℕ) → v + 4095 < 2 ^ 64 → align_up v 4096 ≡ (v + 4095) / 4096 * 4096
unfolding align_up
align_up_lem v h =
    let fits : (v + 4095) % 2 ^ 64 ≡ v + 4095 = omega arith in
    rw fits (omega (arith, bit_and_high 52 12 (v + 4095)))

-- The weight of `n` pages from an address on.
abbrev pub span : (ℕ → ℕ → ℕ) → ℕ → ℕ → ℕ
span w a zero = 0
span w a (suc n) = w 0 a + span w (a + 4096) n

span-append : (w : ℕ → ℕ → ℕ) (m n a : ℕ) → span w a (m + n) ≡ span w a m + span w (a + m * 4096) n
span-append w zero n a =
    let e : 0 + n ≡ n = omega arith in
    let f : a + 0 * 4096 ≡ a = omega arith in rw (e, f) (omega arith)
span-append w (suc m) n a =
    let e : suc m + n ≡ suc (m + n) = omega arith in
    let f : a + suc m * 4096 ≡ a + 4096 + m * 4096 = omega arith in
    rw (e, f) (omega (arith, span-append w m n (a + 4096)))

block-span : (w : ℕ → ℕ → ℕ) (half : Halves w) (o a : ℕ) → w o a ≡ span w a (2 ^ o)
block-span w half zero a = omega arith
block-span w half (suc o) a =
    let e : 2 ^ suc o ≡ 2 ^ o + 2 ^ o = omega (arith, pow-suc 2 o) in
    let f : a + 2 ^ o * 4096 ≡ a + block_size o = omega arith in
    rw (e, span-append w (2 ^ o) (2 ^ o) a, f)
      (omega (arith, half o a, block-span w half o a, block-span w half o (a + block_size o)))

span-pages : (n a : ℕ) → span pages a n ≡ n
span-pages zero a = refl
span-pages (suc n) a = omega (arith, span-pages n (a + 4096))

span-inside : (f n a : ℕ) → span (inside f) a n ≡ (if leb a f && ltb f (a + n * 4096) then 1 else 0)
span-inside f zero a = ground arith
span-inside f (suc n) a = ground (arith, span-inside f n (a + 4096))

block_size-le : (o : ℕ) → o ≤ 12 → block_size o ≤ 2 ^ 24
block_size-le o h = omega (arith, pow-le-pow_right {n = 2} (omega arith) h)

-- The inner loop finds a block that fits into the rest of the region.
fit_order_lem :
    (order addr end i : ℕ)
    → order ≤ 12
    → addr ≡ i * 4096
    → addr + 4096 ≤ end
    → end + 2 ^ 24 < 2 ^ 64
    → Fits (fit_order order addr end) addr
      × (addr + block_size (fit_order order addr end) ≤ end)
      × (fit_order order addr end ≤ 12)
unfolding fit_order
fit_order_lem zero addr end i le e room top =
    (record { index = i; aligned = omega arith; below = omega arith }, omega arith, omega arith)
fit_order_lem (suc order) addr end i le e room top =
    elim (Bool-cases
      (not (addr % block_size (suc order) == 0) || ltb end (add64 addr (block_size (suc order))))) [
        | inl t ↦ rw t (fit_order_lem order addr end i (omega arith) e room top)
        | inr t ↦
            let small = block_size-le (suc order) le in
            let whole : addr % block_size (suc order) ≡ 0 = ground arith in
            let inner : addr + block_size (suc order) ≤ end = ground arith in
            rw t (
              record {
                index = addr / block_size (suc order);
                aligned = grind arith;
                below = omega (arith, top);
              },
              inner,
              le,
            )
      ]

-- The state after a loop that put `n` pages from `addr` on into the lists.
record Added (b : BuddyAllocator) (addr n : ℕ) (b' : BuddyAllocator) : Type 0 where
  lists : (o : ℕ) → ListIsValid o (b'.lists o)
  shared : (w : ℕ → ℕ → ℕ) → Halves w → mass w b' ≡ mass w b + span w addr n
  free : b'.free_pages ≡ b.free_pages + n
  total : b'.total_pages ≡ b.total_pages + n

add_blocks-Added :
    (fuel : ℕ) (b : BuddyAllocator) (addr end i n : ℕ)
    → addr ≡ i * 4096
    → end ≡ addr + n * 4096
    → n ≤ fuel
    → end + 2 ^ 24 < 2 ^ 64
    → ((o : ℕ) → ListIsValid o (b.lists o))
    → Added b addr n (add_blocks fuel b addr end)
unfolding add_blocks add_block
add_blocks-Added zero b addr end i n e e' le top v =
    let none_left : n ≡ 0 = omega arith in
    rw none_left (record {
      lists = v;
      shared = λ w half. omega arith;
      free = omega arith;
      total = omega arith;
    })
add_blocks-Added (suc fuel) b addr end i n e e' le top v = elim (Bool-cases (ltb addr end)) [
  | inr t ↦
      let none_left : n ≡ 0 = ground arith in
      rw (none_left, t)
        (record {
          lists = v;
          shared = λ w half. omega arith;
          free = omega arith;
          total = omega arith;
        })
  | inl t ↦
      let o = fit_order 12 addr end in
      let fit = fit_order_lem 12 addr end i (omega arith) e (ground arith) top in
      let pos = block_size-pos o in
      let pages_of : ℕ = 2 ^ o in
      let next : add64 addr (block_size o) ≡ addr + block_size o = omega (arith, fit.1) in
      let ih =
        add_blocks-Added fuel (add_block b addr o) (addr + block_size o) end (i + 2 ^ o) (n - 2 ^ o)
          (omega (arith, e)) (omega (arith, fit.1)) (omega (arith, one-le-pow o 2 (omega arith)))
          top (push_at-lists b o addr fit.0 v) in
      let split : n ≡ 2 ^ o + (n - 2 ^ o) = omega (arith, fit.1) in
      let step : addr + 2 ^ o * 4096 ≡ addr + block_size o = omega arith in
      rw (t, next)
        (record {
          lists = ih.lists;
          shared = λ w half. omega (
            arith,
            ih.shared w half,
            mass-push_at w b o addr (omega (arith, fit.2)),
            block-span w half o addr,
            span-append w (2 ^ o) (n - 2 ^ o) addr,
            ap (λ (k : ℕ). span w addr k) split,
            ap (λ (k : ℕ). span w k (n - 2 ^ o)) step,
          );
          free = omega (arith, ih.free, split);
          total = omega (arith, ih.total, split);
        })
]

module _ (b : BuddyAllocator) (base size : ℕ) (top : base + size + 2 ^ 25 < 2 ^ 64) where
  region_start : align_up base 4096 ≡ (base + 4095) / 4096 * 4096
  region_start = align_up_lem base (omega arith)

  region_stop : align_down (add64 base size) 4096 ≡ (base + size) / 4096 * 4096
  region_stop =
      let fits : add64 base size ≡ base + size = omega arith in
      rw fits (align_down_lem (base + size) (omega arith))

  add_region-Added :
      ((o : ℕ) → ListIsValid o (b.lists o))
      → (base + 4095) / 4096 ≤ (base + size) / 4096
      → Added b
          ((base + 4095) / 4096 * 4096)
          ((base + size) / 4096 - (base + 4095) / 4096)
          (add_region b base size)
  unfolding add_region
  add_region-Added v le =
      rw (region_start, region_stop)
        (add_blocks-Added (((base + size) / 4096 * 4096 - (base + 4095) / 4096 * 4096) / 4096) b
          ((base + 4095) / 4096 * 4096) ((base + size) / 4096 * 4096) ((base + 4095) / 4096)
          ((base + size) / 4096 - (base + 4095) / 4096) refl (omega arith) (omega arith)
          (omega arith) v)

  add_region-small : (base + size) / 4096 < (base + 4095) / 4096 → add_region b base size ≡ b
  unfolding add_region add_blocks
  add_region-small lt =
      let none_left : ((base + size) / 4096 * 4096 - (base + 4095) / 4096 * 4096) / 4096 ≡ 0 =
        omega arith in
      rw (region_start, region_stop, none_left)

-- In a valid allocator, a region that ends more than 2 ^ 25 below 2 ^ 64 adds the whole pages
-- inside it to the free memory, each byte once, and nothing else; both page counters rise by the
-- number of those pages, and the allocator stays valid.
pub add_region_lem :
    (b : BuddyAllocator) (base size : ℕ)
    → IsValid b
    → base + size + 2 ^ 25 < 2 ^ 64
    → let start = (base + 4095) / 4096 in
      let stop = (base + size) / 4096 in
      IsValid (add_region b base size)
      × ((f : ℕ)
          → covered f (add_region b base size)
            ≡ covered f b + (if leb (start * 4096) f && ltb f (stop * 4096) then 1 else 0))
      × ((add_region b base size).free_pages ≡ b.free_pages + (stop - start))
      × ((add_region b base size).total_pages ≡ b.total_pages + (stop - start))
add_region_lem b base size v top =
    elim (Bool-cases (leb ((base + 4095) / 4096) ((base + size) / 4096))) [
      | inl t ↦
          let le : (base + 4095) / 4096 ≤ (base + size) / 4096 = ground arith in
          let a = add_region-Added b base size top v.lists le in
          let n = (base + size) / 4096 - (base + 4095) / 4096 in
          let end : (base + 4095) / 4096 * 4096 + n * 4096 ≡ (base + size) / 4096 * 4096 =
            omega arith in
          (
            record {
              lists = a.lists;
              counted = omega (
                arith,
                a.shared pages pages-Halves,
                a.free,
                v.counted,
                span-pages n ((base + 4095) / 4096 * 4096),
              );
            },
            λ f.
                a.shared (inside f) (inside-Halves f)
                ∙ ap (λ (t : ℕ). covered f b + t)
                    (rw (← end) (span-inside f n ((base + 4095) / 4096 * 4096))),
            a.free,
            a.total,
          )
      | inr t ↦
          let lt : (base + size) / 4096 < (base + 4095) / 4096 = ground arith in
          rw (add_region-small b base size top lt) (v, λ f. ground arith, omega arith, omega arith)
    ]
