-- ===== src/Pmm/Free.antt =====
-- `free` of src/mm/pmm.rs: a block that comes back is joined with its free buddies.
use sar_osx.Base.{
  ℕ, zero, suc, ◌+◌, ◌-◌, ◌*◌, ◌/◌, ◌^◌, ◌≤◌, min, bit_xor, ◌≡◌, refl, sym, ap, inl, inr, false,
  some, arith, ltb, Bool-cases,
}
use sar_osx.Pmm.Alloc.{alloc-some}
use sar_osx.Pmm.{alloc, block_size, remove, BuddyAllocator, set_list, push_at, Merged, merge, free}
use sar_osx.Pmm.Mass.{
  Fits, block_size-suc, buddy_lem, mass, mass_orders-set_list, mass-push_at, mass-remove,
}
use sar_osx.Pmm.Valid.{
  ListIsValid, IsValid, pages, inside, covered, Halves, pages-Halves, inside-Halves, set_list-all,
  push_at-lists, remove-found,
}

abbrev buddy : ℕ → ℕ → ℕ
buddy o p = bit_xor p (block_size o)

-- The smaller of two buddies is the block twice as large.
record Join (o p : ℕ) : Type 0 where
  fits : Fits (suc o) (min p (buddy o p))
  shared : (w : ℕ → ℕ → ℕ) → Halves w → w (suc o) (min p (buddy o p)) ≡ w o p + w o (buddy o p)

Join-lower :
    (o p b : ℕ) (q : ℕ)
    → p ≡ q * block_size o
    → q ≡ q / 2 * 2
    → p + block_size o ≡ b
    → b + block_size o ≤ 2 ^ 64
    → Fits (suc o) p
Join-lower o p b q e even next below = record {
  index = q / 2;
  aligned =
      omega (
        arith,
        ap (λ (t : ℕ). q / 2 * t) (block_size-suc o),
        ap (λ (t : ℕ). t * block_size o) even,
      );
  below = omega (arith, block_size-suc o);
}

Join-buddies : (o p : ℕ) → Fits o p → Fits o (buddy o p) → Join o p
Join-buddies o p h k = elim (buddy_lem o h.index) [
  | inl (e, even) ↦
      let up : buddy o p ≡ p + block_size o = rw (← h.aligned) at e in
      let least : min p (buddy o p) ≡ p = omega arith in
      record {
        fits = rw least (Join-lower o p (buddy o p) h.index h.aligned even (sym up) k.below);
        shared = λ w half. rw least (omega (arith, half o p, ap (λ (t : ℕ). w o t) up));
      }
  | inr (e, odd) ↦
      let down : buddy o p + block_size o ≡ p = rw (← h.aligned) at e in
      let least : min p (buddy o p) ≡ buddy o p = omega arith in
      record {
        fits = rw least (record {
          index = h.index / 2;
          aligned = omega (
            arith,
            h.aligned,
            ap (λ (t : ℕ). h.index / 2 * t) (block_size-suc o),
            ap (λ (t : ℕ). t * block_size o) odd,
          );
          below = omega (arith, block_size-suc o, h.below);
        });
        shared = λ w half. rw least (omega (arith, half o (buddy o p), ap (λ (t : ℕ). w o t) down));
      }
]

-- Where the loop stops: the block there and the lists that are left hold what was there at the start.
record Stops (b : BuddyAllocator) (p order : ℕ) (m : Merged) : Type 0 where
  lists : (o : ℕ) → ListIsValid o (m.state.lists o)
  fits : Fits m.order m.phys
  range : m.order ≤ 12
  same : m.state.free_pages ≡ b.free_pages
  shared : (w : ℕ → ℕ → ℕ) → Halves w → mass w m.state + w m.order m.phys ≡ mass w b + w order p

merge-Stops :
    (n : ℕ) (b : BuddyAllocator) (p order : ℕ)
    → order + n ≡ 12
    → ((o : ℕ) → ListIsValid o (b.lists o))
    → Fits order p
    → Stops b p order (merge n b p order)
unfolding merge
merge-Stops zero b p order e v h = record {
  lists = v;
  fits = h;
  range = omega arith;
  same = refl;
  shared = λ w half. refl;
}
merge-Stops (suc n) b p order e v h = elim (Bool-cases (remove (b.lists order) (buddy order p)).0) [
  | inl f ↦
      let r = remove-found order (buddy order p) (b.lists order) f (v order) in
      let j = Join-buddies order p h r.0 in
      let left = (remove (b.lists order) (buddy order p)).1 in
      let b' : BuddyAllocator = record b { lists = set_list b.lists order left } in
      let e1 : order + 1 ≡ suc order = omega arith in
      let ih =
        merge-Stops n b' (min p (buddy order p)) (order + 1) (omega arith)
          (set_list-all ListIsValid b.lists order left r.1 v) (rw e1 j.fits) in
      rw f (record {
        lists = ih.lists;
        fits = ih.fits;
        range = ih.range;
        same = ih.same;
        shared = λ w half. omega (
          arith,
          ih.shared w half,
          ap (λ (t : ℕ). w t (min p (buddy order p))) e1,
          j.shared w half,
          mass_orders-set_list w 13 b.lists order left (omega arith),
          mass-remove w (b.lists order) order (buddy order p) f,
        );
      })
  | inr f ↦
      rw f
        (record { lists = v; fits = h; range = omega arith; same = refl; shared = λ w half. refl })
]

-- In a valid allocator, `free` of an aligned block in range, of an order up to 12, succeeds and
-- keeps the allocator valid; every byte is covered as often as before, and once more if it lies in
-- the block; the counter rises by the pages of the block.
pub free_lem :
    (b : BuddyAllocator) (p order : ℕ)
    → IsValid b
    → order ≤ 12
    → Fits order p
    → (b' : BuddyAllocator) × (free b p order ≡ some b')
      × IsValid b'
      × ((f : ℕ) → covered f b' ≡ covered f b + inside f order p)
      × (b'.free_pages ≡ b.free_pages + 2 ^ order)
unfolding free
free_lem b p order v le h =
    let m = merge (12 - order) b p order in
    let s = merge-Stops (12 - order) b p order (omega arith) v.lists h in
    let b' : BuddyAllocator = push_at m.state m.order m.phys in
    let total : (w : ℕ → ℕ → ℕ) → Halves w → mass w b' ≡ mass w b + w order p = λ w half.
      omega
        (arith, mass-push_at w m.state m.order m.phys (omega (arith, s.range)), s.shared w half) in
    let small : ltb 12 order ≡ false = ground arith in
    (
      record b' { free_pages = b'.free_pages + 2 ^ order },
      rw small,
      record {
        lists = push_at-lists m.state m.order m.phys s.fits s.lists;
        counted = omega (arith, total pages pages-Halves, s.same, v.counted);
      },
      λ f. total (inside f) (inside-Halves f),
      omega (arith, s.same),
    )

-- In a valid allocator, a block of an order up to 12 that is given and comes back at once leaves
-- every byte covered as before, and the counter of free pages.
pub free-alloc :
    (b : BuddyAllocator) (order p : ℕ) (b' : BuddyAllocator)
    → IsValid b
    → order ≤ 12
    → alloc b order ≡ (some p, b')
    → (b'' : BuddyAllocator) × (free b' p order ≡ some b'')
      × ((f : ℕ) → covered f b'' ≡ covered f b)
      × (b''.free_pages ≡ b.free_pages)
free-alloc b order p b' v le e =
    let a = alloc-some b order p b' v e in
    let (b'', done, valid, more, count) = free_lem b' p order a.1 le a.0 in
    (b'', done, λ f. omega (arith, a.2 f, more f), omega (arith, a.3, count))
