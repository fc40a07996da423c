-- ===== src/Heap/Cache.antt =====
-- What `alloc` of a slab cache of src/mm/heap.rs gives out, and what it keeps of the slabs.
use sar_osx.Base.{
  All, ℕ, suc, ◌+◌, ◌<◌, ◌≤◌, ◌≡◌, refl, sym, ap, ◌⊎◌, inl, inr, Option, none, some, List, [], ◌∷◌,
  arith, Bool-cases, length, get_elem?, ◌==◌, if◌then◌else◌,
}
use mathlib.Core.Path.{subst}
use sar_osx.Base.Bytes.{nil_of_length}
use sar_osx.Pmm.{BuddyAllocator, align_up}
use sar_osx.Pmm
use sar_osx.Heap.{
  Slab, SlabCache, slab_header, slab_sizes, capacity_of, slab_at, slab_of, new_slab, slab_alloc,
  take_object, is_full, place, taken_from, grow, alloc_from, cache_alloc,
}
use sar_osx.Heap.Objects.{
  FitsPage, size-FitsPage, IsObject, IsObject-in_page, Distinct, length-objects, all-IsObject,
  objects-Distinct,
}

-- A slab counts its objects, and its free ones are objects of its page, no two the same.
pub record IsSlab (size : ℕ) (s : Slab) : Type 0 where
  pub size_is : s.obj_size ≡ size
  pub capacity_is : s.capacity ≡ capacity_of size
  pub counts : s.used + length s.free ≡ s.capacity
  pub inside : All (IsObject size s.base) s.free
  pub apart : Distinct s.free

-- A slab is listed as partial exactly when an object is free.
abbrev pub IsPartial : (size : ℕ) → Slab → Type 0
IsPartial size s = IsSlab size s × (0 < length s.free)

abbrev pub IsFull : (size : ℕ) → Slab → Type 0
IsFull size s = IsSlab size s × (s.free ≡ [])

pub record IsValid (size : ℕ) (c : SlabCache) : Type 0 where
  pub size_is : c.obj_size ≡ size
  pub partial : All (IsPartial size) c.partial
  pub full : All (IsFull size) c.full

-- How many objects are given out.
unfoldable pub used_in : List Slab → ℕ
used_in [] = 0
used_in (s ∷ rest) = s.used + used_in rest

abbrev pub in_use : SlabCache → ℕ
in_use c = used_in c.partial + used_in c.full

-- How often an address stands in free lists.
abbrev pub is_it : (x y : ℕ) → ℕ
is_it x y = if x == y then 1 else 0

unfoldable pub times : (x : ℕ) → List ℕ → ℕ
times x [] = 0
times x (y ∷ l) = is_it x y + times x l

unfoldable pub times_free : (x : ℕ) → List Slab → ℕ
times_free x [] = 0
times_free x (s ∷ rest) = times x s.free + times_free x rest

-- What it means that a call gave an object out of the first of the slabs `start`, with `before` objects
-- in use: the object lies in the page of that slab behind the header, at a place of an object; of the
-- free lists it alone is gone, once; and the cache is valid with one more in use.
pub record Gives (size before : ℕ) (start : List Slab) (r : Option ℕ × SlabCache) : Type 0 where
  pub ptr : ℕ
  pub slab : Slab
  pub rest : List Slab
  pub answer : r.0 ≡ some ptr
  pub source : start ≡ slab ∷ rest
  pub object : IsObject size slab.base ptr
  pub in_page : (slab.base + 48 ≤ ptr) × (ptr + size ≤ slab.base + 4096)
  pub taken : (x : ℕ) → times_free x r.1.partial + is_it x ptr ≡ times_free x start
  pub valid : IsValid size r.1
  pub more : in_use r.1 ≡ suc before

place-IsValid :
    (size : ℕ) (c : SlabCache) (s : Slab) (rest : List Slab)
    → c.obj_size ≡ size
    → IsSlab size s
    → All (IsPartial size) rest
    → All (IsFull size) c.full
    → IsValid size (place c s rest)
      × (in_use (place c s rest) ≡ s.used + used_in rest + used_in c.full)
      × ((x : ℕ) → times_free x (place c s rest).partial ≡ times x s.free + times_free x rest)
unfolding used_in times times_free
place-IsValid size c s rest same v p f = elim (Bool-cases (is_full s)) [
  | inl e ↦
      let empty : s.free ≡ [] = nil_of_length s.free (let n = v.counts in ground arith) in
      rw e (
        record { size_is = same; partial = p; full = ((v, empty), f) },
        omega arith,
        λ x. rw empty (omega arith),
      )
  | inr e ↦
      let more : 0 < length s.free = (let n = v.counts in ground arith) in
      rw e (record { size_is = same; partial = ((v, more), p); full = f }, omega arith, λ x. refl)
]

taken-Gives :
    (size : ℕ) (c : SlabCache) (s : Slab) (rest : List Slab) (free : List ℕ)
    → FitsPage size
    → free ≡ s.free
    → c.obj_size ≡ size
    → IsPartial size s
    → All (IsPartial size) rest
    → All (IsFull size) c.full
    → Gives size
        (s.used + used_in rest + used_in c.full)
        (s ∷ rest)
        (taken_from c rest (take_object s free))
unfolding times times_free
taken-Gives size c s rest [] fits e same (v, more) p f =
    absurd (omega (arith, more, ap (λ (l : List ℕ). length l) e))
taken-Gives size c s rest (ptr ∷ free) fits e same (v, more) p f =
    let s' : Slab = record s { free = free; used = s.used + 1 } in
    let inside : All (IsObject size s.base) (ptr ∷ free) =
      subst (All (IsObject size s.base)) (sym e) v.inside in
    let apart : Distinct (ptr ∷ free) = subst Distinct (sym e) v.apart in
    let left : IsSlab size s' = record {
      size_is = v.size_is;
      capacity_is = v.capacity_is;
      counts = omega (arith, v.counts, ap (λ (l : List ℕ). length l) e);
      inside = inside.1;
      apart = apart.1;
    } in
    let (valid, uses, frees) = place-IsValid size c s' rest same left p f in
    record {
      ptr = ptr;
      slab = s;
      rest = rest;
      answer = refl;
      source = refl;
      object = inside.0;
      in_page = IsObject-in_page size s.base ptr fits inside.0;
      taken = λ x. omega (arith, frees x, ap (λ (l : List ℕ). times x l) e);
      valid = valid;
      more = omega (arith, uses);
    }

slab_at-IsPartial : (size base : ℕ) → FitsPage size → IsPartial size (slab_at base size)
slab_at-IsPartial size base fits =
    let start = base + align_up slab_header size in
    let count = length-objects (capacity_of size) start size in
    (
      record {
        size_is = refl;
        capacity_is = refl;
        counts = omega (arith, count);
        inside = all-IsObject size base;
        apart = objects-Distinct (capacity_of size) start size fits.positive;
      },
      omega (arith, count, fits.some_object),
    )

-- What `alloc` does when it needs a new slab: it gives an object of a page that the allocator of
-- frames gave, or nothing because that gave none.
abbrev pub Grown : (size : ℕ) → SlabCache → (phys : Option ℕ) → Option ℕ × SlabCache → Type 0
Grown size c none r = r ≡ (none, c)
Grown size c (some phys) r = Gives size (in_use c) (slab_at phys size ∷ []) r

grow-Grown :
    (c : SlabCache) (q : Option ℕ × BuddyAllocator)
    → FitsPage c.obj_size
    → IsValid c.obj_size c
    → c.partial ≡ []
    → Grown c.obj_size c q.0 (grow c (slab_of c.obj_size q)).0
unfolding slab_alloc used_in
grow-Grown c (none, pmm) fits v e = refl
grow-Grown c (some phys, pmm) fits v e =
    let s = slab_at phys c.obj_size in
    rw e (
      taken-Gives c.obj_size (record c { partial = s ∷ [] }) s [] s.free fits refl refl
        (slab_at-IsPartial c.obj_size phys fits) tt v.full)

alloc_from-Gives :
    (c : SlabCache) (l : List Slab) (pmm : BuddyAllocator)
    → FitsPage c.obj_size
    → l ≡ c.partial
    → IsValid c.obj_size c
    → ((l ≡ []) × Grown c.obj_size c (Pmm.alloc pmm 0).0 (alloc_from c l pmm).0)
      ⊎ Gives c.obj_size (in_use c) l (alloc_from c l pmm).0
unfolding new_slab slab_alloc used_in
alloc_from-Gives c [] pmm fits e v = inl (refl, grow-Grown c (Pmm.alloc pmm 0) fits v (sym e))
alloc_from-Gives c (s ∷ rest) pmm fits e v =
    let p : All (IsPartial c.obj_size) (s ∷ rest) =
      subst (All (IsPartial c.obj_size)) (sym e) v.partial in
    let g = taken-Gives c.obj_size c s rest s.free fits refl refl p.0 p.1 v.full in
    let same : s.used + used_in rest + used_in c.full ≡ in_use c =
      omega (arith, ap (λ (x : List Slab). used_in x) e) in
    inr
      (subst (λ n. Gives c.obj_size n (s ∷ rest) (taken_from c rest (take_object s s.free))) same g)

-- `alloc` of a valid cache of one of the sizes of the kernel. If a slab has a free object, it gives an
-- object out of the first such slab. If none has, it gives an object of a new slab in a frame, or, when
-- no frame is left, nothing, with the cache as it was. An object that is given lies in the page of its
-- slab behind the header, at a place of an object; of the free lists it alone is gone, once; the cache
-- stays valid and has one object more in use.
pub cache_alloc_lem :
    (c : SlabCache) (pmm : BuddyAllocator) (i : ℕ)
    → get_elem? slab_sizes i ≡ some c.obj_size
    → IsValid c.obj_size c
    → ((c.partial ≡ []) × Grown c.obj_size c (Pmm.alloc pmm 0).0 (cache_alloc c pmm).0)
      ⊎ Gives c.obj_size (in_use c) c.partial (cache_alloc c pmm).0
unfolding cache_alloc
cache_alloc_lem c pmm i e v = alloc_from-Gives c c.partial pmm (size-FitsPage i c.obj_size e) refl v
