-- ===== src/Heap/Tests.antt =====
-- Runs of a slab cache, and an instance of its theorem.
use sar_osx.Base.{◌≡◌, refl, ◌⊎◌, some, [], ◌∷◌, arith}
use sar_osx.Pmm.{align_up}
use sar_osx.Pmm
use sar_osx.Heap.{SlabCache, Slab, slab_alloc, cache_alloc}
use sar_osx.Heap.Cache.{IsSlab, IsValid, Gives, Grown, in_use, cache_alloc_lem}

-- A slab of two objects of 1024 bytes behind the header, the first of them given out.
abbrev slab : Slab
slab = record {
  base = 0x1000;
  obj_size = 1024;
  free = 0x1800 ∷ 0x1C00 ∷ [];
  used = 1;
  capacity = 3;
}

abbrev cache : SlabCache
cache = record { obj_size = 1024; partial = slab ∷ []; full = [] }

cache_alloc-run :
    (cache_alloc cache Pmm.new).0
    ≡ (some 0x1800, record cache { partial = record slab { free = 0x1C00 ∷ []; used = 2 } ∷ [] })
unfolding cache_alloc slab_alloc
cache_alloc-run = refl

slab-IsSlab : IsSlab 1024 slab
unfolding align_up
slab-IsSlab = record {
  size_is = refl;
  capacity_is = refl;
  counts = refl;
  inside = (
    record { index = 1; below = omega arith; stands = refl },
    (record { index = 2; below = omega arith; stands = refl }, tt),
  );
  apart = (((λ e. absurd (omega (arith, e))), tt), (tt, tt));
}

cache-IsValid : IsValid 1024 cache
cache-IsValid = record { size_is = refl; partial = ((slab-IsSlab, omega arith), tt); full = tt }

cache_alloc_lem_example :
    ((slab ∷ [] ≡ []) × Grown 1024 cache (Pmm.alloc Pmm.new 0).0 (cache_alloc cache Pmm.new).0)
    ⊎ Gives 1024 (in_use cache) (slab ∷ []) (cache_alloc cache Pmm.new).0
cache_alloc_lem_example = cache_alloc_lem cache Pmm.new 7 refl cache-IsValid
