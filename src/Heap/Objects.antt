-- ===== src/Heap/Objects.antt =====
-- Where the objects of a slab of src/mm/heap.rs lie: in its page behind the header, apart from each
-- other.
use sar_osx.Base.{
  All, All-map, ℕ, zero, suc, ◌+◌, ◌*◌, ◌≤◌, ◌<◌, ◌≡◌, refl, ap, ◌≢◌, some, List, [], ◌∷◌, arith,
  length, get_elem?,
}
use mathlib.Core.Path.{subst}
use native.Mathlib.Nat.{mul-le-mul_right}
use sar_osx.Pmm.{align_up}
use sar_osx.Heap.{slab_header, slab_sizes, capacity_of, objects}

-- The header, rounded up, and the objects behind it fit into a page.
pub record FitsPage (size : ℕ) : Type 0 where
  pub header : 48 ≤ align_up slab_header size
  pub room : align_up slab_header size + capacity_of size * size ≤ 4096
  pub some_object : 0 < capacity_of size
  pub positive : 0 < size

-- The sizes of the caches of the kernel do.
sizes-FitsPage : All FitsPage slab_sizes
unfolding align_up
sizes-FitsPage = (
  record {
    header = omega arith;
    room = omega arith;
    some_object = omega arith;
    positive = omega arith;
  },
  (
    record {
      header = omega arith;
      room = omega arith;
      some_object = omega arith;
      positive = omega arith;
    },
    (
      record {
        header = omega arith;
        room = omega arith;
        some_object = omega arith;
        positive = omega arith;
      },
      (
        record {
          header = omega arith;
          room = omega arith;
          some_object = omega arith;
          positive = omega arith;
        },
        (
          record {
            header = omega arith;
            room = omega arith;
            some_object = omega arith;
            positive = omega arith;
          },
          (
            record {
              header = omega arith;
              room = omega arith;
              some_object = omega arith;
              positive = omega arith;
            },
            (
              record {
                header = omega arith;
                room = omega arith;
                some_object = omega arith;
                positive = omega arith;
              },
              (
                record {
                  header = omega arith;
                  room = omega arith;
                  some_object = omega arith;
                  positive = omega arith;
                },
                (
                  record {
                    header = omega arith;
                    room = omega arith;
                    some_object = omega arith;
                    positive = omega arith;
                  },
                  tt,
                ),
              ),
            ),
          ),
        ),
      ),
    ),
  ),
)

All-get_elem? : (P : ℕ → Type 0) (l : List ℕ) (i x : ℕ) → All P l → get_elem? l i ≡ some x → P x
All-get_elem? P [] i x all e = cc
All-get_elem? P (y ∷ l) zero x all e = let same : y ≡ x = cc in subst P same all.0
All-get_elem? P (y ∷ l) (suc i) x all e = All-get_elem? P l i x all.1 e

pub size-FitsPage : (i size : ℕ) → get_elem? slab_sizes i ≡ some size → FitsPage size
size-FitsPage i size e = All-get_elem? FitsPage slab_sizes i size sizes-FitsPage e

-- The address is that of an object of a slab at `base`.
pub record IsObject (size base ptr : ℕ) : Type 0 where
  pub index : ℕ
  pub below : index < capacity_of size
  pub stands : ptr ≡ base + align_up slab_header size + index * size

-- An object begins behind the header and ends in the page.
pub IsObject-in_page :
    (size base ptr : ℕ)
    → FitsPage size
    → IsObject size base ptr
    → (base + 48 ≤ ptr) × (ptr + size ≤ base + 4096)
IsObject-in_page size base ptr fits o = (
  omega (arith, o.stands, fits.header),
  omega (arith, o.stands, fits.room, mul-le-mul_right size o.below),
)

abbrev pub Distinct : List ℕ → Type 0
Distinct [] = Unit
Distinct (x ∷ xs) = All (λ y. x ≢ y) xs × Distinct xs

pub length-objects : (n start size : ℕ) → length (objects n start size) ≡ n
unfolding objects
length-objects zero start size = refl
length-objects (suc n) start size = ap suc (length-objects n (start + size) size)

objects-IsObject :
    (size base n i start : ℕ)
    → i + n ≤ capacity_of size
    → start ≡ base + align_up slab_header size + i * size
    → All (IsObject size base) (objects n start size)
unfolding objects
objects-IsObject size base zero i start le e = tt
objects-IsObject size base (suc n) i start le e = (
  record { index = i; below = omega arith; stands = e },
  objects-IsObject size base n (suc i) (start + size) (omega arith) (omega (arith, e)),
)

pub all-IsObject :
    (size base : ℕ)
    → All (IsObject size base) (objects (capacity_of size) (base + align_up slab_header size) size)
all-IsObject size base =
    objects-IsObject size base (capacity_of size) 0 (base + align_up slab_header size) (omega arith)
      (omega arith)

objects-above :
    (n start size least : ℕ) → least ≤ start → All (λ y. least ≤ y) (objects n start size)
unfolding objects
objects-above zero start size least le = tt
objects-above (suc n) start size least le =
    (le, objects-above n (start + size) size least (omega arith))

pub objects-Distinct : (n start size : ℕ) → 0 < size → Distinct (objects n start size)
unfolding objects
objects-Distinct zero start size pos = tt
objects-Distinct (suc n) start size pos = (
  All-map (λ y above same. absurd (omega (arith, above, same, pos))) (objects n (start + size) size)
      (objects-above n (start + size) size (start + size) (omega arith)),
  objects-Distinct n (start + size) size pos,
)
