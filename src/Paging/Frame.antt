-- ===== src/Paging/Frame.antt =====
-- A frame that the physical memory manager gives: it is no table of src/mm/vmm.rs, and what is left
-- free still meets no table.
use sar_osx.Base.{
  ℕ, ◌+◌, ◌*◌, ◌/◌, ◌^◌, ◌≤◌, ◌<◌, ◌≡◌, inl, inr, false, Option, some, arith, ◌==◌, ==_iff,
  Bool-cases,
}
use sar_osx.Pmm.{BuddyAllocator, alloc}
use sar_osx.Pmm.Alloc.{alloc-some}
use sar_osx.Pmm.Mass.{Fits}
use sar_osx.Pmm.Valid.{IsValid, covered, inside}
use sar_osx.Paging.{Memory}
use sar_osx.Paging.Tree.{Place, IsTree}

module _ (k : ℕ) (pl : ℕ → Option Place) (m : Memory) (p : ℕ) (b' : BuddyAllocator)
    (h : IsTree k pl m) (given : alloc m.pmm 0 ≡ (some p, b')) where
  given_lem : Fits 0 p × IsValid b' × ((f : ℕ) → covered f b' + inside f 0 p ≡ covered f m.pmm)
  given_lem = let a = alloc-some m.pmm 0 p b' h.valid given in (a.0, a.1, a.2)

  inside_self : inside p 0 p ≡ 1
  inside_self = ground arith

  pub given_frame : (p ≡ p / 2 ^ 12 * 2 ^ 12) × (p < 2 ^ 52)
  given_frame =
      let some_free : 1 ≤ covered p m.pmm = omega (arith, given_lem.2 p, inside_self) in
      (omega (arith, given_lem.0.aligned), h.low p some_free)

  pub given_fresh : (x : ℕ) (u : Place) → pl x ≡ some u → (p == x) ≡ false
  given_fresh x u e = elim (Bool-cases (p == x)) [
    | inr s ↦ s
    | inl s ↦
        let same : p ≡ x = (==_iff p x).0 s in
        let here : inside p 0 x ≡ 1 = rw (← same) inside_self in
        absurd (omega (arith, given_lem.2 p, inside_self, h.apart x u e p, here))
  ]

  pub given-IsValid : IsValid b'
  given-IsValid = given_lem.1

  pub given_once : (f : ℕ) → covered f b' ≤ 1
  given_once f = omega (arith, given_lem.2 f, h.once f)

  pub given_low : (f : ℕ) → 1 ≤ covered f b' → f < 2 ^ 52
  given_low f one = h.low f (omega (arith, given_lem.2 f))

  pub given_apart_self : (f : ℕ) → covered f b' + inside f 0 p ≤ 1
  given_apart_self f = omega (arith, given_lem.2 f, h.once f)

  pub given_apart : (x : ℕ) (u : Place) → pl x ≡ some u → (f : ℕ) → covered f b' + inside f 0 x ≤ 1
  given_apart x u e f = omega (arith, given_lem.2 f, h.apart x u e f)

  pub given_free : 1 ≤ covered p m.pmm
  given_free = omega (arith, given_lem.2 p, inside_self)
